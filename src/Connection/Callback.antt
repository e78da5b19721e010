-- ===== src/Connection/Callback.antt =====
-- The events about the callback of a client (`is_callback_alive` of
-- hahomematic/client/__init__.py).
use hahomematic.Base.{ℕ, ◌≡◌, Bool, true, false, not, ◌&&◌, Option, List, [], ◌∷◌, ◌++◌, arith}
use hahomematic.Connection.{Client, Event, fire_callback, same, is_callback_alive}

-- Calls one after the other, each with the time of the last event and the reading of the clock.
unfoldable pub callback_run : List (Option ℕ × ℕ) → Client → Client × List Event
callback_run [] c = (c, [])
callback_run ((last, now) ∷ rest) c =
    let (_, (c1, first)) = is_callback_alive last now c in
    let (c2, others) = callback_run rest c1 in (c2, first ++ others)

-- Whether the events are all about the callback and each differs from the one before, with the
-- state that the last one reports.
unfoldable pub alternates : Bool → List Event → Bool → Bool
alternates alive [] final = same alive final
alternates alive (fire_callback now_alive ∷ rest) final =
    not (same alive now_alive) && alternates now_alive rest final
alternates alive (_ ∷ rest) final = false

-- However often a client is asked whether its callback is alive, an event is fired exactly when the
-- answer changes: the events alternate, and the last one reports the state that the client keeps.
pub callback_run-alternates :
    (calls : List (Option ℕ × ℕ)) (c : Client)
    → let (c', events) = callback_run calls c in
      alternates c.callback_alive events c'.callback_alive ≡ true
unfolding callback_run alternates is_callback_alive
callback_run-alternates [] c = ground arith
callback_run-alternates ((last, now) ∷ rest) c =
    ground (arith, callback_run-alternates rest (is_callback_alive last now c).1.0)
