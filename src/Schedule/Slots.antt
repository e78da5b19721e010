-- ===== src/Schedule/Slots.antt =====
-- Dicts of slots with the numbers from 1 on, as hahomematic/model/custom/climate.py builds them.
use hahomematic.Base.{
  ℕ, zero, suc, ◌+◌, ◌≤◌, ◌≡◌, refl, sym, ap, ◌∙◌, true, false, ◌&&◌, nat_eq, some, List, [], ◌∷◌,
  ◌++◌, ltb, leb, length, arith,
}
use mathlib.Core.List.{append_assoc, append-nil}
use hahomematic.Base.Dict.{lookup, insert, has}
use hahomematic.Base.Text.{codes}
use hahomematic.Base.Double.{Double}
use hahomematic.Base.Value.{real, text}
use hahomematic.Schedule.{Slot, WeekdayData}
use hahomematic.Schedule.Weekday.{slot_of, fillup}

-- the slots of a list with the numbers from `n` on
abbrev pub numbered : ℕ → List Slot → WeekdayData
numbered n [] = []
numbered n (x ∷ xs) = (n, x) ∷ numbered (suc n) xs

abbrev pub filler : Double → Slot
filler base = slot_of (text (codes "24:00")) (real base)

abbrev pub fillers : Double → ℕ → List Slot
fillers base zero = []
fillers base (suc count) = filler base ∷ fillers base count

pub length-append {ℓ} : {A : Type ℓ} (xs ys : List A) → length (xs ++ ys) ≡ length xs + length ys
length-append [] ys = omega arith
length-append (x ∷ xs) ys = omega (arith, length-append xs ys)

pub length-fillers : (base : Double) (count : ℕ) → length (fillers base count) ≡ count
length-fillers base zero = refl
length-fillers base (suc count) = omega (arith, length-fillers base count)

pub length-numbered : (n : ℕ) (xs : List Slot) → length (numbered n xs) ≡ length xs
length-numbered n [] = refl
length-numbered n (x ∷ xs) = omega (arith, length-numbered (suc n) xs)

insert-numbered :
    (n m : ℕ) (x : Slot) (xs : List Slot)
    → m ≡ n + length xs
    → insert m x (numbered n xs) ≡ numbered n (xs ++ (x ∷ []))
unfolding insert
insert-numbered n m x [] e = ground (arith, e)
insert-numbered n m x (y ∷ xs) e = ground (arith, e, insert-numbered (suc n) m x xs)

-- The next number adds a slot at the end.
pub insert_next :
    (x : Slot) (xs : List Slot)
    → insert (length xs + 1) x (numbered 1 xs) ≡ numbered 1 (xs ++ (x ∷ []))
insert_next x xs = insert-numbered 1 (length xs + 1) x xs (omega arith)

has-numbered :
    (n m : ℕ) (xs : List Slot) → has m (numbered n xs) ≡ (leb n m && ltb m (n + length xs))
unfolding has
has-numbered n m [] = ground arith
has-numbered n m (x ∷ xs) = ground (arith, has-numbered (suc n) m xs)

-- the slot that follows the first `before` ones
pub lookup-numbered :
    (n m : ℕ) (before : List Slot) (x : Slot) (after : List Slot)
    → m ≡ n + length before
    → lookup m (numbered n (before ++ (x ∷ after))) ≡ some x
unfolding lookup
lookup-numbered n m [] x after e = ground (arith, e)
lookup-numbered n m (y ∷ before) x after e =
    ground (arith, e, lookup-numbered (suc n) m before x after)

fill_behind :
    (base : Double) (count n : ℕ) (xs : List Slot)
    → n ≡ length xs + 1
    → fillup base count n (numbered 1 xs) ≡ numbered 1 (xs ++ fillers base count)
unfolding fillup
fill_behind base zero n xs e = ap (numbered 1) (sym (append-nil xs))
fill_behind base (suc count) n xs e =
    let free : has n (numbered 1 xs) ≡ false = ground (arith, e, has-numbered 1 n xs) in
    let added : insert n (filler base) (numbered 1 xs) ≡ numbered 1 (xs ++ (filler base ∷ [])) =
      insert-numbered 1 n (filler base) xs (omega (arith, e)) in
    rw (free, added)
      (fill_behind base count (n + 1) (xs ++ (filler base ∷ []))
          (omega (arith, e, length-append {0} xs (filler base ∷ [])))
        ∙ ap (numbered 1) (append_assoc xs (filler base ∷ []) (fillers base count)))

fill_over :
    (base : Double) (count n : ℕ) (d : WeekdayData)
    → has n d ≡ true
    → fillup base (suc count) n d ≡ fillup base count (n + 1) d
unfolding fillup
fill_over base count n d there = rw there refl

fill_taken :
    (base : Double) (taken count n : ℕ) (xs : List Slot)
    → 1 ≤ n
    → n + taken ≡ length xs + 1
    → fillup base (taken + count) n (numbered 1 xs) ≡ numbered 1 (xs ++ fillers base count)
fill_taken base zero count n xs h e =
    let no_more : zero + count ≡ count = omega arith in
    ap (λ c. fillup base c n (numbered 1 xs)) no_more
    ∙ fill_behind base count n xs (omega (arith, e))
fill_taken base (suc taken) count n xs h e =
    let there : has n (numbered 1 xs) ≡ true = ground (arith, e, h, has-numbered 1 n xs) in
    let one_more : suc taken + count ≡ suc (taken + count) = omega arith in
    ap (λ c. fillup base c n (numbered 1 xs)) one_more
    ∙ fill_over base (taken + count) n (numbered 1 xs) there
    ∙ fill_taken base taken count (n + 1) xs (omega arith) (omega (arith, e))

-- Filling up the slots with the numbers from 1 on adds fillers behind them, up to the number 13.
pub fillup-numbered :
    (base : Double) (xs : List Slot) (count : ℕ)
    → length xs + count ≡ 13
    → fillup base 13 1 (numbered 1 xs) ≡ numbered 1 (xs ++ fillers base count)
fillup-numbered base xs count e =
    ap (λ c. fillup base c 1 (numbered 1 xs)) (sym e)
    ∙ fill_taken base (length xs) count 1 xs (omega arith) (omega arith)
