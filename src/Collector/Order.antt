-- ===== src/Collector/Order.antt =====
-- The order in which collected values are sent (hahomematic/model/data_point.py).
use hahomematic.Base.{
  ℕ, ◌<◌, ◌≡◌, refl, sym, ap, ◌∙◌, Bool, true, false, ◌&&◌, ◌==◌, list_eq, nat_eq, list_beq_iff,
  Option, none, some, List, [], ◌∷◌, ◌++◌, if◌then◌else◌, eqb, eqb_iff, arith, all, Bool-cases, inl,
  inr,
}
use Prim.{absurd}
use mathlib.Core.List.{append_assoc}
use hahomematic.Base.Dict.{Dict, get_or, lookup, insert, lookup-insert}
use hahomematic.Base.Sorted.{sorted, lookup-sorted, ascending, ascending-sorted, at_least_found}
use hahomematic.Base.Text.{Text}
use hahomematic.Base.Value.{Value}
use hahomematic.Const.{ParamsetKey, paramset_key_eq, DpKey}
use hahomematic.Collector.{
  Channels, Paramsets, Call, add_data_point, channel_calls, order_calls, calls, run_calls,
}

-- the paramset that is collected for an order and a channel
abbrev pub collected : ParamsetKey → ℕ → Text → Paramsets → Dict Text Value
collected key order address c =
    get_or [] (lookup address (get_or [] (lookup order (get_or [] (lookup key c)))))

-- A value that is added is collected for its paramset key, order, channel and parameter; everything
-- else stays as it was collected.
pub collected-add_data_point :
    (k m : ParamsetKey) (a b p q : Text) (v : Value) (i j : ℕ) (c : Paramsets)
    → lookup q (collected m j b (add_data_point k a p v i c))
      ≡ (if k == m && (i == j && (a == b && p == q)) then some v else lookup q (collected m j b c))
unfolding add_data_point
collected-add_data_point k m a b p q v i j c =
    let orders = get_or [] (lookup k c) in
    let channels = get_or [] (lookup i orders) in
    let paramset = get_or [] (lookup a channels) in
    let paramset' = insert p v paramset in
    let channels' = insert a paramset' channels in
    ground (
      arith,
      lookup-insert m k (insert i channels' orders) c,
      lookup-insert j i channels' orders,
      lookup-insert b a paramset' channels,
      lookup-insert q p v paramset,
      list_beq_iff a b,
      eqb_iff i j,
    )

order_calls-append :
    (key : ParamsetKey) (d e : Dict ℕ Channels)
    → order_calls key (d ++ e) ≡ order_calls key d ++ order_calls key e
unfolding order_calls
order_calls-append key [] e = refl
order_calls-append key ((m, x) ∷ d) e = simp (order_calls-append key d e, append_assoc)

has_row :
    (key : ParamsetKey) (n : ℕ) (y : Channels) (d : Dict ℕ Channels)
    → lookup n d ≡ some y
    → (before after : List Call) × (order_calls key d ≡ before ++ (channel_calls key y ++ after))
unfolding lookup order_calls
has_row key n y [] h = absurd (ground (arith, h))
has_row key n y ((m, x) ∷ d) h = elim (Bool-cases (eqb m n)) [
  | inl e ↦ ([], order_calls key d, ground (arith, h, e))
  | inr e ↦
      let (before, after, rest) = has_row key n y d (ground (arith, h, e)) in
      (
        channel_calls key x ++ before,
        after,
        ap (λ t. channel_calls key x ++ t) rest ∙ sym (append_assoc (channel_calls key x) before _),
      )
]

ordered_rows :
    (key : ParamsetKey) (m n : ℕ) (x y : Channels) (d : Dict ℕ Channels)
    → m < n
    → ascending d ≡ true
    → lookup m d ≡ some x
    → lookup n d ≡ some y
    → (before middle after : List Call) × (order_calls key d
        ≡ before ++ (channel_calls key x ++ (middle ++ (channel_calls key y ++ after))))
unfolding lookup order_calls all
ordered_rows key m n x y [] less asc hx hy = absurd (ground (arith, hx))
ordered_rows key m n x y ((l, z) ∷ d) less asc hx hy = elim (Bool-cases (eqb l m)) [
  | inl e ↦
      let (middle, after, rest) = has_row key n y d (ground (arith, hy, e, less)) in
      let same : z ≡ x = ground (arith, hx, e) in ([], middle, after, rw (same, rest) refl)
  | inr e ↦
      let (before, middle, after, rest) =
        ordered_rows key m n x y d less (ground (arith, asc)) (ground (arith, hx, e))
          (ground (arith, hy, less, asc, hx, e, at_least_found l m x d)) in
      (
        channel_calls key z ++ before,
        middle,
        after,
        ap (λ t. channel_calls key z ++ t) rest ∙ sym (append_assoc (channel_calls key z) before _),
      )
]

paramset_calls :
    (key : ParamsetKey) (orders : Dict ℕ Channels) (c : Paramsets)
    → lookup key c ≡ some orders
    → (before after : List Call) × (calls c ≡ before ++ (order_calls key (sorted orders) ++ after))
unfolding calls lookup
paramset_calls key orders [] h = absurd (ground (arith, h))
paramset_calls key orders ((k, d) ∷ c) h = elim (Bool-cases (k == key)) [
  | inl e ↦ ([], calls c, ground (arith, h, e))
  | inr e ↦
      let (before, after, rest) = paramset_calls key orders c (ground (arith, h, e)) in
      let first = order_calls k (sorted d) in
      (first ++ before, after, ap (λ t. first ++ t) rest ∙ sym (append_assoc first before _))
]

-- All calls for the values of an order go out before those of any higher order of the same paramset
-- key, whichever was added first.
pub calls-ordered :
    (key : ParamsetKey) (m n : ℕ) (x y : Channels) (orders : Dict ℕ Channels) (c : Paramsets)
    → m < n
    → lookup key c ≡ some orders
    → lookup m orders ≡ some x
    → lookup n orders ≡ some y
    → (before middle after : List Call) × (calls c
        ≡ before ++ (channel_calls key x ++ (middle ++ (channel_calls key y ++ after))))
calls-ordered key m n x y orders c less there hx hy =
    let (before, after, whole) = paramset_calls key orders c there in
    let (start, middle, rest, rows) =
      ordered_rows key m n x y (sorted orders) less (ascending-sorted orders)
        (lookup-sorted m orders ∙ hx) (lookup-sorted n orders ∙ hy) in
    (
      before ++ start,
      middle,
      rest ++ after,
      whole ∙ ap (λ t. before ++ (t ++ after)) rows ∙ simp append_assoc,
    )

-- whether each of some calls is answered
abbrev pub all_answered : (Call → Option (List (DpKey × Value))) → List Call → Bool
all_answered answer cs = all (λ call. elim (answer call) [ none ↦ false | some sent ↦ true ]) cs

-- The calls are made one after the other up to the first that raises an exception, which ends them
-- without a result.
pub run_calls-fails :
    (answer : Call → Option (List (DpKey × Value))) (before after : List Call) (call : Call)
    → all_answered answer before ≡ true
    → answer call ≡ none
    → run_calls answer (before ++ call ∷ after) ≡ (before ++ call ∷ [], none)
unfolding run_calls all
run_calls-fails answer [] after call fine fails = rw fails refl
run_calls-fails answer (first ∷ before) after call fine fails =
    ground (arith, fine, run_calls-fails answer before after call, fails)
