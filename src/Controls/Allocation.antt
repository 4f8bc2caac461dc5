-- ===== src/Controls/Allocation.antt =====
-- What `_validated_weights` of src/services/run_controls.py accepts.
use Prim.Native.String.{String}
use text.Mathlib.Text.{◌==◌ as str_eq}
use text.Mathlib.TextEquality.{eq_iff}
use mathlib.Core.List.{Memᴰ}
use mqs_backtest_visualizer.Prelude.{
  ◌≡◌, refl, sym, ◌∙◌, Bool, true, false, List, [], ◌∷◌, ◌++◌, arith, All, All-append, Bool-cases,
  Result-cases, inl, inr, ok, subst,
}
use mqs_backtest_visualizer.Prelude.Int.{ℤ, pos, ltb_ℤ, leb_ℤ, ◌+ℤ◌}
use mqs_backtest_visualizer.Prelude.Names.{has_name, all_in, Distinct, all_in-Memᴰ, Distinct-snoc}
use mqs_backtest_visualizer.Prelude.Sums.{sum_by_ℤ}
use mqs_backtest_visualizer.Controls.Validate.{
  Scalar, number, not_number, WeightsArg, Weights, names_of, weight_in, weight_value, read_weights,
  in_order_of, check_weights, validated_weights,
}

abbrev pub is_nonnegative : String × ℤ → Bool
is_nonnegative w = leb_ℤ (pos 0) (weight_value w)

abbrev pub AllNonnegative : Weights → Type 0
AllNonnegative ws = All (λ w. is_nonnegative w ≡ true) ws

names-in_order :
    (universe : List String) (ws : Weights) → names_of (in_order_of universe ws) ≡ universe
names-in_order [] ws = refl
names-in_order (t ∷ ts) ws = rw (names-in_order ts ws)

weight-nonnegative :
    (t : String) (ws : Weights) → AllNonnegative ws → leb_ℤ (pos 0) (weight_in t ws) ≡ true
weight-nonnegative t [] h = refl
weight-nonnegative t ((n, w) ∷ ws) h = ground (arith, weight-nonnegative t ws h.1)

in_order-AllNonnegative :
    (universe : List String) (ws : Weights)
    → AllNonnegative ws
    → AllNonnegative (in_order_of universe ws)
in_order-AllNonnegative [] ws h = tt
in_order-AllNonnegative (t ∷ ts) ws h = (weight-nonnegative t ws h, in_order-AllNonnegative ts ws h)

read_weights-AllNonnegative :
    (clean : String → String) (read : Weights) (raw : List (String × Scalar)) (ws : Weights)
    → AllNonnegative read
    → read_weights clean read raw ≡ ok ws
    → AllNonnegative ws
unfolding read_weights
read_weights-AllNonnegative clean read [] ws h e =
    let same : read ≡ ws = ground arith in subst AllNonnegative same h
read_weights-AllNonnegative clean read ((key, not_number) ∷ raw) ws h e = absurd (ground arith)
read_weights-AllNonnegative clean read ((key, number n) ∷ raw) ws h e =
    elim (Bool-cases (ltb_ℤ n (pos 0))) [
      | inl low ↦ absurd (ground arith)
      | inr high ↦
          read_weights-AllNonnegative clean (read ++ (clean key, n) ∷ []) raw ws
            (All-append (λ w. is_nonnegative w ≡ true) read ((clean key, n) ∷ []) h
              (ground arith, tt))
            (ground arith)
    ]

-- The entries that a submission has: each name cleaned, with its number, in the order submitted.
abbrev pub Submits : (String → String) → List (String × Scalar) → Weights → Type 0
Submits clean [] [] = Unit
Submits clean [] (w ∷ ws) = ⊥
Submits clean (r ∷ raw) [] = ⊥
Submits clean ((key, not_number) ∷ raw) (w ∷ ws) = ⊥
Submits clean ((key, number n) ∷ raw) ((t, w) ∷ ws) =
    (t ≡ clean key) × (w ≡ n) × Submits clean raw ws

names_of-append : (ws vs : Weights) → names_of (ws ++ vs) ≡ names_of ws ++ names_of vs
names_of-append [] vs = refl
names_of-append ((t, w) ∷ ws) vs = rw (names_of-append ws vs) refl

append_nil : (ws : Weights) → ws ++ [] ≡ ws
append_nil [] = refl
append_nil (w ∷ ws) = rw (append_nil ws) refl

append_assoc : (us : Weights) (v : String × ℤ) (ws : Weights) → (us ++ v ∷ []) ++ ws ≡ us ++ v ∷ ws
append_assoc [] v ws = refl
append_assoc (u ∷ us) v ws = rw (append_assoc us v ws) refl

read_weights-Submits :
    (clean : String → String) (read : Weights) (raw : List (String × Scalar)) (out : Weights)
    → read_weights clean read raw ≡ ok out
    → (es : Weights) × (out ≡ read ++ es) × Submits clean raw es
unfolding read_weights
read_weights-Submits clean read [] out e =
    let same : read ≡ out = ground arith in ([], sym same ∙ sym (append_nil read), tt)
read_weights-Submits clean read ((key, not_number) ∷ raw) out e = absurd (ground arith)
read_weights-Submits clean read ((key, number n) ∷ raw) out e =
    let (es, same, rest) =
      read_weights-Submits clean (read ++ (clean key, n) ∷ []) raw out (ground arith) in
    ((clean key, n) ∷ es, same ∙ append_assoc read (clean key, n) es, (refl, refl, rest))

read_weights-Distinct :
    (clean : String → String) (read : Weights) (raw : List (String × Scalar)) (out : Weights)
    → Distinct (names_of read)
    → read_weights clean read raw ≡ ok out
    → Distinct (names_of out)
unfolding read_weights
read_weights-Distinct clean read [] out h e =
    let same : read ≡ out = ground arith in subst (λ ws. Distinct (names_of ws)) same h
read_weights-Distinct clean read ((key, not_number) ∷ raw) out h e = absurd (ground arith)
read_weights-Distinct clean read ((key, number n) ∷ raw) out h e =
    let next = read ++ (clean key, n) ∷ [] in
    elim (Bool-cases (has_name (clean key) (names_of read))) [
      | inl twice ↦ absurd (ground arith)
      | inr new ↦
          read_weights-Distinct clean next raw out
            (subst Distinct (sym (names_of-append read ((clean key, n) ∷ [])))
              (Distinct-snoc (clean key) (names_of read) h new))
            (ground arith)
    ]

other_name : (t n : String) (ts : List String) → str_eq n t ≡ false → Memᴰ t (n ∷ ts) → Memᴰ t ts
other_name t n ts e (Memᴰ.head same) =
    let h : str_eq n t ≡ true = (eq_iff n t).1 (sym same) in absurd (ground (arith, e, h))
other_name t n ts e (Memᴰ.tail m) = m

-- A name of the submission has its weight there.
weight_in-Memᴰ : (t : String) (ws : Weights) → Memᴰ t (names_of ws) → Memᴰ (t, weight_in t ws) ws
weight_in-Memᴰ t [] m = elim m [ ]
weight_in-Memᴰ t ((n, w) ∷ ws) m = elim (Bool-cases (str_eq n t)) [
  | inl e ↦ rw e (let same : t ≡ n = sym ((eq_iff n t).0 e) in Memᴰ.head (rw same refl))
  | inr e ↦ rw e (Memᴰ.tail (weight_in-Memᴰ t ws (other_name t n (names_of ws) e m)))
]

in_order_of-Memᴰ :
    (universe : List String) (ws : Weights)
    → ((t : String) → Memᴰ t universe → Memᴰ t (names_of ws))
    → All (λ w. Memᴰ w ws) (in_order_of universe ws)
in_order_of-Memᴰ [] ws h = tt
in_order_of-Memᴰ (t ∷ ts) ws h =
    (weight_in-Memᴰ t ws (h t (Memᴰ.head refl)), in_order_of-Memᴰ ts ws (λ x m. h x (Memᴰ.tail m)))

abbrev pub total_of : Weights → ℤ
total_of ws = sum_by_ℤ (λ (w : String × ℤ). w.1) ws

-- What a submission with these entries must be to be accepted, and what is made of it.
abbrev pub Allocates : ℤ → ℤ → List String → Weights → Weights → Type 0
Allocates unit tolerance universe entries ws =
    Distinct (names_of entries)
    × AllNonnegative entries
    × ((t : String) → Memᴰ t (names_of entries) → Memᴰ t universe)
    × ((t : String) → Memᴰ t universe → Memᴰ t (names_of entries))
    × (ltb_ℤ (pos 0) (total_of entries) ≡ true)
    × (leb_ℤ (total_of entries) (unit +ℤ tolerance) ≡ true)
    × (names_of ws ≡ universe)
    × All (λ w. Memᴰ w entries) ws

check_weights-Allocates :
    (unit tolerance : ℤ) (universe : List String) (entries ws : Weights)
    → Distinct (names_of entries)
    → AllNonnegative entries
    → check_weights unit tolerance universe entries ≡ ok ws
    → Allocates unit tolerance universe entries ws
unfolding check_weights
check_weights-Allocates unit tolerance universe entries ws d n e =
    let within : all_in (names_of entries) universe ≡ true = ground (arith, e) in
    let covered : all_in universe (names_of entries) ≡ true = ground (arith, e) in
    let same : in_order_of universe entries ≡ ws = ground (arith, e) in
    (
      d,
      n,
      all_in-Memᴰ (names_of entries) universe within,
      all_in-Memᴰ universe (names_of entries) covered,
      ground (arith, e),
      ground (arith, e),
      subst (λ v. names_of v ≡ universe) same (names-in_order universe entries),
      subst (λ v. All (λ w. Memᴰ w entries) v) same
          (in_order_of-Memᴰ universe entries (all_in-Memᴰ universe (names_of entries) covered)),
    )

-- Weights are accepted only for a submission of numbers whose cleaned names are different, none
-- negative, that names the tickers of the universe and no others, and that adds up to more than 0
-- and to at most the whole and the tolerance. What is made of it names the tickers of the universe,
-- in its order, each with the weight submitted for it.
pub validated_weights_lem :
    (clean : String → String) (unit tolerance : ℤ) (raw : List (String × Scalar))
    (universe : List String) (ws : Weights)
    → validated_weights clean unit tolerance (WeightsArg.weights_of raw) universe ≡ ok ws
    → (entries : Weights) × Submits clean raw entries × Allocates unit tolerance universe entries ws
unfolding validated_weights
validated_weights_lem clean unit tolerance raw universe ws e =
    elim (Result-cases (read_weights clean [] raw)) [
      | inr (f, x) ↦ absurd (ground arith)
      | inl (read, x) ↦
          let (es, same, submits) = read_weights-Submits clean [] raw read x in
          (
            read,
            subst (λ v. Submits clean raw v) (sym same) submits,
            check_weights-Allocates unit tolerance universe read ws
                (read_weights-Distinct clean [] raw read tt x)
                (read_weights-AllNonnegative clean [] raw read tt x) (ground arith),
          )
    ]
