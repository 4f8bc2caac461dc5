-- ===== src/Prelude/Names.antt =====
-- Lists of names as sets: membership by a Boolean test, and what appending does to it.
use Prim.Native.String.{String}
use text.Mathlib.Text.{◌==◌ as str_eq}
use text.Mathlib.TextEquality.{eq_iff}
use mqs_backtest_visualizer.Prelude.{
  ◌≡◌, refl, Bool, true, false, ◌||◌, ◌&&◌, List, [], ◌∷◌, ◌++◌, arith, sym, subst, Bool-cases, inl,
  inr,
}
use mathlib.Core.List.{Memᴰ}

-- `t in names`
abbrev pub has_name : String → List String → Bool
has_name t [] = false
has_name t (n ∷ names) = str_eq n t || has_name t names

-- `set(ts) <= set(names)`
abbrev pub all_in : List String → List String → Bool
all_in [] names = true
all_in (t ∷ ts) names = has_name t names && all_in ts names

-- `set(a) == set(b)`
abbrev pub same_set : List String → List String → Bool
same_set a b = all_in a b && all_in b a

pub str_eq_refl : (t : String) → str_eq t t ≡ true
str_eq_refl t = (eq_iff t t).1 refl

pub has_name-append :
    (t : String) (xs ys : List String) → has_name t (xs ++ ys) ≡ has_name t xs || has_name t ys
has_name-append t [] ys = refl
has_name-append t (x ∷ xs) ys = ground (arith, has_name-append t xs ys)

-- No name twice.
abbrev pub Distinct : List String → Type 0
Distinct [] = Unit
Distinct (t ∷ ts) = (Memᴰ t ts → ⊥) × Distinct ts

has_name-Memᴰ : (t : String) (ts : List String) → has_name t ts ≡ true → Memᴰ t ts
has_name-Memᴰ t [] h = cc
has_name-Memᴰ t (n ∷ ts) h = elim (Bool-cases (str_eq n t)) [
  | inl e ↦ Memᴰ.head (sym ((eq_iff n t).0 e))
  | inr e ↦ Memᴰ.tail (has_name-Memᴰ t ts (ground (arith, h, e)))
]

pub all_in-Memᴰ :
    (ts names : List String) → all_in ts names ≡ true → (t : String) → Memᴰ t ts → Memᴰ t names
all_in-Memᴰ [] names h t m = elim m [ ]
all_in-Memᴰ (x ∷ ts) names h t (Memᴰ.head e) =
    subst (λ y. Memᴰ y names) (sym e) (has_name-Memᴰ x names (ground (arith, h)))
all_in-Memᴰ (x ∷ ts) names h t (Memᴰ.tail m) = all_in-Memᴰ ts names (ground (arith, h)) t m

Memᴰ-snoc : (x t : String) (ts : List String) → Memᴰ x (ts ++ t ∷ []) → Memᴰ x (t ∷ ts)
Memᴰ-snoc x t [] m = m
Memᴰ-snoc x t (y ∷ ts) (Memᴰ.head e) = Memᴰ.tail (Memᴰ.head e)
Memᴰ-snoc x t (y ∷ ts) (Memᴰ.tail m) = elim (Memᴰ-snoc x t ts m) [
  | Memᴰ.head e ↦ Memᴰ.head e
  | Memᴰ.tail k ↦ Memᴰ.tail (Memᴰ.tail k)
]

pub Distinct-snoc :
    (t : String) (ts : List String) → Distinct ts → has_name t ts ≡ false → Distinct (ts ++ t ∷ [])
Distinct-snoc t [] h f = (λ m. elim m [ ], tt)
Distinct-snoc t (y ∷ ts) h f = (
  λ m. elim (Memᴰ-snoc y t ts m) [
    | Memᴰ.head e ↦
        let same : str_eq y t ≡ true = (eq_iff y t).1 e in absurd (ground (arith, f, same))
    | Memᴰ.tail k ↦ h.0 k
  ],
  Distinct-snoc t ts h.1 (ground (arith, f)),
)
