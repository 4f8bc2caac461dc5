-- ===== src/Scan/Closure.antt =====
-- The fixed point of `_strategy_class_nodes` (src/services/strategy_validation/scanning.py): it is
-- reached, and it holds exactly the classes that inherit from the base class.
use Prim.Native.String.{String}
use text.Mathlib.Text.{◌==◌ as str_eq}
use text.Mathlib.TextEquality.{eq_iff}
use mathlib.Core.List.{Memᴰ}
use mqs_backtest_visualizer.Prelude.{
  ℕ, zero, suc, ◌+◌, ◌≤◌, ◌<◌, ◌≡◌, refl, ◌↔◌, inl, inr, Bool, true, false, List, [], ◌∷◌, ◌++◌,
  arith, All, All-append, length, Bool-cases, subst, sym, List-cases, if◌then◌else◌,
}
use mqs_backtest_visualizer.Prelude.Names.{has_name, has_name-append, str_eq_refl}
use mqs_backtest_visualizer.Scan.Tree.{Node, Kind, node, name, field, bases}
use mqs_backtest_visualizer.Scan.Classes.{
  class_name, extends_base_portfolio, named_in, any_named_in, extends_one_of, names_where,
  grown_names, close_names, strategy_names,
}

-- A name is that of a class that extends the base class itself, or one that is derived from such a
-- name.
pub data IsStrategy (classes : List Node) : String → Type 0 where
  direct :
      {n : String} (c : Node)
      → Memᴰ c classes
      → extends_base_portfolio c ≡ true
      → class_name c ≡ n
      → IsStrategy classes n
  derived :
      {n : String} (c : Node) (b : String)
      → Memᴰ c classes
      → any_named_in (b ∷ []) (field bases c) ≡ true
      → IsStrategy classes b
      → class_name c ≡ n
      → IsStrategy classes n

-- How many classes are not among the names.
abbrev missing : List String → List Node → ℕ
missing names [] = 0
missing names (c ∷ cs) = (if has_name (class_name c) names then 0 else 1) + missing names cs

has_name-All :
    (P : String → Type 0) (n : String) (names : List String)
    → All P names
    → has_name n names ≡ true
    → P n
has_name-All P n [] h e = cc
has_name-All P n (m ∷ names) h e = elim (Bool-cases (str_eq m n)) [
  | inl same ↦ subst P ((eq_iff m n).0 same) h.0
  | inr other ↦ has_name-All P n names h.1 (ground arith)
]

-- A class that passes the test has its name among those that pass.
names_where-has :
    (test : Node → Bool) (c : Node) (cs : List Node)
    → Memᴰ c cs
    → test c ≡ true
    → has_name (class_name c) (names_where test cs) ≡ true
names_where-has test c [] x e = elim x [ ]
names_where-has test c (d ∷ cs) (Memᴰ.head same) e = rw (sym same, e, str_eq_refl (class_name c))
names_where-has test c (d ∷ cs) (Memᴰ.tail m) e = elim (Bool-cases (test d)) [
  | inl t ↦ rw (t, names_where-has test c cs m e) (ground arith)
  | inr f ↦ rw f (names_where-has test c cs m e)
]

names_where-All :
    (P : String → Type 0) (test : Node → Bool) (cs : List Node)
    → ((c : Node) → Memᴰ c cs → test c ≡ true → P (class_name c))
    → All P (names_where test cs)
names_where-All P test [] h = tt
names_where-All P test (c ∷ cs) h =
    let rest = names_where-All P test cs (λ d m. h d (Memᴰ.tail m)) in
    elim (Bool-cases (test c)) [ inl t ↦ rw t (h c (Memᴰ.head refl) t, rest) | inr f ↦ rw f rest ]

missing-fewer :
    (names grown : List String) (cs : List Node)
    → ((c : Node)
        → Memᴰ c cs
        → extends_one_of names c ≡ true
        → has_name (class_name c) grown ≡ true)
    → missing (names ++ grown) cs + length (names_where (extends_one_of names) cs)
      ≤ missing names cs
missing-fewer names grown [] h = omega arith
missing-fewer names grown (c ∷ cs) h =
    let rest = missing-fewer names grown cs (λ d m. h d (Memᴰ.tail m)) in
    let joined = has_name-append (class_name c) names grown in
    elim (Bool-cases (extends_one_of names c)) [
      | inl t ↦
          let new = h c (Memᴰ.head refl) t in
          let old : has_name (class_name c) names ≡ false = ground arith in
          rw (t, joined, old, new) (omega (arith, rest))
      | inr f ↦ elim (Bool-cases (has_name (class_name c) names)) [
        | inl there ↦ rw (f, joined, there) (omega (arith, rest))
        | inr away ↦ elim (Bool-cases (has_name (class_name c) grown)) [
          | inl new ↦ rw (f, joined, away, new) (omega (arith, rest))
          | inr old ↦ rw (f, joined, away, old) (omega (arith, rest))
        ]
      ]
    ]

close_names-done :
    (turns : ℕ) (classes : List Node) (names : List String)
    → grown_names classes names ≡ []
    → close_names (suc turns) classes names ≡ names
unfolding close_names
close_names-done turns classes names e = rw (e, close_names) refl

close_names-turn :
    (turns : ℕ) (classes : List Node) (names : List String) (g : String) (gs : List String)
    → grown_names classes names ≡ g ∷ gs
    → close_names (suc turns) classes names ≡ close_names turns classes (names ++ (g ∷ gs))
unfolding close_names
close_names-turn turns classes names g gs e = rw (e, close_names) refl

-- One more turn than classes are missing finds no new name.
close_names-closed :
    (turns : ℕ) (classes : List Node) (names : List String)
    → missing names classes < turns
    → grown_names classes (close_names turns classes names) ≡ []
unfolding close_names
close_names-closed zero classes names h = absurd (omega arith)
close_names-closed (suc turns) classes names h = elim (List-cases (grown_names classes names)) [
  | inl e ↦ rw (close_names-done turns classes names e) e
  | inr (g, gs, e) ↦
      let fewer =
        missing-fewer names (grown_names classes names) classes
          (λ c m t. names_where-has (extends_one_of names) c classes m t) in
      let some_new : 1 ≤ length (grown_names classes names) = rw e (omega arith) in
      let next : missing (names ++ (g ∷ gs)) classes < turns =
        subst (λ l. missing (names ++ l) classes < turns) e (omega (arith, fewer, some_new, h)) in
      rw (close_names-turn turns classes names g gs e)
        (close_names-closed turns classes (names ++ (g ∷ gs)) next)
]

-- The loop keeps the names it starts from.
close_names-keeps :
    (turns : ℕ) (classes : List Node) (names : List String) (n : String)
    → has_name n names ≡ true
    → has_name n (close_names turns classes names) ≡ true
unfolding close_names
close_names-keeps zero classes names n h = h
close_names-keeps (suc turns) classes names n h = elim (List-cases (grown_names classes names)) [
  | inl e ↦ rw (close_names-done turns classes names e) h
  | inr (g, gs, e) ↦ rw (close_names-turn turns classes names g gs e) (
      close_names-keeps turns classes (names ++ (g ∷ gs)) n
        (ground (arith, has_name-append n names (g ∷ gs))))
]

named_in-pick :
    (names : List String) (k : Kind)
    → named_in names k ≡ true
    → (b : String) × (has_name b names ≡ true) × (named_in (b ∷ []) k ≡ true)
named_in-pick names (name s) h = (s, h, rw (str_eq_refl s) refl)
named_in-pick names _ h = cc

named_in_mono :
    (names : List String) (b : String) (k : Kind)
    → has_name b names ≡ true
    → named_in (b ∷ []) k ≡ true
    → named_in names k ≡ true
named_in_mono names b (name s) h e =
    subst (λ t. has_name t names ≡ true) ((eq_iff b s).0 (ground arith)) h
named_in_mono names b _ h e = cc

no_name : (t : String) (names : List String) → names ≡ [] → has_name t names ≡ true → ⊥
no_name t names e h = cc

-- A base among the names is one name, which is among them.
any_named_in-pick :
    (names : List String) (ns : List Node)
    → any_named_in names ns ≡ true
    → (b : String) × (has_name b names ≡ true) × (any_named_in (b ∷ []) ns ≡ true)
any_named_in-pick names [] h = cc
any_named_in-pick names (node kind line children ∷ ns) h = elim (Bool-cases (named_in names kind)) [
  | inl here ↦ let (b, there, same) = named_in-pick names kind here in (b, there, rw same refl)
  | inr away ↦
      let (b, there, later) = any_named_in-pick names ns (ground arith) in
      (b, there, rw later (ground arith))
]

any_named_in_mono :
    (names : List String) (b : String) (ns : List Node)
    → has_name b names ≡ true
    → any_named_in (b ∷ []) ns ≡ true
    → any_named_in names ns ≡ true
any_named_in_mono names b [] h e = e
any_named_in_mono names b (node kind line children ∷ ns) h e =
    elim (Bool-cases (named_in (b ∷ []) kind)) [
      | inl here ↦ rw (named_in_mono names b kind h here) refl
      | inr away ↦ rw (any_named_in_mono names b ns h (ground arith)) (ground arith)
    ]

grown_names-All :
    (classes : List Node) (names : List String)
    → All (IsStrategy classes) names
    → All (IsStrategy classes) (grown_names classes names)
grown_names-All classes names h =
    names_where-All (IsStrategy classes) (extends_one_of names) classes (λ c m e.
      let (b, there, base) = any_named_in-pick names (field bases c) (ground arith) in
      derived c b m base (has_name-All (IsStrategy classes) b names h there) refl)

close_names-All :
    (turns : ℕ) (classes : List Node) (names : List String)
    → All (IsStrategy classes) names
    → All (IsStrategy classes) (close_names turns classes names)
unfolding close_names
close_names-All zero classes names h = h
close_names-All (suc turns) classes names h = elim (List-cases (grown_names classes names)) [
  | inl e ↦ rw (close_names-done turns classes names e) h
  | inr (g, gs, e) ↦ rw (close_names-turn turns classes names g gs e) (
      close_names-All turns classes (names ++ (g ∷ gs)) (
        All-append (IsStrategy classes) names (g ∷ gs) h
          (subst (All (IsStrategy classes)) e (grown_names-All classes names h))))
]

missing-most : (names : List String) (cs : List Node) → missing names cs ≤ length cs
missing-most names [] = omega arith
missing-most names (c ∷ cs) = ground (arith, missing-most names cs)

-- The loop of `_strategy_class_nodes` ends through its `break`: no class of the file, whatever it
-- inherits from, has a new name to add.
pub strategy_names-closed :
    (classes : List Node) → grown_names classes (strategy_names classes) ≡ []
unfolding strategy_names
strategy_names-closed classes =
    let first = names_where extends_base_portfolio classes in
    close_names-closed (suc (length classes)) classes first
      (omega (arith, missing-most first classes))

strategy_names-has :
    (classes : List Node) (n : String)
    → IsStrategy classes n
    → has_name n (strategy_names classes) ≡ true
unfolding strategy_names
strategy_names-has classes n (direct c m e same) =
    close_names-keeps (suc (length classes)) classes (names_where extends_base_portfolio classes) n
      (subst (λ s. has_name s (names_where extends_base_portfolio classes) ≡ true) same
        (names_where-has extends_base_portfolio c classes m e))
strategy_names-has classes n (derived c b m base s same) =
    let all = strategy_names classes in
    let known = any_named_in_mono all b (field bases c) (strategy_names-has classes b s) base in
    subst (λ t. has_name t all ≡ true) same
      (elim (Bool-cases (has_name (class_name c) all)) [
        | inl there ↦ there
        | inr away ↦
            let extends : extends_one_of all c ≡ true = ground arith in
            let new = names_where-has (extends_one_of all) c classes m extends in
            absurd
              (no_name (class_name c) (grown_names classes all) (strategy_names-closed classes) new)
      ])

-- A name is among those that `_strategy_class_nodes` collects exactly if it is that of a class that
-- extends the base class, itself or through classes of the file, in whatever order they stand.
pub strategy_names_lem :
    (classes : List Node) (n : String)
    → (has_name n (strategy_names classes) ≡ true) ↔ IsStrategy classes n
unfolding strategy_names
strategy_names_lem classes n = (
  has_name-All (IsStrategy classes) n (strategy_names classes) (
      close_names-All (suc (length classes)) classes (names_where extends_base_portfolio classes) (
        names_where-All (IsStrategy classes) extends_base_portfolio classes
          (λ c m e. direct c m e refl))),
  strategy_names-has classes n,
)
