-- ===== src/Scan/Distinct.antt =====
-- What `_deduplicated` gives (src/services/strategy_validation/scanning.py).
use Prim.Native.String.{String}
use text.Mathlib.Text.{◌==◌ as str_eq}
use text.Mathlib.TextEquality.{eq_iff}
use mqs_backtest_visualizer.Prelude.{
  ℕ, ◌==◌, ==_iff, le→leb, ◌≡◌, refl, sym, ap, subst, true, false, List, [], ◌∷◌, ◌&&◌, ◌||◌, not,
  arith, Bool-cases, inl, inr,
}
use mqs_backtest_visualizer.Prelude.Names.{str_eq_refl}
use mqs_backtest_visualizer.Prelude.Sort.{insert, sort, IsSorted, sort-IsSorted}
use mqs_backtest_visualizer.Scan.Rules.{
  Violation, bad_import, relative_import, bad_name, bad_attribute, bad_module,
}
use mqs_backtest_visualizer.Scan.Issues.{
  Issue, Message, invalid_python, refused, no_class, many_classes, misspelled, no_on_data,
  async_on_data, few_arguments, unknown_indicator, no_super_init, same_names, same_violation,
  same_message, same_issue, has_issue, distinct_from, line_before, deduplicated,
}

same : (a b : String) → str_eq a b ≡ true → a ≡ b
same a b h = (eq_iff a b).0 h

same_names-eq : (xs ys : List String) → same_names xs ys ≡ true → xs ≡ ys
same_names-eq [] [] h = refl
same_names-eq (x ∷ xs) (y ∷ ys) h = grind (arith, same x y, same_names-eq xs ys)
same_names-eq [] (y ∷ ys) h = cc
same_names-eq (x ∷ xs) [] h = cc

same_names_refl : (xs : List String) → same_names xs xs ≡ true
same_names_refl [] = refl
same_names_refl (x ∷ xs) = rw (str_eq_refl x) (same_names_refl xs)

same_violation-eq : (v w : Violation) → same_violation v w ≡ true → v ≡ w
same_violation-eq (bad_import a) (bad_import b) h = ap bad_import (same a b h)
same_violation-eq relative_import relative_import h = refl
same_violation-eq (bad_name a) (bad_name b) h = ap bad_name (same a b h)
same_violation-eq (bad_attribute a) (bad_attribute b) h = ap bad_attribute (same a b h)
same_violation-eq (bad_module a c) (bad_module b d) h = grind (arith, same a b, same c d)
same_violation-eq _ _ h = cc

same_violation_refl : (v : Violation) → same_violation v v ≡ true
same_violation_refl (bad_import a) = str_eq_refl a
same_violation_refl relative_import = refl
same_violation_refl (bad_name a) = str_eq_refl a
same_violation_refl (bad_attribute a) = str_eq_refl a
same_violation_refl (bad_module a b) = rw (str_eq_refl a) (str_eq_refl b)

same_message-eq : (m n : Message) → same_message m n ≡ true → m ≡ n
same_message-eq invalid_python invalid_python h = refl
same_message-eq (refused v) (refused w) h = ap refused (same_violation-eq v w h)
same_message-eq no_class no_class h = refl
same_message-eq (many_classes a) (many_classes b) h = ap many_classes (same_names-eq a b h)
same_message-eq (misspelled a c) (misspelled b d) h = grind (arith, same a b, same c d)
same_message-eq (no_on_data a) (no_on_data b) h = ap no_on_data (same a b h)
same_message-eq async_on_data async_on_data h = refl
same_message-eq (few_arguments a c) (few_arguments b d) h = grind (arith, ==_iff a b, ==_iff c d)
same_message-eq (unknown_indicator a) (unknown_indicator b) h = ap unknown_indicator (same a b h)
same_message-eq (no_super_init a) (no_super_init b) h = ap no_super_init (same a b h)
same_message-eq _ _ h = cc

==_refl : (n : ℕ) → (n == n) ≡ true
==_refl n = (==_iff n n).1 refl

same_message_refl : (m : Message) → same_message m m ≡ true
same_message_refl invalid_python = refl
same_message_refl (refused v) = same_violation_refl v
same_message_refl no_class = refl
same_message_refl (many_classes a) = same_names_refl a
same_message_refl (misspelled a c) = rw (str_eq_refl a) (str_eq_refl c)
same_message_refl (no_on_data a) = str_eq_refl a
same_message_refl async_on_data = refl
same_message_refl (few_arguments a c) = rw (==_refl a) (==_refl c)
same_message_refl (unknown_indicator a) = str_eq_refl a
same_message_refl (no_super_init a) = str_eq_refl a

pub same_issue_refl : (i : Issue) → same_issue i i ≡ true
same_issue_refl i = rw (==_refl i.line) (same_message_refl i.message)

same_issue-eq : (i j : Issue) → same_issue i j ≡ true → i ≡ j
same_issue-eq i j h = grind (arith, ==_iff i.line j.line, same_message-eq i.message j.message)

same_issue-sym : (i j : Issue) → same_issue i j ≡ false → same_issue j i ≡ false
same_issue-sym i j h = elim (Bool-cases (same_issue j i)) [
  | inr e ↦ e
  | inl e ↦
      let alike = same_issue-eq j i e in
      subst (λ k. same_issue k i ≡ false) (sym alike) (subst (λ k. same_issue i k ≡ false) alike h)
]

-- No two issues are the same.
abbrev pub Distinct : List Issue → Type 0
Distinct [] = Unit
Distinct (i ∷ is) = (has_issue i is ≡ false) × Distinct is

has_issue-insert :
    (i j : Issue) (is : List Issue)
    → has_issue i (insert line_before j is) ≡ same_issue i j || has_issue i is
unfolding insert
has_issue-insert i j [] = refl
has_issue-insert i j (k ∷ is) = ground (arith, has_issue-insert i j is)

has_issue-sort : (i : Issue) (is : List Issue) → has_issue i (sort line_before is) ≡ has_issue i is
unfolding sort
has_issue-sort i [] = refl
has_issue-sort i (j ∷ is) =
    rw (has_issue-insert i j (sort line_before is), has_issue-sort i is) refl

insert-Distinct :
    (j : Issue) (is : List Issue)
    → has_issue j is ≡ false
    → Distinct is
    → Distinct (insert line_before j is)
unfolding insert
insert-Distinct j [] h d = (refl, tt)
insert-Distinct j (k ∷ is) h d = elim (Bool-cases (line_before j k)) [
  | inl e ↦ rw e (h, d)
  | inr e ↦
      let other = same_issue-sym j k (ground arith) in
      rw e (
        rw (has_issue-insert k j is) (rw (other, d.0) refl),
        insert-Distinct j is (ground arith) d.1,
      )
]

sort-Distinct : (is : List Issue) → Distinct is → Distinct (sort line_before is)
unfolding sort
sort-Distinct [] d = tt
sort-Distinct (j ∷ is) d =
    insert-Distinct j (sort line_before is) (rw (has_issue-sort j is) d.0) (sort-Distinct is d.1)

distinct_from-seen :
    (seen is : List Issue) (j : Issue)
    → has_issue j seen ≡ true
    → distinct_from seen (j ∷ is) ≡ distinct_from seen is
unfolding distinct_from
distinct_from-seen seen is j e = rw (e, distinct_from) refl

distinct_from-fresh :
    (seen is : List Issue) (j : Issue)
    → has_issue j seen ≡ false
    → distinct_from seen (j ∷ is) ≡ j ∷ distinct_from (j ∷ seen) is
unfolding distinct_from
distinct_from-fresh seen is j e = rw (e, distinct_from) refl

has_issue-same :
    (i j : Issue) (is : List Issue) → same_issue i j ≡ true → has_issue i is ≡ has_issue j is
has_issue-same i j is e = ap (λ k. has_issue k is) (same_issue-eq i j e)

has_issue-distinct_from :
    (i : Issue) (seen is : List Issue)
    → has_issue i (distinct_from seen is) ≡ has_issue i is && not (has_issue i seen)
unfolding distinct_from
has_issue-distinct_from i seen [] = refl
has_issue-distinct_from i seen (j ∷ is) =
    let alike = has_issue-same i j seen in
    elim (Bool-cases (has_issue j seen)) [
      | inl e ↦
          rw (distinct_from-seen seen is j e, has_issue-distinct_from i seen is) (ground arith)
      | inr e ↦
          rw (distinct_from-fresh seen is j e, has_issue-distinct_from i (j ∷ seen) is)
            (ground arith)
    ]

distinct_from-Distinct : (seen is : List Issue) → Distinct (distinct_from seen is)
unfolding distinct_from
distinct_from-Distinct seen [] = tt
distinct_from-Distinct seen (j ∷ is) = elim (Bool-cases (has_issue j seen)) [
  | inl e ↦ rw (distinct_from-seen seen is j e) (distinct_from-Distinct seen is)
  | inr e ↦ rw (distinct_from-fresh seen is j e) (
    rw (has_issue-distinct_from j (j ∷ seen) is, same_issue_refl j) (ground arith),
    distinct_from-Distinct (j ∷ seen) is,
  )
]

line_before-total : (a b : Issue) → line_before a b ≡ false → line_before b a ≡ true
line_before-total a b h = ground (arith, le→leb a.line b.line, le→leb b.line a.line)

pub has_issue-deduplicated :
    (i : Issue) (is : List Issue) → has_issue i (deduplicated is) ≡ has_issue i is
has_issue-deduplicated i is =
    rw (has_issue-sort i (distinct_from [] is), has_issue-distinct_from i [] is) (ground arith)

-- `_deduplicated` leaves the complaints in the order of their lines, no two of them the same, and a
-- complaint is among them exactly if it was among those given.
pub deduplicated_lem :
    (issues : List Issue)
    → IsSorted line_before (deduplicated issues)
      × Distinct (deduplicated issues)
      × ((i : Issue) → has_issue i (deduplicated issues) ≡ has_issue i issues)
deduplicated_lem issues = (
  sort-IsSorted line_before line_before-total (distinct_from [] issues),
  sort-Distinct (distinct_from [] issues) (distinct_from-Distinct [] issues),
  λ i. has_issue-deduplicated i issues,
)
