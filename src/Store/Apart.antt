-- ===== src/Store/Apart.antt =====
-- What `S3StrategyStore.materialize` writes (src/integrations/strategy_store.py): no two files of a
-- package have one path, and none is a directory of another, even where case does not count.
use mqs_backtest_visualizer.Prelude.{
  ◌≡◌, refl, sym, subst, ◌∙◌, inl, inr, Bool, true, false, Bool-cases, Option, none, some, List, [],
  ◌∷◌, ◌++◌, ◌||◌, Result, ok, err, Result-cases, length, arith, All, All-map,
}
use mqs_backtest_visualizer.Prelude.Text.{Text, drop, same_text}
use mqs_backtest_visualizer.Store.Names.{Trouble, store_error, has_text}
use mqs_backtest_visualizer.Store.Materialize.{
  Target, target_at, target_segments, any_common, folded_parents, collides, plan,
}

has_text-append :
    (t : Text) (xs ys : List Text) → has_text t (xs ++ ys) ≡ has_text t xs || has_text t ys
has_text-append t [] ys = refl
has_text-append t (x ∷ xs) ys = ground (arith, has_text-append t xs ys)

any_common-cons :
    (xs ys : List Text) (y : Text)
    → any_common xs (y ∷ ys) ≡ false
    → (any_common xs ys ≡ false) × (any_common xs (y ∷ []) ≡ false)
any_common-cons [] ys y h = (refl, refl)
any_common-cons (x ∷ xs) ys y h = ground (arith, any_common-cons xs ys y)

abbrev targets_of : List Target → Result Trouble (List Target)
targets_of ts = ok ts

abbrev stopped : Trouble → Result Trouble (List Target)
stopped e = err e

not_planned : (e : Trouble) (ts : List Target) → stopped e ≡ targets_of ts → ⊥
not_planned e ts h = cc

same_targets : (ss ts : List Target) → targets_of ss ≡ targets_of ts → ss ≡ ts
same_targets ss ts h = cc

none_true : (a b c : Bool) → a || b || c ≡ false → (a ≡ false) × (b ≡ false) × (c ≡ false)
none_true a b c h = ground arith

none_of_two : (a b : Bool) → a || b ≡ false → (a ≡ false) × (b ≡ false)
none_of_two a b h = ground arith

module _ (casefold : Text → Text) where
  -- Two files do not meet: their paths differ, and neither's is a parent of the other's.
  abbrev pub DoNotMeet : Target → Target → Type 0
  DoNotMeet t u =
      (same_text (casefold t.relative) (casefold u.relative) ≡ false)
      × (has_text (casefold u.relative) (folded_parents casefold t.segments) ≡ false)
      × (any_common (folded_parents casefold u.segments) (casefold t.relative ∷ []) ≡ false)

  abbrev pub Apart : List Target → Type 0
  Apart [] = Unit
  Apart (t ∷ ts) = All (DoNotMeet t) ts × Apart ts

  abbrev Avoids : List Text → List Text → Target → Type 0
  Avoids paths directories t = collides casefold t paths directories ≡ false

  Avoids-later :
      (t u : Target) (paths directories : List Text)
      → Avoids (casefold t.relative ∷ paths) (folded_parents casefold t.segments ++ directories) u
      → DoNotMeet t u × Avoids paths directories u
  Avoids-later t u paths directories h =
      let own = casefold u.relative in
      let above = folded_parents casefold u.segments in
      let (new_path, new_directory, new_above) =
        none_true (has_text own (casefold t.relative ∷ paths))
          (has_text own (folded_parents casefold t.segments ++ directories))
          (any_common above (casefold t.relative ∷ paths)) h in
      let (old_above, single) = any_common-cons above paths (casefold t.relative) new_above in
      let (differ, old_path) =
        none_of_two (same_text (casefold t.relative) own) (has_text own paths) new_path in
      let (not_parent, old_directory) =
        none_of_two (has_text own (folded_parents casefold t.segments)) (has_text own directories) (
          sym (has_text-append own (folded_parents casefold t.segments) directories)
          ∙ new_directory) in
      ((differ, not_parent, single), rw (old_path, old_directory) old_above)

  plan-refused :
      (prefix k : Text) (ks : List Text) (trouble : Option Trouble) (paths directories : List Text)
      (e : Trouble)
      → target_segments (drop (length prefix) k) ≡ err e
      → plan casefold prefix (k ∷ ks) trouble paths directories ≡ err (store_error k)
  unfolding plan
  plan-refused prefix k ks trouble paths directories e bad = rw (plan, bad) refl

  plan-clash :
      (prefix k : Text) (ks : List Text) (trouble : Option Trouble)
      (paths directories segments : List Text)
      → target_segments (drop (length prefix) k) ≡ ok segments
      → collides casefold (target_at k (drop (length prefix) k) segments) paths directories ≡ true
      → plan casefold prefix (k ∷ ks) trouble paths directories ≡ err (store_error k)
  unfolding plan
  plan-clash prefix k ks trouble paths directories segments good clash = rw (plan, good, clash) refl

  plan-stopped :
      (prefix k : Text) (ks : List Text) (trouble : Option Trouble)
      (paths directories segments : List Text) (e : Trouble)
      → target_segments (drop (length prefix) k) ≡ ok segments
      → collides casefold (target_at k (drop (length prefix) k) segments) paths directories ≡ false
      → plan casefold prefix ks trouble
          (casefold (drop (length prefix) k) ∷ paths)
          (folded_parents casefold segments ++ directories)
        ≡ err e
      → plan casefold prefix (k ∷ ks) trouble paths directories ≡ err e
  unfolding plan
  plan-stopped prefix k ks trouble paths directories segments e good free bad =
      rw (plan, good, free, bad) refl

  plan-next :
      (prefix k : Text) (ks : List Text) (trouble : Option Trouble)
      (paths directories segments : List Text) (ts : List Target)
      → target_segments (drop (length prefix) k) ≡ ok segments
      → collides casefold (target_at k (drop (length prefix) k) segments) paths directories ≡ false
      → plan casefold prefix ks trouble
          (casefold (drop (length prefix) k) ∷ paths)
          (folded_parents casefold segments ++ directories)
        ≡ ok ts
      → plan casefold prefix (k ∷ ks) trouble paths directories
        ≡ ok (target_at k (drop (length prefix) k) segments ∷ ts)
  unfolding plan
  plan-next prefix k ks trouble paths directories segments ts good free planned =
      rw (plan, good, free, planned) refl

  -- What is planned avoids the paths and directories before it, and keeps apart.
  plan-Apart_from :
      (prefix : Text) (ks : List Text) (trouble : Option Trouble) (paths directories : List Text)
      (ts : List Target)
      → plan casefold prefix ks trouble paths directories ≡ ok ts
      → All (Avoids paths directories) ts × Apart ts
  unfolding plan
  plan-Apart_from prefix [] none paths directories ts h =
      subst (λ us. All (Avoids paths directories) us × Apart us) (same_targets [] ts h) (tt, tt)
  plan-Apart_from prefix [] (some trouble) paths directories ts h =
      absurd (not_planned trouble ts h)
  plan-Apart_from prefix (k ∷ ks) trouble paths directories ts h =
      let relative = drop (length prefix) k in
      elim (Result-cases (target_segments relative)) [
        | inr (e, bad) ↦ absurd (
            not_planned (store_error k) ts
              (sym (plan-refused prefix k ks trouble paths directories e bad) ∙ h))
        | inl (segments, good) ↦
            let t = target_at k relative segments in
            elim (Bool-cases (collides casefold t paths directories)) [
              | inl clash ↦ absurd (
                  not_planned (store_error k) ts (
                    sym (plan-clash prefix k ks trouble paths directories segments good clash) ∙ h))
              | inr free ↦
                  let next_paths = casefold relative ∷ paths in
                  let next_directories = folded_parents casefold segments ++ directories in
                  elim (Result-cases
                    (plan casefold prefix ks trouble next_paths next_directories)) [
                      | inr (e, bad) ↦ absurd (
                          not_planned e ts (
                            sym (
                              plan-stopped prefix k ks trouble paths directories segments e good
                                free bad)
                            ∙ h))
                      | inl (rest, planned) ↦
                          let same : t ∷ rest ≡ ts = same_targets (t ∷ rest) ts (
                            sym (
                              plan-next prefix k ks trouble paths directories segments rest good
                                free planned)
                            ∙ h) in
                          let (avoid, apart) =
                            plan-Apart_from prefix ks trouble next_paths next_directories rest
                              planned in
                          let later =
                            All-map (λ u. Avoids-later t u paths directories) rest avoid in
                          subst (λ us. All (Avoids paths directories) us × Apart us) same
                            (
                              (free, All-map (λ u both. both.1) rest later),
                              (All-map (λ u both. both.0) rest later, apart),
                            )
                    ]
            ]
      ]

  -- When the paths of a package are accepted, no two of its files have one path up to case, and
  -- none is a directory of another.
  pub plan-Apart :
      (prefix : Text) (ks : List Text) (trouble : Option Trouble) (ts : List Target)
      → plan casefold prefix ks trouble [] [] ≡ ok ts
      → Apart ts
  plan-Apart prefix ks trouble ts h = (plan-Apart_from prefix ks trouble [] [] ts h).1
