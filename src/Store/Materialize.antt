-- ===== src/Store/Materialize.antt =====
-- `S3StrategyStore.materialize` (src/integrations/strategy_store.py): the paths of a key's objects
-- are checked before one is written. The destination is an empty directory without links that takes
-- every file; a file is its segments below it. `casefold` is `str.casefold`.
use mqs_backtest_visualizer.Prelude.{
  Bool, true, false, Option, none, some, List, [], ◌∷◌, ◌++◌, ◌||◌, Result, ok, err, length, map,
}
use mqs_backtest_visualizer.Prelude.Text.{Text, drop}
use mqs_backtest_visualizer.Store.Names.{
  Trouble, missing_object, store_error, slash, split, check_names, has_text, prefix_for,
}
use mqs_backtest_visualizer.Store.Bucket.{Bucket, translate, list_keys}

pub record Target : Type 0 where
  pub object : Text
  pub relative : Text
  pub segments : List Text

-- `_materialize_target`
abbrev pub target_segments : Text → Result Trouble (List Text)
target_segments relative = check_names (split relative) (split relative)

abbrev pub target_at : Text → Text → List Text → Target
target_at k relative segments = record { object = k; relative = relative; segments = segments }

-- `as_posix` of a relative path
abbrev pub joined : List Text → Text
joined [] = []
joined (p ∷ []) = p
joined (p ∷ q ∷ ps) = p ++ (slash ∷ joined (q ∷ ps))

-- the parents of a relative path, without "."
abbrev pub parents : List Text → List (List Text)
parents [] = []
parents (p ∷ []) = []
parents (p ∷ q ∷ ps) = (p ∷ []) ∷ map (λ parent. p ∷ parent) (parents (q ∷ ps))

-- `xs & ys`
abbrev pub any_common : List Text → List Text → Bool
any_common [] ys = false
any_common (x ∷ xs) ys = has_text x ys || any_common xs ys

module _ (casefold : Text → Text) where
  abbrev pub folded_parents : List Text → List Text
  folded_parents segments = map (λ parent. casefold (joined parent)) (parents segments)

  abbrev pub collides : Target → List Text → List Text → Bool
  collides t paths directories =
      has_text (casefold t.relative) paths
      || has_text (casefold t.relative) directories
      || any_common (folded_parents t.segments) paths

  -- The first loop: a target for each key, with the folded paths and directories before it.
  unfoldable pub plan :
      Text → List Text → Option Trouble → List Text → List Text → Result Trouble (List Target)
  plan prefix [] none paths directories = ok []
  plan prefix [] (some trouble) paths directories = err trouble
  plan prefix (k ∷ ks) trouble paths directories =
      let relative = drop (length prefix) k in
      elim (target_segments relative) [
        | err e ↦ err (store_error k)
        | ok segments ↦
            let target = target_at k relative segments in
            elim (collides target paths directories) [
              | true ↦ err (store_error k)
              | false ↦
                  elim (plan prefix ks trouble (casefold relative ∷ paths)
                    (folded_parents segments ++ directories)) [
                      | err e ↦ err e
                      | ok targets ↦ ok (target ∷ targets)
                    ]
            ]
      ]

  module _ {S : Type 0} (bucket : Bucket S) (prefix : Text) where
    -- The second loop: the files that are written, and how it ends.
    unfoldable pub fetch : S → List Target → List (List Text × Text) × Result Trouble (Unit {0})
    fetch s [] = ([], ok tt)
    fetch s (t ∷ ts) = elim (bucket.get_object s t.object) [
      | err failure ↦ ([], err (translate failure t.object true))
      | ok content ↦ let (files, ended) = fetch s ts in ((t.segments, content) ∷ files, ended)
    ]

    abbrev pub fetch_planned :
        S
        → Text
        → Result Trouble (List Target)
        → List (List Text × Text) × Result Trouble (Unit {0})
    fetch_planned s key (err e) = ([], err e)
    fetch_planned s key (ok []) = ([], err (missing_object key))
    fetch_planned s key (ok (t ∷ ts)) = fetch s (t ∷ ts)

    unfoldable pub materialize : S → Text → List (List Text × Text) × Result Trouble (Unit {0})
    materialize s key = elim (prefix_for prefix key) [
      | err e ↦ ([], err e)
      | ok under ↦
          let (keys, trouble) = list_keys bucket prefix s under false in
          fetch_planned s key (plan under keys trouble [] [])
    ]
