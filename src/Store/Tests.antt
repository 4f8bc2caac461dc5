-- ===== src/Store/Tests.antt =====
-- The store over a bucket that is a list of keys with their texts.
use mqs_backtest_visualizer.Prelude.{
  ◌≡◌, refl, ap, sym, true, false, Bool-cases, inl, inr, Option, Option-cases, none, some, List, [],
  ◌∷◌, ◌++◌, ◌&&◌, Result, ok, err, arith, if◌then◌else◌,
}
use mqs_backtest_visualizer.Prelude.Text.{Text, codes, same_text, same_text_iff, is_prefix}
use mqs_backtest_visualizer.Store.Names.{
  missing_object, object_name, key_segments, object_key, directory, has_text, strategy_key,
}
use mqs_backtest_visualizer.Store.Paths.{same_parts, starts_with}
use mqs_backtest_visualizer.Store.Bucket.{
  Bucket, Failure, client_error, lower, put, get, exists, delete,
}
use mqs_backtest_visualizer.Store.Objects.{Serves, Address, is_some, put-get}
use mqs_backtest_visualizer.Store.Sweep.{delete-get}
use mqs_backtest_visualizer.Store.Raises.{RaisesNoKeyError, raises_missing}
use mqs_backtest_visualizer.Store.Errors.{missing_from_reads_only}
use mqs_backtest_visualizer.Store.Segments.{key_segments-directory}
use mqs_backtest_visualizer.Store.Materialize.{Target, target_at, plan}
use mqs_backtest_visualizer.Store.Apart.{Apart, plan-Apart}

abbrev pub Shelf : Type 0
Shelf = List (Text × Text)

abbrev pub on_shelf : Shelf → Text → Option Text
on_shelf [] k = none
on_shelf ((j, t) ∷ s) k = if same_text j k then some t else on_shelf s k

abbrev keys_under : Text → Shelf → List Text
keys_under p [] = []
keys_under p ((j, t) ∷ s) = if is_prefix p j then j ∷ keys_under p s else keys_under p s

abbrev without : List Text → Shelf → Shelf
without ks [] = []
without ks ((j, t) ∷ s) = if has_text j ks then without ks s else (j, t) ∷ without ks s

abbrev read_shelf : Option Text → Result Failure Text
read_shelf none = err (client_error (codes "NoSuchKey"))
read_shelf (some t) = ok t

abbrev pub shelf : Bucket Shelf
shelf = record {
  put_object = λ s k t c. ((k, t) ∷ s, ok tt);
  get_object = λ s k. read_shelf (on_shelf s k);
  list_objects = λ s p. (keys_under p s, none);
  delete_objects = λ s ks. (without ks s, ok []);
}

keys_under-has :
    (p : Text) (s : Shelf) (k : Text)
    → has_text k (keys_under p s) ≡ is_prefix p k && is_some (on_shelf s k)
keys_under-has p [] k = ground arith
keys_under-has p ((j, t) ∷ s) k = elim (Bool-cases (same_text j k)) [
  | inl e ↦
      let alike : is_prefix p j ≡ is_prefix p k = ap (is_prefix p) ((same_text_iff j k).0 e) in
      elim (Bool-cases (is_prefix p j)) [
        | inl f ↦ rw (e, sym alike, f, e) refl
        | inr f ↦ rw (e, f, keys_under-has p s k, sym alike, f) refl
      ]
  | inr e ↦ elim (Bool-cases (is_prefix p j)) [
    | inl f ↦ rw (e, f, keys_under-has p s k) (rw e refl)
    | inr f ↦ rw (e, f, keys_under-has p s k) refl
  ]
]

without-holds :
    (ks : List Text) (s : Shelf) (k : Text)
    → on_shelf (without ks s) k ≡ (if has_text k ks then none else on_shelf s k)
without-holds ks [] k = ground arith
without-holds ks ((j, t) ∷ s) k =
    let rest = without-holds ks s k in
    elim (Bool-cases (same_text j k)) [
      | inl e ↦
          let alike : has_text j ks ≡ has_text k ks =
            ap (λ u. has_text u ks) ((same_text_iff j k).0 e) in
          elim (Bool-cases (has_text k ks)) [
            | inl f ↦ rw (alike, e, f, rest, f) refl
            | inr f ↦ rw (alike, e, f, e) refl
          ]
      | inr e ↦ elim (Bool-cases (has_text j ks)) [
        | inl f ↦ rw (e, f, rest) refl
        | inr f ↦ rw (e, f, e, rest) refl
      ]
    ]

pub shelf-Serves : Serves shelf on_shelf
shelf-Serves = record {
  put_answers = λ s k t c. refl;
  put_holds = λ s k t c j. refl;
  get_found = λ s k t e. ap read_shelf e;
  get_absent = λ s k e. ap read_shelf e;
  list_answers = λ s p. refl;
  list_has = λ s p k. keys_under-has p s k;
  delete_answers = λ s ks h. refl;
  delete_holds = λ s ks k h. without-holds ks s k;
}

abbrev pub example_key : Text
example_key = strategy_key (codes "a1")

abbrev example_parts : List Text
example_parts = codes "strategies" ∷ codes "a1" ∷ []

example_key_ok : key_segments example_key ≡ ok example_parts
unfolding key_segments object_name
example_key_ok = refl

pub example_address : Address example_key (codes "strategy.py")
unfolding object_name
example_address = record { segments = example_parts; key_ok = example_key_ok; name_ok = refl }

put-get_example :
    ((put shelf [] [] example_key (codes "strategy.py") (codes "x")).1 ≡ ok tt)
    × (get shelf []
          (put shelf [] [] example_key (codes "strategy.py") (codes "x")).0
          example_key
          (codes "strategy.py")
        ≡ ok (codes "x"))
    × ((key' filename' : Text) (b : Address key' filename')
        → same_parts example_address.segments b.segments
            && same_text (codes "strategy.py") filename'
          ≡ false
        → get shelf []
            (put shelf [] [] example_key (codes "strategy.py") (codes "x")).0
            key'
            filename'
          ≡ get shelf [] [] key' filename')
put-get_example =
    put-get shelf on_shelf shelf-Serves [] [] example_key (codes "strategy.py") (codes "x")
      example_address

delete-get_example :
    ((delete shelf [] [] example_key).1 ≡ ok tt)
    × (exists shelf [] (delete shelf [] [] example_key).0 example_key ≡ ok false)
    × ((key' filename' : Text) (b : Address key' filename')
        → get shelf [] (delete shelf [] [] example_key).0 key' filename' ≡ (
            if starts_with example_parts b.segments
            then err (missing_object (key' ++ filename'))
            else get shelf [] [] key' filename'))
delete-get_example =
    delete-get shelf on_shelf shelf-Serves [] [] example_key example_parts example_key_ok

-- The shelf has an exception for a missing key only.
shelf-RaisesNoKeyError : RaisesNoKeyError shelf
shelf-RaisesNoKeyError = record {
  put_raises = λ s k t c. refl;
  get_raises =
      λ s k. elim (Option-cases (on_shelf s k)) [ inl e ↦ rw e refl | inr (t, e) ↦ rw e refl ];
  list_raises = λ s p. refl;
  delete_raises = λ s ks. refl;
}

missing_from_reads_only_example :
    (raises_missing (put shelf [] [] example_key (codes "config.json") (codes "{}")).1 ≡ false)
    × (raises_missing (exists shelf [] [] example_key) ≡ false)
    × (raises_missing (delete shelf [] [] example_key).1 ≡ false)
    × (raises_missing (get shelf [] [] example_key (codes "config.json")) ≡ true
        → (object : Text) × (object_key [] example_key (codes "config.json") ≡ ok object)
          × (shelf.get_object [] object ≡ err (client_error (codes "NoSuchKey"))))
missing_from_reads_only_example =
    missing_from_reads_only shelf [] shelf-RaisesNoKeyError [] example_key (codes "config.json")
      (codes "{}")

example_key_again : key_segments (directory example_parts) ≡ ok example_parts
example_key_again = key_segments-directory example_key example_parts example_key_ok

abbrev example_targets : List Target
example_targets =
    target_at (codes "p/strategy.py") (codes "strategy.py") (codes "strategy.py" ∷ [])
    ∷ target_at (codes "p/config.json") (codes "config.json") (codes "config.json" ∷ [])
    ∷ []

example_planned :
    plan lower (codes "p/") (codes "p/strategy.py" ∷ codes "p/config.json" ∷ []) none [] []
    ≡ ok example_targets
unfolding plan object_name
example_planned = refl

plan-Apart_example : Apart lower example_targets
plan-Apart_example =
    plan-Apart lower (codes "p/") (codes "p/strategy.py" ∷ codes "p/config.json" ∷ []) none
      example_targets example_planned
