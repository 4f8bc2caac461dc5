-- ===== src/Store/Sweep.antt =====
-- `S3StrategyStore.delete` (src/integrations/strategy_store.py): the sweep of a prefix in batches.
use mqs_backtest_visualizer.Prelude.{
  ℕ, zero, suc, ◌≤◌, ◌≡◌, refl, inl, inr, Bool, true, false, Bool-cases, Option, none, some, List,
  [], ◌∷◌, ◌++◌, ◌&&◌, ◌||◌, ok, err, arith, length, if◌then◌else◌,
}
use mqs_backtest_visualizer.Prelude.Text.{Text, same_text_refl, is_prefix, take, drop}
use mqs_backtest_visualizer.Store.Names.{missing_object, key_segments, directory, has_text}
use mqs_backtest_visualizer.Store.Paths.{starts_with, key_segments-Component}
use mqs_backtest_visualizer.Store.Bucket.{Bucket, delete_batch, get, exists, delete, sweep, yielded}
use mqs_backtest_visualizer.Store.Objects.{
  Serves, Address, is_some, object_of, held, get-held, prefix_for-key, is_prefix-object,
}

has_text-split :
    (n : ℕ) (k : Text) (ks : List Text)
    → has_text k ks ≡ has_text k (take n ks) || has_text k (drop n ks)
has_text-split zero k ks = refl
has_text-split (suc n) k [] = refl
has_text-split (suc n) k (j ∷ ks) = ground (arith, has_text-split n k ks)

length-take_le : (n : ℕ) (ks : List Text) → length (take n ks) ≤ n
length-take_le zero ks = omega arith
length-take_le (suc n) [] = omega arith
length-take_le (suc n) (k ∷ ks) = omega (arith, length-take_le n ks)

length-drop_le : (n : ℕ) (ks : List Text) → length (drop n ks) ≤ length ks
length-drop_le zero ks = omega arith
length-drop_le (suc n) [] = omega arith
length-drop_le (suc n) (k ∷ ks) = omega (arith, length-drop_le n ks)

yielded-all :
    (under : Text) (keys : List Text)
    → ((k : Text) → has_text k keys ≡ true → is_prefix under k ≡ true)
    → yielded under true keys none ≡ (keys, none)
yielded-all under [] h = refl
yielded-all under (k ∷ ks) h =
    let first = h k (rw (same_text_refl k) refl) in
    let rest = yielded-all under ks (λ j e. h j (rw e (ground arith))) in rw (rest, first) refl

no_text : (keys : List Text) → ((k : Text) → has_text k keys ≡ false) → keys ≡ []
no_text [] h = refl
no_text (k ∷ ks) h = absurd (found k ks (h k))
  where
    found : (k : Text) (ks : List Text) → has_text k (k ∷ ks) ≡ false → ⊥
    found k ks e = ground (arith, same_text_refl k)

either_batch :
    (a b : Bool) (x y : Option Text)
    → (if b then x else if a then x else y) ≡ (if a || b then x else y)
either_batch true true x y = refl
either_batch true false x y = refl
either_batch false b x y = refl

module _ {S : Type 0} (bucket : Bucket S) (holds : S → Text → Option Text)
    (serves : Serves bucket holds) (prefix : Text) where
  -- The batches delete every key, and nothing else.
  sweep-holds :
      (turns : ℕ) (under : Text) (s : S) (keys : List Text)
      → length keys ≤ turns
      → ((sweep bucket prefix turns under s keys []).1 ≡ ok tt)
        × ((k : Text)
            → holds (sweep bucket prefix turns under s keys []).0 k
              ≡ (if has_text k keys then none else holds s k))
  unfolding sweep
  sweep-holds zero under s [] h = (refl, λ k. refl)
  sweep-holds zero under s (k ∷ keys) h = absurd (omega arith)
  sweep-holds (suc turns) under s [] h = (refl, λ k. refl)
  sweep-holds (suc turns) under s (k ∷ keys) h =
      let batch = take delete_batch (k ∷ keys) in
      let others = drop delete_batch (k ∷ keys) in
      let small : length batch ≤ 1000 = length-take_le 1000 (k ∷ keys) in
      let after = (bucket.delete_objects s batch).0 in
      let fewer : length others ≤ turns = omega (arith, length-drop_le 999 keys, h) in
      let (done, rest) = sweep-holds turns under after others fewer in
      rw (sweep, serves.delete_answers s batch small)
        (
          done,
          λ j.
              rw (rest j, has_text-split 1000 j (k ∷ keys), serves.delete_holds s batch j small)
                (either_batch (has_text j batch) (has_text j others) none (holds s j)),
        )

  -- The keys that are listed are those of the objects under the prefix.
  listed-under :
      (s : S) (under k : Text)
      → has_text k (bucket.list_objects s under).0 ≡ true
      → is_prefix under k ≡ true
  listed-under s under k e = ground (arith, serves.list_has s under k)

  delete-sweep :
      (s : S) (key : Text) (ps : List Text)
      → key_segments key ≡ ok ps
      → let under = prefix ++ directory ps in
        let keys = (bucket.list_objects s under).0 in
        delete bucket prefix s key ≡ sweep bucket prefix (length keys) under s keys []
  unfolding delete
  delete-sweep s key ps e =
      let under = prefix ++ directory ps in
      let keys = (bucket.list_objects s under).0 in
      rw
        (
          delete,
          prefix_for-key prefix key ps e,
          serves.list_answers s under,
          yielded-all under keys (listed-under s under),
        )
        refl

  -- After `delete` no object is left under the key, and the others are as they were.
  delete-holds :
      (s : S) (key : Text) (ps : List Text)
      → key_segments key ≡ ok ps
      → ((delete bucket prefix s key).1 ≡ ok tt)
        × ((k : Text)
            → holds (delete bucket prefix s key).0 k
              ≡ (if is_prefix (prefix ++ directory ps) k then none else holds s k))
  delete-holds s key ps e =
      let under = prefix ++ directory ps in
      let keys = (bucket.list_objects s under).0 in
      let (done, left) = sweep-holds (length keys) under s keys (omega arith) in
      rw (delete-sweep s key ps e)
        (done, λ k. rw (left k, serves.list_has s under k) (kept (is_prefix under k) (holds s k)))
    where
      kept :
          (b : Bool) (o : Option Text)
          → (if b && is_some o then none else o) ≡ (if b then none else o)
      kept true none = refl
      kept true (some t) = refl
      kept false o = refl

  -- A prefix under which the bucket holds nothing has no key listed.
  nothing-listed :
      (s : S) (under : Text)
      → ((k : Text) → is_prefix under k ≡ true → holds s k ≡ none)
      → (bucket.list_objects s under).0 ≡ []
  nothing-listed s under h = no_text (bucket.list_objects s under).0 absent
    where
      absent : (k : Text) → has_text k (bucket.list_objects s under).0 ≡ false
      absent k = elim (Bool-cases (is_prefix under k)) [
        | inl e ↦ rw (serves.list_has s under k, e, h k e) refl
        | inr e ↦ rw (serves.list_has s under k, e) refl
      ]

  exists-nothing :
      (s : S) (key : Text) (ps : List Text)
      → key_segments key ≡ ok ps
      → ((k : Text) → is_prefix (prefix ++ directory ps) k ≡ true → holds s k ≡ none)
      → exists bucket prefix s key ≡ ok false
  unfolding exists
  exists-nothing s key ps e h =
      let under = prefix ++ directory ps in
      rw
        (
          exists,
          prefix_for-key prefix key ps e,
          serves.list_answers s under,
          nothing-listed s under h,
        )
        refl

  -- `delete` succeeds; then `exists` answers no, `get` of a file whose segments begin with the
  -- key's misses it, and `get` of any other reads what it read.
  pub delete-get :
      (s : S) (key : Text) (ps : List Text)
      → key_segments key ≡ ok ps
      → ((delete bucket prefix s key).1 ≡ ok tt)
        × (exists bucket prefix (delete bucket prefix s key).0 key ≡ ok false)
        × ((key' filename' : Text) (b : Address key' filename')
            → get bucket prefix (delete bucket prefix s key).0 key' filename' ≡ (
                if starts_with ps b.segments
                then err (missing_object (key' ++ filename'))
                else get bucket prefix s key' filename'))
  delete-get s key ps e =
      let (done, left) = delete-holds s key ps e in
      let after = (delete bucket prefix s key).0 in
      let components = (key_segments-Component key ps e).0 in
      (
        done,
        exists-nothing after key ps e (λ k under. rw (left k, under) refl),
        λ key' filename' b.
            let object = object_of prefix b.segments filename' in
            rw
              (
                get-held bucket holds serves prefix after key' filename' b,
                get-held bucket holds serves prefix s key' filename' b,
                held,
                left object,
                is_prefix-object prefix key' filename' ps b components,
              )
              (elim (Bool-cases (starts_with ps b.segments)) [
                | inl t ↦ rw t refl
                | inr f ↦ rw (f, held) refl
              ]),
      )
