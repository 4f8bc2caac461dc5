-- ===== src/Store/Errors.antt =====
-- Where the bucket-backed store raises a `KeyError` (src/integrations/strategy_store.py).
use mqs_backtest_visualizer.Prelude.{
  ℕ, zero, suc, ◌≡◌, refl, sym, ap, subst, ◌∙◌, inl, inr, true, false, Option, none, some, List, [],
  ◌∷◌, ◌++◌, ok, err, Result-cases, length,
}
use mqs_backtest_visualizer.Prelude.Text.{Text, codes, take, drop}
use mqs_backtest_visualizer.Store.Names.{Trouble, prefix_for, object_key}
use mqs_backtest_visualizer.Store.Bucket.{
  Bucket, client_error, content_type_for, delete_batch, put, get, exists, delete, sweep,
  sweep_listed, list_keys, read_text,
}
use mqs_backtest_visualizer.Store.Raises.{
  raises_missing, raised_key_error, trouble_missing, RaisesNoKeyError, prefix_for-error,
  object_key-error, translate-error, yielded-error, found_one-error, end_of_sweep-error,
  read_text-missing, not_both,
}

module _ {S : Type 0} (bucket : Bucket S) (prefix : Text) (no_key : RaisesNoKeyError bucket) where
  sweep-error :
      (turns : ℕ) (under : Text) (s : S) (keys failures : List Text)
      → raises_missing (sweep bucket prefix turns under s keys failures).1 ≡ false
  unfolding sweep
  sweep-error zero under s keys failures = end_of_sweep-error under failures
  sweep-error (suc turns) under s [] failures = end_of_sweep-error under failures
  sweep-error (suc turns) under s (k ∷ keys) failures =
      let answer = bucket.delete_objects s (take delete_batch (k ∷ keys)) in
      elim (Result-cases answer.1) [
        | inl (failed, e) ↦
            rw (sweep, e)
              (sweep-error turns under answer.0 (drop delete_batch (k ∷ keys)) (failures ++ failed))
        | inr (f, e) ↦
            let h = no_key.delete_raises s (take delete_batch (k ∷ keys)) in
            rw (sweep, e) (translate-error f under (subst (λ r. raised_key_error r ≡ false) e h))
      ]

  put-error :
      (s : S) (key filename content : Text)
      → raises_missing (put bucket prefix s key filename content).1 ≡ false
  unfolding put
  put-error s key filename content = elim (Result-cases (object_key prefix key filename)) [
    | inr (trouble, e) ↦
        rw (put, e) (subst (λ r. raises_missing r ≡ false) e (object_key-error prefix key filename))
    | inl (object, e) ↦
        elim (Result-cases (bucket.put_object s object content (content_type_for object)).1) [
          | inl (u, f) ↦ rw (put, e, f) refl
          | inr (failure, f) ↦
              let h = no_key.put_raises s object content (content_type_for object) in
              rw (put, e, f)
                (translate-error failure object (subst (λ r. raised_key_error r ≡ false) f h))
        ]
  ]

  exists-error : (s : S) (key : Text) → raises_missing (exists bucket prefix s key) ≡ false
  unfolding exists
  exists-error s key = elim (Result-cases (prefix_for prefix key)) [
    | inr (trouble, e) ↦
        rw (exists, e) (subst (λ r. raises_missing r ≡ false) e (prefix_for-error prefix key))
    | inl (under, e) ↦
        let (keys, trouble) = list_keys bucket prefix s under false in
        rw (exists, e)
          (found_one-error keys trouble (
            yielded-error under false (bucket.list_objects s under).0
              (bucket.list_objects s under).1 (no_key.list_raises s under)))
  ]

  sweep_listed-error :
      (s : S) (under : Text) (keys : List Text) (trouble : Option Trouble)
      → trouble_missing trouble ≡ false
      → raises_missing (sweep_listed bucket prefix s under keys trouble).1 ≡ false
  sweep_listed-error s under keys none h = sweep-error (length keys) under s keys []
  sweep_listed-error s under keys (some trouble) h = h

  delete-error : (s : S) (key : Text) → raises_missing (delete bucket prefix s key).1 ≡ false
  unfolding delete
  delete-error s key = elim (Result-cases (prefix_for prefix key)) [
    | inr (trouble, e) ↦
        rw (delete, e) (subst (λ r. raises_missing r ≡ false) e (prefix_for-error prefix key))
    | inl (under, e) ↦
        let (keys, trouble) = list_keys bucket prefix s under true in
        rw (delete, e)
          (sweep_listed-error s under keys trouble (
            yielded-error under true (bucket.list_objects s under).0 (bucket.list_objects s under).1
              (no_key.list_raises s under)))
  ]

  get-refused :
      (s : S) (key filename : Text) (trouble : Trouble)
      → object_key prefix key filename ≡ err trouble
      → get bucket prefix s key filename ≡ err trouble
  unfolding get
  get-refused s key filename trouble e = rw (get, e) refl

  get-asked :
      (s : S) (key filename object : Text)
      → object_key prefix key filename ≡ ok object
      → get bucket prefix s key filename
        ≡ read_text (key ++ filename) object (bucket.get_object s object)
  unfolding get
  get-asked s key filename object e = rw (get, e) refl

  get-missing :
      (s : S) (key filename : Text)
      → raises_missing (get bucket prefix s key filename) ≡ true
      → (object : Text) × (object_key prefix key filename ≡ ok object)
        × (bucket.get_object s object ≡ err (client_error (codes "NoSuchKey")))
  get-missing s key filename h = elim (Result-cases (object_key prefix key filename)) [
    | inr (trouble, e) ↦ absurd (
        not_both trouble
          (subst (λ r. raises_missing r ≡ false) e (object_key-error prefix key filename))
          (sym (ap raises_missing (get-refused s key filename trouble e)) ∙ h))
    | inl (object, e) ↦ (
      object,
      e,
      read_text-missing (key ++ filename) object (bucket.get_object s object)
          (no_key.get_raises s object)
          (sym (ap raises_missing (get-asked s key filename object e)) ∙ h),
    )
  ]

  -- If the bucket's calls raise no `KeyError` of their own, then whatever else they answer or
  -- raise, `put`, `exists` and `delete` raise none, and `get` raises one only for a key and a name
  -- that the store takes, where the service says that there is no such key.
  pub missing_from_reads_only :
      (s : S) (key filename content : Text)
      → (raises_missing (put bucket prefix s key filename content).1 ≡ false)
        × (raises_missing (exists bucket prefix s key) ≡ false)
        × (raises_missing (delete bucket prefix s key).1 ≡ false)
        × (raises_missing (get bucket prefix s key filename) ≡ true
            → (object : Text) × (object_key prefix key filename ≡ ok object)
              × (bucket.get_object s object ≡ err (client_error (codes "NoSuchKey"))))
  missing_from_reads_only s key filename content = (
    put-error s key filename content,
    exists-error s key,
    delete-error s key,
    get-missing s key filename,
  )
