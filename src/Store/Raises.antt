-- ===== src/Store/Raises.antt =====
-- The exceptions of the parts of the bucket-backed store (src/integrations/strategy_store.py): of
-- keys and names, of the translation, of a listing and of a read.
use mqs_backtest_visualizer.Prelude.{
  ◌≡◌, refl, ap, subst, inl, inr, Bool, true, false, Bool-cases, Option, none, some, List, [], ◌∷◌,
  ◌&&◌, not, Result, ok, err, Result-cases, if◌then◌else◌,
}
use mqs_backtest_visualizer.Prelude.Text.{Text, codes, same_text, same_text_iff, is_prefix}
use mqs_backtest_visualizer.Store.Names.{
  Trouble, missing_object, store_error, object_name, is_unsafe, check_names, some_parts,
  key_segments, keep_nonempty, split, strip, is_slash, prefix_for, object_key,
}
use mqs_backtest_visualizer.Store.Bucket.{
  Bucket, ContentType, Failure, client_error, key_error, sdk_error, system_error, other_error,
  translate, yielded, found_one, is_marker, read_text, named_missing, end_of_sweep,
}

abbrev pub is_missing : Trouble → Bool
is_missing (missing_object t) = true
is_missing _ = false

abbrev pub raises_missing {ℓ} : {A : Type ℓ} → Result Trouble A → Bool
raises_missing (ok a) = false
raises_missing (err trouble) = is_missing trouble

object_name-error : (t : Text) → raises_missing (object_name t) ≡ false
unfolding object_name
object_name-error t = elim (Bool-cases (is_unsafe t)) [
  | inl e ↦ rw (object_name, e) refl
  | inr e ↦ rw (object_name, e) refl
]

check_names-error : (parts ts : List Text) → raises_missing (check_names parts ts) ≡ false
check_names-error parts [] = refl
check_names-error parts (t ∷ ts) = elim (Result-cases (object_name t)) [
  | inl (name, e) ↦ rw (check_names, e) (check_names-error parts ts)
  | inr (trouble, e) ↦
      rw (check_names, e) (subst (λ r. raises_missing r ≡ false) e (object_name-error t))
]

some_parts-error : (ts : List Text) → raises_missing (some_parts ts) ≡ false
some_parts-error [] = refl
some_parts-error (t ∷ ts) = check_names-error (t ∷ ts) (t ∷ ts)

key_segments-error : (key : Text) → raises_missing (key_segments key) ≡ false
unfolding key_segments
key_segments-error key = some_parts-error (keep_nonempty (split (strip is_slash key)))

pub prefix_for-error : (prefix key : Text) → raises_missing (prefix_for prefix key) ≡ false
prefix_for-error prefix key = elim (Result-cases (key_segments key)) [
  | inl (ps, e) ↦ rw e refl
  | inr (trouble, e) ↦ rw e (subst (λ r. raises_missing r ≡ false) e (key_segments-error key))
]

pub object_key-error :
    (prefix key filename : Text) → raises_missing (object_key prefix key filename) ≡ false
object_key-error prefix key filename = elim (Result-cases (key_segments key)) [
  | inl (ps, e) ↦ elim (Result-cases (object_name filename)) [
    | inl (name, f) ↦ rw (e, f) refl
    | inr (trouble, f) ↦
        rw (e, f) (subst (λ r. raises_missing r ≡ false) f (object_name-error filename))
  ]
  | inr (trouble, e) ↦ rw e (subst (λ r. raises_missing r ≡ false) e (key_segments-error key))
]

-- Whether a call of the bucket raised a `KeyError` of its own.
abbrev pub is_key_error : Failure → Bool
is_key_error (key_error name) = true
is_key_error _ = false

abbrev pub raised_key_error {ℓ} : {A : Type ℓ} → Result Failure A → Bool
raised_key_error (ok a) = false
raised_key_error (err f) = is_key_error f

abbrev pub ended_by_key_error : Option Failure → Bool
ended_by_key_error none = false
ended_by_key_error (some f) = is_key_error f

-- The calls of the SDK raise its own errors and those of the system, and their answers have the entries
-- that the store reads, so that no `KeyError` comes from them.
pub record RaisesNoKeyError {S : Type 0} (bucket : Bucket S) : Type 0 where
  pub put_raises :
      (s : S) (k t : Text) (c : ContentType)
      → raised_key_error (bucket.put_object s k t c).1 ≡ false
  pub get_raises : (s : S) (k : Text) → raised_key_error (bucket.get_object s k) ≡ false
  pub list_raises : (s : S) (p : Text) → ended_by_key_error (bucket.list_objects s p).1 ≡ false
  pub delete_raises :
      (s : S) (ks : List Text) → raised_key_error (bucket.delete_objects s ks).1 ≡ false

pub translate-error :
    (f : Failure) (object : Text)
    → is_key_error f ≡ false
    → is_missing (translate f object false) ≡ false
unfolding translate
translate-error (client_error code) object h = refl
translate-error (key_error name) object h = cc
translate-error sdk_error object h = refl
translate-error system_error object h = refl
translate-error other_error object h = refl

missing_if :
    (b : Bool) (asked object : Text)
    → is_missing (named_missing asked (if b then missing_object object else store_error object))
      ≡ true
    → b ≡ true
missing_if true asked object h = refl
missing_if false asked object h = cc

translate-missing :
    (f : Failure) (asked object : Text)
    → is_key_error f ≡ false
    → is_missing (named_missing asked (translate f object true)) ≡ true
    → f ≡ client_error (codes "NoSuchKey")
unfolding translate
translate-missing (client_error code) asked object k h = ap client_error (
    (same_text_iff code (codes "NoSuchKey")).0
      (missing_if (same_text code (codes "NoSuchKey")) asked object h))
translate-missing (key_error name) asked object k h = cc
translate-missing sdk_error asked object k h = cc
translate-missing system_error asked object k h = cc
translate-missing other_error asked object k h = cc

abbrev pub trouble_missing : Option Trouble → Bool
trouble_missing none = false
trouble_missing (some trouble) = is_missing trouble

pub yielded-error :
    (under : Text) (markers : Bool) (ks : List Text) (f : Option Failure)
    → ended_by_key_error f ≡ false
    → trouble_missing (yielded under markers ks f).1 ≡ false
yielded-error under markers [] none h = refl
yielded-error under markers [] (some f) h = translate-error f under h
yielded-error under markers (k ∷ ks) f h = elim (Bool-cases (is_prefix under k)) [
  | inl e ↦ elim (Bool-cases (not markers && is_marker k)) [
    | inl skip ↦ rw (e, skip) (yielded-error under markers ks f h)
    | inr keep ↦ rw (e, keep) (yielded-error under markers ks f h)
  ]
  | inr e ↦ rw e refl
]

pub found_one-error :
    (ks : List Text) (trouble : Option Trouble)
    → trouble_missing trouble ≡ false
    → raises_missing (found_one ks trouble) ≡ false
found_one-error [] none h = refl
found_one-error [] (some trouble) h = h
found_one-error (k ∷ ks) trouble h = refl

pub end_of_sweep-error :
    (under : Text) (ks : List Text) → raises_missing (end_of_sweep under ks) ≡ false
end_of_sweep-error under [] = refl
end_of_sweep-error under (k ∷ ks) = refl

pub read_text-missing :
    (asked object : Text) (answer : Result Failure Text)
    → raised_key_error answer ≡ false
    → raises_missing (read_text asked object answer) ≡ true
    → answer ≡ err (client_error (codes "NoSuchKey"))
read_text-missing asked object (ok content) k h = cc
read_text-missing asked object (err f) k h = ap err (translate-missing f asked object k h)

pub not_both : (trouble : Trouble) → is_missing trouble ≡ false → is_missing trouble ≡ true → ⊥
not_both trouble h k = cc
