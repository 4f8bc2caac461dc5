-- ===== src/Store/Bucket.antt =====
-- The bucket-backed store (src/integrations/strategy_store.py, `S3StrategyStore`) over a bucket
-- whose calls are a parameter: each gives the state of the bucket after it and an answer or an
-- exception. What the bucket holds is read as text; encoding and decoding belong to its calls.
use mqs_backtest_visualizer.Prelude.{
  ℕ, zero, suc, ◌+◌, leb, Bool, true, false, Option, none, some, List, [], ◌∷◌, ◌++◌, ◌&&◌, ◌||◌,
  not, Result, ok, err, length, if◌then◌else◌,
}
use mqs_backtest_visualizer.Prelude.Text.{Text, codes, same_text, is_prefix, take, drop}
use mqs_backtest_visualizer.Store.Names.{
  Trouble, missing_object, store_error, programming_error, is_slash, prefix_for, object_key,
}

-- what a call raises: an error of the service with its code, an error of the SDK, an `OSError` or
-- `UnicodeError`, a `KeyError` with its text, as for an answer without an entry, or anything else
pub data Failure : Type 0 where
  client_error : Text → Failure
  key_error : Text → Failure
  sdk_error system_error other_error : Failure

pub data ContentType : Type 0 where
  python_text json plain_text : ContentType

pub record Bucket (S : Type 0) : Type 0 where
  pub put_object : S → Text → Text → ContentType → S × Result Failure (Unit {0})
  pub get_object : S → Text → Result Failure Text
  -- the keys with a prefix, over all pages, and the exception that ends them early
  pub list_objects : S → Text → List Text × Option Failure
  -- the keys that could not be deleted
  pub delete_objects : S → List Text → S × Result Failure (List Text)

-- `_translate`; an exception of another kind stays what it is, a `KeyError` included
unfoldable pub translate : Failure → Text → Bool → Trouble
translate (client_error code) object missing =
    if missing && same_text code (codes "NoSuchKey")
    then missing_object object
    else store_error object
translate (key_error name) object missing = missing_object name
translate sdk_error object missing = store_error object
translate system_error object missing = store_error object
translate other_error object missing = programming_error

abbrev pub lower_code : ℕ → ℕ
lower_code c = if leb 65 c && leb c 90 then c + 32 else c

abbrev pub lower : Text → Text
lower [] = []
lower (c ∷ cs) = lower_code c ∷ lower cs

abbrev pub ends_with : Text → Text → Bool
ends_with ending [] = same_text ending []
ends_with ending (c ∷ cs) = same_text ending (c ∷ cs) || ends_with ending cs

-- `_content_type_for`
unfoldable pub content_type_for : Text → ContentType
content_type_for object =
    if ends_with (codes ".py") (lower object)
    then python_text
    else if ends_with (codes ".json") (lower object)
    then json
    else plain_text

abbrev pub is_marker : Text → Bool
is_marker [] = false
is_marker (c ∷ []) = is_slash c
is_marker (c ∷ d ∷ cs) = is_marker (d ∷ cs)

-- the keys that `_list_keys` yields, and what it raises after them
abbrev pub yielded : Text → Bool → List Text → Option Failure → List Text × Option Trouble
yielded prefix markers [] none = ([], none)
yielded prefix markers [] (some failure) = ([], some (translate failure prefix false))
yielded prefix markers (k ∷ ks) failure =
    let rest = yielded prefix markers ks failure in
    if not (is_prefix prefix k)
    then ([], some (store_error prefix))
    else if not markers && is_marker k
    then rest
    else (k ∷ rest.0, rest.1)

abbrev pub delete_batch : ℕ
delete_batch = 1000

-- the answer of `exists` to what is yielded
abbrev pub found_one : List Text → Option Trouble → Result Trouble Bool
found_one [] none = ok false
found_one [] (some trouble) = err trouble
found_one (k ∷ ks) trouble = ok true

abbrev pub answered {ℓ} : {A : Type ℓ} → Text → Result Failure A → Result Trouble A
answered object (ok a) = ok a
answered object (err failure) = err (translate failure object false)

-- the `KeyError` of `get` names the key and the file
abbrev pub named_missing : Text → Trouble → Trouble
named_missing asked (missing_object object) = missing_object asked
named_missing asked trouble = trouble

abbrev pub read_text : Text → Text → Result Failure Text → Result Trouble Text
read_text asked object (ok content) = ok content
read_text asked object (err failure) = err (named_missing asked (translate failure object true))

abbrev pub end_of_sweep : Text → List Text → Result Trouble (Unit {0})
end_of_sweep prefix [] = ok tt
end_of_sweep prefix (k ∷ failures) = err (store_error prefix)

module _ {S : Type 0} (bucket : Bucket S) (prefix : Text) where
  -- `_list_keys` of a key whose prefix is given
  abbrev pub list_keys : S → Text → Bool → List Text × Option Trouble
  list_keys s under markers =
      let (keys, failure) = bucket.list_objects s under in yielded under markers keys failure

  unfoldable pub put : S → Text → Text → Text → S × Result Trouble (Unit {0})
  put s key filename content = elim (object_key prefix key filename) [
    | err e ↦ (s, err e)
    | ok object ↦
        let (after, answer) = bucket.put_object s object content (content_type_for object) in
        (after, answered object answer)
  ]

  unfoldable pub get : S → Text → Text → Result Trouble Text
  get s key filename = elim (object_key prefix key filename) [
    | err e ↦ err e
    | ok object ↦ read_text (key ++ filename) object (bucket.get_object s object)
  ]

  unfoldable pub exists : S → Text → Result Trouble Bool
  exists s key = elim (prefix_for prefix key) [
    | err e ↦ err e
    | ok under ↦ let (keys, trouble) = list_keys s under false in found_one keys trouble
  ]

  -- The loop over the batches, with the failures collected; a key is a turn enough, since a batch
  -- takes one or more.
  unfoldable pub sweep : ℕ → Text → S → List Text → List Text → S × Result Trouble (Unit {0})
  sweep zero under s keys failures = (s, end_of_sweep under failures)
  sweep (suc turns) under s [] failures = (s, end_of_sweep under failures)
  sweep (suc turns) under s (k ∷ keys) failures =
      let (after, answer) = bucket.delete_objects s (take delete_batch (k ∷ keys)) in
      elim answer [
        | err failure ↦ (after, err (translate failure under false))
        | ok failed ↦ sweep turns under after (drop delete_batch (k ∷ keys)) (failures ++ failed)
      ]

  abbrev pub sweep_listed : S → Text → List Text → Option Trouble → S × Result Trouble (Unit {0})
  sweep_listed s under keys none = sweep (length keys) under s keys []
  sweep_listed s under keys (some trouble) = (s, err trouble)

  unfoldable pub delete : S → Text → S × Result Trouble (Unit {0})
  delete s key = elim (prefix_for prefix key) [
    | err e ↦ (s, err e)
    | ok under ↦ let (keys, trouble) = list_keys s under true in sweep_listed s under keys trouble
  ]
