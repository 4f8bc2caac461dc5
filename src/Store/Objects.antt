-- ===== src/Store/Objects.antt =====
-- The bucket-backed store (src/integrations/strategy_store.py, `S3StrategyStore`) as a map from
-- segments and names to texts: what is put is got, and what is deleted is gone, and nothing else
-- changes.
use mqs_backtest_visualizer.Prelude.{
  ◌≤◌, ◌≡◌, refl, ◌∙◌, inl, inr, Bool, true, false, Option, none, some, Option-cases, List, [], ◌∷◌,
  ◌++◌, ◌&&◌, Result, ok, err, All, length, if◌then◌else◌,
}
use mqs_backtest_visualizer.Prelude.Text.{Text, codes, same_text, same_text_refl, is_prefix}
use mqs_backtest_visualizer.Store.Names.{
  Trouble, missing_object, object_name, key_segments, prefix_for, object_key, directory, has_text,
}
use mqs_backtest_visualizer.Store.Paths.{
  Component, Component-Slashless, Slashless, starts_with, same_parts, object_name-Component,
  key_segments-Component, same_text-directory, is_prefix-directory, same_text-append,
  is_prefix-append,
}
use mqs_backtest_visualizer.Store.Bucket.{
  Bucket, ContentType, client_error, translate, content_type_for, put, get,
}

abbrev pub is_some : Option Text → Bool
is_some none = false
is_some (some t) = true

-- What a bucket that can be reached documents, of the objects it holds: it answers every call, a read
-- finds what was written last, a listing has the keys with the prefix, and a request deletes up to a
-- thousand keys.
pub record Serves {S : Type 0} (bucket : Bucket S) (holds : S → Text → Option Text) : Type 0 where
  pub put_answers : (s : S) (k t : Text) (c : ContentType) → (bucket.put_object s k t c).1 ≡ ok tt
  pub put_holds :
      (s : S) (k t : Text) (c : ContentType) (j : Text)
      → holds (bucket.put_object s k t c).0 j ≡ (if same_text k j then some t else holds s j)
  pub get_found : (s : S) (k t : Text) → holds s k ≡ some t → bucket.get_object s k ≡ ok t
  pub get_absent :
      (s : S) (k : Text)
      → holds s k ≡ none
      → bucket.get_object s k ≡ err (client_error (codes "NoSuchKey"))
  pub list_answers : (s : S) (p : Text) → (bucket.list_objects s p).1 ≡ none
  pub list_has :
      (s : S) (p k : Text)
      → has_text k (bucket.list_objects s p).0 ≡ is_prefix p k && is_some (holds s k)
  pub delete_answers :
      (s : S) (ks : List Text) → length ks ≤ 1000 → (bucket.delete_objects s ks).1 ≡ ok []
  pub delete_holds :
      (s : S) (ks : List Text) (k : Text)
      → length ks ≤ 1000
      → holds (bucket.delete_objects s ks).0 k ≡ (if has_text k ks then none else holds s k)

-- A key and a file name that the store takes, with the segments.
pub record Address (key filename : Text) : Type 0 where
  pub segments : List Text
  pub key_ok : key_segments key ≡ ok segments
  pub name_ok : object_name filename ≡ ok filename

abbrev pub object_of : Text → List Text → Text → Text
object_of prefix segments filename = (prefix ++ directory segments) ++ filename

All-Slashless : (ps : List Text) → All Component ps → All Slashless ps
All-Slashless [] h = tt
All-Slashless (p ∷ ps) h = (Component-Slashless p h.0.1, All-Slashless ps h.1)

object_key-address :
    (prefix key filename : Text) (a : Address key filename)
    → object_key prefix key filename ≡ ok (object_of prefix a.segments filename)
object_key-address prefix key filename a = rw (a.key_ok, a.name_ok) refl

pub prefix_for-key :
    (prefix key : Text) (ps : List Text)
    → key_segments key ≡ ok ps
    → prefix_for prefix key ≡ ok (prefix ++ directory ps)
prefix_for-key prefix key ps e = rw e refl

append_assoc_text : (a b c : Text) → (a ++ b) ++ c ≡ a ++ (b ++ c)
append_assoc_text [] b c = refl
append_assoc_text (x ∷ a) b c = rw (append_assoc_text a b c) refl

name-Slashless : (key filename : Text) → Address key filename → Slashless filename
name-Slashless key filename a =
    Component-Slashless filename (object_name-Component filename filename a.name_ok).1.1

segments-Slashless : (key filename : Text) (a : Address key filename) → All Slashless a.segments
segments-Slashless key filename a =
    All-Slashless a.segments (key_segments-Component key a.segments a.key_ok).0

-- Two addresses have one object exactly if their segments and names are the same.
pub same_text-object :
    (prefix key filename key' filename' : Text) (a : Address key filename)
    (b : Address key' filename')
    → same_text (object_of prefix a.segments filename) (object_of prefix b.segments filename')
      ≡ same_parts a.segments b.segments && same_text filename filename'
same_text-object prefix key filename key' filename' a b =
    rw
      (
        append_assoc_text prefix (directory a.segments) filename,
        append_assoc_text prefix (directory b.segments) filename',
        same_text-append prefix (directory a.segments ++ filename)
            (directory b.segments ++ filename'),
      )
      (same_text-directory a.segments b.segments filename filename'
        (segments-Slashless key filename a) (segments-Slashless key' filename' b)
        (name-Slashless key filename a) (name-Slashless key' filename' b))

pub is_prefix-object :
    (prefix key filename : Text) (ps : List Text) (b : Address key filename)
    → All Component ps
    → is_prefix (prefix ++ directory ps) (object_of prefix b.segments filename)
      ≡ starts_with ps b.segments
is_prefix-object prefix key filename ps b h =
    rw
      (
        append_assoc_text prefix (directory b.segments) filename,
        is_prefix-append prefix (directory ps) (directory b.segments ++ filename),
      )
      (is_prefix-directory ps b.segments filename (All-Slashless ps h)
        (segments-Slashless key filename b) (name-Slashless key filename b))

module _ {S : Type 0} (bucket : Bucket S) (holds : S → Text → Option Text)
    (serves : Serves bucket holds) (prefix : Text) where
  abbrev pub held : S → Text → Text → Result Trouble Text
  held s asked object = elim (holds s object) [ none ↦ err (missing_object asked) | some t ↦ ok t ]

  -- `get` reads what the bucket holds.
  pub get-held :
      (s : S) (key filename : Text) (a : Address key filename)
      → get bucket prefix s key filename
        ≡ held s (key ++ filename) (object_of prefix a.segments filename)
  unfolding get translate
  get-held s key filename a = elim (Option-cases (holds s (object_of prefix a.segments filename))) [
    | inl e ↦
        rw
          (
            get,
            object_key-address prefix key filename a,
            serves.get_absent s (object_of prefix a.segments filename) e,
            held,
            e,
          )
          refl
    | inr (t, e) ↦
        rw
          (
            get,
            object_key-address prefix key filename a,
            serves.get_found s (object_of prefix a.segments filename) t e,
            held,
            e,
          )
          refl
  ]

  pub put-object :
      (s : S) (key filename content : Text) (a : Address key filename)
      → let object = object_of prefix a.segments filename in
        put bucket prefix s key filename content
        ≡ ((bucket.put_object s object content (content_type_for object)).0, ok tt)
  unfolding put
  put-object s key filename content a =
      let object = object_of prefix a.segments filename in
      rw
        (
          put,
          object_key-address prefix key filename a,
          serves.put_answers s object content (content_type_for object),
        )
        refl

  -- What `put` stores is what `get` reads, whatever was there before, and `get` of another key or name
  -- reads what it read.
  pub put-get :
      (s : S) (key filename content : Text) (a : Address key filename)
      → ((put bucket prefix s key filename content).1 ≡ ok tt)
        × (get bucket prefix (put bucket prefix s key filename content).0 key filename ≡ ok content)
        × ((key' filename' : Text) (b : Address key' filename')
            → same_parts a.segments b.segments && same_text filename filename' ≡ false
            → get bucket prefix (put bucket prefix s key filename content).0 key' filename'
              ≡ get bucket prefix s key' filename')
  put-get s key filename content a =
      let object = object_of prefix a.segments filename in
      let type = content_type_for object in
      let after = (bucket.put_object s object content type).0 in
      let own : holds after object ≡ some content =
        rw (serves.put_holds s object content type object, same_text_refl object) refl in
      rw (put-object s key filename content a) (
        refl,
        rw (get-held after key filename a, held, own) refl,
        λ key' filename' b other.
            let apart = same_text-object prefix key filename key' filename' a b ∙ other in
            let kept =
              serves.put_holds s object content type (object_of prefix b.segments filename') in
            rw (get-held after key' filename' b, get-held s key' filename' b, held, kept, apart)
              refl,
      )
