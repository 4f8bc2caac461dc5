-- ===== src/Store/Paths.antt =====
-- The keys of the bucket's objects (src/integrations/strategy_store.py, `_object_key`): the
-- segments of a key and the file name can be read back from them, and a prefix ends where a segment
-- does.
use mqs_backtest_visualizer.Prelude.{
  ℕ, ==_iff, ◌≡◌, ◌≢◌, refl, sym, subst, ◌∙◌, inl, inr, Bool, true, false, List, [], ◌∷◌, ◌++◌,
  ◌&&◌, ◌||◌, not, Result, ok, err, Result-cases, arith, All, if◌then◌else◌,
}
use mqs_backtest_visualizer.Prelude.Text.{Text, same_text, is_prefix}
use mqs_backtest_visualizer.Store.Names.{
  Trouble, invalid_name, slash, is_slash, is_forbidden, any_code, is_empty, ends_with_dot,
  is_unsafe, object_name, check_names, some_parts, key_segments, keep_nonempty, split, is_space,
  has_text, device_of, windows_devices, strip, directory,
}

-- A text without a slash.
abbrev pub Slashless : Text → Type 0
Slashless t = any_code is_slash t ≡ false

-- What makes one component of a path: something, without a separator, a drive's colon or a control
-- character, and not one of the names that walk a directory.
abbrev pub Component : Text → Type 0
Component t = (is_empty t ≡ false) × (any_code is_forbidden t ≡ false) × (ends_with_dot t ≡ false)

pub Component-Slashless : (t : Text) → any_code is_forbidden t ≡ false → Slashless t
Component-Slashless [] h = refl
Component-Slashless (c ∷ cs) h = ground (arith, Component-Slashless cs)

none_true :
    (a b c d e : Bool) → a || b || c || d || e ≡ false → (a ≡ false) × (c ≡ false) × (d ≡ false)
none_true a b c d e h = ground arith

safe-Component : (t : Text) → is_unsafe t ≡ false → Component t
safe-Component t h =
    let (something, whole, plain) =
      none_true (is_empty t) (not (same_text t (strip is_space t))) (ends_with_dot t)
        (any_code is_forbidden t) (has_text (device_of t) windows_devices) h in
    (something, plain, whole)

abbrev named : Bool → Text → Result Trouble Text
named unsafe t = if unsafe then err (invalid_name t) else ok t

named-ok :
    (unsafe : Bool) (t name : Text) → named unsafe t ≡ ok name → (unsafe ≡ false) × (t ≡ name)
named-ok true t name h = cc
named-ok false t name h = (refl, cc)

pub object_name-Component : (t name : Text) → object_name t ≡ ok name → (t ≡ name) × Component name
unfolding object_name
object_name-Component t name h =
    let (safe, kept) = named-ok (is_unsafe t) t name h in
    (kept, subst Component kept (safe-Component t safe))

check_names-named :
    (parts : List Text) (t : Text) (ts : List Text) (name : Text)
    → object_name t ≡ ok name
    → check_names parts (t ∷ ts) ≡ check_names parts ts
check_names-named parts t ts name e = rw (e, check_names) refl

check_names-refused :
    (parts : List Text) (t : Text) (ts : List Text) (trouble : Trouble)
    → object_name t ≡ err trouble
    → check_names parts (t ∷ ts) ≡ err trouble
check_names-refused parts t ts trouble e = rw (e, check_names) refl

abbrev refusal : Trouble → Result Trouble (List Text)
refusal trouble = err trouble

no_parts : (trouble : Trouble) (ps : List Text) → refusal trouble ≡ ok ps → ⊥
no_parts trouble ps h = cc

check_names-Component :
    (parts ts ps : List Text) → check_names parts ts ≡ ok ps → All Component ts × (parts ≡ ps)
check_names-Component parts [] ps h = (tt, cc)
check_names-Component parts (t ∷ ts) ps h = elim (Result-cases (object_name t)) [
  | inl (name, e) ↦
      let (kept, one) = object_name-Component t name e in
      let (rest, same) =
        check_names-Component parts ts ps (sym (check_names-named parts t ts name e) ∙ h) in
      ((subst Component (sym kept) one, rest), same)
  | inr (trouble, e) ↦
      absurd (no_parts trouble ps (sym (check_names-refused parts t ts trouble e) ∙ h))
]

some_parts-Component : (ts ps : List Text) → some_parts ts ≡ ok ps → All Component ps × (ps ≢ [])
some_parts-Component [] ps h = cc
some_parts-Component (t ∷ ts) ps h =
    let (all, same) = check_names-Component (t ∷ ts) (t ∷ ts) ps h in
    (subst (All Component) same all, λ none_left. absurd (no_first t ts (same ∙ none_left)))
  where
    no_first : (t : Text) (ts : List Text) → t ∷ ts ≡ [] → ⊥
    no_first t ts e = cc

pub some_parts-same : (ts ps : List Text) → some_parts ts ≡ ok ps → ts ≡ ps
some_parts-same [] ps h = cc
some_parts-same (t ∷ ts) ps h = (check_names-Component (t ∷ ts) (t ∷ ts) ps h).1

-- Every segment that an accepted key has is one component of a path, and there is one at least.
pub key_segments-Component :
    (key : Text) (ps : List Text) → key_segments key ≡ ok ps → All Component ps × (ps ≢ [])
unfolding key_segments
key_segments-Component key ps h =
    some_parts-Component (keep_nonempty (split (strip is_slash key))) ps h

-- The segments of one key are the first of another's.
abbrev pub starts_with : List Text → List Text → Bool
starts_with [] qs = true
starts_with (p ∷ ps) [] = false
starts_with (p ∷ ps) (q ∷ qs) = same_text p q && starts_with ps qs

abbrev pub same_parts : List Text → List Text → Bool
same_parts [] [] = true
same_parts (p ∷ ps) (q ∷ qs) = same_text p q && same_parts ps qs
same_parts _ _ = false

same_text-slash :
    (p q a b : Text)
    → Slashless p
    → Slashless q
    → same_text (p ++ (slash ∷ a)) (q ++ (slash ∷ b)) ≡ same_text p q && same_text a b
same_text-slash [] [] a b h k = refl
same_text-slash [] (d ∷ q) a b h k = ground arith
same_text-slash (c ∷ p) [] a b h k = ground arith
same_text-slash (c ∷ p) (d ∷ q) a b h k = ground (arith, same_text-slash p q a b)

is_prefix-slash :
    (p q a b : Text)
    → Slashless p
    → Slashless q
    → is_prefix (p ++ (slash ∷ a)) (q ++ (slash ∷ b)) ≡ same_text p q && is_prefix a b
is_prefix-slash [] [] a b h k = refl
is_prefix-slash [] (d ∷ q) a b h k = ground arith
is_prefix-slash (c ∷ p) [] a b h k = ground arith
is_prefix-slash (c ∷ p) (d ∷ q) a b h k = ground (arith, is_prefix-slash p q a b)

same_text-file : (p a n : Text) → Slashless n → same_text (p ++ (slash ∷ a)) n ≡ false
same_text-file [] a [] h = refl
same_text-file [] a (d ∷ n) h = ground arith
same_text-file (c ∷ p) a [] h = refl
same_text-file (c ∷ p) a (d ∷ n) h = ground (arith, same_text-file p a n)

is_prefix-file : (p a n : Text) → Slashless n → is_prefix (p ++ (slash ∷ a)) n ≡ false
is_prefix-file [] a [] h = refl
is_prefix-file [] a (d ∷ n) h = ground arith
is_prefix-file (c ∷ p) a [] h = refl
is_prefix-file (c ∷ p) a (d ∷ n) h = ground (arith, is_prefix-file p a n)

same_text_sym : (s t : Text) → same_text s t ≡ same_text t s
same_text_sym [] [] = refl
same_text_sym (c ∷ cs) (d ∷ ds) = ground (arith, same_text_sym cs ds)
same_text_sym [] (d ∷ ds) = refl
same_text_sym (c ∷ cs) [] = refl

append_assoc : (p a b : Text) (c : ℕ) → (p ++ (c ∷ a)) ++ b ≡ p ++ (c ∷ (a ++ b))
append_assoc [] a b c = refl
append_assoc (d ∷ p) a b c = rw (append_assoc p a b c) refl

-- Two objects have one key exactly if they have the same segments and the same name.
pub same_text-directory :
    (ps qs : List Text) (m n : Text)
    → All Slashless ps
    → All Slashless qs
    → Slashless m
    → Slashless n
    → same_text (directory ps ++ m) (directory qs ++ n) ≡ same_parts ps qs && same_text m n
same_text-directory [] [] m n hp hq hm hn = refl
same_text-directory [] (q ∷ qs) m n hp hq hm hn =
    rw (append_assoc q (directory qs) n slash, same_text_sym m (q ++ (slash ∷ (directory qs ++ n))))
      (same_text-file q (directory qs ++ n) m hm)
same_text-directory (p ∷ ps) [] m n hp hq hm hn =
    rw (append_assoc p (directory ps) m slash) (same_text-file p (directory ps ++ m) n hn)
same_text-directory (p ∷ ps) (q ∷ qs) m n hp hq hm hn =
    rw
      (
        append_assoc p (directory ps) m slash,
        append_assoc q (directory qs) n slash,
        same_text-slash p q (directory ps ++ m) (directory qs ++ n) hp.0 hq.0,
        same_text-directory ps qs m n hp.1 hq.1 hm hn,
      )
      (ground arith)

-- An object lies under a key exactly if its segments begin with the key's: a prefix ends at a slash.
pub is_prefix-directory :
    (ps qs : List Text) (n : Text)
    → All Slashless ps
    → All Slashless qs
    → Slashless n
    → is_prefix (directory ps) (directory qs ++ n) ≡ starts_with ps qs
is_prefix-directory [] qs n hp hq hn = refl
is_prefix-directory (p ∷ ps) [] n hp hq hn = is_prefix-file p (directory ps) n hn
is_prefix-directory (p ∷ ps) (q ∷ qs) n hp hq hn =
    rw
      (
        append_assoc q (directory qs) n slash,
        is_prefix-slash p q (directory ps) (directory qs ++ n) hp.0 hq.0,
        is_prefix-directory ps qs n hp.1 hq.1 hn,
      )
      refl

pub same_text-append : (p a b : Text) → same_text (p ++ a) (p ++ b) ≡ same_text a b
same_text-append [] a b = refl
same_text-append (c ∷ p) a b = rw ((==_iff c c).1 refl) (same_text-append p a b)

pub is_prefix-append : (p a b : Text) → is_prefix (p ++ a) (p ++ b) ≡ is_prefix a b
is_prefix-append [] a b = refl
is_prefix-append (c ∷ p) a b = rw ((==_iff c c).1 refl) (is_prefix-append p a b)
