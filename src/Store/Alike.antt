-- ===== src/Store/Alike.antt =====
-- The disk-backed and the bucket-backed store hold the same files (src/integrations/strategy_store.py).
use mqs_backtest_visualizer.Prelude.{
  ◌≡◌, refl, sym, ap, subst, ◌∙◌, ◌↔◌, inl, inr, Bool, true, false, Bool-cases, Option, some,
  Option-cases, List, [], ◌∷◌, ◌++◌, ◌&&◌, Result, ok, err, arith, if◌then◌else◌,
}
use mqs_backtest_visualizer.Prelude.Text.{Text, same_text, same_text_iff, same_text_refl}
use mqs_backtest_visualizer.Store.Paths.{same_parts}
use mqs_backtest_visualizer.Store.Bucket.{Bucket, content_type_for, put, get}
use mqs_backtest_visualizer.Store.Objects.{
  Serves, Address, object_of, held, get-held, put-object, same_text-object,
}
use mqs_backtest_visualizer.Store.Disk.{
  Disk, DiskTrouble, file_at, write_file, prefixes, any_file, has_parts, put_at, put_file, get_at,
  get_file,
}

same_parts_eq : (ps qs : List Text) → same_parts ps qs ≡ true → ps ≡ qs
same_parts_eq [] [] h = refl
same_parts_eq (p ∷ ps) (q ∷ qs) h = grind (arith, same_text_iff p q, same_parts_eq ps qs)
same_parts_eq [] (q ∷ qs) h = cc
same_parts_eq (p ∷ ps) [] h = cc

same_parts_refl : (ps : List Text) → same_parts ps ps ≡ true
same_parts_refl [] = refl
same_parts_refl (p ∷ ps) = rw (same_text_refl p) (same_parts_refl ps)

no_parts_left : (qs : List Text) (n : Text) → same_parts [] (qs ++ (n ∷ [])) ≡ false
no_parts_left [] n = refl
no_parts_left (q ∷ qs) n = refl

no_parts_right : (ps : List Text) (m : Text) → same_parts (ps ++ (m ∷ [])) [] ≡ false
no_parts_right [] m = refl
no_parts_right (p ∷ ps) m = refl

same_parts-file :
    (ps qs : List Text) (m n : Text)
    → same_parts (ps ++ (m ∷ [])) (qs ++ (n ∷ [])) ≡ same_parts ps qs && same_text m n
same_parts-file [] [] m n = ground arith
same_parts-file [] (q ∷ qs) m n = rw (no_parts_left qs n) (ground arith)
same_parts-file (p ∷ ps) [] m n = rw (no_parts_right ps m) (ground arith)
same_parts-file (p ∷ ps) (q ∷ qs) m n = ground (arith, same_parts-file ps qs m n)

not_both : (b : Bool) → b ≡ true → b ≡ false → ⊥
not_both b h k = cc

file_at-write_file :
    (p q : List Text) (t : Text) (files : List (List Text × Text))
    → file_at q (write_file p t files) ≡ (if same_parts p q then some t else file_at q files)
file_at-write_file p q t [] = refl
file_at-write_file p q t ((r, u) ∷ files) = elim (Bool-cases (same_parts r p)) [
  | inl e ↦
      let alike : same_parts r q ≡ same_parts p q =
        ap (λ x. same_parts x q) (same_parts_eq r p e) in
      elim (Bool-cases (same_parts p q)) [ inl f ↦ rw (e, f) refl | inr f ↦ rw (e, alike, f) refl ]
  | inr e ↦ elim (Bool-cases (same_parts r q)) [
    | inl f ↦
        let apart : same_parts p q ≡ false = elim (Bool-cases (same_parts p q)) [
          | inr g ↦ g
          | inl g ↦ absurd (
              not_both (same_parts r p)
                (subst (λ x. same_parts r x ≡ true) (sym (same_parts_eq p q g)) f) e)
        ] in
        rw (e, f, apart) refl
    | inr f ↦ rw (e, f) (file_at-write_file p q t files)
  ]
]

abbrev pub raises : Result DiskTrouble (Unit {0}) → Bool
raises (ok u) = false
raises (err e) = true

put_at-blocked :
    (d : Disk) (parts : List Text) (name content : Text)
    → any_file (prefixes parts) d.files ≡ true
    → raises (put_at d parts name content).1 ≡ true
put_at-blocked d parts name content e = rw e refl

put_at-directory :
    (d : Disk) (parts : List Text) (name content : Text)
    → any_file (prefixes parts) d.files ≡ false
    → has_parts (parts ++ (name ∷ [])) d.directories ≡ true
    → raises (put_at d parts name content).1 ≡ true
put_at-directory d parts name content e f = rw (e, f) refl

-- A write that raises nothing puts the file, and only it.
put_at-files :
    (d : Disk) (parts : List Text) (name content : Text)
    → raises (put_at d parts name content).1 ≡ false
    → (put_at d parts name content).0.files ≡ write_file (parts ++ (name ∷ [])) content d.files
put_at-files d parts name content h = elim (Bool-cases (any_file (prefixes parts) d.files)) [
  | inl e ↦ absurd (not_both _ (put_at-blocked d parts name content e) h)
  | inr e ↦ elim (Bool-cases (has_parts (parts ++ (name ∷ [])) d.directories)) [
    | inl f ↦ absurd (not_both _ (put_at-directory d parts name content e f) h)
    | inr f ↦ rw (e, f) refl
  ]
]

put_file-address :
    (d : Disk) (key filename content : Text) (a : Address key filename)
    → put_file d key filename content ≡ put_at d a.segments filename content
unfolding put_file
put_file-address d key filename content a = rw (put_file, a.key_ok, a.name_ok) refl

get_file-address :
    (d : Disk) (key filename : Text) (a : Address key filename)
    → get_file d key filename ≡ get_at d (a.segments ++ (filename ∷ [])) (key ++ filename)
unfolding get_file
get_file-address d key filename a = rw (get_file, a.key_ok, a.name_ok) refl

get_at-ok :
    (d : Disk) (path : List Text) (asked t : Text)
    → (get_at d path asked ≡ ok t) ↔ (file_at path d.files ≡ some t)
get_at-ok d path asked t = elim (Option-cases (file_at path d.files)) [
  | inr (u, e) ↦ rw (get_at, e) (λ h. cc, λ h. cc)
  | inl e ↦ elim (Bool-cases (has_parts path d.directories)) [
    | inl f ↦ rw (get_at, e, f) (λ h. cc, λ h. cc)
    | inr f ↦ rw (get_at, e, f) (λ h. cc, λ h. cc)
  ]
]

module _ {S : Type 0} (bucket : Bucket S) (holds : S → Text → Option Text)
    (serves : Serves bucket holds) (prefix : Text) where
  held-ok :
      (s : S) (asked object t : Text)
      → (held bucket holds serves prefix s asked object ≡ ok t) ↔ (holds s object ≡ some t)
  held-ok s asked object t = elim (Option-cases (holds s object)) [
    | inl e ↦ rw (held, e) (λ h. cc, λ h. cc)
    | inr (u, e) ↦ rw (held, e) (λ h. cc, λ h. cc)
  ]

  -- Under every key and name that the stores take, they have the same text or none.
  abbrev pub SameFiles : Disk → S → Type 0
  SameFiles d s =
      (key filename : Text) (b : Address key filename)
      → file_at (b.segments ++ (filename ∷ [])) d.files
        ≡ holds s (object_of prefix b.segments filename)

  -- What one store reads, the other reads.
  abbrev pub ReadAlike : Disk → S → Type 0
  ReadAlike d s =
      (key filename : Text) (b : Address key filename) (t : Text)
      → (get_file d key filename ≡ ok t) ↔ (get bucket prefix s key filename ≡ ok t)

  SameFiles-ReadAlike : (d : Disk) (s : S) → SameFiles d s → ReadAlike d s
  SameFiles-ReadAlike d s same key filename b t =
      let object = object_of prefix b.segments filename in
      let on_disk = get_at-ok d (b.segments ++ (filename ∷ [])) (key ++ filename) t in
      let in_bucket = held-ok s (key ++ filename) object t in
      rw (get_file-address d key filename b, get-held bucket holds serves prefix s key filename b)
        (
          λ h. in_bucket.1 (sym (same key filename b) ∙ on_disk.0 h),
          λ h. on_disk.1 (same key filename b ∙ in_bucket.0 h),
        )

  -- While both stores hold the same files, a put that raises nothing on disk leaves them holding
  -- the same files, and then what one of them reads the other reads, too.
  pub put-ReadAlike :
      (d : Disk) (s : S) (key filename content : Text) (a : Address key filename)
      → SameFiles d s
      → raises (put_file d key filename content).1 ≡ false
      → SameFiles (put_file d key filename content).0 (put bucket prefix s key filename content).0
        × ReadAlike (put_file d key filename content).0 (put bucket prefix s key filename content).0
  put-ReadAlike d s key filename content a same quiet =
      let object = object_of prefix a.segments filename in
      let type = content_type_for object in
      let stored = put_file-address d key filename content a in
      let files =
        put_at-files d a.segments filename content (subst (λ r. raises r.1 ≡ false) stored quiet) in
      let still : SameFiles (put_file d key filename content).0
          (put bucket prefix s key filename content).0 =
        λ key' filename' b.
          rw
            (
              stored,
              files,
              put-object bucket holds serves prefix s key filename content a,
              file_at-write_file (a.segments ++ (filename ∷ [])) (b.segments ++ (filename' ∷ []))
                  content d.files,
              same_parts-file a.segments b.segments filename filename',
              serves.put_holds s object content type (object_of prefix b.segments filename'),
              same_text-object prefix key filename key' filename' a b,
              same key' filename' b,
            )
            refl in
      (
        still,
        SameFiles-ReadAlike (put_file d key filename content).0
            (put bucket prefix s key filename content).0 still,
      )
