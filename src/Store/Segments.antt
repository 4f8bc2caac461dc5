-- ===== src/Store/Segments.antt =====
-- `_key_segments` (src/integrations/strategy_store.py) and the key that its segments make again.
use mqs_backtest_visualizer.Prelude.{
  ℕ, ◌≡◌, refl, sym, ap, subst, ◌∙◌, inl, inr, true, false, Bool-cases, List, [], ◌∷◌, ◌++◌, ok,
  arith, All, List-cases,
}
use mqs_backtest_visualizer.Prelude.Text.{Text}
use mqs_backtest_visualizer.Store.Names.{
  slash, is_slash, some_parts, key_segments, keep_nonempty, split, onto_first, lstrip, rstrip,
  strip, directory,
}
use mqs_backtest_visualizer.Store.Paths.{
  Component, Component-Slashless, Slashless, key_segments-Component, some_parts-same,
}

abbrev first_part : List Text → Text
first_part [] = []
first_part (t ∷ ts) = t

abbrev other_parts : List Text → List Text
other_parts [] = []
other_parts (t ∷ ts) = ts

-- Two splits that differ in empty parts after the first.
abbrev Alike : List Text → List Text → Type 0
Alike xs ys =
    (first_part xs ≡ first_part ys)
    × (keep_nonempty (other_parts xs) ≡ keep_nonempty (other_parts ys))

keep-first :
    (p : Text) (ps qs : List Text)
    → keep_nonempty ps ≡ keep_nonempty qs
    → keep_nonempty (p ∷ ps) ≡ keep_nonempty (p ∷ qs)
keep-first [] ps qs h = h
keep-first (c ∷ cs) ps qs h = rw h refl

Alike-keep : (xs ys : List Text) → Alike xs ys → keep_nonempty xs ≡ keep_nonempty ys
Alike-keep [] [] h = refl
Alike-keep [] (q ∷ qs) h = rw (sym h.0) h.1
Alike-keep (p ∷ ps) [] h = rw h.0 h.1
Alike-keep (p ∷ ps) (q ∷ qs) h = rw h.0 (keep-first q ps qs h.1)

Alike-onto_first :
    (c : ℕ) (xs ys : List Text) → Alike xs ys → Alike (onto_first c xs) (onto_first c ys)
Alike-onto_first c [] [] h = (refl, refl)
Alike-onto_first c [] (q ∷ qs) h = (rw (sym h.0) refl, h.1)
Alike-onto_first c (p ∷ ps) [] h = (rw h.0 refl, h.1)
Alike-onto_first c (p ∷ ps) (q ∷ qs) h = (rw h.0 refl, h.1)

split-slash : (c : ℕ) (cs : Text) → is_slash c ≡ true → split (c ∷ cs) ≡ [] ∷ split cs
split-slash c cs e = rw e refl

split-other : (c : ℕ) (cs : Text) → is_slash c ≡ false → split (c ∷ cs) ≡ onto_first c (split cs)
split-other c cs e = rw e refl

Alike-rstrip : (t : Text) → Alike (split (rstrip is_slash t)) (split t)
Alike-rstrip [] = (refl, refl)
Alike-rstrip (c ∷ cs) = elim (Bool-cases (is_slash c)) [
  | inr e ↦
      rw (e, split-other c (rstrip is_slash cs) e)
        (Alike-onto_first c (split (rstrip is_slash cs)) (split cs) (Alike-rstrip cs))
  | inl e ↦
      let same = Alike-keep (split (rstrip is_slash cs)) (split cs) (Alike-rstrip cs) in
      elim (List-cases (rstrip is_slash cs)) [
        | inl f ↦
            rw (e, f) (refl, subst (λ r. keep_nonempty (split r) ≡ keep_nonempty (split cs)) f same)
        | inr (d, ds, f) ↦
            rw (e, f, e)
              (refl, subst (λ r. keep_nonempty (split r) ≡ keep_nonempty (split cs)) f same)
      ]
]

keep-lstrip : (t : Text) → keep_nonempty (split (lstrip is_slash t)) ≡ keep_nonempty (split t)
keep-lstrip [] = refl
keep-lstrip (c ∷ cs) = elim (Bool-cases (is_slash c)) [
  | inl e ↦ rw e (keep-lstrip cs)
  | inr e ↦ rw (e, split-other c cs e) refl
]

-- The slashes around a key make no part of it.
keep-strip : (t : Text) → keep_nonempty (split (strip is_slash t)) ≡ keep_nonempty (split t)
keep-strip t =
    Alike-keep (split (rstrip is_slash (lstrip is_slash t))) (split (lstrip is_slash t))
      (Alike-rstrip (lstrip is_slash t))
    ∙ keep-lstrip t

split-part : (p rest : Text) → Slashless p → split (p ++ (slash ∷ rest)) ≡ p ∷ split rest
split-part [] rest h = refl
split-part (c ∷ p) rest h =
    let plain : is_slash c ≡ false = ground arith in
    rw (plain, split-part p rest (ground arith)) refl

keep-directory : (ps : List Text) → All Component ps → keep_nonempty (split (directory ps)) ≡ ps
keep-directory [] h = refl
keep-directory ([] ∷ ps) h = absurd (nothing h.0.0)
  where
    nothing : true ≡ false → ⊥
    nothing e = cc
keep-directory ((c ∷ p) ∷ ps) h =
    rw
      (split-part (c ∷ p) (directory ps) (Component-Slashless (c ∷ p) h.0.1), keep-directory ps h.1)
      refl

-- The segments that a key has make a key again, each with a slash after it, and that key has the same
-- segments.
pub key_segments-directory :
    (key : Text) (ps : List Text) → key_segments key ≡ ok ps → key_segments (directory ps) ≡ ok ps
unfolding key_segments
key_segments-directory key ps h =
    let components = (key_segments-Component key ps h).0 in
    let ts = keep_nonempty (split (strip is_slash key)) in
    let same : ts ≡ ps = some_parts-same ts ps h in
    let again : keep_nonempty (split (strip is_slash (directory ps))) ≡ ps =
      keep-strip (directory ps) ∙ keep-directory ps components in
    ap some_parts (again ∙ sym same) ∙ h
