-- ===== src/Pairing/Input.antt =====
-- What `_normalise` promises of its fills (src/services/trade_pairing.py).
use Prim.Native.String.{String}
use mqs_backtest_visualizer.Prelude.{
  ℕ, suc, ◌+◌, ◌<◌, ◌≡◌, refl, Bool, true, false, Option, none, some, List, [], ◌∷◌, arith,
  if◌then◌else◌, length, All, inl, inr, ok, err, Result-cases, subst, ◌∙◌,
}
use mqs_backtest_visualizer.Prelude.Int.{pos, leb_ℤ}
use mqs_backtest_visualizer.Prelude.Sort.{
  sort, IsSorted, sort-IsSorted, All-sort, length-sort, IsTotal,
}
use mqs_backtest_visualizer.Pairing.Fill.{
  Value, Fill, RawFill, Parsers, Zone, shares_key, read_number, read_ticker, normalise_one,
  normalise_from, normalise, before_key, push,
}

before_key-IsTotal : IsTotal before_key
before_key-IsTotal a b h = ground arith

abbrev pub is_named : String → Bool
is_named String.[] = false
is_named (String.◌∷◌ c s) = true

-- A fill that the pairing can use: it moves more than the tolerance, of a ticker with a name.
abbrev pub Usable : ℕ → Fill → Type 0
Usable eps fill = (eps < fill.quantity) × (is_named fill.ticker ≡ true)

read_ticker-named :
    (index : ℕ) (value : Value) (t : String) → read_ticker index value ≡ ok t → is_named t ≡ true
unfolding read_ticker
read_ticker-named index (Value.string String.[]) t h = cc
read_ticker-named index (Value.string (String.◌∷◌ c s)) t h = ground arith
read_ticker-named index value t h = cc

module _ (parsers : Parsers) (zone : Option Zone) (eps : ℕ) where
  -- How many raw fills have more shares than the tolerance.
  abbrev pub moving : ℕ → List RawFill → ℕ
  moving index [] = 0
  moving index (raw ∷ raws) = elim (read_number parsers shares_key index raw.shares) [
    | ok q ↦ if leb_ℤ q (pos eps) then moving (suc index) raws else suc (moving (suc index) raws)
    | err e ↦ moving (suc index) raws
  ]

  one-Usable :
      (index : ℕ) (raw : RawFill) (fill : Fill)
      → normalise_one parsers zone eps index raw ≡ ok (some fill)
      → Usable eps fill
  unfolding normalise_one
  one-Usable index raw fill h = ground (arith, read_ticker-named index raw.ticker fill.ticker)

  -- A fill is left out exactly if its shares are within the tolerance.
  one-moving :
      (index : ℕ) (raw : RawFill) (raws : List RawFill) (one : Option Fill)
      → normalise_one parsers zone eps index raw ≡ ok one
      → moving index (raw ∷ raws) ≡ length (push one []) + moving (suc index) raws
  unfolding normalise_one
  one-moving index raw raws none h = ground arith
  one-moving index raw raws (some fill) h = ground arith

  pushed-Usable :
      (index : ℕ) (raw : RawFill) (raws : List RawFill) (one : Option Fill) (rest : List Fill)
      → normalise_one parsers zone eps index raw ≡ ok one
      → All (Usable eps) rest × (length rest ≡ moving (suc index) raws)
      → All (Usable eps) (push one rest) × (length (push one rest) ≡ moving index (raw ∷ raws))
  pushed-Usable index raw raws none rest e h =
      (h.0, omega (arith, h.1, one-moving index raw raws none e))
  pushed-Usable index raw raws (some fill) rest e h = (
    (one-Usable index raw fill e, h.0),
    omega (arith, h.1, one-moving index raw raws (some fill) e),
  )

  from_Usable :
      (index : ℕ) (raws : List RawFill) (fills : List Fill)
      → normalise_from parsers zone eps index raws ≡ ok fills
      → All (Usable eps) fills × (length fills ≡ moving index raws)
  unfolding normalise_from
  from_Usable index [] fills h =
      let e : [] ≡ fills = cc in subst (λ l. All (Usable eps) l × (length l ≡ 0)) e (tt, refl)
  from_Usable index (raw ∷ raws) fills h =
      elim (Result-cases (normalise_one parsers zone eps index raw)) [
        | inl (one, e) ↦ elim (Result-cases (normalise_from parsers zone eps (suc index) raws)) [
          | inl (rest, r) ↦
              let same : push one rest ≡ fills = ground arith in
              subst (λ l. All (Usable eps) l × (length l ≡ moving index (raw ∷ raws))) same
                (pushed-Usable index raw raws one rest e (from_Usable (suc index) raws rest r))
          | inr (f, r) ↦ absurd (ground arith)
        ]
        | inr (f, e) ↦ absurd (ground arith)
      ]

  -- Accepted fills come in the order of their times, each moves more than the tolerance and names its
  -- ticker, and none is lost: there are as many as raw fills with more shares than the tolerance.
  pub normalise_sound :
      (raws : List RawFill) (fills : List Fill)
      → normalise parsers zone eps raws ≡ ok fills
      → IsSorted before_key fills × All (Usable eps) fills × (length fills ≡ moving 0 raws)
  unfolding normalise
  normalise_sound raws fills h = elim (Result-cases (normalise_from parsers zone eps 0 raws)) [
    | inl (read, e) ↦
        let same : sort before_key read ≡ fills = ground arith in
        let (usable, count) = from_Usable 0 raws read e in
        subst (λ l. IsSorted before_key l × All (Usable eps) l × (length l ≡ moving 0 raws)) same
          (
            sort-IsSorted before_key before_key-IsTotal read,
            All-sort before_key (Usable eps) read usable,
            length-sort before_key read ∙ count,
          )
    | inr (f, e) ↦ absurd (ground arith)
  ]
