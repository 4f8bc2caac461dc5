-- ===== src/Prelude/Dict.antt =====
-- A Python dict keyed by numbers, in insertion order.
use mqs_backtest_visualizer.Prelude.{
  ℕ, ◌≡◌, refl, Bool, false, Option, none, some, List, [], ◌∷◌, arith, ◌==◌, if◌then◌else◌,
}

abbrev pub Dict {ℓ} : Type ℓ → Type ℓ
Dict V = List (ℕ × V)

module _ {ℓ} {V : Type ℓ} where
  abbrev pub lookup : ℕ → Dict V → Option V
  lookup k [] = none
  lookup k ((j, v) ∷ d) = if k == j then some v else lookup k d

  -- `d[k] = v`
  abbrev pub insert : ℕ → V → Dict V → Dict V
  insert k v [] = (k, v) ∷ []
  insert k v ((j, w) ∷ d) = if k == j then (k, v) ∷ d else (j, w) ∷ insert k v d

  -- `d.pop(k, None)`
  abbrev pub erase : ℕ → Dict V → Dict V
  erase k [] = []
  erase k ((j, w) ∷ d) = if k == j then d else (j, w) ∷ erase k d

  -- the entries that a loop of `del` keeps
  abbrev pub keep : (V → Bool) → Dict V → Dict V
  keep p [] = []
  keep p ((j, w) ∷ d) = if p w then (j, w) ∷ keep p d else keep p d

  -- the values changed in place
  abbrev pub map_values : (V → V) → Dict V → Dict V
  map_values f [] = []
  map_values f ((j, w) ∷ d) = (j, f w) ∷ map_values f d

  abbrev pub keep_if : (V → Bool) → Option V → Option V
  keep_if p none = none
  keep_if p (some v) = if p v then some v else none

  -- No key is listed twice.
  abbrev pub Unique : Dict V → Type ℓ
  Unique [] = Unit
  Unique ((k, v) ∷ d) = (lookup k d ≡ none) × Unique d

  pub lookup-insert :
      (k j : ℕ) (v : V) (d : Dict V)
      → lookup j (insert k v d) ≡ (if j == k then some v else lookup j d)
  lookup-insert k j v [] = ground arith
  lookup-insert k j v ((i, w) ∷ d) = ground (arith, lookup-insert k j v d)

  pub lookup-erase_ne :
      (k j : ℕ) (d : Dict V) → (j == k) ≡ false → lookup j (erase k d) ≡ lookup j d
  lookup-erase_ne k j [] h = refl
  lookup-erase_ne k j ((i, w) ∷ d) h = ground (arith, lookup-erase_ne k j d h)

  pub lookup-erase_self : (k : ℕ) (d : Dict V) → Unique d → lookup k (erase k d) ≡ none
  lookup-erase_self k [] h = refl
  lookup-erase_self k ((i, w) ∷ d) h = ground (arith, lookup-erase_self k d h.1)

  lookup-keep-none :
      (p : V → Bool) (k : ℕ) (d : Dict V) → lookup k d ≡ none → lookup k (keep p d) ≡ none
  lookup-keep-none p k [] h = refl
  lookup-keep-none p k ((i, w) ∷ d) h = ground (arith, lookup-keep-none p k d)

  pub lookup-keep :
      (p : V → Bool) (k : ℕ) (d : Dict V) → Unique d → lookup k (keep p d) ≡ keep_if p (lookup k d)
  lookup-keep p k [] h = refl
  lookup-keep p k ((i, w) ∷ d) h = ground (arith, lookup-keep p k d h.1, lookup-keep-none p k d)

  pub insert-Unique : (k : ℕ) (v : V) (d : Dict V) → Unique d → Unique (insert k v d)
  insert-Unique k v [] h = (refl, tt)
  insert-Unique k v ((i, w) ∷ d) h = ground (arith, insert-Unique k v d h.1, lookup-insert k i v d)

  pub erase-Unique : (k : ℕ) (d : Dict V) → Unique d → Unique (erase k d)
  erase-Unique k [] h = tt
  erase-Unique k ((i, w) ∷ d) h = ground (arith, erase-Unique k d h.1, lookup-erase_ne k i d)

  pub keep-Unique : (p : V → Bool) (d : Dict V) → Unique d → Unique (keep p d)
  keep-Unique p [] h = tt
  keep-Unique p ((i, w) ∷ d) h = ground (arith, keep-Unique p d h.1, lookup-keep-none p i d)

  abbrev pub map_option : (V → V) → Option V → Option V
  map_option f none = none
  map_option f (some v) = some (f v)

  pub lookup-map_values :
      (f : V → V) (k : ℕ) (d : Dict V) → lookup k (map_values f d) ≡ map_option f (lookup k d)
  lookup-map_values f k [] = refl
  lookup-map_values f k ((i, w) ∷ d) = ground (arith, lookup-map_values f k d)

  pub map_values-Unique : (f : V → V) (d : Dict V) → Unique d → Unique (map_values f d)
  map_values-Unique f [] h = tt
  map_values-Unique f ((i, w) ∷ d) h =
      ground (arith, map_values-Unique f d h.1, lookup-map_values f i d)

-- A property of every entry that is found.
abbrev pub Holds {ℓ κ} : {V : Type ℓ} → (ℕ → V → Type κ) → Dict V → Type (ℓ ⊔ κ)
Holds {V = V} P d = (k : ℕ) (v : V) → lookup k d ≡ some v → P k v
