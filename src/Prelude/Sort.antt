-- ===== src/Prelude/Sort.antt =====
-- A stable sort by a Boolean order, as Python's `list.sort` with a key: its result is the stable
-- rearrangement in order, whatever algorithm finds it.
use mqs_backtest_visualizer.Prelude.{
  suc, ◌≡◌, refl, Bool, true, false, List, [], ◌∷◌, arith, if◌then◌else◌, All, length, Bool-cases,
  inl, inr, subst, sym,
}
use mathlib.Core.List.{Memᴰ}

module _ {ℓ} {A : Type ℓ} (before : A → A → Bool) where
  unfoldable pub insert : A → List A → List A
  insert a [] = a ∷ []
  insert a (b ∷ bs) = if before a b then a ∷ b ∷ bs else b ∷ insert a bs

  unfoldable pub sort : List A → List A
  unfolding insert
  sort [] = []
  sort (a ∷ as') = insert a (sort as')

  -- Each element is in order with the next.
  abbrev pub IsSorted : List A → Type 0
  IsSorted [] = Unit
  IsSorted (a ∷ []) = Unit
  IsSorted (a ∷ b ∷ bs) = (before a b ≡ true) × IsSorted (b ∷ bs)

  -- Of two elements one may stand before the other.
  abbrev pub IsTotal : Type ℓ
  IsTotal = (a b : A) → before a b ≡ false → before b a ≡ true

  pub insert-IsSorted : IsTotal → (a : A) (bs : List A) → IsSorted bs → IsSorted (insert a bs)
  unfolding insert
  insert-IsSorted total a [] h = tt
  insert-IsSorted total a (b ∷ []) h = ground (arith, total a b)
  insert-IsSorted total a (b ∷ c ∷ bs) h =
      ground (arith, total a b, insert-IsSorted total a (c ∷ bs) h.1)

  pub sort-IsSorted : IsTotal → (as' : List A) → IsSorted (sort as')
  unfolding sort
  sort-IsSorted total [] = tt
  sort-IsSorted total (a ∷ as') = insert-IsSorted total a (sort as') (sort-IsSorted total as')

module _ {ℓ κ} {A : Type ℓ} (before : A → A → Bool) (P : A → Type κ) where
  pub All-insert : (a : A) (bs : List A) → P a → All P bs → All P (insert before a bs)
  unfolding insert
  All-insert a [] h k = (h, k)
  All-insert a (b ∷ bs) h k = elim (Bool-cases (before a b)) [
    | inl e ↦ rw e (h, k)
    | inr e ↦ rw e (k.0, All-insert a bs h k.1)
  ]

  pub All-sort : (as' : List A) → All P as' → All P (sort before as')
  unfolding sort
  All-sort [] h = tt
  All-sort (a ∷ as') h = All-insert a (sort before as') h.0 (All-sort as' h.1)

module _ {ℓ} {A : Type ℓ} (before : A → A → Bool) where
  length-insert : (a : A) (bs : List A) → length (insert before a bs) ≡ suc (length bs)
  unfolding insert
  length-insert a [] = refl
  length-insert a (b ∷ bs) = ground (arith, length-insert a bs)

  pub length-sort : (as' : List A) → length (sort before as') ≡ length as'
  unfolding sort
  length-sort [] = refl
  length-sort (a ∷ as') = ground (arith, length-insert a (sort before as'), length-sort as')

  insert_here : (a b : A) (bs : List A) → before a b ≡ true → insert before a (b ∷ bs) ≡ a ∷ b ∷ bs
  unfolding insert
  insert_here a b bs e = rw e refl

  insert_later :
      (a b : A) (bs : List A)
      → before a b ≡ false
      → insert before a (b ∷ bs) ≡ b ∷ insert before a bs
  unfolding insert
  insert_later a b bs e = rw e refl

  swap : (x a b : A) (bs : List A) → Memᴰ x (a ∷ b ∷ bs) → Memᴰ x (b ∷ a ∷ bs)
  swap x a b bs (Memᴰ.head e) = Memᴰ.tail (Memᴰ.head e)
  swap x a b bs (Memᴰ.tail (Memᴰ.head e)) = Memᴰ.head e
  swap x a b bs (Memᴰ.tail (Memᴰ.tail m)) = Memᴰ.tail (Memᴰ.tail m)

  under : (x a : A) (bs cs : List A) → (Memᴰ x bs → Memᴰ x cs) → Memᴰ x (a ∷ bs) → Memᴰ x (a ∷ cs)
  under x a bs cs f (Memᴰ.head e) = Memᴰ.head e
  under x a bs cs f (Memᴰ.tail m) = Memᴰ.tail (f m)

  Memᴰ-insert : (x a : A) (bs : List A) → Memᴰ x (insert before a bs) → Memᴰ x (a ∷ bs)
  unfolding insert
  Memᴰ-insert x a [] m = m
  Memᴰ-insert x a (b ∷ bs) m = elim (Bool-cases (before a b)) [
    | inl e ↦ subst (λ l. Memᴰ x l) (insert_here a b bs e) m
    | inr e ↦ swap x b a bs (
        under x b (insert before a bs) (a ∷ bs) (Memᴰ-insert x a bs)
          (subst (λ l. Memᴰ x l) (insert_later a b bs e) m))
  ]

  insert-Memᴰ : (x a : A) (bs : List A) → Memᴰ x (a ∷ bs) → Memᴰ x (insert before a bs)
  unfolding insert
  insert-Memᴰ x a [] m = m
  insert-Memᴰ x a (b ∷ bs) m = elim (Bool-cases (before a b)) [
    | inl e ↦ subst (λ l. Memᴰ x l) (sym (insert_here a b bs e)) m
    | inr e ↦
        subst (λ l. Memᴰ x l) (sym (insert_later a b bs e))
          (under x b (a ∷ bs) (insert before a bs) (insert-Memᴰ x a bs) (swap x a b bs m))
  ]

  -- Sorting keeps the members.
  pub Memᴰ-sort : (x : A) (as' : List A) → Memᴰ x (sort before as') → Memᴰ x as'
  unfolding sort
  Memᴰ-sort x [] m = m
  Memᴰ-sort x (a ∷ as') m =
      under x a (sort before as') as' (Memᴰ-sort x as') (Memᴰ-insert x a (sort before as') m)

  pub sort-Memᴰ : (x : A) (as' : List A) → Memᴰ x as' → Memᴰ x (sort before as')
  unfolding sort
  sort-Memᴰ x [] m = m
  sort-Memᴰ x (a ∷ as') m =
      insert-Memᴰ x a (sort before as') (under x a as' (sort before as') (sort-Memᴰ x as') m)
