-- ===== src/Engine/Sorting.antt =====
-- `Array.prototype.sort`, which is stable: insertion by a comparator that is not positive.
use governance_seatbelt.Prelude.{
  List, [], ◌∷◌, Bool, true, false, if◌then◌else◌, ◌≡◌, refl, All, arith, Bool-cases, inl, inr,
  filter_by, ◌⊎◌, ◌&&◌, ◌∙◌,
}

module _ {A : Type 0} (before : A → A → Bool) where
  unfoldable pub insert : A → List A → List A
  insert x [] = x ∷ []
  insert x (y ∷ ys) = if before x y then x ∷ y ∷ ys else y ∷ insert x ys

  unfoldable pub sort : List A → List A
  unfolding insert
  sort [] = []
  sort (x ∷ xs) = insert x (sort xs)

  abbrev pub IsSorted : List A → Type 0
  IsSorted [] = Unit
  IsSorted (x ∷ xs) = All (λ y. before x y ≡ true) xs × IsSorted xs

  module _ {κ} (P : A → Type κ) where
    pub All-insert : (x : A) (ys : List A) → P x → All P ys → All P (insert x ys)
    unfolding insert
    All-insert x [] p h = (p, tt)
    All-insert x (y ∷ ys) p (q, h) = elim (Bool-cases (before x y)) [
      | inl e ↦ rw e (p, (q, h))
      | inr e ↦ rw e (q, All-insert x ys p h)
    ]

    pub All-sort : (xs : List A) → All P xs → All P (sort xs)
    unfolding sort
    All-sort [] h = tt
    All-sort (x ∷ xs) (p, h) = All-insert x (sort xs) p (All-sort xs h)

  module _ (total : (x y : A) → (before x y ≡ true) ⊎ (before y x ≡ true))
      (trans : (x y z : A) → before x y ≡ true → before y z ≡ true → before x z ≡ true) where
    All-before :
        (x y : A) (ys : List A)
        → before x y ≡ true
        → All (λ z. before y z ≡ true) ys
        → All (λ z. before x z ≡ true) ys
    All-before x y [] e h = tt
    All-before x y (z ∷ ys) e (p, h) = (trans x y z e p, All-before x y ys e h)

    insert-IsSorted : (x : A) (ys : List A) → IsSorted ys → IsSorted (insert x ys)
    unfolding insert
    insert-IsSorted x [] h = (tt, tt)
    insert-IsSorted x (y ∷ ys) (h, hs) = elim (Bool-cases (before x y)) [
      | inl e ↦ rw e ((e, All-before x y ys e h), (h, hs))
      | inr e ↦ rw e (
        All-insert (λ z. before y z ≡ true) x ys (ground (arith, total x y)) h,
        insert-IsSorted x ys hs,
      )
    ]

    pub sort-IsSorted : (xs : List A) → IsSorted (sort xs)
    unfolding sort
    sort-IsSorted [] = tt
    sort-IsSorted (x ∷ xs) = insert-IsSorted x (sort xs) (sort-IsSorted xs)

  module _ (p : A → Bool) where
    -- Two elements that pass `p` are never swapped.
    abbrev pub Keeps : A → A → Type 0
    Keeps x y = (before x y ≡ true) ⊎ ((p x && p y) ≡ false)

    filter_by-insert :
        (x : A) (ys : List A) → All (Keeps x) ys → filter_by p (insert x ys) ≡ filter_by p (x ∷ ys)
    unfolding insert
    filter_by-insert x [] h = refl
    filter_by-insert x (y ∷ ys) (k, h) = ground (arith, filter_by-insert x ys h)

    abbrev pub AllKept : List A → Type 0
    AllKept [] = Unit
    AllKept (x ∷ xs) = All (Keeps x) xs × AllKept xs

    pub filter_by-sort : (xs : List A) → AllKept xs → filter_by p (sort xs) ≡ filter_by p xs
    unfolding sort
    filter_by-sort [] h = refl
    filter_by-sort (x ∷ xs) (k, h) =
        filter_by-insert x (sort xs) (All-sort (Keeps x) xs k) ∙ ground (arith, filter_by-sort xs h)
