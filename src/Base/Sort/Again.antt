-- ===== src/Base/Sort/Again.antt =====
-- Sorting what is sorted already.
use dockyards_talos.Base.{◌≡◌, refl, ◌⊎◌, inl, inr, Bool, true, List, [], ◌∷◌, arith, Bool-cases}
use dockyards_talos.Base.Sort.{insert_sorted, sort}

module _ {ℓ} {A : Type ℓ} (le : A → A → Bool)
    (total : (a b : A) → (le a b ≡ true) ⊎ (le b a ≡ true)) where
  abbrev before_head : A → List A → Bool
  before_head x [] = true
  before_head x (y ∷ ys) = le x y

  -- Each element may stand before the next one.
  abbrev IsChain : List A → Type 0
  IsChain [] = Unit
  IsChain (x ∷ xs) = (before_head x xs ≡ true) × IsChain xs

  before-insert_sorted :
      (x y : A) (ys : List A)
      → le y x ≡ true
      → before_head y ys ≡ true
      → before_head y (insert_sorted le x ys) ≡ true
  unfolding insert_sorted
  before-insert_sorted x y [] h k = h
  before-insert_sorted x y (z ∷ zs) h k = ground arith

  insert_sorted-IsChain : (x : A) (xs : List A) → IsChain xs → IsChain (insert_sorted le x xs)
  unfolding insert_sorted
  insert_sorted-IsChain x [] c = (refl, tt)
  insert_sorted-IsChain x (y ∷ ys) c = elim (Bool-cases (le x y)) [
    | inl here ↦ rw here (here, c)
    | inr later ↦ rw later (
      before-insert_sorted x y ys (ground (arith, total x y)) c.0,
      insert_sorted-IsChain x ys c.1,
    )
  ]

  sort-IsChain : (xs : List A) → IsChain (sort le xs)
  unfolding sort
  sort-IsChain [] = tt
  sort-IsChain (x ∷ xs) = insert_sorted-IsChain x (sort le xs) (sort-IsChain xs)

  insert-before : (x : A) (xs : List A) → before_head x xs ≡ true → insert_sorted le x xs ≡ x ∷ xs
  unfolding insert_sorted
  insert-before x [] h = refl
  insert-before x (y ∷ ys) h = ground arith

  sort-of-IsChain : (xs : List A) → IsChain xs → sort le xs ≡ xs
  unfolding sort
  sort-of-IsChain [] c = refl
  sort-of-IsChain (x ∷ xs) c = rw (sort-of-IsChain xs c.1) (insert-before x xs c.0)

  pub sort_idem : (xs : List A) → sort le (sort le xs) ≡ sort le xs
  sort_idem xs = sort-of-IsChain (sort le xs) (sort-IsChain xs)
