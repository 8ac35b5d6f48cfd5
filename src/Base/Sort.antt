-- ===== src/Base/Sort.antt =====
-- Sorting by a comparison: Go's sort.Strings, sort.Slice and sort.SliceStable, as an insertion sort.
pub mod Again
use mathlib.Core.List.{mem-cons, mem-cons_self, not-mem-nil}
use mathlib.Core.List.Perm
use mathlib.Core.Logic.Or
use dockyards_talos.Base.{
  ◌≡◌, refl, sym, ap, ap₂, ◌∙◌, ◌⊎◌, inl, inr, Bool, true, List, [], ◌∷◌, Mem, Perm, Bool-set,
  arith, All, if◌then◌else◌, Bool-cases,
}

module _ {ℓ} {A : Type ℓ} (le : A → A → Bool) where
  unfoldable pub insert_sorted : A → List A → List A
  insert_sorted x [] = x ∷ []
  insert_sorted x (y ∷ ys) = if le x y then x ∷ y ∷ ys else y ∷ insert_sorted x ys

  unfoldable pub sort : List A → List A
  sort [] = []
  sort (x ∷ xs) = insert_sorted x (sort xs)

  abbrev pub IsSorted : List A → Type 0
  IsSorted [] = Unit
  IsSorted (x ∷ xs) = All (λ y. le x y ≡ true) xs × IsSorted xs

  insert_sorted-perm : (x : A) (xs : List A) → Perm (insert_sorted x xs) (x ∷ xs)
  unfolding insert_sorted
  insert_sorted-perm x [] = Perm.refl (x ∷ [])
  insert_sorted-perm x (y ∷ ys) = elim (Bool-cases (le x y)) [
    | inl here ↦ rw here (Perm.refl (x ∷ y ∷ ys))
    | inr later ↦ rw later (Perm.trans (Perm.cons y (insert_sorted-perm x ys)) (Perm.swap x y ys))
  ]

  pub sort-perm : (xs : List A) → Perm (sort xs) xs
  unfolding sort
  sort-perm [] = Perm.refl []
  sort-perm (x ∷ xs) = Perm.trans (insert_sorted-perm x (sort xs)) (Perm.cons x (sort-perm xs))

  module _ (total : (a b : A) → (le a b ≡ true) ⊎ (le b a ≡ true))
      (trans : (a b c : A) → le a b ≡ true → le b c ≡ true → le a c ≡ true) where
    All-trans :
        (a b : A) (xs : List A)
        → le a b ≡ true
        → All (λ y. le b y ≡ true) xs
        → All (λ y. le a y ≡ true) xs
    All-trans a b [] h k = tt
    All-trans a b (x ∷ xs) h k = (trans a b x h k.0, All-trans a b xs h k.1)

    All-insert_sorted :
        (a x : A) (xs : List A)
        → le a x ≡ true
        → All (λ y. le a y ≡ true) xs
        → All (λ y. le a y ≡ true) (insert_sorted x xs)
    unfolding insert_sorted
    All-insert_sorted a x [] h k = (h, tt)
    All-insert_sorted a x (y ∷ ys) h k = elim (Bool-cases (le x y)) [
      | inl here ↦ rw here (h, k)
      | inr later ↦ rw later (k.0, All-insert_sorted a x ys h k.1)
    ]

    insert_sorted-IsSorted : (x : A) (xs : List A) → IsSorted xs → IsSorted (insert_sorted x xs)
    unfolding insert_sorted
    insert_sorted-IsSorted x [] h = (tt, tt)
    insert_sorted-IsSorted x (y ∷ ys) h = elim (Bool-cases (le x y)) [
      | inl here ↦ rw here ((here, All-trans x y ys here h.0), h)
      | inr later ↦ rw later (
        All-insert_sorted y x ys (ground (arith, total x y)) h.0,
        insert_sorted-IsSorted x ys h.1,
      )
    ]

    pub sort-IsSorted : (xs : List A) → IsSorted (sort xs)
    unfolding sort
    sort-IsSorted [] = tt
    sort-IsSorted (x ∷ xs) = insert_sorted-IsSorted x (sort xs) (sort-IsSorted xs)

  test_of_mem :
      (P : A → Bool) (xs : List A) {a : A} → All (λ y. P y ≡ true) xs → Mem a xs → P a ≡ true
  test_of_mem P [] h at = absurd (not-mem-nil at)
  test_of_mem P (x ∷ xs) h at =
      Or.elim (Bool-set _ _) (mem-cons.0 at) (λ e. ap P e ∙ h.0)
        (λ later. test_of_mem P xs h.1 later)

  module _ (total : (a b : A) → (le a b ≡ true) ⊎ (le b a ≡ true))
      (antisymm : (a b : A) → le a b ≡ true → le b a ≡ true → a ≡ b) where
    head_le :
        (y : A) (ys : List A) {x : A} → All (λ z. le y z ≡ true) ys → Mem x (y ∷ ys) → le y x ≡ true
    head_le y ys h at = test_of_mem (le y) (y ∷ ys) (ground (arith, total y y), h) at

    -- A sorted list is determined by its elements.
    pub IsSorted-unique : (xs ys : List A) → IsSorted xs → IsSorted ys → Perm xs ys → xs ≡ ys
    IsSorted-unique [] [] h k p = refl
    IsSorted-unique [] (y ∷ ys) h k p = sym (Perm.eq-nil (Perm.symm p))
    IsSorted-unique (x ∷ xs) [] h k p = Perm.eq-nil p
    IsSorted-unique (x ∷ xs) (y ∷ ys) h k p =
        let same : x ≡ y =
          antisymm x y (head_le x xs h.0 ((Perm.mem_iff p).1 mem-cons_self))
            (head_le y ys k.0 ((Perm.mem_iff p).0 mem-cons_self)) in
        ap₂ ◌∷◌ same (
          IsSorted-unique xs ys h.1 k.1
            (Perm.cons_inv (Perm.trans p (rw same (Perm.refl (y ∷ ys))))))
