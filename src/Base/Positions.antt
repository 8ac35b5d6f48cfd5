-- ===== src/Base/Positions.antt =====
-- Slices by position, over the native numbers.
use dockyards_talos.Base.{
  ℕ, zero, suc, ◌≡◌, ◌≢◌, refl, ap, Option, none, some, List, [], ◌∷◌, ◌++◌, arith,
}

module _ {ℓ} {A : Type ℓ} where
  abbrev pub get_elem? : List A → ℕ → Option A
  get_elem? [] i = none
  get_elem? (x ∷ xs) zero = some x
  get_elem? (x ∷ xs) (suc i) = get_elem? xs i

  abbrev pub set : List A → ℕ → A → List A
  set [] i v = []
  set (x ∷ xs) zero v = v ∷ xs
  set (x ∷ xs) (suc i) v = x ∷ set xs i v

  pub get_elem?-set_self :
      (xs : List A) (i : ℕ) (old v : A)
      → get_elem? xs i ≡ some old
      → get_elem? (set xs i v) i ≡ some v
  get_elem?-set_self [] i old v at = ground arith
  get_elem?-set_self (x ∷ xs) zero old v at = refl
  get_elem?-set_self (x ∷ xs) (suc i) old v at = get_elem?-set_self xs i old v at

  pub get_elem?-set_ne :
      (xs : List A) (i j : ℕ) (v : A) → i ≢ j → get_elem? (set xs i v) j ≡ get_elem? xs j
  get_elem?-set_ne [] i j v differ = refl
  get_elem?-set_ne (x ∷ xs) zero zero v differ = absurd (differ refl)
  get_elem?-set_ne (x ∷ xs) zero (suc j) v differ = refl
  get_elem?-set_ne (x ∷ xs) (suc i) zero v differ = refl
  get_elem?-set_ne (x ∷ xs) (suc i) (suc j) v differ =
      get_elem?-set_ne xs i j v (λ same. differ (ap suc same))

  pub get_elem?-append :
      (xs ys : List A) (i : ℕ) (x : A) → get_elem? xs i ≡ some x → get_elem? (xs ++ ys) i ≡ some x
  get_elem?-append [] ys i x at = ground arith
  get_elem?-append (y ∷ xs) ys zero x at = at
  get_elem?-append (y ∷ xs) ys (suc i) x at = get_elem?-append xs ys i x at
