-- ===== src/Base/Range.antt =====
-- `for k, v := range m`: the runtime chooses the order in which a loop visits the entries, so a
-- loop takes that choice as an argument.
use mathlib.Core.List.Perm
use mathlib.Core.List.{Permᴰ}
use mathlib.Core.Logic.{∥∥₁_elim}
use dockyards_talos.Base.{
  ◌≡◌, refl, ◌∙◌, Bool, true, false, ◌||◌, ◌&&◌, Bool-set, Option, none, some, List, [], ◌∷◌, Perm,
  arith, Eq, ◌==◌, any,
}
use dockyards_talos.Base.GoMap.{GoMap, lookup, Distinct}

-- The entries of the map in the order in which a loop visits them.
abbrev pub Visit {ℓ κ} : Type ℓ → Type κ → Type (ℓ ⊔ κ)
Visit K V = GoMap K V → List (K × V)

abbrev pub IsVisit {ℓ} : {K V : Type ℓ} → Visit K V → Type ℓ
IsVisit {K} {V} visit = (m : GoMap K V) → Perm (visit m) m

-- The order in which the model keeps the entries is one of them.
abbrev pub stored {ℓ κ} : {K : Type ℓ} {V : Type κ} → Visit K V
stored m = m

pub stored-IsVisit {ℓ} : {K V : Type ℓ} → IsVisit (stored {K = K} {V = V})
stored-IsVisit m = Perm.refl m

any-permᴰ {ℓ} : {A : Type ℓ} (p : A → Bool) {xs ys : List A} → Permᴰ xs ys → any p xs ≡ any p ys
any-permᴰ p Permᴰ.nil = refl
any-permᴰ p (Permᴰ.cons e h) = rw (e, any-permᴰ p h)
any-permᴰ p (Permᴰ.swap {l = l} e f) = rw (e, f) (swapped (p _) (p _) (any p l))
  where
    swapped : (a b c : Bool) → (a || (b || c)) ≡ (b || (a || c))
    swapped true true c = refl
    swapped true false c = refl
    swapped false b c = refl
any-permᴰ p (Permᴰ.trans h k) = any-permᴰ p h ∙ any-permᴰ p k

-- A test for some entry does not depend on the order.
pub any-perm {ℓ} : {A : Type ℓ} (p : A → Bool) {xs ys : List A} → Perm xs ys → any p xs ≡ any p ys
any-perm p h = ∥∥₁_elim h (Bool-set _ _) (any-permᴰ p)

abbrev pub holds {ℓ} : {V : Type ℓ} → (V → Bool) → Option V → Bool
holds p none = false
holds p (some v) = p v

module _ {ℓ} {K V : Type ℓ} ⦃e : Eq K⦄ where
  any_absent :
      (j : K) (p : V → Bool) (m : GoMap K V)
      → lookup j m ≡ none
      → any (λ e. j == e.0 && p e.1) m ≡ false
  unfolding lookup
  any_absent j p [] h = refl
  any_absent j p ((k, v) ∷ m) h = ground (arith, any_absent j p m)

  -- A test for some entry of one key is a test of what the key maps to.
  pub any-lookup :
      (j : K) (p : V → Bool) (m : GoMap K V)
      → Distinct m
      → any (λ e. j == e.0 && p e.1) m ≡ holds p (lookup j m)
  unfolding lookup
  any-lookup j p [] d = refl
  any-lookup j p ((k, v) ∷ m) d = ground (arith, any-lookup j p m d.1, any_absent j p m)

  -- The same, for the entries as a loop visits them.
  pub any-visit :
      (visit : Visit K V)
      → IsVisit visit
      → (j : K) (p : V → Bool) (m : GoMap K V) → Distinct m
      → any (λ e. j == e.0 && p e.1) (visit m) ≡ holds p (lookup j m)
  any-visit visit perm j p m d = any-perm _ (perm m) ∙ any-lookup j p m d
