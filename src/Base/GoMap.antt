-- ===== src/Base/GoMap.antt =====
-- Go's `map[K]V` as an association list without repeated keys.
use dockyards_talos.Base.{◌≡◌, refl, Option, none, some, List, [], ◌∷◌, arith}
use dockyards_talos.Base.{Eq, ◌==◌, if◌then◌else◌, contains}

abbrev pub GoMap {ℓ κ} : Type ℓ → Type κ → Type (ℓ ⊔ κ)
GoMap K V = List (K × V)

module _ {ℓ κ} {K : Type ℓ} {V : Type κ} where
  abbrev pub keys : GoMap K V → List K
  keys [] = []
  keys ((k, v) ∷ m) = k ∷ keys m

  abbrev pub values : GoMap K V → List V
  values [] = []
  values ((k, v) ∷ m) = v ∷ values m

module _ {ℓ κ} {K : Type ℓ} {V : Type κ} ⦃e : Eq K⦄ where
  -- `v, ok := m[k]`
  unfoldable pub lookup : K → GoMap K V → Option V
  lookup k [] = none
  lookup k ((j, v) ∷ m) = if k == j then some v else lookup k m

  -- `m[k] = v`
  unfoldable pub insert : K → V → GoMap K V → GoMap K V
  insert k v [] = (k, v) ∷ []
  insert k v ((j, w) ∷ m) = if k == j then (j, v) ∷ m else (j, w) ∷ insert k v m

  -- `delete(m, k)`
  unfoldable pub erase : K → GoMap K V → GoMap K V
  erase k [] = []
  erase k ((j, w) ∷ m) = let rest = erase k m in if k == j then rest else (j, w) ∷ rest

  -- `for _, k := range ks { delete(m, k) }`
  unfoldable pub erase_all : List K → GoMap K V → GoMap K V
  erase_all [] m = m
  erase_all (k ∷ ks) m = erase_all ks (erase k m)

  -- No key stands twice.
  abbrev pub Distinct : GoMap K V → Type κ
  Distinct [] = Unit
  Distinct ((k, _) ∷ m) = (lookup k m ≡ none) × Distinct m

  pub lookup-insert :
      (j k : K) (v : V) (m : GoMap K V)
      → lookup j (insert k v m) ≡ (if j == k then some v else lookup j m)
  unfolding lookup insert
  lookup-insert j k v [] = refl
  lookup-insert j k v ((i, w) ∷ m) = ground (arith, lookup-insert j k v m)

  pub lookup-erase :
      (j k : K) (m : GoMap K V) → lookup j (erase k m) ≡ (if j == k then none else lookup j m)
  unfolding lookup erase
  lookup-erase j k [] = ground arith
  lookup-erase j k ((i, w) ∷ m) = ground (arith, lookup-erase j k m)

  pub lookup-erase_all :
      (j : K) (ks : List K) (m : GoMap K V)
      → lookup j (erase_all ks m) ≡ (if contains ks j then none else lookup j m)
  unfolding erase_all
  lookup-erase_all j [] m = refl
  lookup-erase_all j (k ∷ ks) m =
      ground (arith, lookup-erase_all j ks (erase k m), lookup-erase j k m)

  pub insert-Distinct : (k : K) (v : V) (m : GoMap K V) → Distinct m → Distinct (insert k v m)
  unfolding insert lookup
  insert-Distinct k v [] d = (refl, tt)
  insert-Distinct k v ((j, w) ∷ m) d = ground (arith, insert-Distinct k v m, lookup-insert j k v m)

  pub erase-Distinct : (k : K) (m : GoMap K V) → Distinct m → Distinct (erase k m)
  unfolding erase
  erase-Distinct k [] d = tt
  erase-Distinct k ((j, w) ∷ m) d = ground (arith, erase-Distinct k m, lookup-erase j k m)

  pub erase_all-Distinct : (ks : List K) (m : GoMap K V) → Distinct m → Distinct (erase_all ks m)
  unfolding erase_all
  erase_all-Distinct [] m d = d
  erase_all-Distinct (k ∷ ks) m d = erase_all-Distinct ks (erase k m) (erase-Distinct k m d)
