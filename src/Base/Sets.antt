-- ===== src/Base/Sets.antt =====
-- Membership as a test, and the keys and values of a map as lists without repetition.
use mathlib.Core.List.{mem-cons, not-mem-nil, Nodup, Nodup-nil, Nodup-cons}
use mathlib.Core.List.Perm
use mathlib.Core.Logic.Or
use dockyards_talos.Base.{
  ◌≡◌, refl, sym, ap, ◌∙◌, true, false, ◌||◌, Bool-set, none, some, List, [], ◌∷◌, ◌++◌, map, Mem,
  Perm, arith, Eq, ◌==◌, any, contains,
}
use dockyards_talos.Base.GoMap.{GoMap, keys, values, lookup, Distinct}
use dockyards_talos.Base.Range.{any-perm}

module _ {ℓ} {A : Type ℓ} ⦃e : Eq A⦄ where
  contains-any : (xs : List A) (a : A) → contains xs a ≡ any (λ x. a == x) xs
  contains-any [] a = refl
  contains-any (x ∷ xs) a = rw (contains-any xs a)

  pub contains-perm : {xs ys : List A} → Perm xs ys → (a : A) → contains xs a ≡ contains ys a
  contains-perm {xs} {ys} h a =
      contains-any xs a ∙ any-perm (λ x. a == x) h ∙ sym (contains-any ys a)

  pub contains-append :
      (xs ys : List A) (a : A) → contains (xs ++ ys) a ≡ (contains xs a || contains ys a)
  contains-append [] ys a = refl
  contains-append (x ∷ xs) ys a = ground (arith, contains-append xs ys a)

  pub contains_of_mem : (xs : List A) {a : A} → Mem a xs → contains xs a ≡ true
  contains_of_mem [] m = absurd (not-mem-nil m)
  contains_of_mem (x ∷ xs) {a} m =
      Or.elim (Bool-set _ _) (mem-cons.0 m) (λ same. ground arith)
        (λ later. ground (arith, contains_of_mem xs later))

module _ {ℓ} {K V : Type ℓ} where
  pub values-map : (m : GoMap K V) → values m ≡ map (λ e. e.1) m
  values-map [] = refl
  values-map ((k, v) ∷ m) = ap (◌∷◌ v) (values-map m)

  keys-map : (m : GoMap K V) → keys m ≡ map (λ e. e.0) m
  keys-map [] = refl
  keys-map ((k, v) ∷ m) = ap (◌∷◌ k) (keys-map m)

  pub keys-perm : {m n : GoMap K V} → Perm m n → Perm (keys m) (keys n)
  keys-perm {m} {n} h = rw (keys-map m, keys-map n) (Perm.map _ h)

  pub values-perm : {m n : GoMap K V} → Perm m n → Perm (values m) (values n)
  values-perm {m} {n} h = rw (values-map m, values-map n) (Perm.map _ h)

module _ {ℓ} {K V : Type ℓ} ⦃e : Eq K⦄ where
  pub contains-keys_absent :
      (k : K) (m : GoMap K V) → lookup k m ≡ none → contains (keys m) k ≡ false
  unfolding lookup
  contains-keys_absent k [] h = refl
  contains-keys_absent k ((j, v) ∷ m) h = ground (arith, contains-keys_absent k m)

  pub contains-keys_present :
      (k : K) (m : GoMap K V) (v : V) → lookup k m ≡ some v → contains (keys m) k ≡ true
  unfolding lookup
  contains-keys_present k [] v h = cc
  contains-keys_present k ((j, w) ∷ m) v h = ground (arith, contains-keys_present k m v)

  pub keys-Nodup : (m : GoMap K V) → Distinct m → Nodup (keys m)
  keys-Nodup [] d = Nodup-nil
  keys-Nodup ((k, v) ∷ m) d =
      Nodup-cons.1
        ((λ at. cc (contains_of_mem (keys m) at, contains-keys_absent k m d.0)), keys-Nodup m d.1)
