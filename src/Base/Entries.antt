-- ===== src/Base/Entries.antt =====
-- The entries of a map as a list.
use mathlib.Core.List.{mem-cons, mem-cons_self, mem-cons_of_mem, not-mem-nil}
use mathlib.Core.List.Perm
use mathlib.Core.Logic.Or
use dockyards_talos.Base.{◌≡◌, ap, ◌↔◌, Option, some, [], ◌∷◌, Mem, arith, Eq}
use dockyards_talos.Base.GoMap.{GoMap, lookup, Distinct}
use dockyards_talos.Base.Range.{Visit, IsVisit}

module _ {ℓ} {K V : Type ℓ} ⦃e : Eq K⦄ where
  mem_of_lookup : (k : K) (v : V) (m : GoMap K V) → lookup k m ≡ some v → Mem (k, v) m
  unfolding lookup
  mem_of_lookup k v [] h = cc
  mem_of_lookup k v ((j, w) ∷ m) h = elim (e.dec k j) [
    | yes same ↦ let here : ◌≡◌ {A = K × V} (k, v) (j, w) = ground arith in rw here mem-cons_self
    | no differ ↦ mem-cons_of_mem (j, w) (mem_of_lookup k v m (ground arith))
  ]

  lookup_of_mem :
      IsSet (Option V)
      → (k : K) (v : V) (m : GoMap K V) → Distinct m
      → Mem (k, v) m
      → lookup k m ≡ some v
  unfolding lookup
  lookup_of_mem set k v [] d h = absurd (not-mem-nil h)
  lookup_of_mem set k v ((j, w) ∷ m) d h =
      Or.elim (set _ _) (mem-cons.0 h)
        (λ here.
          let p : k ≡ j = ap (λ e. e.0) here in let q : v ≡ w = ap (λ e. e.1) here in ground arith)
        (λ later. ground (arith, lookup_of_mem set k v m d.1 later))

  pub mem-iff_lookup :
      IsSet (Option V)
      → (k : K) (v : V) (m : GoMap K V) → Distinct m
      → Mem (k, v) m ↔ (lookup k m ≡ some v)
  mem-iff_lookup set k v m d = (lookup_of_mem set k v m d, mem_of_lookup k v m)

  -- So for the entries as a loop visits them.
  pub mem-visit_iff :
      (visit : Visit K V)
      → IsVisit visit
      → IsSet (Option V)
      → (k : K) (v : V) (m : GoMap K V) → Distinct m
      → Mem (k, v) (visit m) ↔ (lookup k m ≡ some v)
  mem-visit_iff visit perm set k v m d = (
    λ h. (mem-iff_lookup set k v m d).0 ((Perm.mem_iff (perm m)).0 h),
    λ h. (Perm.mem_iff (perm m)).1 ((mem-iff_lookup set k v m d).1 h),
  )
