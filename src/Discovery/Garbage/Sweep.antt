-- ===== src/Discovery/Garbage/Sweep.antt =====
-- cluster_discovery_server.go: the loop of collectGarbage over the map.
use dockyards_talos.Base.{
  ◌≡◌, refl, Option, none, some, List, [], ◌∷◌, ◌&&◌, arith, if◌then◌else◌, contains, any, ◌==◌,
  length, select, ℕ_discrete, ◌≤◌,
}
use dockyards_talos.Base.GoMap.{lookup, lookup-erase_all, Distinct, erase_all}
use dockyards_talos.Base.Range.{Visit, IsVisit, any-visit}
use dockyards_talos.Base.Time.{ℤ}
use dockyards_talos.Discovery.Types.{ClusterAffiliateId, id_eq, ClusterAffiliate, Affiliates}
use dockyards_talos.Discovery.Watchers.{Channel, Server}
use dockyards_talos.Discovery.Garbage.{is_expired, sweep, is_live, prune}

contains-sweep :
    (now : ℤ) (j : ClusterAffiliateId) (es : List (ClusterAffiliateId × ClusterAffiliate))
    → contains (sweep now es).1 j ≡ any (λ e. j == e.0 && is_expired now e.1) es
unfolding sweep
contains-sweep now j [] = refl
contains-sweep now j ((k, a) ∷ es) = ground (arith, contains-sweep now j es)

-- An entry as it reads once the expired ones are gone.
abbrev pub live : ℤ → Option ClusterAffiliate → Option ClusterAffiliate
live now none = none
live now (some a) = if is_expired now a then none else some a

-- Whatever order the loop visits the entries in, exactly the expired ones are deleted.
pub lookup-sweep :
    (visit : Visit ClusterAffiliateId ClusterAffiliate)
    → IsVisit visit
    → (now : ℤ) (j : ClusterAffiliateId) (m : Affiliates) → Distinct m
    → lookup j (erase_all (sweep now (visit m)).1 m) ≡ live now (lookup j m)
lookup-sweep visit perm now j m d = ground (
  arith,
  lookup-erase_all j (sweep now (visit m)).1 m,
  contains-sweep now j (visit m),
  any-visit visit perm j (is_expired now) m d,
)

length-select-le : (ws : List (Option Channel)) → length (select is_live ws) ≤ length ws
length-select-le [] = omega arith
length-select-le (none ∷ ws) = omega (arith, length-select-le ws)
length-select-le (some c ∷ ws) = omega (arith, length-select-le ws)

select-eq_of_length :
    (ws : List (Option Channel)) → length ws ≡ length (select is_live ws) → select is_live ws ≡ ws
select-eq_of_length [] h = refl
select-eq_of_length (none ∷ ws) h = absurd (omega (arith, length-select-le ws))
select-eq_of_length (some c ∷ ws) h = rw (select-eq_of_length ws (omega arith))

-- The early return of the last critical section changes nothing.
pub prune_lem : (s : Server) → prune s ≡ record s { watchers = select is_live s.watchers }
unfolding prune
prune_lem s = elim (ℕ_discrete (length s.watchers) (length (select is_live s.watchers))) [
  | yes same ↦ ground (arith, select-eq_of_length s.watchers same)
  | no differ ↦ ground arith
]
