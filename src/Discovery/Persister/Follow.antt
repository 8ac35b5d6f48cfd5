-- ===== src/Discovery/Persister/Follow.antt =====
-- cluster_discovery_server.go: statePersister, on the messages of one broadcast.
use mathlib.Core.List.{append-nil, mem-cons, mem-cons_self, mem-cons_of_mem, not-mem-nil}
use mathlib.Core.Logic.{∥∥₁_elim, ∥∥₁_map, ∥∥₁_prop, ◌∨₁◌}
use mathlib.Core.Logic.Or
use mathlib.Core.List.Perm
use dockyards_talos.Base.{◌≡◌, ◌↔◌, refl, sym, ◌∙◌, Option, none, some, List, [], ◌∷◌, ◌++◌, Mem}
use dockyards_talos.Base.GoMap.{lookup, erase_all}
use dockyards_talos.Base.Entries.{mem-visit_iff}
use dockyards_talos.Base.Range.{Visit, IsVisit}
use dockyards_talos.Base.Time.{ℤ}
use dockyards_talos.Discovery.Types.{
  ClusterAffiliateId, id_eq, Affiliate, ClusterAffiliate, Affiliates, WatchResponse,
}
use dockyards_talos.Discovery.Watchers.{Server}
use dockyards_talos.Discovery.Watchers.Delivery.{deliver}
use dockyards_talos.Discovery.Garbage.{or_empty}
use dockyards_talos.Discovery.Garbage.Effect.{table, expiry_messages, swept, after_garbage}
use dockyards_talos.Discovery.Consistency.{IsConsistent, entry-Filed}
use dockyards_talos.Discovery.Listing.{Entry, keep_present, present, current_state}
use dockyards_talos.Discovery.Listing.Effect.{state_messages}
use dockyards_talos.Discovery.Listing.Contents.{ClusterAffiliate_option_set}
use dockyards_talos.Discovery.Persister.{own_key, absorb}
use dockyards_talos.Discovery.Persister.Mirror.{
  Mirrors, Persisting, Mirrors-snoc, expiry_messages-Mirrors, deliver-Persisting, select-Persisting,
}
use dockyards_talos.Discovery.Persister.Messages.{lookup-record_all_same, own_key-sweep}

-- A broadcast of entries of the map leads to the map itself.
record_messages-Mirrors :
    (as' : List ClusterAffiliate) (m p : Affiliates) (q : List WatchResponse)
    → ((k : ClusterAffiliateId) (a : ClusterAffiliate)
        → Mem a as'
        → own_key a ≡ k
        → lookup k m ≡ some a)
    → Mirrors p q m
    → Mirrors p (q ++ state_messages as') m
unfolding absorb
record_messages-Mirrors [] m p q stored h k named = rw (append-nil q) (h k named)
record_messages-Mirrors (a ∷ rest) m p q stored h k named =
    Mirrors-snoc p q _ m m
      (λ n same j named'.
        lookup-record_all_same j (a ∷ rest) n named' (λ b at own. same j named' ∙ stored j b at own)
        ∙ same j named')
      h k named

-- A `nil` map has no entries to visit.
current_state-present :
    (visit : Visit ClusterAffiliateId ClusterAffiliate)
    → IsVisit visit
    → (o : Option Affiliates) → current_state visit o ≡ present (visit (or_empty o))
unfolding current_state present
current_state-present visit fair none = rw (Perm.eq-nil (fair []))
current_state-present visit fair (some m) = refl

mem-keep_present :
    (a v : ClusterAffiliate) (o : Option Affiliate) (rest : List ClusterAffiliate)
    → Mem a (keep_present o v rest)
    → (a ≡ v) ∨₁ Mem a rest
unfolding keep_present
mem-keep_present a v none rest at = Or.inr at
mem-keep_present a v (some x) rest at = mem-cons.0 at

mem-present :
    (a : ClusterAffiliate) (es : List Entry)
    → Mem a (present es)
    → ∥ ((k : ClusterAffiliateId) × Mem (k, a) es) ∥₁
unfolding present
mem-present a [] at = absurd (not-mem-nil at)
mem-present a ((k, v) ∷ es) at =
    Or.elim ∥∥₁_prop (mem-keep_present a v v.affiliate (present es) at)
      (λ same. ∣ (k, rw same mem-cons_self) ∣₁)
      (λ later. ∥∥₁_map (mem-present a es later) (λ (j, found). (j, mem-cons_of_mem (k, v) found)))

module _ (visit : Visit ClusterAffiliateId ClusterAffiliate) (fair : IsVisit visit) (m : Affiliates)
    (c : IsConsistent m) where
  -- What a loop visits is what a lookup finds.
  pub visited_iff :
      (k : ClusterAffiliateId) (a : ClusterAffiliate) → Mem (k, a) (visit m) ↔ (lookup k m ≡ some a)
  visited_iff k a = mem-visit_iff visit fair ClusterAffiliate_option_set k a m c.distinct

  -- An entry that a loop visits names its own key.
  pub visited-own_key :
      (k : ClusterAffiliateId) (a : ClusterAffiliate) → Mem (k, a) (visit m) → own_key a ≡ k
  visited-own_key k a at = (entry-Filed ((visited_iff k a).0 at) (c.filed k)).0

  -- So it is found under the key that it names.
  pub visited-lookup :
      (k : ClusterAffiliateId) (a : ClusterAffiliate)
      → ∥ ((j : ClusterAffiliateId) × Mem (j, a) (visit m)) ∥₁
      → own_key a ≡ k
      → lookup k m ≡ some a
  visited-lookup k a at own =
      ∥∥₁_elim at (ClusterAffiliate_option_set _ _) λ found.
        rw (sym own ∙ visited-own_key found.0 a found.1) ((visited_iff found.0 a).0 found.1)

module _ (visit : Visit ClusterAffiliateId ClusterAffiliate) (fair : IsVisit visit) (s : Server)
    (c : IsConsistent (table s)) where
  -- The messages of a garbage collection lead the persister to the collected map.
  pub after_garbage-Persisting :
      (now : ℤ) (p : Affiliates)
      → Persisting p s.watchers (table s)
      → Persisting p (after_garbage visit now s).watchers (table (after_garbage visit now s))
  after_garbage-Persisting now p h =
      let d = swept visit now s in
      select-Persisting p (deliver (expiry_messages d.0) s.watchers) (erase_all d.1 (table s)) (
        deliver-Persisting p (expiry_messages d.0) s.watchers (table s) _
          (λ q.
            expiry_messages-Mirrors d.0 d.1 (table s) p q
              (own_key-sweep now (visit (table s)) (visited-own_key visit fair (table s) c)))
          h)

  -- The broadcast of the current state tells the persister nothing new.
  pub state-Mirrors :
      (p : Affiliates) (q : List WatchResponse)
      → Mirrors p q (table s)
      → Mirrors p (q ++ state_messages (current_state visit s.affiliates)) (table s)
  state-Mirrors p q h = rw (current_state-present visit fair s.affiliates) (
      record_messages-Mirrors (present (visit (table s))) (table s) p q
        (λ k a at. visited-lookup visit fair (table s) c k a (mem-present a (visit (table s)) at))
        h)
