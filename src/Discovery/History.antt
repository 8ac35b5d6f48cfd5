-- ===== src/Discovery/History.antt =====
-- Histories of calls, one after the other, and what they mean for the map from keys to live
-- entries: the abstract specification of the discovery service.
pub mod Refinement
pub mod Stored
pub mod View
use dockyards_talos.Base.{ℕ, String, Option, none, some, List, [], ◌∷◌, ◌==◌, if◌then◌else◌, Bytes}
use dockyards_talos.Base.Range.{Visit, IsVisit}
use dockyards_talos.Base.Time.{ℤ}
use dockyards_talos.Base.Outcome.{Outcome, done, ◌>>=◌}
use dockyards_talos.Discovery.Types.{ClusterAffiliateId, id_eq, ClusterAffiliate}
use dockyards_talos.Discovery.Watchers.{Server}
use dockyards_talos.Discovery.Garbage.Sweep.{live}
use dockyards_talos.Discovery.Update.{
  AffiliateUpdateRequest, key_of, updated, or_zero, affiliate_update,
}
use dockyards_talos.Discovery.Delete.{AffiliateDeleteRequest, affiliate_delete}
use dockyards_talos.Discovery.Listing.{list}
use dockyards_talos.Discovery.Watch.{start_watch}
use dockyards_talos.Discovery.Lifecycle.{tick}

abbrev pub VisitTable : Type 0
VisitTable = Visit ClusterAffiliateId ClusterAffiliate

-- A call, with the orders in which its loops visit the map and the times that it reads.
pub data Call : Type 0 where
  update : VisitTable → Visit Bytes Bytes → (swept_at now : ℤ) → AffiliateUpdateRequest → Call
  delete : VisitTable → (swept_at : ℤ) → AffiliateDeleteRequest → Call
  lists : (visit_sweep visit : VisitTable) → (swept_at : ℤ) → String → Call
  watches : VisitTable → (swept_at : ℤ) → Call
  ticks : (visit_sweep visit : VisitTable) → (now : ℤ) → Call

-- Each loop of the call over a map visits each entry once.
abbrev pub IsFair : Call → Type 0
IsFair (update visit visit_endpoints swept_at now req) = IsVisit visit × IsVisit visit_endpoints
IsFair (delete visit swept_at req) = IsVisit visit
IsFair (lists visit_sweep visit swept_at cluster) = IsVisit visit_sweep × IsVisit visit
IsFair (watches visit swept_at) = IsVisit visit
IsFair (ticks visit_sweep visit now) = IsVisit visit_sweep × IsVisit visit

unfoldable pub step : Call → Server → Outcome Server
step (update visit visit_endpoints swept_at now req) s =
    affiliate_update visit visit_endpoints swept_at now req s
step (delete visit swept_at req) s = affiliate_delete visit swept_at req s
step (lists visit_sweep visit swept_at cluster) s = do
  r ← list visit_sweep visit swept_at cluster s
  done r.0
step (watches visit swept_at) s = start_watch visit swept_at s
step (ticks visit_sweep visit now) s = tick visit_sweep visit now s

unfoldable pub run : List Call → Server → Outcome Server
run [] s = done s
run (c ∷ cs) s = do s' ← step c s; run cs s'

-- The specification: a map from keys to entries, with no order and no representation.
abbrev pub Spec : Type 0
Spec = ClusterAffiliateId → Option ClusterAffiliate

unfoldable pub spec_step : Call → Spec → Spec
spec_step (update visit visit_endpoints swept_at now req) f j =
    let key = key_of req.cluster_id req.affiliate_id in
    if j == key
    then some (updated visit_endpoints now req (or_zero (live swept_at (f key))))
    else live swept_at (f j)
spec_step (delete visit swept_at req) f j =
    if j == key_of req.cluster_id req.affiliate_id then none else live swept_at (f j)
spec_step (lists visit_sweep visit swept_at cluster) f j = live swept_at (f j)
spec_step (watches visit swept_at) f j = live swept_at (f j)
spec_step (ticks visit_sweep visit now) f j = live now (f j)

unfoldable pub spec_run : List Call → Spec → Spec
spec_run [] f = f
spec_run (c ∷ cs) f = spec_run cs (spec_step c f)
