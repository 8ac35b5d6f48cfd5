-- ===== src/Discovery/History/View.antt =====
-- Histories of calls on the discovery server, and what they mean for the entries without any order:
-- the map as a function of the key, and the endpoints of an affiliate as a set.
use mathlib.Core.Path.{fun_ext}
use dockyards_talos.Base.{
  zero, suc, ◌*◌, ◌≤◌, String, ◌≡◌, refl, ap, ◌∙◌, Bool, false, ◌||◌, Option, none, some, List, [],
  ◌∷◌, map, All, Bytes, bytes_eq, arith, contains, length, ◌==◌, if◌then◌else◌, Bool-cases, inl,
  inr, Option-cases,
}
use dockyards_talos.Base.GoMap.{lookup}
use dockyards_talos.Base.Range.{Visit, IsVisit}
use dockyards_talos.Base.Time.{ℤ, pos, negsuc, minute, after, ◌+ℤ◌}
use dockyards_talos.Base.Outcome.{done}
use dockyards_talos.Discovery.Types.{
  ClusterAffiliateId, id_eq, Affiliate, ClusterAffiliate, get_data, get_endpoints,
}
use dockyards_talos.Discovery.Watchers.{capacity, Server}
use dockyards_talos.Discovery.Watchers.Delivery.{Ready}
use dockyards_talos.Discovery.Garbage.Sweep.{live}
use dockyards_talos.Discovery.Garbage.Effect.{table}
use dockyards_talos.Discovery.Update.{
  AffiliateUpdateRequest, key_of, merge_endpoints, new_data, effective_ttl, updated, or_zero,
}
use dockyards_talos.Discovery.Update.Endpoints.{merge_endpoints_lem}
use dockyards_talos.Discovery.Delete.{AffiliateDeleteRequest}
use dockyards_talos.Discovery.Consistency.{IsConsistent}
use dockyards_talos.Discovery.History.{
  Call, update, delete, lists, watches, ticks, IsFair, run, Spec, spec_step, spec_run,
}
use dockyards_talos.Discovery.History.Refinement.{run-Implements}

pub record AffiliateView : Type 0 where
  pub id : String
  pub contents : Option Bytes
  pub has_endpoint : Bytes → Bool

pub record EntryView : Type 0 where
  pub affiliate : Option AffiliateView
  pub cluster_id : String
  pub remove_after : ℤ

abbrev pub affiliate_view : Option Affiliate → Option AffiliateView
affiliate_view none = none
affiliate_view (some a) =
    some (record { id = a.id; contents = a.contents; has_endpoint = contains a.endpoints })

abbrev pub entry_view : ClusterAffiliate → EntryView
entry_view v = record {
  affiliate = affiliate_view v.affiliate;
  cluster_id = v.cluster_id;
  remove_after = v.remove_after;
}

abbrev pub view_entry : Option ClusterAffiliate → Option EntryView
view_entry none = none
view_entry (some v) = some (entry_view v)

abbrev pub State : Type 0
State = ClusterAffiliateId → Option EntryView

abbrev pub view : Server → State
view s k = view_entry (lookup k (table s))

-- A call without the orders in which it visits its maps; the calls that only collect the garbage
-- are not told apart.
pub data Request : Type 0 where
  updating : (swept_at now : ℤ) → AffiliateUpdateRequest → Request
  deleting : (swept_at : ℤ) → AffiliateDeleteRequest → Request
  collecting : (swept_at : ℤ) → Request

abbrev pub request_of : Call → Request
request_of (update visit visit_endpoints swept_at now req) = updating swept_at now req
request_of (delete visit swept_at req) = deleting swept_at req
request_of (lists visit_sweep visit swept_at cluster) = collecting swept_at
request_of (watches visit swept_at) = collecting swept_at
request_of (ticks visit_sweep visit now) = collecting now

-- What a request does.
abbrev pub live_view : ℤ → Option EntryView → Option EntryView
live_view now none = none
live_view now (some e) = if after now e.remove_after then none else some e

abbrev old_contents : Option AffiliateView → Option Bytes
old_contents none = none
old_contents (some a) = a.contents

abbrev old_endpoint : Option AffiliateView → Bytes → Bool
old_endpoint none y = false
old_endpoint (some a) y = a.has_endpoint y

abbrev old_affiliate : Option EntryView → Option AffiliateView
old_affiliate none = none
old_affiliate (some e) = e.affiliate

-- The data that are given replace those that are there.
abbrev pub given_or : Option Bytes → Option Bytes → Option Bytes
given_or (some given) old = some given
given_or none old = old

-- A time to live of zero stands for fifteen minutes.
abbrev pub ends_at : (now ttl : ℤ) → ℤ
ends_at now ttl =
    if after ttl (pos 0) || after (pos 0) ttl then now +ℤ ttl else now +ℤ pos (15 * minute)

abbrev pub updated_view : ℤ → AffiliateUpdateRequest → Option EntryView → EntryView
updated_view now req old = record {
  affiliate = some (record {
    id = req.affiliate_id;
    contents = given_or req.affiliate_data (old_contents (old_affiliate old));
    has_endpoint = λ y. old_endpoint (old_affiliate old) y || contains req.affiliate_endpoints y;
  });
  cluster_id = req.cluster_id;
  remove_after = ends_at now req.ttl;
}

unfoldable pub request_step : Request → State → State
request_step (updating swept_at now req) f j =
    let key = key_of req.cluster_id req.affiliate_id in
    if j == key
    then some (updated_view now req (live_view swept_at (f key)))
    else live_view swept_at (f j)
request_step (deleting swept_at req) f j =
    if j == key_of req.cluster_id req.affiliate_id then none else live_view swept_at (f j)
request_step (collecting swept_at) f j = live_view swept_at (f j)

unfoldable pub request_run : List Request → State → State
request_run [] f = f
request_run (r ∷ rs) f = request_run rs (request_step r f)

pub view_entry-live :
    (now : ℤ) (o : Option ClusterAffiliate) → view_entry (live now o) ≡ live_view now (view_entry o)
view_entry-live now none = refl
view_entry-live now (some v) = elim (Bool-cases (after now v.remove_after)) [
  | inl expired ↦ ground arith
  | inr kept ↦ ground arith
]

get_endpoints-view :
    (o : Option ClusterAffiliate) (y : Bytes)
    → contains (get_endpoints (or_zero o).affiliate) y
      ≡ old_endpoint (old_affiliate (view_entry o)) y
get_endpoints-view none y = refl
get_endpoints-view (some v) y = elim (Option-cases v.affiliate) [
  | inl missing ↦ ground arith
  | inr (a, e) ↦ ground arith
]

get_data-view :
    (o : Option ClusterAffiliate)
    → get_data (or_zero o).affiliate ≡ old_contents (old_affiliate (view_entry o))
get_data-view none = refl
get_data-view (some v) = elim (Option-cases v.affiliate) [
  | inl missing ↦ ground arith
  | inr (a, e) ↦ ground arith
]

new_data-given_or : (old given : Option Bytes) → new_data old given ≡ given_or given old
unfolding new_data
new_data-given_or old none = refl
new_data-given_or old (some given) = refl

effective_ttl-ends_at : (now ttl : ℤ) → now +ℤ effective_ttl ttl ≡ ends_at now ttl
unfolding effective_ttl
effective_ttl-ends_at now (pos zero) = refl
effective_ttl-ends_at now (pos (suc n)) = ground arith
effective_ttl-ends_at now (negsuc n) = ground arith

pub entry_view-updated :
    (visit : Visit Bytes Bytes) (now : ℤ) (req : AffiliateUpdateRequest)
    (o : Option ClusterAffiliate)
    → IsVisit visit
    → entry_view (updated visit now req (or_zero o)) ≡ updated_view now req (view_entry o)
unfolding updated
entry_view-updated visit now req o fair =
    let merged =
      merge_endpoints_lem (get_endpoints (or_zero o).affiliate) req.affiliate_endpoints visit
        fair in
    let endpoints : contains
          (merge_endpoints visit (get_endpoints (or_zero o).affiliate) req.affiliate_endpoints)
        ≡ (λ y.
            old_endpoint (old_affiliate (view_entry o)) y || contains req.affiliate_endpoints y) =
      fun_ext (λ y.
        merged.0 y ∙ ap (λ b. b || contains req.affiliate_endpoints y) (get_endpoints-view o y)) in
    cc (
      get_data-view o,
      new_data-given_or (get_data (or_zero o).affiliate) req.affiliate_data,
      effective_ttl-ends_at now req.ttl,
    )

-- The specification without orders does what the one on entries does.
spec_step-view :
    (c : Call) (f : Spec)
    → IsFair c
    → (λ j. view_entry (spec_step c f j)) ≡ request_step (request_of c) (λ j. view_entry (f j))
unfolding spec_step request_step
spec_step-view (update visit visit_endpoints swept_at now req) f fair =
    let key = key_of req.cluster_id req.affiliate_id in
    let stored = entry_view-updated visit_endpoints now req (live swept_at (f key)) fair.1 in
    fun_ext λ j. elim (Bool-cases (j == key)) [
      | inl here ↦ ground (arith, view_entry-live swept_at (f key))
      | inr other ↦ ground (arith, view_entry-live swept_at (f j))
    ]
spec_step-view (delete visit swept_at req) f fair = fun_ext λ j.
    elim (Bool-cases (j == key_of req.cluster_id req.affiliate_id)) [
      | inl here ↦ ground arith
      | inr other ↦ ground (arith, view_entry-live swept_at (f j))
    ]
spec_step-view (lists visit_sweep visit swept_at cluster) f fair =
    fun_ext λ j. view_entry-live swept_at (f j)
spec_step-view (watches visit swept_at) f fair = fun_ext λ j. view_entry-live swept_at (f j)
spec_step-view (ticks visit_sweep visit now) f fair = fun_ext λ j. view_entry-live now (f j)

spec_run-view :
    (cs : List Call) (f : Spec)
    → All IsFair cs
    → (λ j. view_entry (spec_run cs f j)) ≡ request_run (map request_of cs) (λ j. view_entry (f j))
unfolding spec_run request_run
spec_run-view [] f fair = refl
spec_run-view (c ∷ cs) f fair =
    spec_run-view cs (spec_step c f) fair.1
    ∙ ap (request_run (map request_of cs)) (spec_step-view c f fair.0)

-- A history whose messages fit into the channels runs to its end, and what the map then holds is
-- what its requests say, whatever the orders in which any of the calls visits the map or an
-- affiliate's endpoints: the entries by their keys, with the endpoints as a set.
pub run-view :
    (cs : List Call) (s : Server)
    → All IsFair cs
    → 2 * length cs ≤ capacity
    → Ready (2 * length cs) s.watchers
    → IsConsistent (table s)
    → (s' : Server) × (run cs s ≡ done s') × (view s' ≡ request_run (map request_of cs) (view s))
run-view cs s fair le ready good =
    let (s', ran, implements, good') =
      run-Implements cs s (λ k. lookup k (table s)) fair le ready good (λ k. refl) in
    (
      s',
      ran,
      (fun_ext λ j. ap view_entry (implements j)) ∙ spec_run-view cs (λ k. lookup k (table s)) fair,
    )
