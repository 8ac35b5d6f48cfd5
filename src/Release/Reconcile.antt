-- ===== src/Release/Reconcile.antt =====
-- dockyardsrelease_controller.go: Reconcile.
pub mod Laws
use dockyards_talos.Base.{String, Bool, true, false, Option, none, some, List, [], ◌∷◌}
use dockyards_talos.LinkConfig.Cluster.{Lookup, found, not_found, failed}
use dockyards_talos.Release.Types.{
  ReleaseType, kubernetes, talos_installer, other_type, Release, ReleaseError, get_failed,
  helper_failed, patch_failed, Client, Semver, Images,
}
use dockyards_talos.Release.Kubernetes.{reconcile_kubernetes_releases}
use dockyards_talos.Release.Talos.{reconcile_talos_installer}

-- `kerrors.NewAggregate([]error{reterr, err})`, which skips a `nil`, and the `nil` of a patch that
-- succeeds.
abbrev pub aggregate : Option ReleaseError → Bool → List ReleaseError
aggregate none true = []
aggregate (some e) true = e ∷ []
aggregate none false = patch_failed ∷ []
aggregate (some e) false = e ∷ patch_failed ∷ []

module _ (c : Client) (label : String) (s : Semver) (images : Images) (host : String) where
  -- The switch on the type.
  unfoldable pub by_type : ReleaseType → Release → c.World → c.World × Release × Option ReleaseError
  by_type kubernetes release w = reconcile_kubernetes_releases c label s release w
  by_type talos_installer release w = reconcile_talos_installer images host c label release w
  by_type (other_type name) release w = (w, release, none)

  -- The deferred patch, of the Release that was read to the one that is left.
  unfoldable pub patch_status :
      Release → c.World × Release × Option ReleaseError → c.World × List ReleaseError
  patch_status before (w, release, reterr) =
      let (w', succeeded) = c.patch before release w in (w', aggregate reterr succeeded)

  -- With the answer of `patch.NewHelper`.
  unfoldable pub with_helper : Bool → Release → c.World → c.World × List ReleaseError
  with_helper false release w = (w, helper_failed ∷ [])
  with_helper true release w = patch_status release (by_type release.release_type release w)

  unfoldable pub with_release : Lookup Release → c.World → c.World × List ReleaseError
  with_release (found release) w = with_helper (c.has_helper release) release w
  with_release not_found w = (w, [])
  with_release failed w = (w, get_failed ∷ [])

  unfoldable pub reconcile : (namespace name : String) → c.World → c.World × List ReleaseError
  reconcile namespace name w = with_release (c.get namespace name w) w
