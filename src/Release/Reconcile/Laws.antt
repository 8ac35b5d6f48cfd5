-- ===== src/Release/Reconcile/Laws.antt =====
-- dockyardsrelease_controller.go: what Reconcile leaves.
use dockyards_talos.Base.{String, ◌≡◌, refl, true, Option, none, some, List, [], ◌∷◌}
use dockyards_talos.Base.Result.{Result, ok, err}
use dockyards_talos.LinkConfig.Cluster.{found}
use dockyards_talos.Release.Types.{
  kubernetes, talos_installer, other_type, ReleaseType, Release, ImageRepository, ImagePolicy,
  ReleaseError, Client, Semver, Images,
}
use dockyards_talos.Release.Kubernetes.{
  Seen, published, with_repository, reconcile_kubernetes_releases,
}
use dockyards_talos.Release.Talos.{with_policy, with_installer, install, reconcile_talos_installer}
use dockyards_talos.Release.Reconcile.{
  aggregate, by_type, patch_status, with_helper, with_release, reconcile,
}

-- A call that fails leaves the Release as it was.
abbrev Spares {ℓ} : {W : Type ℓ} → Release → W × Release × Option ReleaseError → Type 0
Spares release r = (e : ReleaseError) → r.2 ≡ some e → r.1 ≡ release

module _ (c : Client) (label : String) (s : Semver) (images : Images) (host : String)
    (release : Release) where
  published-Spares :
      (r : c.World × Result ReleaseError (Seen s)) → Spares release (published c label s release r)
  published-Spares (w, err e) = λ e' same. refl
  published-Spares (w, ok seen) = λ e' same. cc

  with_repository-Spares :
      (a : c.World × Option ImageRepository) → Spares release (with_repository c label s release a)
  unfolding with_repository
  with_repository-Spares (w, none) = λ e same. refl
  with_repository-Spares (w, some repo) = published-Spares _

  with_policy-Spares :
      (a : c.World × Option ImagePolicy)
      → Spares release (with_policy images host c label release a)
  unfolding with_policy
  with_policy-Spares (w, none) = λ e same. refl
  with_policy-Spares (w, some policy) = λ e same. cc

  with_installer-Spares :
      (range : String) (a : c.World × Option ImageRepository)
      → Spares release (with_installer images host c label release range a)
  unfolding with_installer
  with_installer-Spares range (w, none) = λ e same. refl
  with_installer-Spares range (w, some repo) = with_policy-Spares _

  install-Spares :
      (ranges : List String) (w : c.World)
      → Spares release (install images host c label release ranges w)
  unfolding install
  install-Spares [] w = λ e same. refl
  install-Spares (range ∷ []) w = with_installer-Spares range _
  install-Spares (range ∷ other ∷ ranges) w = λ e same. refl

  by_type-Spares :
      (t : ReleaseType) (w : c.World) → Spares release (by_type c label s images host t release w)
  unfolding by_type reconcile_kubernetes_releases reconcile_talos_installer
  by_type-Spares kubernetes w = with_repository-Spares _
  by_type-Spares talos_installer w = install-Spares release.ranges w
  by_type-Spares (other_type name) w = λ e same. refl

  pub reconcile-error :
      (namespace name : String) (w : c.World) (e : ReleaseError)
      → c.get namespace name w ≡ found release
      → c.has_helper release ≡ true
      → (by_type c label s images host release.release_type release w).2 ≡ some e
      → let left =
          c.patch release release
            (by_type c label s images host release.release_type release w).0 in
        reconcile c label s images host namespace name w ≡ (left.0, aggregate (some e) left.1)
  unfolding reconcile with_release with_helper patch_status
  reconcile-error namespace name w e got helper refused =
      rw (got, helper)
        (patched (by_type c label s images host release.release_type release w) refused
          (by_type-Spares release.release_type w e refused))
    where
      patched :
          (r : c.World × Release × Option ReleaseError)
          → r.2 ≡ some e
          → r.1 ≡ release
          → let left = c.patch release release r.0 in
            patch_status c label s images host release r ≡ (left.0, aggregate (some e) left.1)
      patched (w', left, reterr) fails same = rw (fails, same) refl
