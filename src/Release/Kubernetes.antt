-- ===== src/Release/Kubernetes.antt =====
-- dockyardsrelease_controller.go: reconcileKubernetesReleases.
pub mod Latest
pub mod Laws
use Prim.Native.String.{◌++◌ as ◌<>◌}
use dockyards_talos.Base.{String, Bool, Option, none, some, List, [], ◌∷◌, ◌++◌, if◌then◌else◌}
use dockyards_talos.Release.Types.{
  ReleaseStatus, Release, ImageRepository, ImagePolicy, ReleaseError, repository_failed,
  policy_failed, Client, Semver,
}
use dockyards_talos.Release.Policies.{set_repository, set_policy}
use dockyards_talos.Base.Result.{Result, ok, err}

module _ (s : Semver) where
  -- `versions` and `latestVersion`
  pub record Seen : Type 0 where
    pub versions : List String
    pub latest : Option s.Version

  abbrev pub nothing_seen : Seen
  nothing_seen = record { versions = []; latest = none }

  unfoldable pub later : s.Version → Option s.Version → Option s.Version
  later v none = some v
  later v (some w) = if s.greater_than v w then some v else some w

  unfoldable pub see_version : Option s.Version → Option s.Version → Option s.Version
  see_version none latest = latest
  see_version (some v) latest = later v latest

  -- The round of the loop for one policy, once it is there.
  unfoldable pub see_tag : Option String → Seen → Seen
  see_tag none seen = seen
  see_tag (some tag) seen = record {
    versions = seen.versions ++ (tag ∷ []);
    latest = see_version (s.new_version tag) seen.latest;
  }

  -- What follows the loop.
  unfoldable pub publish : Option s.Version → List String → Release → Release
  publish none versions release = release
  publish (some v) versions release = record release {
    status = record release.status { versions = versions; latest_version = s.original v };
  }

module _ (c : Client) (label : String) (s : Semver) where
  -- The loop over the ranges, with the cluster that each call leaves.
  unfoldable pub see_ranges :
      Release
      → ImageRepository
      → List String
      → Seen s
      → c.World
      → c.World × Result ReleaseError (Seen s)
  see_ranges release repo [] seen w = (w, ok seen)
  see_ranges release repo (range ∷ ranges) seen w =
      let answer =
        c.create_or_patch_policy repo.namespace (repo.name <> "-" <> range)
          (set_policy label repo release range) w in
      elim answer.1 [
        | none ↦ (answer.0, err policy_failed)
        | some policy ↦ see_ranges release repo ranges (see_tag s policy.latest_tag seen) answer.0
      ]

  abbrev pub published :
      Release → c.World × Result ReleaseError (Seen s) → c.World × Release × Option ReleaseError
  published release (w, err e) = (w, release, some e)
  published release (w, ok seen) = (w, publish s seen.latest seen.versions release, none)

  unfoldable pub with_repository :
      Release → c.World × Option ImageRepository → c.World × Release × Option ReleaseError
  with_repository release (w, none) = (w, release, some repository_failed)
  with_repository release (w, some repo) =
      published release (see_ranges release repo release.ranges (nothing_seen s) w)

  -- The cluster, the Release and the error that the call leaves.
  unfoldable pub reconcile_kubernetes_releases :
      Release → c.World → c.World × Release × Option ReleaseError
  reconcile_kubernetes_releases release w = with_repository release (
      c.create_or_patch_repository release.namespace release.name
        (set_repository "ghcr.io/siderolabs/kubelet") w)
