-- ===== src/Release/Kubernetes/Laws.antt =====
-- dockyardsrelease_controller.go: what reconcileKubernetesReleases leaves.
use Prim.Native.String.{◌++◌ as ◌<>◌}
use mathlib.Core.List.{append_assoc, append-nil}
use dockyards_talos.Base.{
  String, ◌≡◌, refl, sym, ap, ◌∙◌, arith, ◌⊎◌, inl, inr, Option, none, some, List, [], ◌∷◌, ◌++◌,
  All, Mem, Option-cases,
}
use dockyards_talos.Base.Result.{Result, ok, err}
use dockyards_talos.Release.Types.{
  Release, ImageRepository, ImagePolicy, ReleaseError, repository_failed, policy_failed, Client,
  Semver,
}
use dockyards_talos.Release.Policies.{set_repository, set_policy}
use dockyards_talos.Release.Kubernetes.{
  Seen, nothing_seen, see_tag, publish, see_ranges, published, with_repository,
  reconcile_kubernetes_releases,
}
use dockyards_talos.Release.Kubernetes.Latest.{IsOrder, AtMost, Latest, Latest-snoc}

-- The tags of the policies that have a latest reference.
abbrev pub with_tag : Option String → List String → List String
with_tag none tags = tags
with_tag (some t) tags = t ∷ tags

abbrev pub tags_of : List ImagePolicy → List String
tags_of [] = []
tags_of (p ∷ ps) = with_tag p.latest_tag (tags_of ps)

module _ (c : Client) (label : String) (release : Release) (repo : ImageRepository) where
  -- The calls of CreateOrPatch for the ranges all succeed, and leave these policies.
  pub data Applied : List String → c.World → List ImagePolicy → c.World → Type 0 where
    none_left : {w : c.World} → Applied [] w [] w
    one_more :
        {range : String} {ranges : List String} {w w1 w2 : c.World} {p : ImagePolicy}
        {ps : List ImagePolicy}
        → c.create_or_patch_policy repo.namespace
            (repo.name <> "-" <> range)
            (set_policy label repo release range)
            w
          ≡ (w1, some p)
        → Applied ranges w1 ps w2
        → Applied (range ∷ ranges) w (p ∷ ps) w2

-- What a Release gets of the tags: if none of them is a version, nothing; or else all of them, and
-- as the latest version the text of one that is a version and that none exceeds.
pub data Describes (s : Semver) (tags : List String) (release : Release) : Release → Type 0 where
  nothing_known : All (λ t. s.new_version t ≡ none) tags → Describes s tags release release
  latest_known :
      {tag : String} {v : s.Version}
      → Mem tag tags
      → s.new_version tag ≡ some v
      → All (λ t. AtMost s v (s.new_version t)) tags
      → Describes s tags release (record release {
        status = record release.status { versions = tags; latest_version = tag };
      })

module _ (c : Client) (label : String) (s : Semver) (order : IsOrder s) where
  Latest-see_tag :
      (o : Option String) (seen : Seen s)
      → Latest s seen.versions seen.latest
      → Latest s (see_tag s o seen).versions (see_tag s o seen).latest
  unfolding see_tag
  Latest-see_tag none seen h = h
  Latest-see_tag (some tag) seen h =
      Latest-snoc s order seen.versions tag (s.new_version tag) seen.latest refl h

  versions-see_tag :
      (o : Option String) (seen : Seen s) (rest : List String)
      → (see_tag s o seen).versions ++ rest ≡ seen.versions ++ with_tag o rest
  unfolding see_tag
  versions-see_tag none seen rest = refl
  versions-see_tag (some tag) seen rest = append_assoc seen.versions (tag ∷ []) rest

  describe :
      (release : Release) (tags : List String) (latest : Option s.Version)
      → Latest s tags latest
      → Describes s tags release (publish s latest tags release)
  unfolding publish
  describe release tags none h = nothing_known h
  describe release tags (some v) h =
      rw (order.keeps_text h.0.0 v h.0.2) (latest_known h.0.1 h.0.2 h.1)

  module _ (release : Release) (repo : ImageRepository) where
    -- The loop fails, or it has seen the tags of all policies.
    abbrev Walked : List String → Seen s → c.World → c.World × Result ReleaseError (Seen s) → Type 0
    Walked ranges seen w r =
        (r.1 ≡ err policy_failed)
        ⊎ ((seen' : Seen s) × (ps : List ImagePolicy) × (r.1 ≡ ok seen')
            × Applied c label release repo ranges w ps r.0
            × (seen'.versions ≡ seen.versions ++ tags_of ps)
            × Latest s seen'.versions seen'.latest)

    Walked-more :
        (range : String) (ranges : List String) (seen : Seen s) (w w1 : c.World) (p : ImagePolicy)
        (r : c.World × Result ReleaseError (Seen s))
        → c.create_or_patch_policy repo.namespace
            (repo.name <> "-" <> range)
            (set_policy label repo release range)
            w
          ≡ (w1, some p)
        → Walked ranges (see_tag s p.latest_tag seen) w1 r
        → Walked (range ∷ ranges) seen w r
    Walked-more range ranges seen w w1 p r e (inl failed) = inl failed
    Walked-more range ranges seen w w1 p r e (inr (seen', ps, made, steps, read, h)) = inr (
      seen',
      p ∷ ps,
      made,
      one_more e steps,
      read ∙ versions-see_tag p.latest_tag seen (tags_of ps),
      h,
    )

    see_ranges-Walked :
        (ranges : List String) (seen : Seen s) (w : c.World)
        → Latest s seen.versions seen.latest
        → Walked ranges seen w (see_ranges c label s release repo ranges seen w)
    unfolding see_ranges
    see_ranges-Walked [] seen w h =
        inr (seen, [], refl, none_left, sym (append-nil seen.versions), h)
    see_ranges-Walked (range ∷ ranges) seen w h =
        let answer =
          c.create_or_patch_policy repo.namespace (repo.name <> "-" <> range)
            (set_policy label repo release range) w in
        elim (Option-cases answer.1) [
          | inl e ↦ inl (rw (e, see_ranges) refl)
          | inr (p, e) ↦
              rw (e, see_ranges)
                (Walked-more range ranges seen w answer.0 p _ (ap (λ o. (answer.0, o)) e) (
                  see_ranges-Walked ranges (see_tag s p.latest_tag seen) answer.0
                    (Latest-see_tag p.latest_tag seen h)))
        ]

    published-Walked :
        (w : c.World) (r : c.World × Result ReleaseError (Seen s))
        → Walked release.ranges (nothing_seen s) w r
        → let done = published c label s release r in
          ((done.2 ≡ some policy_failed) × (done.1 ≡ release))
          ⊎ ((ps : List ImagePolicy) × (done.2 ≡ none)
              × Applied c label release repo release.ranges w ps done.0
              × Describes s (tags_of ps) release done.1)
    published-Walked w (w', err e) (inl refused) = inl (ground arith, refl)
    published-Walked w (w', err e) (inr (seen', ps, made, steps, read, h)) = cc
    published-Walked w (w', ok seen) (inl refused) = cc
    published-Walked w (w', ok seen) (inr (seen', ps, made, steps, read, h)) =
        let same : seen ≡ seen' = cc in
        inr (
          ps,
          refl,
          steps,
          rw (same, read) (describe release (tags_of ps) seen'.latest (rw (← read) h)),
        )

  module _ (release : Release) (w : c.World) where
    finish :
        (a : c.World × Option ImageRepository)
        → let done = with_repository c label s release a in
          (a.1 ≡ none) × (done.2 ≡ some repository_failed) × (done.1 ≡ release)
          ⊎ ((repo : ImageRepository) × (a.1 ≡ some repo)
              × (((done.2 ≡ some policy_failed) × (done.1 ≡ release))
                  ⊎ ((ps : List ImagePolicy) × (done.2 ≡ none)
                      × Applied c label release repo release.ranges a.0 ps done.0
                      × Describes s (tags_of ps) release done.1)))
    unfolding with_repository
    finish (w', none) = inl (refl, refl, refl)
    finish (w', some repo) = inr (
      repo,
      refl,
      published-Walked release repo w' _
          (see_ranges-Walked release repo release.ranges (nothing_seen s) w' tt),
    )

  -- For versions with a strict order, whose text is kept, the call for a Kubernetes Release leaves
  -- the Release as it was and fails, or it has set up the ImageRepository and one ImagePolicy for
  -- each range, in order, and the Release is as the tags of these policies describe: where one is
  -- a version, all of them are recorded, and as the latest one the text of a version that none of
  -- them exceeds.
  pub reconcile_kubernetes_releases-Describes :
      (release : Release) (w : c.World)
      → let asked =
          c.create_or_patch_repository release.namespace release.name
            (set_repository "ghcr.io/siderolabs/kubelet")
            w in
        let done = reconcile_kubernetes_releases c label s release w in
        (asked.1 ≡ none) × (done.2 ≡ some repository_failed) × (done.1 ≡ release)
        ⊎ ((repo : ImageRepository) × (asked.1 ≡ some repo)
            × (((done.2 ≡ some policy_failed) × (done.1 ≡ release))
                ⊎ ((ps : List ImagePolicy) × (done.2 ≡ none)
                    × Applied c label release repo release.ranges asked.0 ps done.0
                    × Describes s (tags_of ps) release done.1)))
  unfolding reconcile_kubernetes_releases
  reconcile_kubernetes_releases-Describes release w = finish release w (
      c.create_or_patch_repository release.namespace release.name
        (set_repository "ghcr.io/siderolabs/kubelet") w)
