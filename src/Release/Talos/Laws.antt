-- ===== src/Release/Talos/Laws.antt =====
-- dockyardsrelease_controller.go: what reconcileTalosInstaller leaves.
use mathlib.Core.List.{mem-cons_self, mem-cons_of_mem}
use dockyards_talos.Base.{
  String, string_eq, ◌≡◌, ◌≢◌, refl, ap, ◌∙◌, arith, ◌⊎◌, inl, inr, Bool-cases, Option, none, some,
  List, [], ◌∷◌, All, Mem, ◌==◌,
}
use dockyards_talos.Base.GoMap.{GoMap, lookup}
use dockyards_talos.Release.Types.{
  Release, ImageRepository, ImagePolicy, Client, Platform, Images, platform_name_key,
  schematic_id_key,
}
use dockyards_talos.Release.Policies.{set_repository, set_policy}
use dockyards_talos.Release.Talos.{
  find_platform, or_default, image_url, latest_url, publish_tag, with_policy, with_installer,
  install, reconcile_talos_installer,
}

module _ (images : Images) (host : String) (annotations : GoMap String String) (tag : String) where
  -- The URL of the disk image: there is none if no platform has the annotated name, or else it is
  -- that of one that has it.
  pub data Offers : Option String → Type 0 where
    no_platform :
        All (λ p. lookup platform_name_key annotations ≢ some p.name) images.cloud_platforms
        → Offers none
    platform_image :
        {p : Platform}
        → Mem p images.cloud_platforms
        → lookup platform_name_key annotations ≡ some p.name
        → Offers
            (some (image_url images host (or_default (lookup schematic_id_key annotations)) tag p))

  none_named :
      (ps : List Platform)
      → lookup platform_name_key annotations ≡ none
      → All (λ p. lookup platform_name_key annotations ≢ some p.name) ps
  none_named [] e = tt
  none_named (p ∷ ps) e = (λ same. cc, none_named ps e)

  find_platform-cases :
      (name : String) (ps : List Platform)
      → lookup platform_name_key annotations ≡ some name
      → ((find_platform name ps ≡ none)
          × All (λ p. lookup platform_name_key annotations ≢ some p.name) ps)
        ⊎ ((p : Platform) × (find_platform name ps ≡ some p) × Mem p ps × (p.name ≡ name))
  unfolding find_platform
  find_platform-cases name [] e = inl (refl, tt)
  find_platform-cases name (p ∷ ps) e = elim (Bool-cases (p.name == name)) [
    | inl same ↦ inr (p, rw same refl, mem-cons_self, ground arith)
    | inr differ ↦ rw differ (elim (find_platform-cases name ps e) [
      | inl (missing, others) ↦ inl (missing, (λ same. ground arith, others))
      | inr (q, found, at, named) ↦ inr (q, found, mem-cons_of_mem p at, named)
    ])
  ]

  Offers-latest_url :
      (o : Option String)
      → lookup platform_name_key annotations ≡ o
      → Offers (latest_url images host annotations tag o)
  unfolding latest_url
  Offers-latest_url none e = no_platform (none_named images.cloud_platforms e)
  Offers-latest_url (some name) e = elim (find_platform-cases name images.cloud_platforms e) [
    | inl (missing, others) ↦ rw missing (no_platform others)
    | inr (p, found, at, named) ↦ rw found (platform_image at (rw named e))
  ]

module _ (images : Images) (host : String) (c : Client) (label : String) where
  pub reconcile_talos_installer-Offers :
      (release : Release) (range tag : String) (w : c.World) (repo : ImageRepository)
      (policy : ImagePolicy) (w1 w2 : c.World)
      → release.ranges ≡ range ∷ []
      → c.create_or_patch_repository release.namespace release.name
          (set_repository "ghcr.io/siderolabs/installer")
          w
        ≡ (w1, some repo)
      → c.create_or_patch_policy repo.namespace repo.name (set_policy label repo release range) w1
        ≡ (w2, some policy)
      → policy.latest_tag ≡ some tag
      → (url : Option String) × Offers images host release.annotations tag url
        × (reconcile_talos_installer images host c label release w ≡ (
          w2,
          record release {
            status = record { versions = tag ∷ []; latest_version = tag; latest_url = url };
          },
          none,
        ))
  unfolding reconcile_talos_installer install with_installer with_policy publish_tag
  reconcile_talos_installer-Offers release range tag w repo policy w1 w2 single made set tagged = (
    latest_url images host release.annotations tag (lookup platform_name_key release.annotations),
    Offers-latest_url images host release.annotations tag _ refl,
    ap (λ ranges. install images host c label release ranges w) single
        ∙ rw (made, set, tagged) refl,
  )
