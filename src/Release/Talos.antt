-- ===== src/Release/Talos.antt =====
-- dockyardsrelease_controller.go: reconcileTalosInstaller.
pub mod Laws
use dockyards_talos.Base.{String, string_eq, Option, none, some, List, [], ◌∷◌, ◌==◌, if◌then◌else◌}
use dockyards_talos.Base.GoMap.{GoMap, lookup}
use dockyards_talos.Release.Types.{
  ReleaseStatus, Release, ImageRepository, ImagePolicy, ReleaseError, repository_failed,
  policy_failed, Client, Platform, Images, platform_name_key, schematic_id_key,
  default_schematic_id,
}
use dockyards_talos.Release.Policies.{set_repository, set_policy}

-- The loop over `platforms.CloudPlatforms()`.
unfoldable pub find_platform : String → List Platform → Option Platform
find_platform name [] = none
find_platform name (p ∷ ps) =
    let rest = find_platform name ps in if p.name == name then some p else rest

-- `if !hasAnnotation { schematicID = DefaultSchematicID }`
abbrev pub or_default : Option String → String
or_default none = default_schematic_id
or_default (some id) = id

module _ (images : Images) (host : String) where
  abbrev pub image_url : (schematic tag : String) → Platform → String
  image_url schematic tag p =
      images.url "https" host (images.join ("image" ∷ schematic ∷ tag ∷ p.disk_image_path ∷ []))

  abbrev pub platform_url : (schematic tag : String) → Option Platform → Option String
  platform_url schematic tag none = none
  platform_url schematic tag (some p) = some (image_url schematic tag p)

  -- `release.Status.LatestURL`, by the platform's annotation.
  unfoldable pub latest_url : GoMap String String → (tag : String) → Option String → Option String
  latest_url annotations tag none = none
  latest_url annotations tag (some name) =
      platform_url (or_default (lookup schematic_id_key annotations)) tag
        (find_platform name images.cloud_platforms)

  -- What follows the two calls of CreateOrPatch.
  unfoldable pub publish_tag : Option String → Release → Release
  publish_tag none release = release
  publish_tag (some tag) release = record release {
    status = record {
      versions = tag ∷ [];
      latest_version = tag;
      latest_url =
          latest_url release.annotations tag (lookup platform_name_key release.annotations);
    };
  }

  module _ (c : Client) (label : String) where
    unfoldable pub with_policy :
        Release → c.World × Option ImagePolicy → c.World × Release × Option ReleaseError
    with_policy release (w, none) = (w, release, some policy_failed)
    with_policy release (w, some policy) = (w, publish_tag policy.latest_tag release, none)

    unfoldable pub with_installer :
        Release
        → (range : String) → c.World × Option ImageRepository
        → c.World × Release × Option ReleaseError
    with_installer release range (w, none) = (w, release, some repository_failed)
    with_installer release range (w, some repo) =
        with_policy release (
          c.create_or_patch_policy repo.namespace repo.name (set_policy label repo release range) w)

    -- By the ranges, of which there has to be exactly one.
    unfoldable pub install :
        Release → List String → c.World → c.World × Release × Option ReleaseError
    install release [] w = (w, release, none)
    install release (range ∷ []) w = with_installer release range (
        c.create_or_patch_repository release.namespace release.name
          (set_repository "ghcr.io/siderolabs/installer") w)
    install release (range ∷ other ∷ ranges) w = (w, release, none)

    unfoldable pub reconcile_talos_installer :
        Release → c.World → c.World × Release × Option ReleaseError
    reconcile_talos_installer release w = install release release.ranges w
