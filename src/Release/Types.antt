-- ===== src/Release/Types.antt =====
-- dockyardsrelease_controller.go and controller_consts.go: the objects that the Release controller
-- reads and writes, and what it calls.
use dockyards_talos.Base.{ℕ, String, Bool, Option, List}
use dockyards_talos.Base.GoMap.{GoMap}
use dockyards_talos.LinkConfig.Cluster.{Lookup}

-- `Spec.Type`
pub data ReleaseType : Type 0 where
  kubernetes talos_installer : ReleaseType
  other_type : String → ReleaseType

pub record ReleaseStatus : Type 0 where
  pub versions : List String
  pub latest_version : String
  pub latest_url : Option String

-- A `nil` map of annotations reads as an empty one.
pub record Release : Type 0 where
  pub name : String
  pub namespace : String
  pub annotations : GoMap String String
  pub release_type : ReleaseType
  pub ranges : List String
  pub status : ReleaseStatus

-- The fields of an ImageRepository that the controller uses; the interval in seconds.
pub record ImageRepository : Type 0 where
  pub name : String
  pub namespace : String
  pub image : String
  pub interval : ℕ

-- The fields of an ImagePolicy that the controller uses: `repository` is its reference by
-- namespace and name, `range` that of its SemVer policy, `latest_tag` that of its latest reference.
pub record ImagePolicy : Type 0 where
  pub name : String
  pub namespace : String
  pub labels : Option (GoMap String String)
  pub repository : String × String
  pub range : Option String
  pub latest_tag : Option String

pub data ReleaseError : Type 0 where
  get_failed helper_failed repository_failed policy_failed patch_failed : ReleaseError

-- The Kubernetes client. `World` is the state of the cluster. A call of `CreateOrPatch` is given
-- the object by namespace and name and the change to make, and leaves the changed object.
pub record Client : Type 1 where
  pub World : Type 0
  pub get : (namespace name : String) → World → Lookup Release
  pub has_helper : Release → Bool
  pub patch : (before after : Release) → World → World × Bool
  pub create_or_patch_repository :
      (namespace name : String)
      → (ImageRepository → ImageRepository)
      → World
      → World × Option ImageRepository
  pub create_or_patch_policy :
      (namespace name : String) → (ImagePolicy → ImagePolicy) → World → World × Option ImagePolicy

-- The package semver.
pub record Semver : Type 1 where
  pub Version : Type 0
  pub new_version : String → Option Version
  pub greater_than : Version → Version → Bool
  pub original : Version → String

-- The package platforms: a platform's name and the default path of its disk image for amd64.
pub record Platform : Type 0 where
  pub name : String
  pub disk_image_path : String

-- What the Talos releases call: the known platforms, `path.Join` and `URL.String`, the latter on
-- the scheme, the host and the path.
pub record Images : Type 0 where
  pub cloud_platforms : List Platform
  pub join : List String → String
  pub url : (scheme host path : String) → String

-- dockyardsv1.LabelReleaseName is a constant of another package.
abbrev pub platform_name_key : String
platform_name_key = "talos.dockyards.io/platform-name"

abbrev pub schematic_id_key : String
schematic_id_key = "talos.dockyards.io/schematic-id"

abbrev pub default_schematic_id : String
default_schematic_id = "376567988ad370138ad8b2698212367b8edcb69b5fd68c80be1f2ec7d603b4ba"
