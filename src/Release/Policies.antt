-- ===== src/Release/Policies.antt =====
-- dockyardsrelease_controller.go: the ImageRepository and the ImagePolicies of a Release, and
-- ReleaseFromImagePolicy.
use dockyards_talos.Base.{String, string_eq, ◌≡◌, arith, Option, none, some, List, [], ◌∷◌, ◌*◌}
use dockyards_talos.Base.GoMap.{GoMap, lookup, insert, lookup-insert}
use dockyards_talos.Release.Types.{Release, ImageRepository, ImagePolicy}

-- The mutation of the ImageRepository.
abbrev pub set_repository : (image : String) → ImageRepository → ImageRepository
set_repository image repo = record repo { image = image; interval = 60 * 60 }

abbrev pub or_new : Option (GoMap String String) → GoMap String String
or_new none = []
or_new (some m) = m

-- The mutation of an ImagePolicy.
unfoldable pub set_policy :
    (label : String) → ImageRepository → Release → (range : String) → ImagePolicy → ImagePolicy
set_policy label repo release range policy = record policy {
  repository = ("", repo.name);
  range = some range;
  labels = some (insert label release.name (or_new policy.labels));
}

-- The requests by namespace and name.
unfoldable pub release_of_label : Option String → ImagePolicy → List (String × String)
release_of_label none policy = []
release_of_label (some name) policy = (policy.namespace, name) ∷ []

-- The object is `none` if it is no ImagePolicy.
unfoldable pub release_from_image_policy :
    (label : String) → Option ImagePolicy → List (String × String)
release_from_image_policy label none = []
release_from_image_policy label (some policy) =
    release_of_label (lookup label (or_new policy.labels)) policy

-- Whatever labels an ImagePolicy has, once the controller has set it up for a Release, a change of
-- it leads to one request: for the Release of that name in the policy's namespace.
pub release_from_image_policy-set_policy :
    (label : String) (repo : ImageRepository) (release : Release) (range : String)
    (policy : ImagePolicy)
    → release_from_image_policy label (some (set_policy label repo release range policy))
      ≡ (policy.namespace, release.name) ∷ []
unfolding release_from_image_policy set_policy release_of_label
release_from_image_policy-set_policy label repo release range policy =
    ground (arith, lookup-insert label label release.name (or_new policy.labels))
