-- ===== src/Tests/Releases.antt =====
-- Applications of the theorems on the Release controller
-- (controllers/dockyardsrelease_controller.go).
use dockyards_talos.Base.{
  String, string_eq, ◌≡◌, refl, ◌⊎◌, inl, inr, arith, Bool, true, false, not, Bool-cases, Option,
  none, some, List, [], ◌∷◌,
}
use dockyards_talos.Base.Text.{leb_string, leb_string_total, leb_string_trans}
use dockyards_talos.LinkConfig.Cluster.{found}
use dockyards_talos.Release.Types.{
  kubernetes, talos_installer, Release, ImageRepository, ImagePolicy, repository_failed,
  policy_failed, Client, Semver, Images, ReleaseType,
}
use dockyards_talos.Release.Policies.{
  set_repository, set_policy, release_from_image_policy, release_from_image_policy-set_policy,
}
use dockyards_talos.Release.Kubernetes.{reconcile_kubernetes_releases, with_repository, see_ranges}
use dockyards_talos.Release.Kubernetes.Latest.{IsOrder}
use dockyards_talos.Release.Kubernetes.Laws.{
  Applied, Describes, tags_of, reconcile_kubernetes_releases-Describes,
}
use dockyards_talos.Release.Talos.{reconcile_talos_installer}
use dockyards_talos.Release.Talos.Laws.{Offers, reconcile_talos_installer-Offers}
use dockyards_talos.Release.Reconcile.{aggregate, by_type, reconcile}
use dockyards_talos.Release.Reconcile.Laws.{reconcile-error}

abbrev release : ReleaseType → List String → Release
release kind ranges = record {
  name = "r";
  namespace = "n";
  annotations = ("talos.dockyards.io/platform-name", "metal") ∷ [];
  release_type = kind;
  ranges = ranges;
  status = record { versions = []; latest_version = ""; latest_url = none };
}

abbrev blank_policy : String → String → ImagePolicy
blank_policy namespace name = record {
  name = name;
  namespace = namespace;
  labels = none;
  repository = ("", "");
  range = none;
  latest_tag = some "v1.9.0";
}

abbrev installer_repository : ImageRepository
installer_repository =
    set_repository "ghcr.io/siderolabs/installer"
      (record { name = "r"; namespace = "n"; image = ""; interval = 0 })

-- A cluster whose state counts nothing, with policies that may be refused.
abbrev client : Bool → Client
client refuses = record {
  World = Unit;
  get = λ namespace name w. found (release kubernetes ("1.30" ∷ []));
  has_helper = λ r. true;
  patch = λ before after w. (w, true);
  create_or_patch_repository = λ namespace name change w.
      (w, some (change (record { name = name; namespace = namespace; image = ""; interval = 0 })));
  create_or_patch_policy = λ namespace name change w.
      (w, elim refuses [ true ↦ none | false ↦ some (change (blank_policy namespace name)) ]);
}

-- Texts by their order.
abbrev texts : Semver
texts = record {
  Version = String;
  new_version = λ s. some s;
  greater_than = λ a b. not (leb_string a b);
  original = λ v. v;
}

not_above : (a : String) → not (leb_string a a) ≡ false
not_above a = elim (leb_string_total a a) [ inl h ↦ rw h refl | inr h ↦ rw h refl ]

above_trans :
    (a b d : String)
    → not (leb_string a b) ≡ true
    → not (leb_string b d) ≡ true
    → not (leb_string a d) ≡ true
above_trans a b d h k = elim (Bool-cases (leb_string a d)) [
  | inl below ↦ elim (leb_string_total b d) [
    | inl h' ↦ absurd (ground arith)
    | inr h' ↦ absurd (ground (arith, leb_string_trans a d b))
  ]
  | inr other ↦ rw other refl
]

texts-IsOrder : IsOrder texts
texts-IsOrder = record {
  irreflexive = not_above;
  transitive = above_trans;
  keeps_text = λ text v same. ground arith;
}

release_from_image_policy-set_policy_example :
    release_from_image_policy "release" (
      some (
        set_policy "release" installer_repository
          (release talos_installer ("1.9" ∷ []))
          "1.9"
          (blank_policy "n" "r")))
    ≡ ("n", "r") ∷ []
release_from_image_policy-set_policy_example =
    release_from_image_policy-set_policy "release" installer_repository
      (release talos_installer ("1.9" ∷ [])) "1.9" (blank_policy "n" "r")

abbrev kubernetes_release : Release
kubernetes_release = release kubernetes ("1.30" ∷ "1.31" ∷ [])

reconcile_kubernetes_releases-Describes_example :
    (◌≡◌ {A = Option ImageRepository}
        (some (
          set_repository "ghcr.io/siderolabs/kubelet"
            (record { name = "r"; namespace = "n"; image = ""; interval = 0 })))
        none)
      × ((reconcile_kubernetes_releases (client false) "release" texts kubernetes_release tt).2
          ≡ some repository_failed)
      × ((reconcile_kubernetes_releases (client false) "release" texts kubernetes_release tt).1
          ≡ kubernetes_release)
    ⊎ ((repo : ImageRepository) × (◌≡◌ {A = Option ImageRepository}
          (some (
            set_repository "ghcr.io/siderolabs/kubelet"
              (record { name = "r"; namespace = "n"; image = ""; interval = 0 })))
          (some repo))
        × ((((reconcile_kubernetes_releases (client false) "release" texts kubernetes_release tt).2
                ≡ some policy_failed)
              × ((reconcile_kubernetes_releases
                    (client false)
                    "release"
                    texts
                    kubernetes_release
                    tt).1
                  ≡ kubernetes_release))
            ⊎ ((ps : List ImagePolicy) × ((reconcile_kubernetes_releases
                    (client false)
                    "release"
                    texts
                    kubernetes_release
                    tt).2
                  ≡ none)
                × Applied
                    (client false)
                    "release"
                    kubernetes_release
                    repo
                    ("1.30" ∷ "1.31" ∷ [])
                    tt
                    ps
                    (reconcile_kubernetes_releases
                      (client false)
                      "release"
                      texts
                      kubernetes_release
                      tt).0
                × Describes texts
                    (tags_of ps)
                    kubernetes_release
                    (reconcile_kubernetes_releases
                      (client false)
                      "release"
                      texts
                      kubernetes_release
                      tt).1)))
reconcile_kubernetes_releases-Describes_example =
    reconcile_kubernetes_releases-Describes (client false) "release" texts texts-IsOrder
      kubernetes_release tt

abbrev images : Images
images = record {
  cloud_platforms = record { name = "metal"; disk_image_path = "metal-amd64.raw" } ∷ [];
  join = λ parts. "path";
  url = λ scheme host path. host;
}

abbrev talos_release : Release
talos_release = release talos_installer ("1.9" ∷ [])

policy_tagged :
    (set_policy "release" installer_repository talos_release "1.9"
      (blank_policy "n" "r")).latest_tag
    ≡ some "v1.9.0"
unfolding set_policy
policy_tagged = refl

reconcile_talos_installer-Offers_example :
    (url : Option String) × Offers images "factory" talos_release.annotations "v1.9.0" url
    × (reconcile_talos_installer images "factory" (client false) "release" talos_release tt ≡ (
      tt,
      record talos_release {
        status = record { versions = "v1.9.0" ∷ []; latest_version = "v1.9.0"; latest_url = url };
      },
      none,
    ))
reconcile_talos_installer-Offers_example =
    reconcile_talos_installer-Offers images "factory" (client false) "release" talos_release "1.9"
      "v1.9.0" tt installer_repository
      (set_policy "release" installer_repository talos_release "1.9" (blank_policy "n" "r")) tt tt
      refl refl refl policy_tagged

refused :
    (by_type
      (client true)
      "release"
      texts
      images
      "factory"
      kubernetes
      (release kubernetes ("1.30" ∷ []))
      tt).2
    ≡ some policy_failed
unfolding by_type reconcile_kubernetes_releases with_repository see_ranges
refused = refl

reconcile-error_example :
    reconcile (client true) "release" texts images "factory" "n" "r" tt
    ≡ (tt, aggregate (some policy_failed) true)
reconcile-error_example =
    reconcile-error (client true) "release" texts images "factory"
      (release kubernetes ("1.30" ∷ [])) "n" "r" tt policy_failed refl refl refused
