-- ===== src/Release/Kubernetes/Latest.antt =====
-- dockyardsrelease_controller.go: the versions that the loop of reconcileKubernetesReleases keeps.
use mathlib.Core.List.{mem-cons_self, mem-append}
use mathlib.Core.Logic.Or
use dockyards_talos.Base.{
  String, ◌≡◌, arith, true, false, Option, none, some, List, [], ◌∷◌, ◌++◌, All, Mem, Bool-cases,
  inl, inr,
}
use dockyards_talos.Release.Types.{Semver}
use dockyards_talos.Release.Kubernetes.{later, see_version}

-- The order of versions is strict, and a version that was parsed keeps its text.
pub record IsOrder (s : Semver) : Type 0 where
  pub irreflexive : (a : s.Version) → s.greater_than a a ≡ false
  pub transitive :
      (a b d : s.Version)
      → s.greater_than a b ≡ true
      → s.greater_than b d ≡ true
      → s.greater_than a d ≡ true
  pub keeps_text :
      (text : String) (v : s.Version) → s.new_version text ≡ some v → s.original v ≡ text

module _ {ℓ} {A : Type ℓ} where
  All-snoc {κ} : (P : A → Type κ) (xs : List A) (x : A) → All P xs → P x → All P (xs ++ (x ∷ []))
  All-snoc P [] x h p = (p, tt)
  All-snoc P (y ∷ xs) x h p = (h.0, All-snoc P xs x h.1 p)

  All-weaken {κ} : (P Q : A → Type κ) (xs : List A) → ((x : A) → P x → Q x) → All P xs → All Q xs
  All-weaken P Q [] f h = tt
  All-weaken P Q (x ∷ xs) f h = (f x h.0, All-weaken P Q xs f h.1)

  pub mem-snoc_of_mem : (xs : List A) (x y : A) → Mem y xs → Mem y (xs ++ (x ∷ []))
  mem-snoc_of_mem xs x y at = (mem-append {s = xs} {t = x ∷ []}).1 (Or.inl at)

  pub mem-snoc_self : (xs : List A) (x : A) → Mem x (xs ++ (x ∷ []))
  mem-snoc_self xs x = (mem-append {s = xs} {t = x ∷ []}).1 (Or.inr mem-cons_self)

module _ (s : Semver) where
  -- No later than `v`, if it is a version.
  abbrev pub AtMost : s.Version → Option s.Version → Type 0
  AtMost v none = Unit
  AtMost v (some y) = s.greater_than y v ≡ false

  -- What the loop has kept of the tags: nothing if none of them is a version, or else the version
  -- of one of them that none exceeds.
  abbrev pub Latest : List String → Option s.Version → Type 0
  Latest tags none = All (λ t. s.new_version t ≡ none) tags
  Latest tags (some v) =
      ((tag : String) × Mem tag tags × (s.new_version tag ≡ some v))
      × All (λ t. AtMost v (s.new_version t)) tags

  module _ (order : IsOrder s) where
    AtMost-greater :
        (v w : s.Version) (o : Option s.Version)
        → s.greater_than v w ≡ true
        → AtMost w o
        → AtMost v o
    AtMost-greater v w none above h = tt
    AtMost-greater v w (some y) above h = elim (Bool-cases (s.greater_than y v)) [
      | inl more ↦ absurd (ground (arith, order.transitive y v w more above))
      | inr most ↦ most
    ]

    Latest-later :
        (tags : List String) (tag : String) (v : s.Version) (latest : Option s.Version)
        → s.new_version tag ≡ some v
        → Latest tags latest
        → Latest (tags ++ (tag ∷ [])) (later s v latest)
    unfolding later
    Latest-later tags tag v none e h = (
      (tag, mem-snoc_self tags tag, e),
      All-snoc (λ t. AtMost v (s.new_version t)) tags tag (All-weaken _ _ tags (λ t p. rw p tt) h)
          (rw e (order.irreflexive v)),
    )
    Latest-later tags tag v (some w) e h = elim (Bool-cases (s.greater_than v w)) [
      | inl more ↦ rw more (
        (tag, mem-snoc_self tags tag, e),
        All-snoc (λ t. AtMost v (s.new_version t)) tags tag
            (All-weaken _ _ tags (λ t p. AtMost-greater v w (s.new_version t) more p) h.1)
            (rw e (order.irreflexive v)),
      )
      | inr most ↦ rw most (
        (h.0.0, mem-snoc_of_mem tags tag h.0.0 h.0.1, h.0.2),
        All-snoc (λ t. AtMost w (s.new_version t)) tags tag h.1 (rw e most),
      )
    ]

    pub Latest-snoc :
        (tags : List String) (tag : String) (o latest : Option s.Version)
        → s.new_version tag ≡ o
        → Latest tags latest
        → Latest (tags ++ (tag ∷ [])) (see_version s o latest)
    unfolding see_version
    Latest-snoc tags tag none none e h = All-snoc (λ t. s.new_version t ≡ none) tags tag h e
    Latest-snoc tags tag none (some w) e h = (
      (h.0.0, mem-snoc_of_mem tags tag h.0.0 h.0.1, h.0.2),
      All-snoc (λ t. AtMost w (s.new_version t)) tags tag h.1 (rw e tt),
    )
    Latest-snoc tags tag (some v) latest e h = Latest-later tags tag v latest e h
