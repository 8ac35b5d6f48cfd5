-- ===== src/Base/NameSet.antt =====
-- Go's `map[string]struct{}` as a set of names, read out as a sorted slice.
use mathlib.Core.List.{Nodup}
use mathlib.Core.List.Perm
use dockyards_talos.Base.{
  String, ◌≡◌, refl, ◌∙◌, Bool, true, not, ◌&&◌, ◌||◌, List, [], ◌∷◌, map, Perm, arith, ◌==◌,
  string_eq, if◌then◌else◌, contains,
}
use dockyards_talos.Base.GoMap.{
  GoMap, keys, lookup, insert, Distinct, lookup-insert, insert-Distinct,
}
use dockyards_talos.Base.Range.{Visit, IsVisit, holds}
use dockyards_talos.Base.Sets.{contains-perm, keys-Nodup, keys-perm}
use dockyards_talos.Base.Sort.{sort, IsSorted, sort-perm, sort-IsSorted, IsSorted-unique}
use dockyards_talos.Base.Text.{
  trim_space, leb_string, leb_string_total, leb_string_trans, leb_string_antisymm,
}

abbrev pub NameSet : Type 0
NameSet = GoMap String (Unit {0})

-- `name := strings.TrimSpace(s); if name == "" { continue }; set[name] = struct{}{}`
unfoldable pub add_name : String → NameSet → NameSet
add_name s m = let name = trim_space s in if name == "" then m else insert name tt m

-- The loop over the texts that `f` reads off the items.
unfoldable pub add_names {ℓ} : {A : Type ℓ} → (A → String) → List A → NameSet → NameSet
add_names f [] m = m
add_names f (x ∷ xs) m = add_names f xs (add_name (f x) m)

-- `for name := range set { out = append(out, name) }; sort.Strings(out)`
unfoldable pub sorted_names : Visit String (Unit {0}) → NameSet → List String
sorted_names visit m = sort leb_string (keys (visit m))

-- A name that a loop over texts adds.
abbrev pub names {ℓ} : {A : Type ℓ} → (A → String) → List A → String → Bool
names f xs y = not (y == "") && contains (map (λ x. trim_space (f x)) xs) y

abbrev pub member : String → NameSet → Bool
member y m = holds (λ _. true) (lookup y m)

pub member-add_name :
    (s y : String) (m : NameSet)
    → member y (add_name s m) ≡ ((not (y == "") && (y == trim_space s)) || member y m)
unfolding add_name
member-add_name s y m = ground (arith, lookup-insert y (trim_space s) tt m)

pub member-add_names {ℓ} :
    {A : Type ℓ} (f : A → String) (xs : List A) (y : String) (m : NameSet)
    → member y (add_names f xs m) ≡ (names f xs y || member y m)
unfolding add_names
member-add_names f [] y m = ground arith
member-add_names f (x ∷ xs) y m =
    ground (arith, member-add_names f xs y (add_name (f x) m), member-add_name (f x) y m)

pub add_name-Distinct : (s : String) (m : NameSet) → Distinct m → Distinct (add_name s m)
unfolding add_name
add_name-Distinct s m d = ground (arith, insert-Distinct (trim_space s) tt m d)

pub add_names-Distinct {ℓ} :
    {A : Type ℓ} (f : A → String) (xs : List A) (m : NameSet)
    → Distinct m
    → Distinct (add_names f xs m)
unfolding add_names
add_names-Distinct f [] m d = d
add_names-Distinct f (x ∷ xs) m d = add_names-Distinct f xs _ (add_name-Distinct (f x) m d)

contains-keys : (m : NameSet) (y : String) → contains (keys m) y ≡ member y m
unfolding lookup
contains-keys [] y = refl
contains-keys ((k, v) ∷ m) y = ground (arith, contains-keys m y)

module _ (visit : Visit String (Unit {0})) (fair : IsVisit visit) (m : NameSet) where
  sorted_names-perm : Perm (sorted_names visit m) (keys m)
  unfolding sorted_names
  sorted_names-perm = Perm.trans (sort-perm leb_string (keys (visit m))) (keys-perm (fair m))

  pub contains-sorted_names : (y : String) → contains (sorted_names visit m) y ≡ member y m
  contains-sorted_names y = contains-perm sorted_names-perm y ∙ contains-keys m y

  pub sorted_names-Nodup : Distinct m → Nodup (sorted_names visit m)
  sorted_names-Nodup d = Perm.nodup (Perm.symm sorted_names-perm) (keys-Nodup m d)

  pub sorted_names-IsSorted : IsSorted leb_string (sorted_names visit m)
  unfolding sorted_names
  sorted_names-IsSorted = sort-IsSorted leb_string leb_string_total leb_string_trans _

-- The slice does not depend on the order in which the set was visited.
pub sorted_names-stable :
    (visit visit' : Visit String (Unit {0}))
    → IsVisit visit
    → IsVisit visit'
    → (m : NameSet) → sorted_names visit m ≡ sorted_names visit' m
sorted_names-stable visit visit' fair fair' m =
    IsSorted-unique leb_string leb_string_total leb_string_antisymm (sorted_names visit m)
      (sorted_names visit' m) (sorted_names-IsSorted visit fair m)
      (sorted_names-IsSorted visit' fair' m)
      (Perm.trans (sorted_names-perm visit fair m) (Perm.symm (sorted_names-perm visit' fair' m)))
