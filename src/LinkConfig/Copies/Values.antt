-- ===== src/LinkConfig/Copies/Values.antt =====
-- zz_generated.deepcopy.go: what a reader of a struct sees that follows its pointers.
use dockyards_talos.Base.{ℕ, ◌≤◌, ◌≡◌, refl, Option, none, some, List, [], ◌∷◌}
use dockyards_talos.LinkConfig.Types.{LinkConfigRoute, LinkConfigDefaultRoute}
use dockyards_talos.LinkConfig.Copies.{SpecStruct, TypeMeta, Meta, Heap, Link}
use dockyards_talos.LinkConfig.Copies.Memory.{Between, Between-wider, deref, AgreeOn, deref-AgreeOn}

-- A mark in each of the stores.
pub record Marks : Type 0 where
  pub routes : ℕ
  pub defaults : ℕ
  pub arrays : ℕ

abbrev pub origin : Marks
origin = record { routes = 0; defaults = 0; arrays = 0 }

-- The pointers of the struct lie between the marks.
abbrev pub SpecWithin : (low high : Marks) → SpecStruct → Type 0
SpecWithin low high s =
    Between low.routes high.routes s.static_routes
    × Between low.defaults high.defaults s.default_route

abbrev pub IsBelow : Marks → Marks → Type 0
IsBelow a b = (a.routes ≤ b.routes) × (a.defaults ≤ b.defaults) × (a.arrays ≤ b.arrays)

pub SpecWithin-wider :
    (low low' high high' : Marks) (s : SpecStruct)
    → IsBelow low low'
    → IsBelow high' high
    → SpecWithin low' high' s
    → SpecWithin low high s
SpecWithin-wider low low' high high' s lower higher (static, default) = (
  Between-wider low.routes low'.routes high.routes high'.routes s.static_routes lower.0 higher.0
      static,
  Between-wider low.defaults low'.defaults high.defaults high'.defaults s.default_route lower.1
      higher.1 default,
)

module _ (m : Meta) where
  abbrev pub marks : Heap m → Marks
  marks h = record { routes = h.routes.next; defaults = h.defaults.next; arrays = h.arrays.next }

  -- The value of a struct: what a reader sees that follows its pointers.
  abbrev pub SpecValue : Type 0
  SpecValue = Option (List LinkConfigRoute) × Option LinkConfigDefaultRoute

  abbrev pub spec_value : Heap m → SpecStruct → SpecValue
  spec_value h s = (deref h.routes s.static_routes, deref h.defaults s.default_route)

  abbrev pub link_value : Heap m → Link m → TypeMeta × m.ObjectMeta × SpecValue
  link_value h lc = (lc.type_meta, lc.object_meta, spec_value h lc.spec)

  abbrev pub items_value : Heap m → List (Link m) → List (TypeMeta × m.ObjectMeta × SpecValue)
  items_value h [] = []
  items_value h (lc ∷ lcs) = link_value h lc ∷ items_value h lcs

  abbrev pub array_value : Heap m → Option ℕ → Option (List (TypeMeta × m.ObjectMeta × SpecValue))
  array_value h none = none
  array_value h (some p) = some (items_value h (h.arrays.cells p))

  -- The same for the marks between which the pointers of an array lie.
  abbrev pub ItemsWithin : (low high : Marks) → List (Link m) → Type 0
  ItemsWithin low high [] = Unit
  ItemsWithin low high (lc ∷ lcs) = SpecWithin low high lc.spec × ItemsWithin low high lcs

  abbrev pub ArrayWithin : (low high : Marks) → Heap m → Option ℕ → Type 0
  ArrayWithin low high h none = Unit
  ArrayWithin low high h (some p) =
      Between low.arrays high.arrays (some p) × ItemsWithin low high (h.arrays.cells p)

  pub ItemsWithin-wider :
      (low low' high high' : Marks) (lcs : List (Link m))
      → IsBelow low low'
      → IsBelow high' high
      → ItemsWithin low' high' lcs
      → ItemsWithin low high lcs
  ItemsWithin-wider low low' high high' [] lower higher span = tt
  ItemsWithin-wider low low' high high' (lc ∷ lcs) lower higher (one, rest) = (
    SpecWithin-wider low low' high high' lc.spec lower higher one,
    ItemsWithin-wider low low' high high' lcs lower higher rest,
  )

  -- Two heaps with the same cells between the marks have the same values there.
  abbrev pub Agree : (low high : Marks) → Heap m → Heap m → Type 0
  Agree low high h h' =
      AgreeOn low.routes high.routes h.routes h'.routes
      × AgreeOn low.defaults high.defaults h.defaults h'.defaults
      × AgreeOn low.arrays high.arrays h.arrays h'.arrays

  pub spec_value-Agree :
      (low high : Marks) (h h' : Heap m) (s : SpecStruct)
      → Agree low high h h'
      → SpecWithin low high s
      → spec_value h' s ≡ spec_value h s
  spec_value-Agree low high h h' s same span = cc (
    deref-AgreeOn low.routes high.routes h.routes h'.routes s.static_routes same.0 span.0,
    deref-AgreeOn low.defaults high.defaults h.defaults h'.defaults s.default_route same.1 span.1,
  )

  pub items_value-Agree :
      (low high : Marks) (h h' : Heap m) (lcs : List (Link m))
      → Agree low high h h'
      → ItemsWithin low high lcs
      → items_value h' lcs ≡ items_value h lcs
  items_value-Agree low high h h' [] same span = refl
  items_value-Agree low high h h' (lc ∷ lcs) same (one, rest) = cc (
    spec_value-Agree low high h h' lc.spec same one,
    items_value-Agree low high h h' lcs same rest,
  )

  pub array_value-Agree :
      (low high : Marks) (h h' : Heap m) (p : Option ℕ)
      → Agree low high h h'
      → ArrayWithin low high h p
      → array_value h' p ≡ array_value h p
  array_value-Agree low high h h' none same span = refl
  array_value-Agree low high h h' (some p) same ((above, below), span) =
      let cell = same.2 p above below in
      cc (cell, items_value-Agree low high h h' (h.arrays.cells p) same span)
