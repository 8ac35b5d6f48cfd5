-- ===== src/LinkConfig/Copies/Copied.antt =====
-- zz_generated.deepcopy.go: what DeepCopyInto writes and allocates.
use dockyards_talos.Base.{ℕ, ◌≡◌, refl, ap, ◌∙◌, Option, none, some, List, [], ◌∷◌, arith}
use dockyards_talos.LinkConfig.Copies.{
  Store, alloc, SpecStruct, Meta, Heap, Link, spec_deep_copy_into, link_config_deep_copy_into,
  copy_items, copy_array,
}
use dockyards_talos.LinkConfig.Copies.Memory.{
  Grows, Grows-refl, Grows-trans, alloc-Grows, alloc-cells, copy_pointer-Grows, copy_pointer-deref,
  copy_pointer-Between,
}
use dockyards_talos.LinkConfig.Copies.Values.{
  Marks, origin, marks, SpecWithin, IsBelow, SpecWithin-wider, spec_value, link_value, items_value,
  array_value, ItemsWithin, ArrayWithin, ItemsWithin-wider, Agree, spec_value-Agree,
  items_value-Agree,
}

module _ (m : Meta) where
  -- The copies of the metadata are equal to them.
  pub record IsCopying : Type 0 where
    pub object_meta : (x : m.ObjectMeta) → m.copy_object_meta x ≡ x
    pub list_meta : (x : m.ListMeta) → m.copy_list_meta x ≡ x

  -- What was allocated in the heap is unchanged.
  abbrev pub Extends : Heap m → Heap m → Type 0
  Extends h h' = Grows h.routes h'.routes × Grows h.defaults h'.defaults × Grows h.arrays h'.arrays

  Extends-refl : (h : Heap m) → Extends h h
  Extends-refl h = (Grows-refl h.routes, Grows-refl h.defaults, Grows-refl h.arrays)

  Extends-trans : (a b c : Heap m) → Extends a b → Extends b c → Extends a c
  Extends-trans a b c (routes, defaults, arrays) (routes', defaults', arrays') = (
    Grows-trans a.routes b.routes c.routes routes routes',
    Grows-trans a.defaults b.defaults c.defaults defaults defaults',
    Grows-trans a.arrays b.arrays c.arrays arrays arrays',
  )

  Extends-Agree : (h h' : Heap m) → Extends h h' → Agree m origin (marks m h) h h'
  Extends-Agree h h' (routes, defaults, arrays) = (routes.1, defaults.1, arrays.1)

  Extends-IsBelow : (h h' : Heap m) → Extends h h' → IsBelow (marks m h) (marks m h')
  Extends-IsBelow h h' (routes, defaults, arrays) = (routes.0, defaults.0, arrays.0)

  from_origin : (low : Marks) → IsBelow origin low
  from_origin low = (omega arith, omega arith, omega arith)

  up_to : (high : Marks) → IsBelow high high
  up_to high = (omega arith, omega arith, omega arith)

  spec_deep_copy_into-Extends :
      (s : SpecStruct) (h : Heap m) → Extends h (spec_deep_copy_into m s h).1
  unfolding spec_deep_copy_into
  spec_deep_copy_into-Extends s h = (
    copy_pointer-Grows s.static_routes h.routes,
    copy_pointer-Grows s.default_route h.defaults,
    Grows-refl h.arrays,
  )

  spec_deep_copy_into-SpecWithin :
      (s : SpecStruct) (h : Heap m)
      → SpecWithin (marks m h) (marks m (spec_deep_copy_into m s h).1) (spec_deep_copy_into m s h).0
  unfolding spec_deep_copy_into
  spec_deep_copy_into-SpecWithin s h = (
    copy_pointer-Between s.static_routes h.routes,
    copy_pointer-Between s.default_route h.defaults,
  )

  spec_deep_copy_into-value :
      (s : SpecStruct) (h : Heap m)
      → spec_value m (spec_deep_copy_into m s h).1 (spec_deep_copy_into m s h).0 ≡ spec_value m h s
  unfolding spec_deep_copy_into
  spec_deep_copy_into-value s h =
      cc
        (copy_pointer-deref s.static_routes h.routes, copy_pointer-deref s.default_route h.defaults)

  link_config_deep_copy_into-Extends :
      (lc : Link m) (h : Heap m) → Extends h (link_config_deep_copy_into m lc h).1
  unfolding link_config_deep_copy_into
  link_config_deep_copy_into-Extends lc h = spec_deep_copy_into-Extends lc.spec h

  link_config_deep_copy_into-new :
      (lc : Link m) (h : Heap m)
      → SpecWithin
          (marks m h)
          (marks m (link_config_deep_copy_into m lc h).1)
          (link_config_deep_copy_into m lc h).0.spec
  unfolding link_config_deep_copy_into
  link_config_deep_copy_into-new lc h = spec_deep_copy_into-SpecWithin lc.spec h

  link_config_deep_copy_into-SpecWithin :
      (lc : Link m) (h : Heap m)
      → SpecWithin origin
          (marks m (link_config_deep_copy_into m lc h).1)
          (link_config_deep_copy_into m lc h).0.spec
  link_config_deep_copy_into-SpecWithin lc h =
      let high = marks m (link_config_deep_copy_into m lc h).1 in
      SpecWithin-wider origin (marks m h) high high _ (from_origin (marks m h)) (up_to high)
        (link_config_deep_copy_into-new lc h)

  link_config_deep_copy_into-value :
      (lc : Link m) (h : Heap m)
      → IsCopying
      → link_value m (link_config_deep_copy_into m lc h).1 (link_config_deep_copy_into m lc h).0
        ≡ link_value m h lc
  unfolding link_config_deep_copy_into
  link_config_deep_copy_into-value lc h copying =
      cc (copying.object_meta lc.object_meta, spec_deep_copy_into-value lc.spec h)

  copy_items-Extends : (lcs : List (Link m)) (h : Heap m) → Extends h (copy_items m lcs h).1
  unfolding copy_items
  copy_items-Extends [] h = Extends-refl h
  copy_items-Extends (lc ∷ lcs) h =
      let h₁ = (link_config_deep_copy_into m lc h).1 in
      Extends-trans h h₁ (copy_items m lcs h₁).1 (link_config_deep_copy_into-Extends lc h)
        (copy_items-Extends lcs h₁)

  copy_items-ItemsWithin :
      (lcs : List (Link m)) (h : Heap m)
      → ItemsWithin m (marks m h) (marks m (copy_items m lcs h).1) (copy_items m lcs h).0
  unfolding copy_items
  copy_items-ItemsWithin [] h = tt
  copy_items-ItemsWithin (lc ∷ lcs) h =
      let h₁ = (link_config_deep_copy_into m lc h).1 in
      let h₂ = (copy_items m lcs h₁).1 in
      (
        SpecWithin-wider (marks m h) (marks m h) (marks m h₂) (marks m h₁) _ (up_to (marks m h))
            (Extends-IsBelow h₁ h₂ (copy_items-Extends lcs h₁))
            (link_config_deep_copy_into-new lc h),
        ItemsWithin-wider m (marks m h) (marks m h₁) (marks m h₂) (marks m h₂) _
            (Extends-IsBelow h h₁ (link_config_deep_copy_into-Extends lc h)) (up_to (marks m h₂))
            (copy_items-ItemsWithin lcs h₁),
      )

  copy_items-value :
      (lcs : List (Link m)) (h : Heap m)
      → IsCopying
      → ItemsWithin m origin (marks m h) lcs
      → items_value m (copy_items m lcs h).1 (copy_items m lcs h).0 ≡ items_value m h lcs
  unfolding copy_items
  copy_items-value [] h copying span = refl
  copy_items-value (lc ∷ lcs) h copying (one, rest) =
      let c = link_config_deep_copy_into m lc h in
      let h₂ = (copy_items m lcs c.1).1 in
      let first : link_value m h₂ c.0 ≡ link_value m h lc =
        ap (λ v. (c.0.type_meta, c.0.object_meta, v))
          (spec_value-Agree m origin (marks m c.1) c.1 h₂ c.0.spec
            (Extends-Agree c.1 h₂ (copy_items-Extends lcs c.1))
            (link_config_deep_copy_into-SpecWithin lc h))
        ∙ link_config_deep_copy_into-value lc h copying in
      let grown = link_config_deep_copy_into-Extends lc h in
      let others : items_value m c.1 lcs ≡ items_value m h lcs =
        items_value-Agree m origin (marks m h) h c.1 lcs (Extends-Agree h c.1 grown) rest in
      let copied = copy_items-value lcs c.1 copying (
        ItemsWithin-wider m origin origin (marks m c.1) (marks m h) lcs (up_to origin)
          (Extends-IsBelow h c.1 grown) rest) in
      cc

  -- The array itself is no part of the values in it.
  items_value-arrays :
      (h : Heap m) (arrays : Store (List (Link m))) (lcs : List (Link m))
      → items_value m (record h { arrays = arrays }) lcs ≡ items_value m h lcs
  items_value-arrays h arrays [] = refl
  items_value-arrays h arrays (lc ∷ lcs) =
      ap (λ vs. link_value m h lc ∷ vs) (items_value-arrays h arrays lcs)

  pub copy_array-Extends : (p : Option ℕ) (h : Heap m) → Extends h (copy_array m p h).1
  unfolding copy_array
  copy_array-Extends none h = Extends-refl h
  copy_array-Extends (some p) h =
      let items = copy_items m (h.arrays.cells p) h in
      let (routes, defaults, arrays) = copy_items-Extends (h.arrays.cells p) h in
      (
        routes,
        defaults,
        Grows-trans h.arrays items.1.arrays _ arrays (alloc-Grows items.0 items.1.arrays),
      )

  pub copy_array-ArrayWithin :
      (p : Option ℕ) (h : Heap m)
      → ArrayWithin m
          (marks m h)
          (marks m (copy_array m p h).1)
          (copy_array m p h).1
          (copy_array m p h).0
  unfolding copy_array
  copy_array-ArrayWithin none h = tt
  copy_array-ArrayWithin (some p) h =
      let items = copy_items m (h.arrays.cells p) h in
      let (routes, defaults, arrays) = copy_items-Extends (h.arrays.cells p) h in
      let grown : IsBelow (marks m items.1) (marks m (copy_array m (some p) h).1) =
        (omega arith, omega arith, omega arith) in
      (
        (arrays.0, omega arith),
        rw (alloc-cells items.0 items.1.arrays) (
            ItemsWithin-wider m (marks m h) (marks m h) _ (marks m items.1) items.0
              (up_to (marks m h)) grown (copy_items-ItemsWithin (h.arrays.cells p) h)),
      )

  pub copy_array-value :
      (p : Option ℕ) (h : Heap m)
      → IsCopying
      → ArrayWithin m origin (marks m h) h p
      → array_value m (copy_array m p h).1 (copy_array m p h).0 ≡ array_value m h p
  unfolding copy_array
  copy_array-value none h copying span = refl
  copy_array-value (some p) h copying (between, span) =
      let items = copy_items m (h.arrays.cells p) h in
      ap some (
        ap (items_value m (copy_array m (some p) h).1) (alloc-cells items.0 items.1.arrays)
        ∙ items_value-arrays items.1 (alloc items.0 items.1.arrays) items.0
        ∙ copy_items-value (h.arrays.cells p) h copying span)
