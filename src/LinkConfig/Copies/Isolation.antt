-- ===== src/LinkConfig/Copies/Isolation.antt =====
-- zz_generated.deepcopy.go: what a copy of a LinkConfigList shares with what was there before.
use dockyards_talos.Base.{ℕ, suc, ◌≤◌, ◌≡◌, refl, Option, some, List}
use dockyards_talos.LinkConfig.Types.{LinkConfigRoute, LinkConfigDefaultRoute}
use dockyards_talos.LinkConfig.Copies.{
  Store, assign, TypeMeta, LinkConfigList, Meta, Heap, deep_copy, Link, copy_array,
  link_config_list_deep_copy_into, link_config_list_deep_copy_object,
}
use dockyards_talos.LinkConfig.Copies.Memory.{
  Grows, alloc-Grows, alloc-cells, assign-below, assign-above, AgreeOn,
}
use dockyards_talos.LinkConfig.Copies.Values.{
  Marks, origin, marks, SpecValue, array_value, ArrayWithin, Agree, array_value-Agree,
}
use dockyards_talos.LinkConfig.Copies.Copied.{
  IsCopying, Extends, copy_array-Extends, copy_array-ArrayWithin, copy_array-value,
}

-- An assignment to one cell.
pub data Edit (m : Meta) : Type 0 where
  edit_routes : ℕ → List LinkConfigRoute → Edit m
  edit_default : ℕ → LinkConfigDefaultRoute → Edit m
  edit_array : ℕ → List (Link m) → Edit m

module _ (m : Meta) where
  abbrev pub edited : Edit m → Heap m → Heap m
  edited (edit_routes q rs) h = record h { routes = assign q rs h.routes }
  edited (edit_default q r) h = record h { defaults = assign q r h.defaults }
  edited (edit_array q lcs) h = record h { arrays = assign q lcs h.arrays }

  -- The cell is one that was allocated in the heap, or one that was not.
  abbrev pub IsOld : Heap m → Edit m → Type 0
  IsOld h (edit_routes q rs) = suc q ≤ h.routes.next
  IsOld h (edit_default q r) = suc q ≤ h.defaults.next
  IsOld h (edit_array q lcs) = suc q ≤ h.arrays.next

  abbrev pub IsNew : Heap m → Edit m → Type 0
  IsNew h (edit_routes q rs) = h.routes.next ≤ q
  IsNew h (edit_default q r) = h.defaults.next ≤ q
  IsNew h (edit_array q lcs) = h.arrays.next ≤ q

  agree_refl : {A : Type 0} (low high : ℕ) (st : Store A) → AgreeOn low high st st
  agree_refl low high st p above below = refl

  edited-old :
      (h h' : Heap m) (e : Edit m) (high : Marks)
      → IsOld h e
      → Agree m (marks m h) high h' (edited e h')
  edited-old h h' (edit_routes q rs) high old = (
    assign-below q rs h.routes.next high.routes h'.routes old,
    agree_refl h.defaults.next high.defaults h'.defaults,
    agree_refl h.arrays.next high.arrays h'.arrays,
  )
  edited-old h h' (edit_default q r) high old = (
    agree_refl h.routes.next high.routes h'.routes,
    assign-below q r h.defaults.next high.defaults h'.defaults old,
    agree_refl h.arrays.next high.arrays h'.arrays,
  )
  edited-old h h' (edit_array q lcs) high old = (
    agree_refl h.routes.next high.routes h'.routes,
    agree_refl h.defaults.next high.defaults h'.defaults,
    assign-below q lcs h.arrays.next high.arrays h'.arrays old,
  )

  edited-new :
      (h h' : Heap m) (e : Edit m)
      → Extends m h h'
      → IsNew h e
      → Agree m origin (marks m h) h (edited e h')
  edited-new h h' (edit_routes q rs) (routes, defaults, arrays) new =
      (assign-above q rs h.routes h'.routes routes new, defaults.1, arrays.1)
  edited-new h h' (edit_default q r) (routes, defaults, arrays) new =
      (routes.1, assign-above q r h.defaults h'.defaults defaults new, arrays.1)
  edited-new h h' (edit_array q lcs) (routes, defaults, arrays) new =
      (routes.1, defaults.1, assign-above q lcs h.arrays h'.arrays arrays new)

  abbrev pub ItemList : Type 0
  ItemList = LinkConfigList m.ListMeta

  abbrev pub list_value :
      Heap m
      → ItemList
      → TypeMeta × m.ListMeta × Option (List (TypeMeta × m.ObjectMeta × SpecValue m))
  list_value h l = (l.type_meta, l.list_meta, array_value m h l.items)

  -- The pointers of the list are to cells that are allocated.
  abbrev pub IsAllocated : Heap m → ItemList → Type 0
  IsAllocated h l = ArrayWithin m origin (marks m h) h l.items

  abbrev pub IsIsolated : (h h' : Heap m) (l l' other : ItemList) (old new : Edit m) → Type 0
  IsIsolated h h' l l' other old new =
      (list_value h' l' ≡ list_value h l)
      × (list_value (edited old h') l' ≡ list_value h l)
      × (list_value (edited new h') other ≡ list_value h other)

  link_config_list_deep_copy_into-IsIsolated :
      (l other : ItemList) (h : Heap m) (old new : Edit m)
      → IsCopying m
      → IsAllocated h l
      → IsAllocated h other
      → IsOld h old
      → IsNew h new
      → IsIsolated h
          (link_config_list_deep_copy_into m l h).1
          l
          (link_config_list_deep_copy_into m l h).0
          other
          old
          new
  unfolding link_config_list_deep_copy_into
  link_config_list_deep_copy_into-IsIsolated l other h old new copying span span' is_old is_new =
      let items = copy_array m l.items h in
      let value = copy_array-value m l.items h copying span in
      let same_meta = copying.list_meta l.list_meta in
      let unedited =
        array_value-Agree m (marks m h) (marks m items.1) items.1 (edited old items.1) items.0
          (edited-old h items.1 old (marks m items.1) is_old)
          (copy_array-ArrayWithin m l.items h) in
      let untouched =
        array_value-Agree m origin (marks m h) h (edited new items.1) other.items
          (edited-new h items.1 new (copy_array-Extends m l.items h) is_new) span' in
      (cc, cc, cc)

  -- DeepCopyObject of a LinkConfigList that is allocated returns a new list with the value of the
  -- original. Whatever is assigned to a cell that was there before leaves the value of the copy as
  -- it is, and whatever is assigned to a cell that was not leaves every list that was there before
  -- as it is: the copy shares no memory with them, if the copies of the metadata are equal to them.
  pub link_config_list_deep_copy_object-IsIsolated :
      (p : ℕ) (lists : Store ItemList) (other : ItemList) (h : Heap m) (old new : Edit m)
      → IsCopying m
      → IsAllocated h (lists.cells p)
      → IsAllocated h other
      → IsOld h old
      → IsNew h new
      → ((link_config_list_deep_copy_object m (some p) lists h).0 ≡ some lists.next)
        × Grows lists (link_config_list_deep_copy_object m (some p) lists h).1
        × IsIsolated h
            (link_config_list_deep_copy_object m (some p) lists h).2
            (lists.cells p)
            ((link_config_list_deep_copy_object m (some p) lists h).1.cells lists.next)
            other
            old
            new
  unfolding link_config_list_deep_copy_object deep_copy
  link_config_list_deep_copy_object-IsIsolated p lists other h old new copying span span' is_old
        is_new =
      let copied = link_config_list_deep_copy_into m (lists.cells p) h in
      (
        refl,
        alloc-Grows copied.0 lists,
        rw (alloc-cells copied.0 lists) (
            link_config_list_deep_copy_into-IsIsolated (lists.cells p) other h old new copying span
              span' is_old is_new),
      )
