-- ===== src/LinkConfig/Copies.antt =====
-- api/v1alpha3/linkconfig_types.go and zz_generated.deepcopy.go: the types of the API as they lie
-- in memory, DeepCopyInto, DeepCopy and DeepCopyObject.
pub mod Memory
pub mod Values
pub mod Copied
pub mod Isolation
use mathlib.Core.Option
use dockyards_talos.Base.{
  ℕ, suc, String, Option, none, some, List, [], ◌∷◌, nat_eq, if◌then◌else◌, map,
}
use dockyards_talos.Base.Time.{ℤ}
use dockyards_talos.LinkConfig.Types.{LinkConfigRoute, LinkConfigDefaultRoute}

-- The objects of one type, by address; those from `next` on are not allocated.
pub record Store (A : Type 0) : Type 0 where
  pub next : ℕ
  pub cells : ℕ → A

abbrev pub alloc : {A : Type 0} → A → Store A → Store A
alloc a st = record { next = suc st.next; cells = λ q. if nat_eq q st.next then a else st.cells q }

abbrev pub assign : {A : Type 0} → ℕ → A → Store A → Store A
assign p a st = record st { cells = λ q. if nat_eq q p then a else st.cells q }

-- LinkConfigSpec in memory: the array of the slice, and the pointer; `none` is `nil`.
pub record SpecStruct : Type 0 where
  pub static_routes : Option ℕ
  pub default_route : Option ℕ

pub record TypeMeta : Type 0 where
  pub kind : String
  pub api_version : String

pub record LinkConfigNode : Type 0 where
  pub address : String
  pub port : ℤ

-- LinkConfig in memory; its metadata stands for its value.
pub record LinkConfigStruct (ObjectMeta : Type 0) : Type 0 where
  pub type_meta : TypeMeta
  pub object_meta : ObjectMeta
  pub spec : SpecStruct

pub record LinkConfigList (ListMeta : Type 0) : Type 0 where
  pub type_meta : TypeMeta
  pub list_meta : ListMeta
  pub items : Option ℕ

-- The metadata of the package metav1, and its deep copies.
pub record Meta : Type 1 where
  pub ObjectMeta : Type 0
  pub ListMeta : Type 0
  pub copy_object_meta : ObjectMeta → ObjectMeta
  pub copy_list_meta : ListMeta → ListMeta

-- What DeepCopyInto allocates: arrays of routes, default routes and arrays of LinkConfigs.
pub record Heap (m : Meta) : Type 0 where
  pub routes : Store (List LinkConfigRoute)
  pub defaults : Store LinkConfigDefaultRoute
  pub arrays : Store (List (LinkConfigStruct m.ObjectMeta))

-- `if in != nil { out = new(…); *out = *in }`
unfoldable pub copy_pointer : {A : Type 0} → Option ℕ → Store A → Option ℕ × Store A
copy_pointer none st = (none, st)
copy_pointer (some p) st = (some st.next, alloc (st.cells p) st)

-- `DeepCopy` with a given `DeepCopyInto`, which returns what it writes and the heap.
unfoldable pub deep_copy :
    {A H : Type 0} → (A → H → A × H) → Option ℕ → Store A → H → Option ℕ × Store A × H
deep_copy copy_into none st h = (none, st, h)
deep_copy copy_into (some p) st h =
    let copied = copy_into (st.cells p) h in (some st.next, alloc copied.0 st, copied.1)

-- `if c := in.DeepCopy(); c != nil { return c }; return nil`
abbrev pub as_object : {A B : Type 0} → Option ℕ × A × B → Option ℕ × A × B
as_object (none, st, h) = (none, st, h)
as_object (some c, st, h) = (some c, st, h)

-- The structs without pointers.
abbrev pub node_deep_copy : Option ℕ → Store LinkConfigNode → Option ℕ × Store LinkConfigNode
node_deep_copy p st = copy_pointer p st

abbrev pub route_deep_copy : Option ℕ → Store LinkConfigRoute → Option ℕ × Store LinkConfigRoute
route_deep_copy p st = copy_pointer p st

abbrev pub default_route_deep_copy :
    Option ℕ → Store LinkConfigDefaultRoute → Option ℕ × Store LinkConfigDefaultRoute
default_route_deep_copy p st = copy_pointer p st

module _ (m : Meta) where
  abbrev pub Link : Type 0
  Link = LinkConfigStruct m.ObjectMeta

  unfoldable pub spec_deep_copy_into : SpecStruct → Heap m → SpecStruct × Heap m
  spec_deep_copy_into s h =
      let static = copy_pointer s.static_routes h.routes in
      let default = copy_pointer s.default_route h.defaults in
      (
        record { static_routes = static.0; default_route = default.0 },
        record h { routes = static.1; defaults = default.1 },
      )

  unfoldable pub link_config_deep_copy_into : Link → Heap m → Link × Heap m
  link_config_deep_copy_into lc h =
      let spec = spec_deep_copy_into lc.spec h in
      (
        record {
          type_meta = lc.type_meta;
          object_meta = m.copy_object_meta lc.object_meta;
          spec = spec.0;
        },
        spec.1,
      )

  -- `for i := range *in { (*in)[i].DeepCopyInto(&(*out)[i]) }`
  unfoldable pub copy_items : List Link → Heap m → List Link × Heap m
  copy_items [] h = ([], h)
  copy_items (lc ∷ lcs) h =
      let one = link_config_deep_copy_into lc h in
      let rest = copy_items lcs one.1 in (one.0 ∷ rest.0, rest.1)

  unfoldable pub copy_array : Option ℕ → Heap m → Option ℕ × Heap m
  copy_array none h = (none, h)
  copy_array (some p) h =
      let items = copy_items (h.arrays.cells p) h in
      (some items.1.arrays.next, record items.1 { arrays = alloc items.0 items.1.arrays })

  unfoldable pub link_config_list_deep_copy_into :
      LinkConfigList m.ListMeta → Heap m → LinkConfigList m.ListMeta × Heap m
  link_config_list_deep_copy_into l h =
      let items = copy_array l.items h in
      (
        record {
          type_meta = l.type_meta;
          list_meta = m.copy_list_meta l.list_meta;
          items = items.0;
        },
        items.1,
      )

  abbrev pub spec_deep_copy :
      Option ℕ → Store SpecStruct → Heap m → Option ℕ × Store SpecStruct × Heap m
  spec_deep_copy = deep_copy spec_deep_copy_into

  abbrev pub link_config_deep_copy : Option ℕ → Store Link → Heap m → Option ℕ × Store Link × Heap m
  link_config_deep_copy = deep_copy link_config_deep_copy_into

  abbrev pub link_config_list_deep_copy :
      Option ℕ
      → Store (LinkConfigList m.ListMeta)
      → Heap m
      → Option ℕ × Store (LinkConfigList m.ListMeta) × Heap m
  link_config_list_deep_copy = deep_copy link_config_list_deep_copy_into

  unfoldable pub link_config_deep_copy_object :
      Option ℕ → Store Link → Heap m → Option ℕ × Store Link × Heap m
  link_config_deep_copy_object p st h = as_object (link_config_deep_copy p st h)

  unfoldable pub link_config_list_deep_copy_object :
      Option ℕ
      → Store (LinkConfigList m.ListMeta)
      → Heap m
      → Option ℕ × Store (LinkConfigList m.ListMeta) × Heap m
  link_config_list_deep_copy_object p st h = as_object (link_config_list_deep_copy p st h)
