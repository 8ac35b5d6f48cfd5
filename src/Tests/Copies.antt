-- ===== src/Tests/Copies.antt =====
-- Applications of the theorem on the deep copies of the API's types
-- (api/v1alpha3/zz_generated.deepcopy.go).
use dockyards_talos.Base.{ℕ, String, ◌≡◌, refl, Option, some, [], ◌∷◌, arith}
use dockyards_talos.LinkConfig.Types.{LinkConfigRoute, LinkConfigDefaultRoute}
use dockyards_talos.LinkConfig.Copies.{
  Store, TypeMeta, LinkConfigList, Meta, Heap, link_config_list_deep_copy_object,
}
use dockyards_talos.LinkConfig.Copies.Memory.{Grows}
use dockyards_talos.LinkConfig.Copies.Copied.{IsCopying}
use dockyards_talos.LinkConfig.Copies.Isolation.{
  Edit, edit_routes, edit_default, IsIsolated, link_config_list_deep_copy_object-IsIsolated,
}

abbrev texts_meta : Meta
texts_meta = record {
  ObjectMeta = String;
  ListMeta = Unit;
  copy_object_meta = λ s. s;
  copy_list_meta = λ u. u;
}

texts_meta-IsCopying : IsCopying texts_meta
texts_meta-IsCopying = record { object_meta = λ x. refl; list_meta = λ x. refl }

abbrev route : LinkConfigRoute
route = record { network = "10.0.0.0/8"; interface = "eth1"; gateway = ""; metric = 0 }

abbrev default : LinkConfigDefaultRoute
default = record { interface = "eth0"; gateway = "10.0.0.1"; metric = 0 }

abbrev kind : String → TypeMeta
kind name = record { kind = name; api_version = "talos.dockyards.io/v1alpha3" }

-- One LinkConfig with a static route and a default route, in a list.
abbrev heap : Heap texts_meta
heap = record {
  routes = record { next = 1; cells = λ p. route ∷ [] };
  defaults = record { next = 1; cells = λ p. default };
  arrays = record {
    next = 1;
    cells = λ p.
        record {
          type_meta = kind "LinkConfig";
          object_meta = "default";
          spec = record { static_routes = some 0; default_route = some 0 };
        }
        ∷ [];
  };
}

abbrev list : LinkConfigList Unit
list = record { type_meta = kind "LinkConfigList"; list_meta = tt; items = some 0 }

abbrev lists : Store (LinkConfigList Unit)
lists = record { next = 1; cells = λ p. list }

abbrev copied : Option ℕ × Store (LinkConfigList Unit) × Heap texts_meta
copied = link_config_list_deep_copy_object texts_meta (some 0) lists heap

abbrev cleared : Edit texts_meta
cleared = edit_routes 0 []

abbrev redirected : Edit texts_meta
redirected = edit_default 1 (record default { gateway = "" })

link_config_list_deep_copy_object-IsIsolated_example :
    (copied.0 ≡ some 1)
    × Grows lists copied.1
    × IsIsolated texts_meta heap copied.2 list (copied.1.cells 1) list cleared redirected
link_config_list_deep_copy_object-IsIsolated_example =
    link_config_list_deep_copy_object-IsIsolated texts_meta 0 lists list heap cleared redirected
      texts_meta-IsCopying
      ((omega arith, omega arith), (((omega arith, omega arith), (omega arith, omega arith)), tt))
      ((omega arith, omega arith), (((omega arith, omega arith), (omega arith, omega arith)), tt))
      (omega arith) (omega arith)
