-- ===== src/Webhook.antt =====
-- The validation of node pools (webhooks/dockyardsnodepool_webhook.go).
pub mod Laws
use Prim.Native.String.{◌++◌ as ◌<>◌}
use dockyards_talos.Base.{
  zero, suc, String, Bool, true, false, ◌||◌, Option, none, some, if◌then◌else◌,
}
use dockyards_talos.Base.Time.{ℤ, pos, negsuc}

-- The package resource and the lists of resources. The three results of `cmp` are -1, 0 and 1.
pub record Quantities : Type 1 where
  pub Quantity : Type 0
  pub Resources : Type 0
  pub must_parse : String → Quantity
  pub memory : Resources → Quantity
  pub is_zero : Quantity → Bool
  pub cmp : Quantity → Quantity → ℤ
  pub to_string : Quantity → String

-- `apierrors.NewInvalid` with one invalid field.
pub record Invalid : Type 0 where
  pub name : String
  pub path : String
  pub value : String
  pub detail : String

abbrev pub is_minus_one : ℤ → Bool
is_minus_one (pos n) = false
is_minus_one (negsuc zero) = true
is_minus_one (negsuc (suc n)) = false

module _ (q : Quantities) where
  pub record NodePool : Type 0 where
    pub name : String
    pub resources : q.Resources

  abbrev pub memory_limit : q.Quantity
  memory_limit = q.must_parse "2Gi"

  abbrev pub memory_limit_detail : String
  memory_limit_detail = "must be at least " <> q.to_string memory_limit

  unfoldable pub validate : NodePool → Option Invalid
  validate pool =
      let memory = q.memory pool.resources in
      if q.is_zero memory || is_minus_one (q.cmp memory memory_limit)
      then some (record {
        name = pool.name;
        path = "spec.resources.memory";
        value = q.to_string memory;
        detail = memory_limit_detail;
      })
      else none

  -- The error of each call; there are no warnings.
  unfoldable pub validate_create : NodePool → Option Invalid
  validate_create pool = validate pool

  unfoldable pub validate_delete : NodePool → Option Invalid
  validate_delete pool = none

  unfoldable pub validate_update : (old new : NodePool) → Option Invalid
  validate_update old new = validate new
