-- ===== src/Tests/Admission.antt =====
-- Application of the theorem on the node pool webhook (webhooks).
use dockyards_talos.Base.{
  ℕ, ◌≤◌, ◌<◌, ◌≡◌, ◌↔◌, refl, arith, true, none, ltb, nat_eq, if◌then◌else◌,
}
use dockyards_talos.Base.Time.{ℤ, pos, negsuc, ◌<ℤ◌}
use dockyards_talos.Webhook.{Quantities, NodePool, validate_create, validate_update}
use dockyards_talos.Webhook.Laws.{Measure, validate-accepts}

abbrev compare_bytes : ℕ → ℕ → ℤ
compare_bytes a b = if ltb a b then negsuc 0 else pos 0

-- Whole bytes.
abbrev bytes : Quantities
bytes = record {
  Quantity = ℕ;
  Resources = ℕ;
  must_parse = λ s. 2147483648;
  memory = λ r. r;
  is_zero = λ n. nat_eq n 0;
  cmp = compare_bytes;
  to_string = λ n. "bytes";
}

one_above : 0 < 1
one_above = omega arith

compare_bytes_iff : (a b : ℕ) → (compare_bytes a b ≡ negsuc 0) ↔ (pos a <ℤ pos b)
compare_bytes_iff a b = (λ h. ground arith, λ h. ground arith)

nat_eq_zero_iff : (a : ℕ) → (nat_eq a 0 ≡ true) ↔ (pos a ≡ pos 0)
nat_eq_zero_iff a = (λ h. ground arith, λ h. ground arith)

abbrev bytes_measure : Measure bytes
bytes_measure = record {
  value = pos;
  unit = 1;
  unit_above = one_above;
  zero_iff = nat_eq_zero_iff;
  below_iff = compare_bytes_iff;
  limit = refl;
}

abbrev small : NodePool bytes
small = record { name = "small"; resources = 1000 }

abbrev large : NodePool bytes
large = record { name = "large"; resources = 4294967296 }

validate-accepts_example :
    ((validate_create bytes large ≡ none) ↔ (2147483648 ≤ 4294967296))
    × (validate_update bytes small large ≡ validate_create bytes large)
validate-accepts_example = validate-accepts bytes bytes_measure small large
