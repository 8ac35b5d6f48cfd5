-- ===== src/Webhook/Laws.antt =====
-- dockyardsnodepool_webhook.go: which node pools are accepted.
use mathlib.Core.Path.{subst}
use dockyards_talos.Base.{
  ℕ, zero, suc, ◌*◌, ◌^◌, ◌≤◌, ◌<◌, ◌≡◌, refl, sym, ap, ◌↔◌, dec_lt, inl, inr, arith, true, false,
  ◌||◌, none, Bool-cases,
}
use dockyards_talos.Base.Time.{ℤ, pos, negsuc, pos_part, ◌<ℤ◌}
use dockyards_talos.Webhook.{
  Quantities, NodePool, is_minus_one, memory_limit, validate, validate_create, validate_update,
}

-- What a quantity stands for, as a signed number of units; a unit is the smallest part that a
-- quantity can tell, and `unit` many of them are one.
pub record Measure (q : Quantities) : Type 0 where
  pub value : q.Quantity → ℤ
  pub unit : ℕ
  pub unit_above : 0 < unit
  pub zero_iff : (a : q.Quantity) → (q.is_zero a ≡ true) ↔ (value a ≡ pos 0)
  pub below_iff : (a b : q.Quantity) → (q.cmp a b ≡ negsuc 0) ↔ (value a <ℤ value b)
  pub limit : value (q.must_parse "2Gi") ≡ pos (2 * 2 ^ 30 * unit)

is_minus_one-true : (z : ℤ) → is_minus_one z ≡ true → z ≡ negsuc 0
is_minus_one-true (pos n) h = cc
is_minus_one-true (negsuc zero) h = refl
is_minus_one-true (negsuc (suc n)) h = cc

below_iff_pos_part : (z : ℤ) (n : ℕ) → 0 < n → (z <ℤ pos n) ↔ (pos_part z < n)
below_iff_pos_part (pos k) n h = (λ e. omega arith, λ e. omega arith)
below_iff_pos_part (negsuc k) n h = (λ e. h, λ e. omega arith)

module _ (q : Quantities) (m : Measure q) where
  below_limit :
      (a : q.Quantity)
      → (q.cmp a (memory_limit q) ≡ negsuc 0) ↔ (pos_part (m.value a) < 2 * 2 ^ 30 * m.unit)
  below_limit a =
      let above = m.unit_above in
      let iff = below_iff_pos_part (m.value a) (2 * 2 ^ 30 * m.unit) (omega arith) in
      (
        λ h. iff.0 (subst (λ z. m.value a <ℤ z) m.limit ((m.below_iff a (memory_limit q)).0 h)),
        λ h.
            (m.below_iff a (memory_limit q)).1
              (subst (λ z. m.value a <ℤ z) (sym m.limit) (iff.1 h)),
      )

  limit_kept :
      (a : q.Quantity)
      → (q.is_zero a || is_minus_one (q.cmp a (memory_limit q))) ≡ false
      → 2 * 2 ^ 30 * m.unit ≤ pos_part (m.value a)
  limit_kept a h = elim (dec_lt (pos_part (m.value a)) (2 * 2 ^ 30 * m.unit)) [
    | yes less ↦
        let e : is_minus_one (q.cmp a (memory_limit q)) ≡ true =
          ap is_minus_one ((below_limit a).1 less) in
        absurd (ground arith)
    | no other ↦ omega arith
  ]

  kept_limit :
      (a : q.Quantity)
      → 2 * 2 ^ 30 * m.unit ≤ pos_part (m.value a)
      → (q.is_zero a || is_minus_one (q.cmp a (memory_limit q))) ≡ false
  kept_limit a h = elim (Bool-cases (q.is_zero a)) [
    | inl none' ↦
        let e = ap pos_part ((m.zero_iff a).0 none') in
        let above = m.unit_above in absurd (omega arith)
    | inr more ↦ elim (Bool-cases (is_minus_one (q.cmp a (memory_limit q)))) [
      | inl low ↦ let less = (below_limit a).0 (is_minus_one-true _ low) in absurd (omega arith)
      | inr high ↦ rw (more, high) refl
    ]
  ]

  -- A node pool is created, or updated, exactly when it has at least 2 GiB of memory, whatever it
  -- was before an update.
  pub validate-accepts :
      (old new : NodePool q)
      → ((validate_create q new ≡ none)
          ↔ (2 * 2 ^ 30 * m.unit ≤ pos_part (m.value (q.memory new.resources))))
        × (validate_update q old new ≡ validate_create q new)
  unfolding validate_create validate_update validate
  validate-accepts old new =
      let a = q.memory new.resources in
      ((λ h. limit_kept a (ground arith), λ h. rw (kept_limit a h) refl), refl)
