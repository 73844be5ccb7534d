-- ===== src/Server/Masks.antt =====
-- src/server.rs, `mask_bits`: the network part of an address, which is all that an upstream sees.
use native.Mathlib.Nat.{mod-eq_of_lt, div-eq_of_lt, mul-div_cancel, one-le-pow}
use dotdns.Prelude.{
  ℕ, ◌+◌, ◌-◌, ◌*◌, ◌/◌, ◌%◌, ◌^◌, ◌≤◌, ◌<◌, ◌≡◌, ◌↔◌, refl, sym, ap, ◌∙◌, false, Bool-cases, inl,
  inr, ◌==◌, arith,
}
use dotdns.Server.Ecs.{mask_bits}

shift_lem :
    (prefix total : ℕ)
    → 0 < prefix
    → prefix ≤ total
    → total ≤ 128
    → (total + 2 ^ 8 - prefix) % 2 ^ 8 % total ≡ total - prefix
shift_lem prefix total p le small =
    let first : (total + 2 ^ 8 - prefix) % 2 ^ 8 ≡ total - prefix = omega arith in
    ap (λ x. x % total) first ∙ mod-eq_of_lt (omega arith)

mask_bits-some :
    (value prefix total : ℕ)
    → 0 < prefix
    → prefix ≤ total
    → total ≤ 128
    → mask_bits value prefix total ≡ value / 2 ^ (total - prefix) * 2 ^ (total - prefix)
unfolding mask_bits
mask_bits-some value prefix total p le small =
    let nonzero : (prefix == 0) ≡ false = ground arith in
    rw (nonzero, shift_lem prefix total p le small)

-- Two addresses are sent as the same subnet exactly when they agree in the first `prefix` bits: the
-- subnet tells neither more nor less of the client's address than the configured prefix.
pub mask_bits_iff :
    (a b prefix total : ℕ)
    → prefix ≤ total
    → total ≤ 128
    → a < 2 ^ total
    → b < 2 ^ total
    → (mask_bits a prefix total ≡ mask_bits b prefix total)
      ↔ (a / 2 ^ (total - prefix) ≡ b / 2 ^ (total - prefix))
unfolding mask_bits
mask_bits_iff a b prefix total le small in_a in_b = elim (Bool-cases (prefix == 0)) [
  | inl none_kept ↦
      let whole : total - prefix ≡ total = ground arith in
      let all : (v : ℕ) → v < 2 ^ total → v / 2 ^ (total - prefix) ≡ 0 =
        λ v h. ap (λ k. v / 2 ^ k) whole ∙ div-eq_of_lt h in
      rw none_kept ((λ e. all a in_a ∙ sym (all b in_b)), λ e. refl)
  | inr kept ↦
      let d = 2 ^ (total - prefix) in
      let positive : 0 < d = one-le-pow (total - prefix) 2 (omega arith) in
      let at_a = mask_bits-some a prefix total (ground arith) le small in
      let at_b = mask_bits-some b prefix total (ground arith) le small in
      (
        λ e.
            sym (mul-div_cancel (a / d) positive)
            ∙ ap (λ x. x / d) (sym at_a ∙ e ∙ at_b)
            ∙ mul-div_cancel (b / d) positive,
        λ e. at_a ∙ ap (λ x. x * d) e ∙ sym at_b,
      )
]
