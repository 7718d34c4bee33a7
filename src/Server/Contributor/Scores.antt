-- ===== src/Server/Contributor/Scores.antt =====
-- server/src/contributor.rs and aggregator.rs: what a solution counts, from its difficulty.
use ore_pool.Prelude.{
  ℕ, zero, suc, ◌+◌, ◌-◌, ◌≤◌, ◌^◌, ◌%◌, min, ltb, if◌then◌else◌, Bool-cases, inl, inr, ◌≡◌, refl,
  arith, ap, ◌∙◌,
}
use native.Mathlib.Nat.{pow-le-pow_right, two-pow-succ}
use ore_pool.Prelude.Words.{u64_mod}
use ore_pool.Server.Aggregator.{max_score, max_difficulty}
use ore_pool.Server.Contributor.{score_of}

power_wraps : (k : ℕ) → 2 ^ (k + 64) % u64_mod ≡ 0
power_wraps zero = refl
power_wraps (suc k) =
    let next : suc k + 64 ≡ suc (k + 64) = omega arith in
    let doubled : 2 ^ (suc k + 64) ≡ 2 ^ (k + 64) + 2 ^ (k + 64) =
      ap (λ e. 2 ^ e) next ∙ two-pow-succ (k + 64) in
    omega (arith, power_wraps k, doubled)

power_le : (c d : ℕ) → c ≤ d → 2 ^ c ≤ 2 ^ d
power_le c d h = pow-le-pow_right {n = 2} (omega arith) {i = c} {j = d} h

-- A solution of a difficulty below 64 counts two to its difficulty, and no more than a solution of
-- difficulty 22; a solution of difficulty 64 or more counts nothing, as its score wraps.
pub score_of-max_score :
    (d : ℕ) → min (score_of d) max_score ≡ (if ltb d 64 then 2 ^ min d max_difficulty else 0)
unfolding score_of
score_of-max_score d = elim (Bool-cases (ltb d 64)) [
  | inl few ↦ elim (Bool-cases (ltb d 22)) [
    | inl less ↦ ground (arith, few, less, power_le d 63, power_le d 22)
    | inr more ↦ ground (arith, few, more, power_le d 63, power_le 22 d)
  ]
  | inr many ↦
      let far : d ≡ d - 64 + 64 = ground (arith, many) in
      ground (arith, many, ap (λ e. 2 ^ e % u64_mod) far, power_wraps (d - 64))
]
