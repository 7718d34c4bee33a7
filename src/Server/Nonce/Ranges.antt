-- ===== src/Server/Nonce/Ranges.antt =====
-- How the ranges of the members lie.
use native.Mathlib.Nat.{
  le_trans, mul-le-mul_left, div-mul-le_self, mul-div-le, le_of_mul-le-mul_left, le-div_iff_mul-le,
  lt_of_mul-lt-mul_left, mul_comm, div-add-mod, mod-lt,
}
use ore_pool.Prelude.{ℕ, ◌+◌, ◌*◌, ◌/◌, ◌≤◌, ◌<◌, ◌≡◌, ◌↔◌, true, arith, ap}
use ore_pool.Prelude.Words.{u64_max, u64_mod}
use ore_pool.Server.Nonce.{in_range}

unit_mul_le : (n i : ℕ) → i ≤ n → u64_max / n * i ≤ u64_max
unit_mul_le n i h = le_trans (mul-le-mul_left (u64_max / n) h) (div-mul-le_self u64_max n)

unit_pos : (n : ℕ) → 0 < n → n < u64_mod → 0 < u64_max / n
unit_pos n pos fits = (le-div_iff_mul-le {k = n} {x = 1} {y = u64_max} pos).1 (omega arith)

next_multiple : (x u : ℕ) → 0 < u → x < u * (x / u + 1)
next_multiple x u h = omega (arith, div-add-mod x u, mod-lt x {m = u} h)

-- For a member counted by the pool the bounds do not saturate.
pub in_range_iff :
    (n i x : ℕ)
    → i < n
    → n < u64_mod
    → (in_range n i x ≡ true) ↔ ((u64_max / n * i ≤ x) × (x ≤ u64_max / n * (i + 1)))
unfolding in_range
in_range_iff n i x lt fits =
    ground (arith, unit_mul_le n i (omega arith), unit_mul_le n (i + 1) (omega arith))

-- Two members that are counted share at most one nonce, the end of one range and the start of
-- the next.
pub in_range_shared :
    (n i j x : ℕ)
    → i < j
    → j < n
    → n < u64_mod
    → in_range n i x ≡ true
    → in_range n j x ≡ true
    → (j ≡ i + 1) × (x ≡ u64_max / n * j)
in_range_shared n i j x lt le fits h h' =
    let low = (in_range_iff n i x (omega arith) fits).0 h in
    let high = (in_range_iff n j x le fits).0 h' in
    let next : j ≤ i + 1 =
      le_of_mul-le-mul_left {k = u64_max / n} (omega (arith, low, high))
        (unit_pos n (omega arith) fits) in
    let e : j ≡ i + 1 = omega arith in
    (e, rw e (omega (arith, low, ap (λ (t : ℕ). u64_max / n * t) e, high)))

-- Every nonce below the last whole unit belongs to a member that is counted.
pub in_range_covers :
    (n x : ℕ)
    → 0 < n
    → n < u64_mod
    → x < u64_max / n * n
    → (x / (u64_max / n) < n) × (in_range n (x / (u64_max / n)) x ≡ true)
in_range_covers n x pos fits below =
    let unit = u64_max / n in
    let up = unit_pos n pos fits in
    let small : x / unit < n = lt_of_mul-lt-mul_left unit (omega (arith, mul-div-le x unit)) in
    (
      small,
      (in_range_iff n (x / unit) x small fits).1
          (mul-div-le x unit, omega (arith, next_multiple x unit up)),
    )

-- A member that joined after the count was taken gets no more nonces than the division leaves.
pub in_range_uncounted :
    (n i x : ℕ) → 0 < n → n ≤ i → i + 1 < u64_mod → in_range n i x ≡ true → u64_max < x + n
unfolding in_range
in_range_uncounted n i x pos late fits h = ground (
  arith,
  mul-le-mul_left (u64_max / n) late,
  unit_mul_le n n (omega arith),
  next_multiple u64_max n pos,
  mul_comm n (u64_max / n),
)
