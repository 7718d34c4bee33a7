-- ===== src/Server/Rewards/Bounds.antt =====
-- A proportional split never gives out more than there is.
use native.Mathlib.Nat.{mul-le-mul_left, mul-div-le, le_of_mul-le-mul_left}
use ore_pool.Prelude.{
  ℕ, ◌+◌, ◌*◌, ◌/◌, ◌≤◌, ◌<◌, ◌≡◌, refl, List, [], ◌∷◌, map, sum, min, arith, ◌==◌, Bool-cases, inl,
  inr,
}
use ore_pool.Prelude.Words.{u64_mod}
use ore_pool.Server.Rewards.{proportion, wrapping_sum, Distribution, u128_max}

unfoldable pub amounts : Distribution → ℕ
amounts [] = 0
amounts (e ∷ d) = e.1 + amounts d

-- Below the modulus a wrapping sum is the sum.
pub wrapping_sum-eq-sum : (xs : List ℕ) → sum xs < u64_mod → wrapping_sum xs ≡ sum xs
wrapping_sum-eq-sum [] h = refl
wrapping_sum-eq-sum (x ∷ xs) h = omega (arith, wrapping_sum-eq-sum xs (omega arith))

proportion-le : (t d x : ℕ) → proportion t d x ≤ min (x * t) u128_max / d
unfolding proportion
proportion-le t d x = ground arith

-- One part, against its exact value.
pub proportion-mul-le : (t d x : ℕ) → d * proportion t d x ≤ x * t
proportion-mul-le t d x =
    omega (arith, mul-le-mul_left d (proportion-le t d x), mul-div-le (min (x * t) u128_max) d)

pub sum-proportion-mul-le : (t d : ℕ) (xs : List ℕ) → d * sum (map (proportion t d) xs) ≤ sum xs * t
sum-proportion-mul-le t d [] = omega arith
sum-proportion-mul-le t d (x ∷ xs) =
    grind (arith, proportion-mul-le t d x, sum-proportion-mul-le t d xs)

sum-proportion_zero : (t : ℕ) (xs : List ℕ) → sum (map (proportion t 0) xs) ≡ 0
unfolding proportion
sum-proportion_zero t [] = refl
sum-proportion_zero t (x ∷ xs) = ground (arith, sum-proportion_zero t xs)

-- Parts in the ratio of weights whose sum does not wrap add up to the total at most.
pub sum-proportion-le :
    (t : ℕ) (xs : List ℕ) → sum xs < u64_mod → sum (map (proportion t (wrapping_sum xs)) xs) ≤ t
sum-proportion-le t xs h = rw (wrapping_sum-eq-sum xs h) (elim (Bool-cases (sum xs == 0)) [
  | inl none_left ↦
      let e : sum xs ≡ 0 = ground arith in rw e (omega (arith, sum-proportion_zero t xs))
  | inr some_left ↦ le_of_mul-le-mul_left (sum-proportion-mul-le t (sum xs) xs) (ground arith)
])

-- The amounts of a distribution over any collection.
amounts-map :
    {A : Type 0} (f g : A → ℕ) (t d : ℕ) (xs : List A)
    → amounts (map (λ x. (f x, proportion t d (g x))) xs) ≡ sum (map (proportion t d) (map g xs))
unfolding amounts
amounts-map f g t d [] = refl
amounts-map f g t d (x ∷ xs) = omega (arith, amounts-map f g t d xs)

-- A distribution in proportion to the weights `g` gives out at most the total.
pub amounts-le :
    {A : Type 0} (f g : A → ℕ) (t : ℕ) (xs : List A)
    → sum (map g xs) < u64_mod
    → amounts (map (λ x. (f x, proportion t (wrapping_sum (map g xs)) (g x))) xs) ≤ t
amounts-le f g t xs h =
    rw (amounts-map f g t (wrapping_sum (map g xs)) xs) (sum-proportion-le t (map g xs) h)
