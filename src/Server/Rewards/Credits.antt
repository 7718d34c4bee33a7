-- ===== src/Server/Rewards/Credits.antt =====
-- server/src/aggregator.rs against database.rs: what a reward does to the records of the members.
use mathlib.Core.Path.{subst}
use ore_pool.Prelude.{
  ℕ, ◌+◌, ◌≤◌, ◌<◌, ◌≡◌, refl, ok, Result, List, [], ◌∷◌, Result-cases, Option-cases, Bool-cases,
  map, sum, arith, All, ok-injective, >>=-eq-ok, some, false, inl, inr, ◌==◌,
}
use ore_pool.Prelude.Int.{ℤ, pos, pos_part, ◌+ℤ◌}
use ore_pool.Api.State.{Addresses, Pubkey}
use ore_pool.Server.Aggregator.{Aggregator}
use ore_pool.Server.Error.{Error}
use ore_pool.Server.Database.{
  MemberRow, Members, as_i64, bigint, i64_limit, is_in, update_total_balance,
  write_member_total_balances,
}
use ore_pool.Server.Attribution.Round.{addresses, IsUnique}
use ore_pool.Server.Rewards.{
  Rewards, Distribution, distribute_rewards, reward_batches, reward_or, write_batches,
}
use ore_pool.Server.Rewards.Bounds.{amounts}
use ore_pool.Server.Rewards.Conservation.{Fits, reward_batches-le-base}
use ore_pool.Server.Rewards.Owed.{
  owed, IsCredited, IsWriting, stays-Credits, atmost, Credits-trans, same-IsUnique, Credits,
}

update_absent :
    (increment : ℤ) (a : Pubkey) (rs : Members)
    → is_in a (addresses rs) ≡ false
    → update_total_balance increment a rs ≡ ok rs
unfolding update_total_balance
update_absent increment a [] h = refl
update_absent increment a (r ∷ rs) h = ground (arith, update_absent increment a rs)

bigint_pos : (m n : ℕ) {t : ℤ} → bigint (pos m +ℤ pos n) ≡ some t → t ≡ pos (m + n)
unfolding ◌+ℤ◌
bigint_pos m n h = ground (arith, h)

-- The rows behind a row that is credited, or that is passed over, stay in their places.
behind :
    (r r' : MemberRow) (rs rs' : Members) (m n k : ℕ)
    → k ≡ m + n
    → r'.address ≡ r.address
    → r'.authority ≡ r.authority
    → pos_part r'.total_balance ≡ pos_part r.total_balance + m
    → IsCredited r'
    → Credits rs rs' n
    → Credits (r ∷ rs) (r' ∷ rs') k
unfolding owed
behind r r' rs rs' m n k total a b e here h = record {
  same = ground (arith, a, h.same);
  credited = (here, h.credited);
  bounded = omega (arith, total, e, h.bounded);
  rises = (a, b, omega (arith, e), h.rises);
}

update_total_balance-Credits :
    (n : ℕ) (a : Pubkey) (rs : Members) {rs' : Members}
    → IsUnique rs
    → All IsCredited rs
    → update_total_balance (pos n) a rs ≡ ok rs'
    → Credits rs rs' n
unfolding update_total_balance
update_total_balance-Credits n a [] u h e =
    rw (← ok-injective e) (record { same = refl; credited = tt; bounded = omega arith; rises = tt })
update_total_balance-Credits n a (r ∷ rs) {rs'} u ((b, here), h) e =
    elim (Bool-cases (r.address == a)) [
      | inl hit ↦
          let alone = update_absent (pos n) a rs (ground (arith, hit, u.0)) in
          elim (Option-cases (bigint (r.total_balance +ℤ pos n))) [
            | inl over ↦ absurd (ground (arith, hit, alone, over, e))
            | inr (t, fits) ↦
                let t_is : t ≡ pos (b + n) = bigint_pos b n (rw here at fits) in
                let last : rs' ≡ record r { total_balance = t; is_synced = false } ∷ rs =
                  ground (arith, hit, alone, fits, e) in
                rw last (
                  behind r (record r { total_balance = t; is_synced = false }) rs rs n 0 n
                    (omega arith) refl refl (ground (arith, t_is, here)) (b + n, t_is)
                    (stays-Credits rs h))
          ]
      | inr miss ↦ elim (Result-cases (update_total_balance (pos n) a rs)) [
        | inr (x, e') ↦ absurd (ground (arith, e', e))
        | inl (rest, e') ↦
            let last : rs' ≡ r ∷ rest = ground (arith, miss, e', e) in
            rw last (
              behind r r rs rest 0 n n (omega arith) refl refl (omega arith) (b, here)
                (update_total_balance-Credits n a rs u.1 h e'))
      ]
    ]

write_member_total_balances-Credits :
    (rs : Members) (d : Distribution) {rs' : Members}
    → IsUnique rs
    → All IsCredited rs
    → amounts d < i64_limit
    → write_member_total_balances rs d ≡ ok rs'
    → Credits rs rs' (amounts d)
unfolding write_member_total_balances amounts
write_member_total_balances-Credits rs [] u h small e =
    subst (λ t. Credits rs t 0) (ok-injective e) (stays-Credits rs h)
write_member_total_balances-Credits rs ((a, n) ∷ d) {rs'} u h small e =
    let as_is : as_i64 n ≡ pos n = ground (arith, small) in
    let (mid, e₁, e₂) = >>=-eq-ok (update_total_balance (as_i64 n) a rs) _ e in
    let one =
      update_total_balance-Credits n a rs u h
        (subst (λ i. update_total_balance i a rs ≡ ok mid) as_is e₁) in
    let rest =
      write_member_total_balances-Credits mid d (same-IsUnique rs mid one.same u) one.credited
        (omega (arith, small)) e₂ in
    Credits-trans rs mid rs' n (amounts d) one rest

-- Also where one batch fails, after others were written.
write_batches-Credits :
    (write : Members → Distribution → Result Error Members)
    → IsWriting write
    → (rs : Members) (bs : List Distribution) → IsUnique rs
    → All IsCredited rs
    → sum (map amounts bs) < i64_limit
    → Credits rs (write_batches write rs bs).1 (sum (map amounts bs))
unfolding write_batches
write_batches-Credits write writes rs [] u h small = stays-Credits rs h
write_batches-Credits write writes rs (b ∷ bs) u h small = elim (Result-cases (write rs b)) [
  | inr (x, e) ↦ rw (write_batches, e) (atmost rs rs 0 _ (omega arith) (stays-Credits rs h))
  | inl (mid, e) ↦
      let one =
        write_member_total_balances-Credits rs b u h (omega (arith, small)) (writes rs b mid e) in
      rw (write_batches, e)
        (Credits-trans rs mid _ (amounts b) (sum (map amounts bs)) one (
          write_batches-Credits write writes mid bs (same-IsUnique rs mid one.same u) one.credited
            (omega (arith, small))))
]

module _ (ids : Addresses) (agg : Aggregator) (fit : Fits agg) where
  -- One reward, whether all of it is written or the database fails at any batch, for whatever
  -- reason, raises what the records of the members promise together by at most the reward, and
  -- lowers the record of no member; if a batch that the database reports as written is written as
  -- its statements say and one that it reports as failed changes nothing, the sums of the
  -- contributions and of the stake fit their types, addresses are unique, no record is below zero,
  -- the two commissions are at most 100 together, the boosts are part of the base reward, and the
  -- base is below 2 ^ 63.
  pub distribute_rewards-Credits :
      (write : Members → Distribution → Result Error Members)
      → IsWriting write
      → (members : Members) (authority : Pubkey) (r : Rewards) (oc sc : ℕ) → IsUnique members
      → All IsCredited members
      → oc + sc ≤ 100
      → reward_or r.boost_1 + reward_or r.boost_2 + reward_or r.boost_3 ≤ r.base
      → r.base < i64_limit
      → Credits members (distribute_rewards ids write agg members authority r oc sc).2 r.base
  unfolding distribute_rewards
  distribute_rewards-Credits write writes members authority r oc sc u h commissions boosts small =
      elim (Result-cases (reward_batches ids agg authority r oc sc)) [
        | inr (x, e) ↦
            rw (distribute_rewards, e)
              (atmost members members 0 r.base (omega arith) (stays-Credits members h))
        | inl (batches, e) ↦
            let within =
              reward_batches-le-base ids agg fit authority r oc sc e commissions boosts
                (omega arith) in
            rw (distribute_rewards, e)
              (atmost members _ (sum (map amounts batches)) r.base within
                (write_batches-Credits write writes members batches u h (omega (arith, within))))
      ]
