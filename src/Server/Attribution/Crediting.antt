-- ===== src/Server/Attribution/Crediting.antt =====
-- What crediting rewards (server/src/aggregator.rs) leaves of the table of members.
use ore_pool.Prelude.{
  ℕ, ◌<◌, ◌≡◌, refl, ok, Result, List, [], ◌∷◌, Result-cases, Option-cases, Bool-cases, arith, All,
  >>=-eq-ok, false, true, inl, inr, ◌==◌, some, ok-injective, ap,
}
use ore_pool.Prelude.Int.{ℤ, pos, negsuc, ◌+ℤ◌}
use ore_pool.Prelude.Words.{u64_mod}
use ore_pool.Api.State.{Addresses, Pubkey}
use ore_pool.Program.Runtime.{Runtime}
use ore_pool.Server.Aggregator.{Aggregator, as_u64}
use ore_pool.Server.Rewards.{
  Rewards, Distribution, distribute_rewards, reward_batches, write_batches,
}
use ore_pool.Server.Database.{
  MemberRow, Members, as_i64, bigint, read_member, update_total_balance,
  write_member_total_balances,
}
use ore_pool.Server.Error.{Error}
use ore_pool.Server.Rewards.Owed.{IsWriting}
use ore_pool.Server.Attribution.Round.{addresses}
use ore_pool.Server.Attribution.Landing.{IsPlaced}

bigint-bounded : (x : ℤ) {t : ℤ} → bigint x ≡ some t → as_u64 t < u64_mod
bigint-bounded (pos n) h = ground (arith, h)
bigint-bounded (negsuc n) h = ground (arith, h)

module _ {X : Type 0} (rt : Runtime X) (ids : Addresses) (operator : Pubkey) where
  -- What a credit leaves: the members, and every record that is still marked.
  pub record Unmarks (before after : Members) : Type 0 where
    pub same : addresses after ≡ addresses before
    pub placed : All (IsPlaced rt ids operator) before → All (IsPlaced rt ids operator) after
    pub read :
        (a : Pubkey) (r : MemberRow)
        → read_member after a ≡ ok r
        → r.is_synced ≡ true
        → read_member before a ≡ ok r

  stays-Unmarks : (rs : Members) → Unmarks rs rs
  stays-Unmarks rs = record { same = refl; placed = λ h. h; read = λ a r h e. h }

  Unmarks-trans : (x y z : Members) → Unmarks x y → Unmarks y z → Unmarks x z
  Unmarks-trans x y z p q = record {
    same = ground (arith, p.same, q.same);
    placed = λ h. q.placed (p.placed h);
    read = λ a r h e. p.read a r (q.read a r h e) e;
  }

  update_total_balance-Unmarks :
      (n : ℤ) (a : Pubkey) (rs : Members) {rs' : Members}
      → update_total_balance n a rs ≡ ok rs'
      → Unmarks rs rs'
  unfolding update_total_balance read_member
  update_total_balance-Unmarks n a [] h = rw (← ok-injective h) (stays-Unmarks [])
  update_total_balance-Unmarks n a (r ∷ rs) {rs'} h =
      elim (Result-cases (update_total_balance n a rs)) [
        | inr (x, e) ↦ absurd (ground (arith, e, h))
        | inl (rest, e) ↦
            let below = update_total_balance-Unmarks n a rs e in
            elim (Bool-cases (r.address == a)) [
              | inr miss ↦
                  let last : rs' ≡ r ∷ rest = ground (arith, e, miss, h) in
                  rw last (record {
                    same = ap (λ t. r.address ∷ t) below.same;
                    placed = λ (p, ps). (p, below.placed ps);
                    read = λ b s at marked. ground (arith, at, below.read b s, marked);
                  })
              | inl hit ↦ elim (Option-cases (bigint (r.total_balance +ℤ n))) [
                | inl over ↦ absurd (ground (arith, e, hit, over, h))
                | inr (t, fits) ↦
                    let last : rs' ≡ record r { total_balance = t; is_synced = false } ∷ rest =
                      ground (arith, e, hit, fits, h) in
                    rw last (record {
                      same = ap (λ t. r.address ∷ t) below.same;
                      placed = λ (p, ps).
                          ((p.0, bigint-bounded (r.total_balance +ℤ n) fits), below.placed ps);
                      read = λ b s at marked. ground (arith, at, below.read b s, marked);
                    })
              ]
            ]
      ]

  write_member_total_balances-Unmarks :
      (rs : Members) (d : Distribution) {rs' : Members}
      → write_member_total_balances rs d ≡ ok rs'
      → Unmarks rs rs'
  unfolding write_member_total_balances
  write_member_total_balances-Unmarks rs [] h = rw (← ok-injective h) (stays-Unmarks rs)
  write_member_total_balances-Unmarks rs ((a, n) ∷ d) {rs'} h =
      let (mid, h₁, h₂) = >>=-eq-ok (update_total_balance (as_i64 n) a rs) _ h in
      Unmarks-trans rs mid rs' (update_total_balance-Unmarks (as_i64 n) a rs h₁)
        (write_member_total_balances-Unmarks mid d h₂)

  write_batches-Unmarks :
      (write : Members → Distribution → Result Error Members)
      → IsWriting write
      → (rs : Members) (bs : List Distribution) → Unmarks rs (write_batches write rs bs).1
  unfolding write_batches
  write_batches-Unmarks write writes rs [] = stays-Unmarks rs
  write_batches-Unmarks write writes rs (b ∷ bs) = elim (Result-cases (write rs b)) [
    | inr (x, e) ↦ rw (write_batches, e) (stays-Unmarks rs)
    | inl (mid, e) ↦
        rw (write_batches, e)
          (Unmarks-trans rs mid _ (write_member_total_balances-Unmarks rs b (writes rs b mid e))
            (write_batches-Unmarks write writes mid bs))
  ]

  pub distribute_rewards-Unmarks :
      (write : Members → Distribution → Result Error Members)
      → IsWriting write
      → (agg : Aggregator) (rs : Members) (authority : Pubkey) (r : Rewards) (oc sc : ℕ)
      → Unmarks rs (distribute_rewards ids write agg rs authority r oc sc).2
  unfolding distribute_rewards
  distribute_rewards-Unmarks write writes agg rs authority r oc sc =
      elim (Result-cases (reward_batches ids agg authority r oc sc)) [
        | inr (x, e) ↦ rw (distribute_rewards, e) (stays-Unmarks rs)
        | inl (batches, e) ↦
            rw (distribute_rewards, e) (write_batches-Unmarks write writes rs batches)
      ]
