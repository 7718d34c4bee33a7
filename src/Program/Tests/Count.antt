-- ===== src/Program/Tests/Count.antt =====
-- program/src/join.rs on the sample chain.
use ore_pool.Prelude.{ℕ, ◌≡◌, refl, ok, [], ◌∷◌, arith}
use ore_pool.Prelude.Store.{get, put}
use ore_pool.Prelude.Words.{from_le_bytes}
use ore_pool.Api.Instruction.{PoolInstruction, read_bump, exact}
use ore_pool.Program.Runtime.{Chain}
use ore_pool.Program.User.{join_accounts, process_join}
use ore_pool.Program.Dispatch.{run_instruction}
use ore_pool.Program.Numbering.{run_instruction-IsNumbered}
use ore_pool.Program.Numbering.Growth.{IsNumbered}
use ore_pool.Api.Sample.{ids}
use ore_pool.Program.Sample.{rt, at, chain, member, pool_of}

-- User 6 has joined pool 1.
abbrev joined : Chain (ℕ × ℕ)
joined = record chain {
  pools = (1, record (pool_of 9) { total_members = 2 }) ∷ (3, pool_of 8) ∷ [];
  members =
      (20, member)
      ∷ (21, record { id = 1; pool = 1; authority = 6; balance = 0; total_balance = 0 })
      ∷ [];
}

joins :
    run_instruction rt ids PoolInstruction.join chain
      (at 6 ∷ at 6 ∷ at 21 ∷ at 1 ∷ at 106 ∷ [])
      (254 ∷ [])
    ≡ ok joined
unfolding run_instruction process_join join_accounts read_bump exact get put from_le_bytes
joins = refl

numbered : IsNumbered chain
unfolding get
numbered = record {
  below = λ k m known. (pool_of 9, ground (arith, known), ground (arith, known));
  distinct = λ j k m n known known' pools ids. ground arith;
}

run_instruction-IsNumbered_example : IsNumbered joined
run_instruction-IsNumbered_example =
    run_instruction-IsNumbered rt ids PoolInstruction.join chain joined
      (at 6 ∷ at 6 ∷ at 21 ∷ at 1 ∷ at 106 ∷ []) (254 ∷ []) joins numbered
