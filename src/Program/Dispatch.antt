-- ===== src/Program/Dispatch.antt =====
-- program/src/lib.rs: the entry point. `parse_instruction` of steel compares the program id and
-- splits the tag off the data.
use ore_pool.Prelude.{ℕ, Result, ok, ◌>>=◌, List}
use ore_pool.Api.State.{Addresses, Pubkey}
use ore_pool.Api.Instruction.{PoolInstruction}
use ore_pool.Program.Runtime.{ProgramError, AccountInfo, Runtime, Chain}
use ore_pool.Program.User.{process_attribute, process_claim, process_join, process_open_share}
use ore_pool.Program.Stakes.{process_stake, process_unstake}
use ore_pool.Program.Admin.{process_launch, process_open_stake, process_commit, process_submit}

module _ {X : Type 0} (rt : Runtime X) (ids : Addresses) where
  unfoldable pub run_instruction :
      PoolInstruction → Chain X → List AccountInfo → List ℕ → Result ProgramError (Chain X)
  run_instruction PoolInstruction.join c accounts d = process_join rt ids c accounts d
  run_instruction PoolInstruction.claim c accounts d = process_claim rt ids c accounts d
  run_instruction PoolInstruction.open_share c accounts d = process_open_share rt ids c accounts d
  run_instruction PoolInstruction.stake c accounts d = process_stake rt ids c accounts d
  run_instruction PoolInstruction.unstake c accounts d =
      process_unstake rt ids c accounts d >>= λ r. ok r.0
  run_instruction PoolInstruction.attribute c accounts d = process_attribute rt ids c accounts d
  run_instruction PoolInstruction.commit c accounts d = process_commit rt ids c accounts d
  run_instruction PoolInstruction.launch c accounts d = process_launch rt ids c accounts d
  run_instruction PoolInstruction.open_stake c accounts d = process_open_stake rt ids c accounts d
  run_instruction PoolInstruction.submit c accounts d = process_submit rt ids c accounts d

  -- `parse_instruction`, which the program calls, is given.
  unfoldable pub process_instruction :
      (Pubkey → Pubkey → List ℕ → Result ProgramError (PoolInstruction × List ℕ))
      → Pubkey
      → Chain X
      → List AccountInfo
      → List ℕ
      → Result ProgramError (Chain X)
  process_instruction parse_instruction program_id c accounts data_bytes = do
    parsed ← parse_instruction ids.pool_program program_id data_bytes
    run_instruction parsed.0 c accounts parsed.1
