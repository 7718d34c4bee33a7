-- ===== src/Server/Validate.antt =====
-- server/src/tx/validate.rs: the check of a transaction that a client wants signed.
pub mod Exact
use ore_pool.Prelude.{
  ℕ, ◌-◌, Result, ok, err, ◌>>=◌, ◌>>◌, guard, ok_or, List, [], ◌∷◌, Option, none, some, length,
  get_elem?, take, ltb, ◌==◌,
}
use ore_pool.Prelude.Words.{from_le_bytes}
use ore_pool.Prelude.Int.{ℤ}
use ore_pool.Api.State.{Addresses, Pubkey}
use ore_pool.Api.Instruction.{read_amount}
use ore_pool.Server.Error.{Error, internal, solana_program}
use ore_pool.Server.Aggregator.{as_u64}

-- An instruction of a transaction's message; `accounts` and `program_id_index` are positions in the
-- list of account keys.
pub record CompiledInstruction : Type 0 where
  pub program_id_index : ℕ
  pub accounts : List ℕ
  pub payload : List ℕ

pub record Transaction : Type 0 where
  pub account_keys : List Pubkey
  pub instructions : List CompiledInstruction

-- A function that may also panic.
pub data Outcome (A : Type 0) : Type 0 where
  returns : Result Error A → Outcome A
  panics : Outcome A

abbrev pub last? : {A : Type 0} → List A → Option A
last? [] = none
last? (x ∷ []) = some x
last? (x ∷ y ∷ xs) = last? (y ∷ xs)

-- The loop over the instructions before the last.
unfoldable pub check_compute_budget :
    Addresses → List Pubkey → List CompiledInstruction → Result Error (Unit {0})
check_compute_budget ids keys [] = ok tt
check_compute_budget ids keys (ix ∷ ixs) = do
  program_id ← ok_or (get_elem? keys ix.program_id_index) (internal "missing program id")
  guard (program_id == ids.compute_budget) (internal "expected instruction to be compute budget")
  check_compute_budget ids keys ixs

-- The bytes after the tag.
abbrev pub split_first : List ℕ → Option (ℕ × List ℕ)
split_first [] = none
split_first (t ∷ d) = some (t, d)

-- The amount in the payload of the last instruction; its tag is split off and not read.
unfoldable pub check_amount : List ℕ → ℤ → Result Error (Unit {0})
check_amount payload total_balance = do
  split ← ok_or (split_first payload) solana_program
  args ← ok_or (read_amount split.1) solana_program
  guard (from_le_bytes args == as_u64 total_balance) (internal "invalid total balance arg")

-- The last instruction.
unfoldable pub check_attribution :
    Addresses → List Pubkey → CompiledInstruction → ℤ → Result Error (Unit {0})
check_attribution ids keys last total_balance = do
  last_program_id ← ok_or (get_elem? keys last.program_id_index) (internal "missing program id")
  guard (last_program_id == ids.pool_program) (internal "expected instruction to be pool program")
  check_amount last.payload total_balance

-- With no instruction `n - 1` wraps and the slice up to it panics.
unfoldable pub validate_instructions :
    Addresses → List Pubkey → List CompiledInstruction → ℤ → Outcome (Unit {0})
validate_instructions ids keys [] total_balance = panics
validate_instructions ids keys (first ∷ rest) total_balance =
    let instructions = first ∷ rest in
    let num_compute_budget_instructions = length instructions - 1 in
    returns (do
      guard (ltb 1 num_compute_budget_instructions) (
          internal "attribution transactions must contain at least two compute budget instructions")
      check_compute_budget ids keys (take num_compute_budget_instructions instructions)
      last ← ok_or (last? instructions) (internal "empty attribution transaction")
      check_attribution ids keys last total_balance)

unfoldable pub validate_attribution : Addresses → Transaction → ℤ → Outcome (Unit {0})
validate_attribution ids tx total_balance =
    validate_instructions ids tx.account_keys tx.instructions total_balance
