-- ===== src/Api/Sdk.antt =====
-- api/src/sdk.rs: the instructions that clients of the program build. `to_bytes` puts the tag of
-- the instruction before the bytes of its arguments; here they are two fields.
pub mod Operations
pub mod Payloads
use ore_pool.Prelude.{ℕ, List, [], ◌∷◌, ◌++◌, Bool, true, false}
use ore_pool.Prelude.Words.{to_le_bytes}
use ore_pool.Api.State.{Addresses, Pubkey, pool_pda, pool_proof_pda, member_pda, share_pda}
use ore_pool.Api.Instruction.{PoolInstruction}

pub record AccountMeta : Type 0 where
  pub key : Pubkey
  pub is_signer : Bool
  pub is_writable : Bool

pub record BuiltInstruction : Type 0 where
  pub program_id : Pubkey
  pub accounts : List AccountMeta
  pub instruction : PoolInstruction
  pub payload : List ℕ

-- `AccountMeta::new` and `AccountMeta::new_readonly`
abbrev pub meta : Pubkey → Bool → AccountMeta
meta k signer = record { key = k; is_signer = signer; is_writable = true }

abbrev pub readonly : Pubkey → Bool → AccountMeta
readonly k signer = record { key = k; is_signer = signer; is_writable = false }

module _ (ids : Addresses) where
  unfoldable pub build_attribute :
      (signer member_authority : Pubkey) (total_balance : ℕ) → BuiltInstruction
  build_attribute signer member_authority total_balance =
      let pool = (pool_pda ids signer).0 in
      record {
        program_id = ids.pool_program;
        accounts =
            meta signer true
            ∷ readonly pool false
            ∷ meta (member_pda ids member_authority pool).0 false
            ∷ [];
        instruction = PoolInstruction.attribute;
        payload = to_le_bytes 8 total_balance;
      }

  unfoldable pub build_join : (member_authority pool payer : Pubkey) → BuiltInstruction
  build_join member_authority pool payer =
      let (member_address, member_bump) = member_pda ids member_authority pool in
      record {
        program_id = ids.pool_program;
        accounts =
            meta payer true
            ∷ readonly member_authority false
            ∷ meta member_address false
            ∷ meta pool false
            ∷ readonly ids.system_program false
            ∷ [];
        instruction = PoolInstruction.join;
        payload = to_le_bytes 1 member_bump;
      }

  unfoldable pub build_claim :
      (signer beneficiary pool : Pubkey) (pool_bump amount : ℕ) → BuiltInstruction
  build_claim signer beneficiary pool pool_bump amount = record {
    program_id = ids.pool_program;
    accounts =
        meta signer true
        ∷ meta beneficiary false
        ∷ meta (member_pda ids signer pool).0 false
        ∷ meta pool false
        ∷ meta (pool_proof_pda ids pool).0 false
        ∷ readonly ids.treasury false
        ∷ meta ids.treasury_tokens false
        ∷ readonly ids.ore_program false
        ∷ readonly ids.token_program false
        ∷ [];
    instruction = PoolInstruction.claim;
    payload = to_le_bytes 8 amount ++ to_le_bytes 1 pool_bump;
  }

  unfoldable pub build_unstake :
      (signer mint pool recipient : Pubkey) (amount : ℕ) → BuiltInstruction
  build_unstake signer mint pool recipient amount =
      let boost = (ids.boost_pda mint).0 in
      record {
        program_id = ids.pool_program;
        accounts =
            meta signer true
            ∷ meta boost false
            ∷ meta (ids.get_associated_token_address boost mint) false
            ∷ readonly mint false
            ∷ readonly (member_pda ids signer pool).0 false
            ∷ meta pool false
            ∷ meta (ids.get_associated_token_address pool mint) false
            ∷ meta recipient false
            ∷ meta (share_pda ids signer pool mint).0 false
            ∷ meta (ids.stake_pda pool boost).0 false
            ∷ readonly ids.token_program false
            ∷ readonly ids.boost_program false
            ∷ [];
        instruction = PoolInstruction.unstake;
        payload = to_le_bytes 8 amount;
      }

  unfoldable pub build_stake : (signer mint pool sender : Pubkey) (amount : ℕ) → BuiltInstruction
  build_stake signer mint pool sender amount = record {
    program_id = ids.pool_program;
    accounts =
        meta signer true
        ∷ readonly mint false
        ∷ readonly (member_pda ids signer pool).0 false
        ∷ readonly pool false
        ∷ meta (ids.get_associated_token_address pool mint) false
        ∷ meta sender false
        ∷ meta (share_pda ids signer pool mint).0 false
        ∷ readonly ids.token_program false
        ∷ [];
    instruction = PoolInstruction.stake;
    payload = to_le_bytes 8 amount;
  }

  unfoldable pub build_open_share : (signer mint pool : Pubkey) → BuiltInstruction
  build_open_share signer mint pool =
      let boost = (ids.boost_pda mint).0 in
      let (share_address, share_bump) = share_pda ids signer pool mint in
      record {
        program_id = ids.pool_program;
        accounts =
            meta signer true
            ∷ readonly boost false
            ∷ readonly mint false
            ∷ readonly pool false
            ∷ meta share_address false
            ∷ readonly (ids.stake_pda pool boost).0 false
            ∷ readonly ids.system_program false
            ∷ [];
        instruction = PoolInstruction.open_share;
        payload = to_le_bytes 1 share_bump;
      }
