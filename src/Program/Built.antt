-- ===== src/Program/Built.antt =====
-- The handlers on the instructions that api/src/sdk.rs builds.
use ore_pool.Prelude.{ℕ, ◌+◌, ◌-◌, ◌<◌, ◌≡◌, Result, ok, some, map, arith, true, false}
use ore_pool.Prelude.Words.{
  to_le_bytes, from_le_bytes, u64_mod, from_le_bytes-to_le_bytes, length-to_le_bytes,
}
use ore_pool.Prelude.Store.{get}
use ore_pool.Api.State.{Addresses, Pubkey, Pool, Member, pool_pda, member_pda}
use ore_pool.Api.Instruction.{read_amount, exact}
use ore_pool.Api.Sdk.{AccountMeta, BuiltInstruction, build_attribute}
use ore_pool.Program.Runtime.{ProgramError, AccountInfo, Runtime, Chain, set_member}
use ore_pool.Program.User.{process_attribute}
use ore_pool.Program.User.Attribution.{attributed}
use ore_pool.Program.Idempotence.{attribute_accounts-eq-ok}
use ore_pool.Program.Dispatch.{run_instruction}

abbrev pub passed : AccountMeta → AccountInfo
passed a = record { key = a.key; is_signer = a.is_signer; is_writable = a.is_writable }

-- The runtime passes the accounts in the order in which the instruction names them.
abbrev pub deliver :
    {X : Type 0}
    → Runtime X
    → Addresses
    → Chain X
    → BuiltInstruction
    → Result ProgramError (Chain X)
deliver rt ids c ix = run_instruction rt ids ix.instruction c (map passed ix.accounts) ix.payload

module _ {X : Type 0} (rt : Runtime X) (ids : Addresses) where
  -- What the operator of a pool builds with the SDK's `attribute` for one of the pool's members is
  -- accepted, and sets the member's lifetime earnings to the figure given and its balance higher
  -- by how much that is more than before, if the balance stays below 2 ^ 64 and the runtime reports
  -- accounts as they are flagged.
  pub build_attribute-deliver :
      (c : Chain X) (signer authority : Pubkey) (t : ℕ) (pool : Pool) (member : Member)
      → ((i : AccountInfo) → rt.is_signer i ≡ i.is_signer)
      → ((i : AccountInfo) → rt.is_mutable i ≡ i.is_writable)
      → get (pool_pda ids signer).0 c.pools ≡ some pool
      → pool.authority ≡ signer
      → get (member_pda ids authority (pool_pda ids signer).0).0 c.members ≡ some member
      → member.pool ≡ (pool_pda ids signer).0
      → t < u64_mod
      → member.balance + (t - member.total_balance) < u64_mod
      → deliver rt ids c (build_attribute ids signer authority t)
        ≡ ok (
            set_member c
              (record {
                key = (member_pda ids authority (pool_pda ids signer).0).0;
                is_signer = false;
                is_writable = true;
              })
              (attributed member t))
  unfolding build_attribute run_instruction process_attribute read_amount exact
  build_attribute-deliver c signer authority t pool member flagged flagged' h₁ h₂ h₃ h₄ small fits =
      let same : from_le_bytes (to_le_bytes 8 t) ≡ t =
        from_le_bytes-to_le_bytes 8 t (omega arith) in
      ground (
        arith,
        same,
        length-to_le_bytes 8 t,
        flagged,
        flagged',
        attribute_accounts-eq-ok rt ids c
            (record { key = signer; is_signer = true; is_writable = true })
            (record { key = (pool_pda ids signer).0; is_signer = false; is_writable = false })
            (record {
              key = (member_pda ids authority (pool_pda ids signer).0).0;
              is_signer = false;
              is_writable = true;
            })
            t pool member (flagged _) (flagged' _) h₁ h₂ h₃ h₄ fits,
      )
