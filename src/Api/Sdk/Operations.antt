-- ===== src/Api/Sdk/Operations.antt =====
-- api/src/sdk.rs: the instructions that the operator of a pool builds.
use ore_pool.Prelude.{
  ℕ, ◌-◌, List, [], ◌∷◌, ◌++◌, map, length, replicate, Result, ok, err, ◌>>=◌, true, false, ltb,
  if◌then◌else◌,
}
use ore_pool.Prelude.Words.{to_le_bytes}
use ore_pool.Api.State.{Addresses, Pubkey, pool_pda, pool_proof_pda}
use ore_pool.Api.Instruction.{PoolInstruction}
use ore_pool.Api.Error.{ApiError, url_too_large}
use ore_pool.Api.Sdk.{BuiltInstruction, meta, readonly}

-- The bytes of a url, with zeros after them.
unfoldable pub url_to_bytes : List ℕ → Result ApiError (List ℕ)
url_to_bytes input =
    let len = length input in
    if ltb 128 len then err url_too_large else ok (input ++ replicate (128 - len) 0)

module _ (ids : Addresses) where
  unfoldable pub build_launch :
      (signer miner : Pubkey) (url : List ℕ) → Result ApiError BuiltInstruction
  build_launch signer miner url = do
    url ← url_to_bytes url
    let pool = pool_pda ids signer
    let proof = pool_proof_pda ids pool.0
    ok (record {
      program_id = ids.pool_program;
      accounts =
          meta signer true
          ∷ readonly miner false
          ∷ meta pool.0 false
          ∷ meta proof.0 false
          ∷ readonly ids.ore_program false
          ∷ readonly ids.token_program false
          ∷ readonly ids.associated_token_program false
          ∷ readonly ids.system_program false
          ∷ readonly ids.slot_hashes false
          ∷ [];
      instruction = PoolInstruction.launch;
      payload = to_le_bytes 1 pool.1 ++ to_le_bytes 1 proof.1 ++ url;
    })

  unfoldable pub build_commit : (signer mint : Pubkey) → BuiltInstruction
  build_commit signer mint =
      let boost = (ids.boost_pda mint).0 in
      let pool = (pool_pda ids signer).0 in
      record {
        program_id = ids.pool_program;
        accounts =
            meta signer true
            ∷ meta boost false
            ∷ meta (ids.get_associated_token_address boost mint) false
            ∷ readonly mint false
            ∷ meta pool false
            ∷ meta (ids.get_associated_token_address pool mint) false
            ∷ meta (ids.stake_pda pool boost).0 false
            ∷ readonly ids.token_program false
            ∷ readonly ids.boost_program false
            ∷ [];
        instruction = PoolInstruction.commit;
        payload = [];
      }

  unfoldable pub build_submit :
      (signer : Pubkey) (digest nonce attestation : List ℕ) (bus : Pubkey)
      (boost_accounts : List Pubkey)
      → BuiltInstruction
  build_submit signer digest nonce attestation bus boost_accounts =
      let pool = (pool_pda ids signer).0 in
      record {
        program_id = ids.pool_program;
        accounts =
            (meta signer true
              ∷ meta bus false
              ∷ readonly ids.config false
              ∷ meta pool false
              ∷ meta (pool_proof_pda ids pool).0 false
              ∷ readonly ids.ore_program false
              ∷ readonly ids.system_program false
              ∷ readonly ids.instructions_sysvar false
              ∷ readonly ids.slot_hashes false
              ∷ [])
            ++ map (λ k. readonly k false) boost_accounts;
        instruction = PoolInstruction.submit;
        payload = attestation ++ digest ++ nonce;
      }

  unfoldable pub build_open_stake : (signer mint : Pubkey) → BuiltInstruction
  build_open_stake signer mint =
      let boost = (ids.boost_pda mint).0 in
      let pool = (pool_pda ids signer).0 in
      record {
        program_id = ids.pool_program;
        accounts =
            meta signer true
            ∷ readonly boost false
            ∷ readonly mint false
            ∷ meta pool false
            ∷ meta (ids.get_associated_token_address pool mint) false
            ∷ meta (ids.stake_pda pool boost).0 false
            ∷ readonly ids.system_program false
            ∷ readonly ids.token_program false
            ∷ readonly ids.associated_token_program false
            ∷ readonly ids.boost_program false
            ∷ [];
        instruction = PoolInstruction.open_stake;
        payload = [];
      }
