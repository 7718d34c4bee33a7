-- ===== src/Server/Operator/Reads.antt =====
-- server/src/operator.rs: what the operator reads of the chain and of the database.
use ore_pool.Prelude.{
  ℕ, zero, suc, max, List, [], ◌∷◌, ◌++◌, map, length, take, drop, Option, none, some, ok_or, ltb,
  if◌then◌else◌,
}
use ore_pool.Prelude.Store.{put}
use ore_pool.Api.State.{
  Addresses, Pubkey, Pool, Member, Share, pool_pda, pool_proof_pda, member_pda, share_pda,
}
use ore_pool.Api.Sdk.Operations.{build_commit}
use ore_pool.Server.Error.{solana_program, bincode}
use ore_pool.Server.Io.{Io, ◌>>=◌, ◌>>◌, done, lift}
use ore_pool.Server.Rpc.{Rpc, OreProof, OreConfig, pool_instruction}
use ore_pool.Server.Submit.{submit_and_confirm_instructions}
use ore_pool.Server.State.{ServerState, from_outside, look, on_database}
use ore_pool.Server.Database.{MemberRow, read_member}
use ore_pool.Server.Database.Stakers.{Staker, read_staker, stream_stakers}
use ore_pool.Server.Aggregator.{StakerBalances, Stakers}
use ore_pool.Server.Operator.{Operator, BoostAccount, cutoff, min_difficulty_setting, get_boosts}

-- `slice::chunks(100)`: a list of that length is cut at most as often as it has elements.
unfoldable pub chunks_loop : ℕ → List Pubkey → List (List Pubkey)
chunks_loop zero ks = []
chunks_loop (suc n) [] = []
chunks_loop (suc n) (k ∷ ks) = take 100 (k ∷ ks) ∷ chunks_loop n (drop 100 (k ∷ ks))

abbrev pub chunks : List Pubkey → List (List Pubkey)
chunks ks = chunks_loop (length ks) ks

module _ {R : Type 0} (rpc : Rpc R) (ids : Addresses) (operator : Operator) where
  abbrev pub decoded : {A : Type 0} → Option A → Io R A
  decoded o = lift (ok_or o solana_program)

  unfoldable pub get_pool : Io R Pool
  get_pool = do
    data_bytes ← rpc.get_account_data (pool_pda ids operator.keypair).0
    decoded (rpc.pool_from_bytes data_bytes)

  unfoldable pub get_proof : Io R OreProof
  get_proof = do
    data_bytes ← rpc.get_account_data (pool_proof_pda ids (pool_pda ids operator.keypair).0).0
    decoded (rpc.proof_from_bytes data_bytes)

  unfoldable pub get_member_onchain : Pubkey → Io R Member
  get_member_onchain member_authority = do
    data_bytes ←
        rpc.get_account_data (member_pda ids member_authority (pool_pda ids operator.keypair).0).0
    decoded (rpc.member_from_bytes data_bytes)

  unfoldable pub get_staker_onchain : (member_authority mint : Pubkey) → Io R (Share × Pubkey)
  get_staker_onchain member_authority mint = do
    let share_address = (share_pda ids member_authority (pool_pda ids operator.keypair).0 mint).0
    data_bytes ← rpc.get_account_data share_address
    share ← decoded (rpc.share_from_bytes data_bytes)
    done (share, share_address)

  unfoldable pub get_config : Io R OreConfig
  get_config = do
    data_bytes ← rpc.get_account_data ids.config
    decoded (rpc.config_from_bytes data_bytes)

  unfoldable pub get_cutoff : (clock : Pubkey) → OreProof → Io R ℕ
  get_cutoff clock proof = do
    data_bytes ← rpc.get_account_data clock
    unix_timestamp ← lift (ok_or (rpc.unix_timestamp data_bytes) bincode)
    done (cutoff proof.last_hash_at unix_timestamp)

  unfoldable pub min_difficulty : Io R ℕ
  unfolding get_config
  min_difficulty = do
    config ← get_config
    done (elim min_difficulty_setting [
      | none ↦ config.min_difficulty
      | some operator_min ↦ max config.min_difficulty operator_min
    ])

  -- The operator's own transaction that stakes what is pending.
  unfoldable pub commit_stake : Io R (Unit {0})
  commit_stake =
      let boost_mints = get_boosts operator.boost_accounts in
      let ixs = map (λ m. pool_instruction (build_commit ids operator.keypair m)) boost_mints in
      if ltb 0 (length boost_mints)
      then (do
        sig ← submit_and_confirm_instructions rpc operator.keypair ixs 1_000_000 10_000
        done tt)
      else done tt

  -- The chunks are asked for at once and joined in order; the first error is the answer.
  unfoldable pub get_chunks : List (List Pubkey) → Io R (List (Option (List ℕ)))
  get_chunks [] = done []
  get_chunks (chunk ∷ rest) = do
    accounts ← rpc.get_multiple_accounts chunk
    others ← get_chunks rest
    done (accounts ++ others)

  -- Into a `HashMap`: of two shares of one authority the later counts.
  unfoldable pub collect_shares : List (Option (List ℕ)) → StakerBalances → StakerBalances
  collect_shares [] balances = balances
  collect_shares (none ∷ accounts) balances = collect_shares accounts balances
  collect_shares (some data_bytes ∷ accounts) balances =
      collect_shares accounts (elim (rpc.share_from_bytes data_bytes) [
        | none ↦ balances
        | some share ↦ put share.authority share.balance balances
      ])

  unfoldable pub get_stakers_db : Pubkey → Io (ServerState R) (List Pubkey)
  get_stakers_db mint = do
    on_database rpc
    stakers ← look (λ s. stream_stakers s.stakers mint)
    done (map (λ (s : Staker). s.address) stakers)

  unfoldable pub get_stakers_onchain : Pubkey → Io (ServerState R) StakerBalances
  get_stakers_onchain mint = do
    keys ← get_stakers_db mint
    accounts ← from_outside (get_chunks (chunks keys))
    done (collect_shares accounts [])

  unfoldable pub get_member_db : Pubkey → Io (ServerState R) MemberRow
  get_member_db member_authority = do
    on_database rpc
    found ← look (λ s.
        read_member s.members (member_pda ids member_authority (pool_pda ids operator.keypair).0).0)
    lift found

  unfoldable pub get_staker_db : (member_authority mint : Pubkey) → Io (ServerState R) Staker
  get_staker_db member_authority mint = do
    on_database rpc
    found ← look (λ s.
        read_staker s.stakers
          (share_pda ids member_authority (pool_pda ids operator.keypair).0 mint).0)
    lift found

  -- One map of balances for every boost, as the server starts and after it has committed stake.
  unfoldable pub fetch_stakers : List BoostAccount → Stakers → Io (ServerState R) Stakers
  fetch_stakers [] stake = done stake
  fetch_stakers (ba ∷ bas) stake = do
    stakers ← get_stakers_onchain ba.mint
    fetch_stakers bas (put ba.mint stakers stake)
