-- ===== src/Program/Tests/Stake.antt =====
-- program/src/stake.rs and unstake.rs on the sample chain.
use ore_pool.Prelude.{List, ℕ, ◌<◌, ◌≡◌, refl, ok, [], ◌∷◌, some, none, arith}
use ore_pool.Prelude.Store.{get, put, total}
use ore_pool.Api.State.{Share}
use ore_pool.Program.Runtime.{AccountInfo, Chain}
use ore_pool.Program.Stakes.{
  stake_accounts, unstake_accounts, pay_out, UnstakeEvent, process_stake, process_unstake,
}
use ore_pool.Program.Stakes.Inversion.{Unstakes, unstake_accounts-Unstakes}
use ore_pool.Program.Stakes.Custody.{IsSolvent, promised}
use ore_pool.Program.Stakes.Solvency.{stake_accounts_foreign}
use ore_pool.Program.Stakes.History.{IsSound, here, next, History-IsSound}
use ore_pool.Program.Dispatch.{run_instruction}
use ore_pool.Api.Instruction.{PoolInstruction, read_amount}
use ore_pool.Prelude.Words.{to_le_bytes, from_le_bytes}
use ore_pool.Api.Sample.{ids}
use ore_pool.Program.Sample.{rt, custody, at, chain, share_of, pool_of}

abbrev kept : ℕ → ℕ → ℕ → Chain (ℕ × ℕ)
kept mine other tokens = record chain {
  shares = (30, share_of mine 1) ∷ (31, share_of other 3) ∷ [];
  outside = (tokens, 90);
}

abbrev logged : UnstakeEvent
logged = record { authority = 5; share = 30; mint = 2; balance = 5 }

stakes :
    stake_accounts rt ids chain (at 5 ∷ at 2 ∷ at 20 ∷ at 1 ∷ at 7 ∷ at 70 ∷ at 30 ∷ at 104 ∷ []) 8
    ≡ ok (kept 58 0 68)
unfolding stake_accounts get put
stakes = refl

unstakes :
    unstake_accounts rt ids chain
      (at 5
        ∷ at 40
        ∷ at 41
        ∷ at 2
        ∷ at 20
        ∷ at 1
        ∷ at 7
        ∷ at 70
        ∷ at 30
        ∷ at 42
        ∷ at 104
        ∷ at 103
        ∷ [])
      45
    ≡ ok (kept 5 0 15, logged)
unfolding unstake_accounts pay_out get put
unstakes = refl

solvent : IsSolvent custody chain
unfolding get total custody
solvent p m pool known = ground arith

outsider : get 5 chain.pools ≡ none
unfolding get
outsider = refl

of_pool : (share : Share) → get 30 chain.shares ≡ some share → share.pool ≡ 1
unfolding get
of_pool share found = ground arith

sound : IsSound custody chain
unfolding get total
sound = (solvent, λ p m gone. ground (arith, gone))

abbrev deposits : List AccountInfo
deposits = at 5 ∷ at 2 ∷ at 20 ∷ at 1 ∷ at 7 ∷ at 70 ∷ at 30 ∷ at 104 ∷ []

abbrev withdraws : List AccountInfo
withdraws =
    at 5 ∷ at 40 ∷ at 41 ∷ at 2 ∷ at 20 ∷ at 1 ∷ at 7 ∷ at 70 ∷ at 30 ∷ at 42 ∷ at 104 ∷ at 103 ∷ []

deposited :
    run_instruction rt ids PoolInstruction.stake chain deposits (to_le_bytes 8 8)
    ≡ ok (kept 58 0 68)
unfolding run_instruction process_stake read_amount stake_accounts get put to_le_bytes from_le_bytes
deposited = refl

withdrawn :
    run_instruction rt ids PoolInstruction.unstake (kept 58 0 68) withdraws (to_le_bytes 8 50)
    ≡ ok (kept 8 0 18)
unfolding run_instruction process_unstake read_amount unstake_accounts pay_out get put to_le_bytes
    from_le_bytes
withdrawn = refl

-- A deposit, and a withdrawal that exceeds the pending tokens.
History-IsSound_example : IsSound custody (kept 8 0 18)
History-IsSound_example = History-IsSound rt ids custody chain sound (
    next (next here PoolInstruction.stake deposits (to_le_bytes 8 8) deposited (outsider, of_pool))
      PoolInstruction.unstake withdraws (to_le_bytes 8 50) withdrawn tt)

unstake_accounts-Unstakes_example :
    Unstakes rt chain (kept 5 0 15) logged (at 5) (at 2) (at 1) (at 7) (at 70) (at 30) 45
unstake_accounts-Unstakes_example =
    unstake_accounts-Unstakes rt ids chain (at 5) (at 40) (at 41) (at 2) (at 20) (at 1) (at 7)
      (at 70) (at 30) (at 42) (at 104) (at 103) 45 unstakes

-- The deposit goes to the token account of pool 1 and the share account of pool 3.
stakes_foreign :
    stake_accounts rt ids chain (at 5 ∷ at 2 ∷ at 20 ∷ at 1 ∷ at 7 ∷ at 70 ∷ at 31 ∷ at 104 ∷ []) 8
    ≡ ok (kept 50 8 68)
unfolding stake_accounts get put
stakes_foreign = refl

foreign_share : get 31 chain.shares ≡ some (share_of 0 3)
unfolding get
foreign_share = refl

other_pool : get 3 chain.pools ≡ some (pool_of 8)
unfolding get
other_pool = refl

exactly : promised chain 3 2 ≡ custody.holdings (60, 90) 3 2
unfolding total custody
exactly = refl

stake_accounts_foreign_example : custody.holdings (68, 90) 3 2 < promised (kept 50 8 68) 3 2
stake_accounts_foreign_example =
    stake_accounts_foreign rt ids custody chain (at 5) (at 2) (at 20) (at 1) (at 7) (at 70) (at 31)
      (at 104) 8 (share_of 0 3) (pool_of 8) stakes_foreign foreign_share (λ e. ground (arith, e))
      other_pool outsider (omega arith) exactly
