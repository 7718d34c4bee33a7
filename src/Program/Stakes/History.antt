-- ===== src/Program/Stakes/History.antt =====
-- Solvency over any history of instructions.
use mathlib.Core.Path.{subst}
use ore_pool.Prelude.{
  ok-injective, ℕ, ◌+◌, ◌-◌, ◌≡◌, ok, List, [], ◌∷◌, some, none, arith, >>=-eq-ok, Option-cases,
  inl, inr,
}
use ore_pool.Prelude.Words.{from_le_bytes}
use ore_pool.Prelude.Store.{get}
use ore_pool.Api.State.{Addresses, Pubkey, Share}
use ore_pool.Api.Instruction.{PoolInstruction, read_amount}
use ore_pool.Program.Runtime.{AccountInfo, Runtime, Chain, parsed}
use ore_pool.Program.Stakes.{
  UnstakeEvent, stake_accounts, unstake_accounts, process_stake, process_unstake,
}
use ore_pool.Program.Dispatch.{run_instruction}
use ore_pool.Program.Stakes.Custody.{Custody, promised, IsSolvent}
use ore_pool.Program.Stakes.Inversion.{stake_accounts-Stakes, unstake_accounts-Unstakes}
use ore_pool.Program.Stakes.Solvency.{
  promised-set, stake_accounts-IsSolvent, unstake_accounts-IsSolvent,
}
use ore_pool.Program.Stakes.Quiet.{Quiet, run_instruction-Quiet}

-- A deposit is signed by no pool, and goes to a share account of the pool that it names.
abbrev pub IsOwnDeposit : {X : Type 0} → Chain X → PoolInstruction → List AccountInfo → Type 0
IsOwnDeposit c PoolInstruction.stake (s ∷ mt ∷ m ∷ p ∷ pt ∷ st ∷ sh ∷ tp ∷ []) =
    (get s.key c.pools ≡ none)
    × ((share : Share) → get sh.key c.shares ≡ some share → share.pool ≡ p.key)
IsOwnDeposit c _ l = Unit {0}

-- Every pool is solvent, and nothing is promised but by pools.
abbrev pub IsSound : {X : Type 0} {rt : Runtime X} → Custody rt → Chain X → Type 0
IsSound k c = IsSolvent k c × ((p m : Pubkey) → get p c.pools ≡ none → promised c p m ≡ 0)

module _ {X : Type 0} (rt : Runtime X) (ids : Addresses) (k : Custody rt) where
  Quiet-IsSound : (c c' : Chain X) → Quiet k c c' → IsSound k c → IsSound k c'
  Quiet-IsSound c c' q (solvent, none_else) = (
    (λ p m pool at. elim (Option-cases (get p c.pools)) [
      | inl gone ↦ ground (arith, q.promises p m, none_else p m gone)
      | inr (pool₀, at₀) ↦ ground (arith, q.promises p m, q.drift p m, solvent p m pool₀ at₀)
    ]),
    (λ p m gone. ground (arith, q.promises p m, none_else p m (q.stay p gone))),
  )

  stake-IsSound :
      (c : Chain X) {c' : Chain X} (l : List AccountInfo) (d : List ℕ)
      → process_stake rt ids c l d ≡ ok c'
      → IsOwnDeposit c PoolInstruction.stake l
      → IsSound k c
      → IsSound k c'
  unfolding process_stake stake_accounts
  stake-IsSound c (s ∷ mt ∷ m ∷ p ∷ pt ∷ st ∷ sh ∷ tp ∷ []) d h (outsider, own)
        (solvent, none_else) =
      let (bytes, e, h') = >>=-eq-ok (parsed (read_amount d)) _ h in
      let n = from_le_bytes bytes in
      let w = stake_accounts-Stakes rt ids c s mt m p pt st sh tp n h' in
      (
        stake_accounts-IsSolvent rt ids k c s mt m p pt st sh tp n h' outsider own solvent,
        λ q m' gone.
            let kept =
              promised-set rt ids k c.shares sh.key w.share (w.share.balance + n) q m' w.share_at in
            ground
              (arith, w.written, kept, gone, none_else q m', own w.share w.share_at, w.pool_at),
      )
  stake-IsSound c _ d h own sound = ground arith

  unstake-IsSound :
      (c : Chain X) {c' : Chain X} {ev : UnstakeEvent} (l : List AccountInfo) (d : List ℕ)
      → process_unstake rt ids c l d ≡ ok (c', ev)
      → IsSound k c
      → IsSound k c'
  unfolding process_unstake unstake_accounts
  unstake-IsSound c (s ∷ b ∷ bt ∷ mt ∷ m ∷ p ∷ pt ∷ r ∷ sh ∷ st ∷ tp ∷ bp ∷ []) d h
        (solvent, none_else) =
      let (bytes, e, h') = >>=-eq-ok (parsed (read_amount d)) _ h in
      let n = from_le_bytes bytes in
      let u = unstake_accounts-Unstakes rt ids c s b bt mt m p pt r sh st tp bp n h' in
      (
        unstake_accounts-IsSolvent rt ids k c s b bt mt m p pt r sh st tp bp n h' solvent,
        λ q m' gone.
            let kept =
              promised-set rt ids k c.shares sh.key u.share (u.share.balance - n) q m' u.share_at in
            ground (arith, u.pays.written, kept, gone, none_else q m'),
      )
  unstake-IsSound c _ d h sound = ground arith

  run_instruction-IsSound :
      (ix : PoolInstruction) (c : Chain X) {c' : Chain X} (l : List AccountInfo) (d : List ℕ)
      → run_instruction rt ids ix c l d ≡ ok c'
      → IsOwnDeposit c ix l
      → IsSound k c
      → IsSound k c'
  unfolding run_instruction
  run_instruction-IsSound PoolInstruction.stake c l d h own sound = stake-IsSound c l d h own sound
  run_instruction-IsSound PoolInstruction.unstake c {c'} l d h own sound =
      let ((c₁, e), h₁, h₂) = >>=-eq-ok (process_unstake rt ids c l d) _ h in
      subst (IsSound k) (ok-injective h₂) (unstake-IsSound c l d h₁ sound)
  run_instruction-IsSound ix c {c'} l d h own sound =
      Quiet-IsSound c c' (run_instruction-Quiet rt ids k ix c l d (cc) (cc) h) sound

-- The histories of instructions that succeed in which every deposit is signed by no pool and goes
-- to a share account of the pool that it names.
pub data History {X : Type 0} (rt : Runtime X) (ids : Addresses) (start : Chain X)
    : Chain X → Type 0 where
  here : History rt ids start start
  next :
      {c c' : Chain X}
      → History rt ids start c
      → (ix : PoolInstruction) (l : List AccountInfo) (d : List ℕ)
      → run_instruction rt ids ix c l d ≡ ok c'
      → IsOwnDeposit c ix l
      → History rt ids start c'

-- Whatever instructions run, in any order: every pool keeps at least the tokens that its share
-- accounts promise, and none are promised in the name of an account that is no pool, if this was
-- so at the start, the programs called keep custody, and every deposit is signed by no pool and goes
-- to a share account of the pool that it names.
pub History-IsSound :
    {X : Type 0} (rt : Runtime X) (ids : Addresses) (k : Custody rt) (start : Chain X) {c : Chain X}
    → IsSound k start
    → History rt ids start c
    → IsSound k c
History-IsSound rt ids k start sound here = sound
History-IsSound rt ids k start sound (next {c} {c'} past ix l d h own) =
    run_instruction-IsSound rt ids k ix c l d h own (History-IsSound rt ids k start sound past)
