-- ===== src/Program/Stakes/Quiet.antt =====
-- The instructions other than the two of stakes leave what the share accounts promise as it is.
use ore_pool.Prelude.{ℕ, ◌+◌, ◌≤◌, ◌≡◌, ◌≢◌, refl, ok, List, [], ◌∷◌, none, arith, >>=-eq-ok}
use ore_pool.Prelude.Words.{from_le_bytes}
use ore_pool.Prelude.Store.{get, put, get-put, total-put_new}
use ore_pool.Api.State.{Addresses, Pubkey, Share}
use ore_pool.Api.Instruction.{
  PoolInstruction, read_amount, read_claim, read_bump, read_launch, read_submit,
}
use ore_pool.Program.Runtime.{AccountInfo, Runtime, Chain, parsed}
use ore_pool.Program.User.{
  open_share_accounts, process_attribute, process_claim, process_join, process_open_share,
}
use ore_pool.Program.User.Joins.{join_accounts-Joins}
use ore_pool.Program.Admin.{process_launch, process_submit}
use ore_pool.Program.Admin.Inversion.{
  launched, submitted, launch_accounts-Launches, submit_accounts-Submits,
}
use ore_pool.Program.Dispatch.{run_instruction}
use ore_pool.Program.Frames.{
  process_attribute-frame, process_claim-frame, process_join-frame, process_launch-frame,
  process_open_stake-frame, process_commit-frame, process_open_share-frame,
}
use ore_pool.Program.Stakes.Custody.{Custody, weight, promised}
use ore_pool.Program.Stakes.Drift.{
  attribute_accounts-drift, claim_accounts-drift, join_accounts-drift, open_share_accounts-drift,
  launch_accounts-drift, submit_accounts-drift, process_commit-drift, process_open_stake-drift,
}

-- The same promises, no pool gone, and no tokens gone that are kept for one.
pub record Quiet {X : Type 0} {rt : Runtime X} (k : Custody rt) (c c' : Chain X) : Type 0 where
  pub promises : (p m : Pubkey) → promised c' p m ≡ promised c p m
  pub stay : (p : Pubkey) → get p c'.pools ≡ none → get p c.pools ≡ none
  pub drift : (p m : Pubkey) → k.holdings c.outside p m ≤ k.holdings c'.outside p m

module _ {X : Type 0} (rt : Runtime X) (ids : Addresses) (k : Custody rt) where
  join-Quiet :
      (c : Chain X) {c' : Chain X} (l : List AccountInfo) (d : List ℕ)
      → process_join rt ids c l d ≡ ok c'
      → Quiet k c c'
  unfolding process_join
  join-Quiet c (s ∷ a ∷ m ∷ p ∷ sp ∷ []) d h =
      let (bump, e, h') = >>=-eq-ok (parsed (read_bump d)) _ h in
      let r = join_accounts-Joins rt ids c s a m p sp bump h' in
      record {
        promises = λ q n. ground (arith, process_join-frame rt ids c (s ∷ a ∷ m ∷ p ∷ sp ∷ []) d h);
        stay = λ q gone. ground (
          arith,
          gone,
          r.pools_written,
          get-put q p.key (record (r.pool) { total_members = r.pool.total_members + 1 }) c.pools,
        );
        drift = λ q n. join_accounts-drift rt ids k q n c (s ∷ a ∷ m ∷ p ∷ sp ∷ []) bump h';
      }
  join-Quiet c _ d h = ground arith

  open_share-Quiet :
      (c : Chain X) {c' : Chain X} (l : List AccountInfo) (d : List ℕ)
      → process_open_share rt ids c l d ≡ ok c'
      → Quiet k c c'
  unfolding process_open_share open_share_accounts
  open_share-Quiet c {c'} (s ∷ b ∷ mt ∷ p ∷ sh ∷ st ∷ sp ∷ []) d h =
      let (bump, e, h') = >>=-eq-ok (parsed (read_bump d)) _ h in
      let share : Share = record { authority = s.key; balance = 0; mint = mt.key; pool = p.key } in
      let vacant : get sh.key c.shares ≡ none = ground (arith, h') in
      let written : c'.shares ≡ put sh.key share c.shares = ground (arith, h') in
      record {
        promises =
            λ q n. ground (arith, written, total-put_new (weight q n) sh.key share c.shares vacant);
        stay = λ q gone. ground (
          arith,
          gone,
          process_open_share-frame rt ids c (s ∷ b ∷ mt ∷ p ∷ sh ∷ st ∷ sp ∷ []) d h,
        );
        drift = λ q n.
            open_share_accounts-drift rt ids k q n c (s ∷ b ∷ mt ∷ p ∷ sh ∷ st ∷ sp ∷ []) bump h';
      }
  open_share-Quiet c _ d h = ground arith

  launch-Quiet :
      (c : Chain X) {c' : Chain X} (l : List AccountInfo) (d : List ℕ)
      → process_launch rt ids c l d ≡ ok c'
      → Quiet k c c'
  unfolding process_launch
  launch-Quiet c (s ∷ mi ∷ p ∷ pr ∷ op ∷ tp ∷ ap ∷ sp ∷ sl ∷ []) d h =
      let (args, e, h') = >>=-eq-ok (parsed (read_launch d)) _ h in
      let r = launch_accounts-Launches rt ids c s mi p pr op tp ap sp sl args h' in
      record {
        promises = λ q n. ground (
          arith,
          process_launch-frame rt ids c (s ∷ mi ∷ p ∷ pr ∷ op ∷ tp ∷ ap ∷ sp ∷ sl ∷ []) d h,
        );
        stay = λ q gone.
            ground (arith, gone, r.written, get-put q p.key (launched s.key args r.proof) c.pools);
        drift = λ q n.
            launch_accounts-drift rt ids k q n c (s ∷ mi ∷ p ∷ pr ∷ op ∷ tp ∷ ap ∷ sp ∷ sl ∷ [])
              args h';
      }
  launch-Quiet c _ d h = ground arith

  submit-Quiet :
      (c : Chain X) {c' : Chain X} (l : List AccountInfo) (d : List ℕ)
      → process_submit rt ids c l d ≡ ok c'
      → Quiet k c c'
  unfolding process_submit
  submit-Quiet c (s ∷ b ∷ co ∷ p ∷ pr ∷ op ∷ sp ∷ is ∷ sl ∷ rest) d h =
      let (args, e, h') = >>=-eq-ok (parsed (read_submit d)) _ h in
      let r = submit_accounts-Submits rt ids c s b co p pr op sp is sl rest args h' in
      record {
        promises = λ q n. ground (arith, r.written);
        stay = λ q gone. ground (
          arith,
          gone,
          r.written,
          get-put q p.key (submitted r.pool args r.before (rt.proof_memory r.mined pr)) c.pools,
        );
        drift = λ q n.
            submit_accounts-drift rt ids k q n c (s ∷ b ∷ co ∷ p ∷ pr ∷ op ∷ sp ∷ is ∷ sl ∷ rest)
              args h';
      }
  submit-Quiet c _ d h = ground arith

  same-Quiet :
      (c c' : Chain X)
      → c'.pools ≡ c.pools
      → c'.shares ≡ c.shares
      → ((p m : Pubkey) → k.holdings c.outside p m ≤ k.holdings c'.outside p m)
      → Quiet k c c'
  same-Quiet c c' e e' drift = record {
    promises = λ q n. ground (arith, e');
    stay = λ q gone. ground (arith, gone, e);
    drift = drift;
  }

  pub run_instruction-Quiet :
      (ix : PoolInstruction) (c : Chain X) {c' : Chain X} (l : List AccountInfo) (d : List ℕ)
      → ix ≢ PoolInstruction.stake
      → ix ≢ PoolInstruction.unstake
      → run_instruction rt ids ix c l d ≡ ok c'
      → Quiet k c c'
  unfolding run_instruction process_attribute process_claim
  run_instruction-Quiet PoolInstruction.join c l d no_stake no_unstake h = join-Quiet c l d h
  run_instruction-Quiet PoolInstruction.claim c {c'} l d no_stake no_unstake h =
      let (args, e, h') = >>=-eq-ok (parsed (read_claim d)) _ h in
      let (same, same') = process_claim-frame rt ids c l d h in
      same-Quiet c c' same same' (λ q n. claim_accounts-drift rt ids k q n c l args h')
  run_instruction-Quiet PoolInstruction.open_share c l d no_stake no_unstake h =
      open_share-Quiet c l d h
  run_instruction-Quiet PoolInstruction.stake c l d no_stake no_unstake h = absurd (no_stake refl)
  run_instruction-Quiet PoolInstruction.unstake c l d no_stake no_unstake h =
      absurd (no_unstake refl)
  run_instruction-Quiet PoolInstruction.attribute c {c'} l d no_stake no_unstake h =
      let (bytes, e, h') = >>=-eq-ok (parsed (read_amount d)) _ h in
      let (same, same') = process_attribute-frame rt ids c l d h in
      same-Quiet c c' same same'
        (λ q n. attribute_accounts-drift rt ids k q n c l (from_le_bytes bytes) h')
  run_instruction-Quiet PoolInstruction.commit c {c'} l d no_stake no_unstake h =
      let (_, same, same') = process_commit-frame rt ids c l d h in
      same-Quiet c c' same same' (λ q n. process_commit-drift rt ids k q n c l d h)
  run_instruction-Quiet PoolInstruction.launch c l d no_stake no_unstake h = launch-Quiet c l d h
  run_instruction-Quiet PoolInstruction.open_stake c {c'} l d no_stake no_unstake h =
      let (_, same, same') = process_open_stake-frame rt ids c l d h in
      same-Quiet c c' same same' (λ q n. process_open_stake-drift rt ids k q n c l d h)
  run_instruction-Quiet PoolInstruction.submit c l d no_stake no_unstake h = submit-Quiet c l d h
