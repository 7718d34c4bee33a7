-- ===== src/Program/Frames.antt =====
-- Which of the program's accounts a handler can change at all.
use ore_pool.Prelude.{>>=-eq-ok, ℕ, ◌≡◌, ok, List, [], ◌∷◌, arith}
use ore_pool.Api.State.{Addresses}
use ore_pool.Api.Instruction.{
  ClaimArgs, LaunchArgs, SubmitArgs, read_amount, read_bump, read_claim, read_launch, read_submit,
}
use ore_pool.Program.Runtime.{AccountInfo, Runtime, Chain, parsed}
use ore_pool.Program.User.{
  attribute_accounts, claim_accounts, join_accounts, open_share_accounts, process_attribute,
  process_claim, process_join, process_open_share,
}
use ore_pool.Program.Stakes.{
  stake_accounts, unstake_accounts, process_stake, process_unstake, UnstakeEvent, pay_out,
}
use ore_pool.Program.Admin.{
  launch_accounts, submit_accounts, process_launch, process_open_stake, process_commit,
  process_submit,
}

-- The three stores that stay.
abbrev pub SameMembers : {X : Type 0} → Chain X → Chain X → Type 0
SameMembers c c' = c'.members ≡ c.members

abbrev pub SamePools : {X : Type 0} → Chain X → Chain X → Type 0
SamePools c c' = c'.pools ≡ c.pools

abbrev pub SameShares : {X : Type 0} → Chain X → Chain X → Type 0
SameShares c c' = c'.shares ≡ c.shares

module _ {X : Type 0} (rt : Runtime X) (ids : Addresses) where
  attribute_accounts-frame :
      (c : Chain X) {c' : Chain X} (l : List AccountInfo) (v : ℕ)
      → attribute_accounts rt ids c l v ≡ ok c'
      → SamePools c c' × SameShares c c'
  unfolding attribute_accounts
  attribute_accounts-frame c (a0 ∷ a1 ∷ a2 ∷ []) v h = (ground arith, ground arith)
  attribute_accounts-frame c _ v h = cc

  pub process_attribute-frame :
      (c : Chain X) {c' : Chain X} (l : List AccountInfo) (d : List ℕ)
      → process_attribute rt ids c l d ≡ ok c'
      → SamePools c c' × SameShares c c'
  unfolding process_attribute
  process_attribute-frame c l d h =
      attribute_accounts-frame c l _ (>>=-eq-ok (parsed (read_amount d)) _ h).2

  claim_accounts-frame :
      (c : Chain X) {c' : Chain X} (l : List AccountInfo) (v : ClaimArgs)
      → claim_accounts rt ids c l v ≡ ok c'
      → SamePools c c' × SameShares c c'
  unfolding claim_accounts
  claim_accounts-frame c (a0 ∷ a1 ∷ a2 ∷ a3 ∷ a4 ∷ a5 ∷ a6 ∷ a7 ∷ a8 ∷ []) v h =
      (ground arith, ground arith)
  claim_accounts-frame c _ v h = cc

  pub process_claim-frame :
      (c : Chain X) {c' : Chain X} (l : List AccountInfo) (d : List ℕ)
      → process_claim rt ids c l d ≡ ok c'
      → SamePools c c' × SameShares c c'
  unfolding process_claim
  process_claim-frame c l d h = claim_accounts-frame c l _ (>>=-eq-ok (parsed (read_claim d)) _ h).2

  join_accounts-frame :
      (c : Chain X) {c' : Chain X} (l : List AccountInfo) (v : List ℕ)
      → join_accounts rt ids c l v ≡ ok c'
      → SameShares c c'
  unfolding join_accounts
  join_accounts-frame c (a0 ∷ a1 ∷ a2 ∷ a3 ∷ a4 ∷ []) v h = ground arith
  join_accounts-frame c _ v h = cc

  pub process_join-frame :
      (c : Chain X) {c' : Chain X} (l : List AccountInfo) (d : List ℕ)
      → process_join rt ids c l d ≡ ok c'
      → SameShares c c'
  unfolding process_join
  process_join-frame c l d h = join_accounts-frame c l _ (>>=-eq-ok (parsed (read_bump d)) _ h).2

  open_share_accounts-frame :
      (c : Chain X) {c' : Chain X} (l : List AccountInfo) (v : List ℕ)
      → open_share_accounts rt ids c l v ≡ ok c'
      → SameMembers c c' × SamePools c c'
  unfolding open_share_accounts
  open_share_accounts-frame c (a0 ∷ a1 ∷ a2 ∷ a3 ∷ a4 ∷ a5 ∷ a6 ∷ []) v h =
      (ground arith, ground arith)
  open_share_accounts-frame c _ v h = cc

  pub process_open_share-frame :
      (c : Chain X) {c' : Chain X} (l : List AccountInfo) (d : List ℕ)
      → process_open_share rt ids c l d ≡ ok c'
      → SameMembers c c' × SamePools c c'
  unfolding process_open_share
  process_open_share-frame c l d h =
      open_share_accounts-frame c l _ (>>=-eq-ok (parsed (read_bump d)) _ h).2

  stake_accounts-frame :
      (c : Chain X) {c' : Chain X} (l : List AccountInfo) (v : ℕ)
      → stake_accounts rt ids c l v ≡ ok c'
      → SameMembers c c' × SamePools c c'
  unfolding stake_accounts
  stake_accounts-frame c (a0 ∷ a1 ∷ a2 ∷ a3 ∷ a4 ∷ a5 ∷ a6 ∷ a7 ∷ []) v h =
      (ground arith, ground arith)
  stake_accounts-frame c _ v h = cc

  pub process_stake-frame :
      (c : Chain X) {c' : Chain X} (l : List AccountInfo) (d : List ℕ)
      → process_stake rt ids c l d ≡ ok c'
      → SameMembers c c' × SamePools c c'
  unfolding process_stake
  process_stake-frame c l d h =
      stake_accounts-frame c l _ (>>=-eq-ok (parsed (read_amount d)) _ h).2

  unstake_accounts-frame :
      (c : Chain X) {c' : Chain X} {e : UnstakeEvent} (l : List AccountInfo) (v : ℕ)
      → unstake_accounts rt ids c l v ≡ ok (c', e)
      → SameMembers c c' × SamePools c c'
  unfolding unstake_accounts pay_out
  unstake_accounts-frame c (a0 ∷ a1 ∷ a2 ∷ a3 ∷ a4 ∷ a5 ∷ a6 ∷ a7 ∷ a8 ∷ a9 ∷ a10 ∷ a11 ∷ []) v h =
      (ground arith, ground arith)
  unstake_accounts-frame c _ v h = cc

  pub process_unstake-frame :
      (c : Chain X) {c' : Chain X} {e : UnstakeEvent} (l : List AccountInfo) (d : List ℕ)
      → process_unstake rt ids c l d ≡ ok (c', e)
      → SameMembers c c' × SamePools c c'
  unfolding process_unstake
  process_unstake-frame c l d h =
      unstake_accounts-frame c l _ (>>=-eq-ok (parsed (read_amount d)) _ h).2

  launch_accounts-frame :
      (c : Chain X) {c' : Chain X} (l : List AccountInfo) (v : LaunchArgs)
      → launch_accounts rt ids c l v ≡ ok c'
      → SameMembers c c' × SameShares c c'
  unfolding launch_accounts
  launch_accounts-frame c (a0 ∷ a1 ∷ a2 ∷ a3 ∷ a4 ∷ a5 ∷ a6 ∷ a7 ∷ a8 ∷ []) v h =
      (ground arith, ground arith)
  launch_accounts-frame c _ v h = cc

  pub process_launch-frame :
      (c : Chain X) {c' : Chain X} (l : List AccountInfo) (d : List ℕ)
      → process_launch rt ids c l d ≡ ok c'
      → SameMembers c c' × SameShares c c'
  unfolding process_launch
  process_launch-frame c l d h =
      launch_accounts-frame c l _ (>>=-eq-ok (parsed (read_launch d)) _ h).2

  submit_accounts-frame :
      (c : Chain X) {c' : Chain X} (l : List AccountInfo) (v : SubmitArgs)
      → submit_accounts rt ids c l v ≡ ok c'
      → SameMembers c c' × SameShares c c'
  unfolding submit_accounts
  submit_accounts-frame c (a0 ∷ a1 ∷ a2 ∷ a3 ∷ a4 ∷ a5 ∷ a6 ∷ a7 ∷ a8 ∷ rest) v h =
      (ground arith, ground arith)
  submit_accounts-frame c _ v h = cc

  pub process_submit-frame :
      (c : Chain X) {c' : Chain X} (l : List AccountInfo) (d : List ℕ)
      → process_submit rt ids c l d ≡ ok c'
      → SameMembers c c' × SameShares c c'
  unfolding process_submit
  process_submit-frame c l d h =
      submit_accounts-frame c l _ (>>=-eq-ok (parsed (read_submit d)) _ h).2

  pub process_open_stake-frame :
      (c : Chain X) {c' : Chain X} (l : List AccountInfo) (d : List ℕ)
      → process_open_stake rt ids c l d ≡ ok c'
      → SameMembers c c' × SamePools c c' × SameShares c c'
  unfolding process_open_stake
  process_open_stake-frame c (a0 ∷ a1 ∷ a2 ∷ a3 ∷ a4 ∷ a5 ∷ a6 ∷ a7 ∷ a8 ∷ a9 ∷ []) d h =
      (ground arith, ground arith, ground arith)
  process_open_stake-frame c _ d h = cc

  pub process_commit-frame :
      (c : Chain X) {c' : Chain X} (l : List AccountInfo) (d : List ℕ)
      → process_commit rt ids c l d ≡ ok c'
      → SameMembers c c' × SamePools c c' × SameShares c c'
  unfolding process_commit
  process_commit-frame c (a0 ∷ a1 ∷ a2 ∷ a3 ∷ a4 ∷ a5 ∷ a6 ∷ a7 ∷ a8 ∷ []) d h =
      (ground arith, ground arith, ground arith)
  process_commit-frame c _ d h = cc
