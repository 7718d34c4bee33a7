-- ===== src/Program/Stakes/Custody.antt =====
-- What the deposits and withdrawals rely on of the token and boost programs.
use ore_pool.Prelude.{
  ℕ, ◌+◌, ◌≤◌, ◌≡◌, ◌≢◌, Bool, true, false, List, some, ◌&&◌, ◌==◌, if◌then◌else◌,
}
use ore_pool.Prelude.Store.{total, get}
use ore_pool.Api.State.{Pubkey, Pool, Share, Seed}
use ore_pool.Program.Runtime.{AccountInfo, Runtime, Chain, Instruction, TokenAccount}

abbrev pub is_transfer : Instruction → Bool
is_transfer (Instruction.token_transfer a source target n) = true
is_transfer _ = false

-- `holdings x p m` are the tokens of mint `m` that are kept for pool `p`, those pending in its
-- token account and those staked with the boost. A transfer moves them only out of an account of
-- the authority that signs and into the account named; moving stake between the pool's token
-- account and the boost keeps them, and no other call takes any.
pub record Custody {X : Type 0} (rt : Runtime X) : Type 0 where
  pub holdings : X → Pubkey → Pubkey → ℕ
  pub keeps :
      (ix : Instruction) (infos : List AccountInfo) (seeds : List Seed) (x x' : X) (p m : Pubkey)
      → is_transfer ix ≡ false
      → rt.invoke ix infos seeds x ≡ some x'
      → holdings x p m ≤ holdings x' p m
  pub transfer_in :
      (info : AccountInfo) (infos : List AccountInfo) (seeds : List Seed) (x₀ x x' : X)
      (p m a source : Pubkey) (n : ℕ) (t : TokenAccount)
      → rt.to_associated_token_account x₀ info p m ≡ some t
      → a ≢ p
      → rt.invoke (Instruction.token_transfer a source info.key n) infos seeds x ≡ some x'
      → holdings x' p m ≡ holdings x p m + n
  pub transfer_elsewhere :
      (info : AccountInfo) (infos : List AccountInfo) (seeds : List Seed) (x₀ x x' : X)
      (p m q m' a source : Pubkey) (n : ℕ) (t : TokenAccount)
      → rt.to_associated_token_account x₀ info p m ≡ some t
      → a ≢ q
      → (q == p && m' == m) ≡ false
      → rt.invoke (Instruction.token_transfer a source info.key n) infos seeds x ≡ some x'
      → holdings x' q m' ≡ holdings x q m'
  pub transfer_out :
      (info : AccountInfo) (infos : List AccountInfo) (seeds : List Seed) (x₀ x x' : X)
      (p m q m' target : Pubkey) (n : ℕ) (t : TokenAccount)
      → rt.to_associated_token_account x₀ info p m ≡ some t
      → rt.invoke (Instruction.token_transfer p info.key target n) infos seeds x ≡ some x'
      → holdings x q m' ≤ holdings x' q m' + (if q == p && m' == m then n else 0)

-- The stake that the share accounts of a pool promise in one mint.
abbrev pub weight : Pubkey → Pubkey → Share → ℕ
weight p m s = if p == s.pool && m == s.mint then s.balance else 0

abbrev pub promised : {X : Type 0} → Chain X → Pubkey → Pubkey → ℕ
promised c p m = total (weight p m) c.shares

-- Every pool keeps at least the tokens that its share accounts promise.
abbrev pub IsSolvent : {X : Type 0} {rt : Runtime X} → Custody rt → Chain X → Type 0
IsSolvent k c =
    (p m : Pubkey) (pool : Pool)
    → get p c.pools ≡ some pool
    → promised c p m ≤ k.holdings c.outside p m
