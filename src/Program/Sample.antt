-- ===== src/Program/Sample.antt =====
-- A chain of two pools: pool 1, operated by 9, with member 20 and share 30 of user 5 and its token
-- account 7 of mint 2; and pool 3 with share 31. Outside there are two numbers of tokens: those
-- kept for pool 1, and those in token account 41 of the boost 40.
use ore_pool.Prelude.{
  ℕ, ◌+◌, ◌-◌, ◌≤◌, ◌≡◌, [], ◌∷◌, Option, none, some, true, false, ◌&&◌, ◌==◌, leb, arith,
  if◌then◌else◌,
}
use ore_pool.Prelude.Int.{pos}
use ore_pool.Api.State.{Pubkey, Pool, Member, Share}
use ore_pool.Program.Runtime.{AccountInfo, Runtime, Chain, Instruction}
use ore_pool.Program.Stakes.Custody.{Custody, is_transfer}

-- A transfer takes from one of the two, or from elsewhere, and adds to the account it names.
abbrev pub transfer : (authority target amount : ℕ) → ℕ × ℕ → Option (ℕ × ℕ)
transfer a target n (x, y) =
    let arrive = if target == 7 then n else 0 in
    let arrive' = if target == 41 then n else 0 in
    if a == 1
    then (if leb n x then some (x - n + arrive, y + arrive') else none)
    else if a == 40
    then (if leb n y then some (x + arrive, y - n + arrive') else none)
    else some (x + arrive, y + arrive')

abbrev pub sample_invoke : Instruction → ℕ × ℕ → Option (ℕ × ℕ)
sample_invoke (Instruction.token_transfer a source target n) x = transfer a target n x
sample_invoke (Instruction.ore_mine s a b d n o) x = some (x.0 + 5, x.1)
sample_invoke _ x = some x

abbrev pub rt : Runtime (ℕ × ℕ)
rt = record {
  is_signer = λ i. i.is_signer;
  is_writable = λ i. i.is_writable;
  is_program = λ i p. i.key == p;
  is_sysvar = λ i p. i.key == p;
  has_seeds = λ i seeds bump p. true;
  is_mutable = λ i. i.is_writable;
  is_vacant = λ x i. true;
  to_mint = λ x i. true;
  to_token_account = λ x i. some (record { mint = 2; owner = 5; amount = 1000 });
  to_associated_token_account = λ x i p m.
      if i.key == 7 && p == 1 && m == 2
      then some (record { mint = 2; owner = 1; amount = 40 })
      else if i.key == 41 && p == 40 && m == 2
      then some (record { mint = 2; owner = 40; amount = 90 })
      else none;
  to_boost = λ x i. some (record { mint = 2 });
  to_stake = λ x i. some (record { authority = 1; boost = 40 });
  to_proof = λ x i. some (record { authority = 1; balance = x.0; last_hash_at = pos x.0 });
  proof_memory = λ x i. record { authority = 1; balance = x.0; last_hash_at = pos x.0 };
  invoke = λ ix infos seeds x. sample_invoke ix x;
}

pub kept :
    (ix : Instruction) (x x' : ℕ × ℕ)
    → is_transfer ix ≡ false
    → sample_invoke ix x ≡ some x'
    → (x.0 ≤ x'.0) × (x.1 ≤ x'.1)
kept (Instruction.ore_open a b c) x x' flat h = ground arith
kept (Instruction.ore_claim a b n) x x' flat h = ground arith
kept (Instruction.ore_mine a b c d n o) x x' flat h = ground arith
kept (Instruction.boost_open a b c) x x' flat h = ground arith
kept (Instruction.boost_deposit a b n) x x' flat h = ground arith
kept (Instruction.boost_withdraw a b n) x x' flat h = ground arith
kept (Instruction.token_transfer a b c n) x x' flat h = ground arith
kept (Instruction.create_associated_token_account a b c d) x x' flat h = ground arith
kept (Instruction.create_account a b c) x x' flat h = ground arith

unfoldable pub custody : Custody rt
custody = record {
  holdings = λ x p m. if p == 1 && m == 2 then x.0 else if p == 40 && m == 2 then x.1 else 0;
  keeps = λ ix infos seeds x x' p m flat h. ground (arith, kept ix x x' flat h);
  transfer_in = λ info infos seeds x₀ x x' p m a source n t at apart h. ground arith;
  transfer_elsewhere =
      λ info infos seeds x₀ x x' p m q m' a source n t at apart other h. ground arith;
  transfer_out = λ info infos seeds x₀ x x' p m q m' target n t at h. ground arith;
}

abbrev pub at : ℕ → AccountInfo
at k = record { key = k; is_signer = true; is_writable = true }

abbrev pub pool_of : Pubkey → Pool
pool_of authority = record {
  authority = authority;
  bump = 255;
  url = [];
  attestation = [];
  last_hash_at = pos 0;
  reward = 0;
  total_submissions = 0;
  total_members = 1;
  last_total_members = 0;
}

abbrev pub member : Member
member = record { id = 0; pool = 1; authority = 5; balance = 4; total_balance = 4 }

abbrev pub share_of : ℕ → Pubkey → Share
share_of n p = record { authority = 5; balance = n; mint = 2; pool = p }

abbrev pub chain : Chain (ℕ × ℕ)
chain = record {
  pools = (1, pool_of 9) ∷ (3, pool_of 8) ∷ [];
  members = (20, member) ∷ [];
  shares = (30, share_of 50 1) ∷ (31, share_of 0 3) ∷ [];
  outside = (60, 90);
}
