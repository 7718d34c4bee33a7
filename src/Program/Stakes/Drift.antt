-- ===== src/Program/Stakes/Drift.antt =====
-- The handlers other than the two of stakes take no tokens from what is kept for any pool.
use ore_pool.Prelude.{
  ℕ, ◌≤◌, ◌≡◌, refl, ok, List, [], ◌∷◌, arith, Option-cases, Bool-cases, inl, inr, map,
}
use ore_pool.Prelude.Words.{from_le_bytes}
use ore_pool.Prelude.Store.{get}
use ore_pool.Api.State.{Addresses, Pubkey, bytes, key, member_seed, pool_seed, share_seed}
use ore_pool.Api.Instruction.{ClaimArgs, LaunchArgs, SubmitArgs}
use ore_pool.Program.Runtime.{AccountInfo, Runtime, Chain, Instruction, bump_seed, is_empty}
use ore_pool.Program.User.{attribute_accounts, claim_accounts, join_accounts, open_share_accounts}
use ore_pool.Program.Admin.{launch_accounts, submit_accounts, process_open_stake, process_commit}
use ore_pool.Program.Stakes.Custody.{Custody}

module _ {X : Type 0} (rt : Runtime X) (ids : Addresses) (k : Custody rt) (q m' : Pubkey) where
  pub claim_accounts-drift :
      (c : Chain X) {c' : Chain X} (l : List AccountInfo) (args : ClaimArgs)
      → claim_accounts rt ids c l args ≡ ok c'
      → k.holdings c.outside q m' ≤ k.holdings c'.outside q m'
  unfolding claim_accounts
  claim_accounts-drift c {c'} (s ∷ b ∷ m ∷ p ∷ pr ∷ t ∷ tt' ∷ op ∷ tp ∷ []) args h =
      elim (Option-cases (get p.key c.pools)) [
        | inl e ↦ absurd (ground (arith, e, h))
        | inr (pool, e) ↦ ground (
          arith,
          e,
          h,
          k.keeps (Instruction.ore_claim p.key b.key (from_le_bytes args.amount))
              (p ∷ b ∷ pr ∷ t ∷ tt' ∷ tp ∷ [])
              (pool_seed ∷ key pool.authority ∷ bytes args.pool_bump ∷ []) c.outside c'.outside q m'
              refl,
        )
      ]
  claim_accounts-drift c _ args h = cc

  pub join_accounts-drift :
      (c : Chain X) {c' : Chain X} (l : List AccountInfo) (bump : List ℕ)
      → join_accounts rt ids c l bump ≡ ok c'
      → k.holdings c.outside q m' ≤ k.holdings c'.outside q m'
  unfolding join_accounts
  join_accounts-drift c {c'} (s ∷ a ∷ m ∷ p ∷ sp ∷ []) bump h =
      let seeds = member_seed ∷ key a.key ∷ key p.key ∷ bytes bump ∷ [] in
      ground (
        arith,
        h,
        k.keeps (Instruction.create_account m.key seeds s.key) (m ∷ sp ∷ s ∷ []) seeds c.outside
            c'.outside q m' refl,
      )
  join_accounts-drift c _ bump h = cc

  pub open_share_accounts-drift :
      (c : Chain X) {c' : Chain X} (l : List AccountInfo) (bump : List ℕ)
      → open_share_accounts rt ids c l bump ≡ ok c'
      → k.holdings c.outside q m' ≤ k.holdings c'.outside q m'
  unfolding open_share_accounts
  open_share_accounts-drift c {c'} (s ∷ b ∷ mt ∷ p ∷ sh ∷ st ∷ sp ∷ []) bump h =
      let seeds = share_seed ∷ key s.key ∷ key p.key ∷ key mt.key ∷ bytes bump ∷ [] in
      ground (
        arith,
        h,
        k.keeps (Instruction.create_account sh.key seeds s.key) (sh ∷ sp ∷ s ∷ []) seeds c.outside
            c'.outside q m' refl,
      )
  open_share_accounts-drift c _ bump h = cc

  pub launch_accounts-drift :
      (c : Chain X) {c' : Chain X} (l : List AccountInfo) (args : LaunchArgs)
      → launch_accounts rt ids c l args ≡ ok c'
      → k.holdings c.outside q m' ≤ k.holdings c'.outside q m'
  unfolding launch_accounts
  launch_accounts-drift c {c'} (s ∷ mi ∷ p ∷ pr ∷ op ∷ tp ∷ ap ∷ sp ∷ sl ∷ []) args h =
      let seeds = pool_seed ∷ key s.key ∷ bytes args.pool_bump ∷ [] in
      let open_ix = Instruction.ore_open p.key mi.key s.key in
      let infos = p ∷ mi ∷ s ∷ pr ∷ sp ∷ sl ∷ [] in
      elim (Option-cases (rt.invoke open_ix infos seeds c.outside)) [
        | inl e ↦ absurd (ground (arith, e, h))
        | inr (x, e) ↦ ground (
          arith,
          e,
          h,
          k.keeps open_ix infos seeds c.outside x q m' refl e,
          k.keeps (Instruction.create_account p.key seeds s.key) (p ∷ sp ∷ s ∷ []) seeds x
              c'.outside q m' refl,
        )
      ]
  launch_accounts-drift c _ args h = cc

  pub submit_accounts-drift :
      (c : Chain X) {c' : Chain X} (l : List AccountInfo) (args : SubmitArgs)
      → submit_accounts rt ids c l args ≡ ok c'
      → k.holdings c.outside q m' ≤ k.holdings c'.outside q m'
  unfolding submit_accounts
  submit_accounts-drift c {c'} (s ∷ b ∷ co ∷ p ∷ pr ∷ op ∷ sp ∷ is ∷ sl ∷ rest) args h = ground (
    arith,
    h,
    k.keeps
        (Instruction.ore_mine s.key p.key b.key args.digest args.nonce
          (map (λ (a : AccountInfo). a.key) rest))
        (s ∷ b ∷ co ∷ pr ∷ is ∷ sl ∷ rest) [] c.outside c'.outside q m' refl,
  )
  submit_accounts-drift c _ args h = cc

  pub process_commit-drift :
      (c : Chain X) {c' : Chain X} (l : List AccountInfo) (d : List ℕ)
      → process_commit rt ids c l d ≡ ok c'
      → k.holdings c.outside q m' ≤ k.holdings c'.outside q m'
  unfolding process_commit
  process_commit-drift c {c'} (s ∷ b ∷ bt ∷ mt ∷ p ∷ pt ∷ st ∷ tp ∷ bp ∷ []) d h =
      elim (Option-cases (get p.key c.pools)) [
        | inl e ↦ absurd (ground (arith, e, h))
        | inr (pool, e) ↦
            elim (Option-cases (rt.to_associated_token_account c.outside pt p.key mt.key)) [
              | inl e' ↦ absurd (ground (arith, e, e', h))
              | inr (t, e') ↦ ground (
                arith,
                e,
                e',
                h,
                k.keeps (Instruction.boost_deposit p.key mt.key t.amount)
                    (p ∷ b ∷ bt ∷ mt ∷ pt ∷ st ∷ tp ∷ [])
                    (pool_seed ∷ key s.key ∷ bump_seed pool.bump ∷ []) c.outside c'.outside q m'
                    refl,
              )
            ]
      ]
  process_commit-drift c _ d h = cc

  pub process_open_stake-drift :
      (c : Chain X) {c' : Chain X} (l : List AccountInfo) (d : List ℕ)
      → process_open_stake rt ids c l d ≡ ok c'
      → k.holdings c.outside q m' ≤ k.holdings c'.outside q m'
  unfolding process_open_stake
  process_open_stake-drift c {c'} (s ∷ b ∷ mt ∷ p ∷ pt ∷ st ∷ sp ∷ tp ∷ ap ∷ bp ∷ []) d h =
      elim (Option-cases (get p.key c.pools)) [
        | inl e ↦ absurd (ground (arith, e, h))
        | inr (pool, e) ↦
            let open_ix = Instruction.boost_open p.key s.key mt.key in
            let infos = p ∷ s ∷ b ∷ mt ∷ st ∷ sp ∷ [] in
            let seeds = pool_seed ∷ key s.key ∷ bump_seed pool.bump ∷ [] in
            elim (Option-cases (rt.invoke open_ix infos seeds c.outside)) [
              | inl e' ↦ absurd (ground (arith, e, e', h))
              | inr (x, e') ↦
                  let one = k.keeps open_ix infos seeds c.outside x q m' refl e' in
                  let two =
                    k.keeps (Instruction.create_associated_token_account s.key p.key pt.key mt.key)
                      (s ∷ p ∷ pt ∷ mt ∷ sp ∷ tp ∷ ap ∷ []) [] x c'.outside q m' refl in
                  elim (Bool-cases (is_empty rt (record c { outside = x }) pt)) [
                    | inl empty ↦ ground (arith, e, e', h, one, two, empty)
                    | inr there ↦ ground (arith, e, e', h, one, there)
                  ]
            ]
      ]
  process_open_stake-drift c _ d h = cc

  pub attribute_accounts-drift :
      (c : Chain X) {c' : Chain X} (l : List AccountInfo) (n : ℕ)
      → attribute_accounts rt ids c l n ≡ ok c'
      → k.holdings c.outside q m' ≤ k.holdings c'.outside q m'
  unfolding attribute_accounts
  attribute_accounts-drift c (s ∷ p ∷ m ∷ []) n h = ground arith
  attribute_accounts-drift c _ n h = cc
