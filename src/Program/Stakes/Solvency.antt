-- ===== src/Program/Stakes/Solvency.antt =====
-- Deposits and withdrawals against the tokens that are kept for a pool.
use ore_pool.Prelude.{
  ℕ, ◌+◌, ◌-◌, ◌≤◌, ◌<◌, ◌≡◌, ◌≢◌, refl, ok, [], ◌∷◌, none, some, arith, ◌==◌, ◌&&◌, if◌then◌else◌,
  Bool-cases, leb, inl, inr,
}
use ore_pool.Prelude.Store.{Store, get, put, total, total-put}
use ore_pool.Api.State.{Addresses, Pubkey, Pool, Share}
use ore_pool.Program.Runtime.{AccountInfo, Runtime, Chain}
use ore_pool.Program.Stakes.{stake_accounts, unstake_accounts, UnstakeEvent}
use ore_pool.Program.Stakes.Inversion.{stake_accounts-Stakes, unstake_accounts-Unstakes}
use ore_pool.Program.Stakes.Custody.{Custody, weight, promised, IsSolvent}

module _ {X : Type 0} (rt : Runtime X) (ids : Addresses) (k : Custody rt) where
  -- The promises of a pool after its share account's balance was set.
  pub promised-set :
      (shares : Store Share) (at : Pubkey) (share : Share) (b : ℕ) (p m : Pubkey)
      → get at shares ≡ some share
      → total (weight p m) (put at (record share { balance = b }) shares) + weight p m share
        ≡ total (weight p m) shares + (if p == share.pool && m == share.mint then b else 0)
  promised-set shares at share b p m e =
      ground (arith, total-put (weight p m) at (record share { balance = b }) share shares e)

  -- A deposit by a signer that is no pool, into the share account of the same pool, keeps every
  -- pool solvent, if the programs called keep custody.
  pub stake_accounts-IsSolvent :
      (c : Chain X) {c' : Chain X} (s mt m p pt st sh tp : AccountInfo) (n : ℕ)
      → stake_accounts rt ids c (s ∷ mt ∷ m ∷ p ∷ pt ∷ st ∷ sh ∷ tp ∷ []) n ≡ ok c'
      → get s.key c.pools ≡ none
      → ((share : Share) → get sh.key c.shares ≡ some share → share.pool ≡ p.key)
      → IsSolvent k c
      → IsSolvent k c'
  stake_accounts-IsSolvent c s mt m p pt st sh tp n h outsider own sound q m' pool at =
      let w = stake_accounts-Stakes rt ids c s mt m p pt st sh tp n h in
      let at' : get q c.pools ≡ some pool = ground (arith, w.written) in
      let apart : s.key ≢ p.key = λ e. ground (arith, e, w.pool_at, outsider) in
      let apart' : s.key ≢ q = λ e. ground (arith, e, at', outsider) in
      let kept = promised-set c.shares sh.key w.share (w.share.balance + n) q m' w.share_at in
      let before = sound q m' pool at' in
      let here =
        k.transfer_in pt (s ∷ st ∷ pt ∷ tp ∷ []) [] c.outside c.outside w.after p.key mt.key s.key
          st.key n w.pool_tokens w.tokens_at apart w.paid in
      let there =
        k.transfer_elsewhere pt (s ∷ st ∷ pt ∷ tp ∷ []) [] c.outside c.outside w.after p.key mt.key
          q m' s.key st.key n w.pool_tokens w.tokens_at apart' in
      rw w.written
        (ground (arith, kept, before, here, there, own w.share w.share_at, w.same_mint, w.paid))

  -- A withdrawal that succeeds keeps every pool solvent, if the programs called keep custody.
  pub unstake_accounts-IsSolvent :
      (c : Chain X) {c' : Chain X} {ev : UnstakeEvent}
      (s b bt mt m p pt r sh st tp bp : AccountInfo) (n : ℕ)
      → unstake_accounts rt ids c (s ∷ b ∷ bt ∷ mt ∷ m ∷ p ∷ pt ∷ r ∷ sh ∷ st ∷ tp ∷ bp ∷ []) n
        ≡ ok (c', ev)
      → IsSolvent k c
      → IsSolvent k c'
  unstake_accounts-IsSolvent c s b bt mt m p pt r sh st tp bp n h sound q m' pool at =
      let u = unstake_accounts-Unstakes rt ids c s b bt mt m p pt r sh st tp bp n h in
      let w = u.pays in
      let at' : get q c.pools ≡ some pool = ground (arith, w.written) in
      let kept = promised-set c.shares sh.key u.share (u.share.balance - n) q m' u.share_at in
      let before = sound q m' pool at' in
      let drawn : k.holdings c.outside q m' ≤ k.holdings w.withdrawn q m' =
        elim (Bool-cases (leb n u.pool_tokens.amount)) [
          | inl fits ↦ rw (w.short (ground arith)) (omega arith)
          | inr over ↦ k.keeps _ _ _ c.outside w.withdrawn q m' refl (w.long (ground arith))
        ] in
      let out =
        k.transfer_out pt _ _ c.outside w.withdrawn w.after p.key mt.key q m' r.key n u.pool_tokens
          u.tokens_at w.paid in
      rw w.written (ground (arith, kept, before, drawn, out, u.same_pool, u.same_mint, u.covered))

  -- A deposit into the share account of another pool raises what that pool promises and not what
  -- is kept for it: when a signer that is no pool makes one of more than nothing, a pool that kept
  -- just what it promised becomes insolvent.
  pub stake_accounts_foreign :
      (c : Chain X) {c' : Chain X} (s mt m p pt st sh tp : AccountInfo) (n : ℕ) (share : Share)
      (other : Pool)
      → stake_accounts rt ids c (s ∷ mt ∷ m ∷ p ∷ pt ∷ st ∷ sh ∷ tp ∷ []) n ≡ ok c'
      → get sh.key c.shares ≡ some share
      → share.pool ≢ p.key
      → get share.pool c.pools ≡ some other
      → get s.key c.pools ≡ none
      → 0 < n
      → promised c share.pool share.mint ≡ k.holdings c.outside share.pool share.mint
      → k.holdings c'.outside share.pool share.mint < promised c' share.pool share.mint
  stake_accounts_foreign c s mt m p pt st sh tp n share other h at ne known outsider some_tokens
        exact =
      let w = stake_accounts-Stakes rt ids c s mt m p pt st sh tp n h in
      let same : w.share ≡ share = ground (arith, w.share_at, at) in
      let apart : s.key ≢ share.pool = λ e. ground (arith, e, known, outsider) in
      let kept = promised-set c.shares sh.key share (share.balance + n) share.pool share.mint at in
      let there =
        k.transfer_elsewhere pt (s ∷ st ∷ pt ∷ tp ∷ []) [] c.outside c.outside w.after p.key mt.key
          share.pool share.mint s.key st.key n w.pool_tokens w.tokens_at apart in
      rw (w.written, same) (ground (arith, kept, there, exact, w.paid, ne, same))
