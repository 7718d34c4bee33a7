-- ===== src/Program/Stakes/Inversion.antt =====
-- What held, and what was written, when a deposit or a withdrawal succeeded.
use ore_pool.Prelude.{
  ℕ, ◌+◌, ◌-◌, ◌≤◌, ◌<◌, ◌≡◌, refl, ok, List, [], ◌∷◌, some, true, arith, Option-cases, Bool-cases,
  leb, inl, inr,
}
use ore_pool.Prelude.Words.{u64_mod}
use ore_pool.Prelude.Store.{get}
use ore_pool.Api.State.{Addresses, Pool, Share, Seed, key, pool_seed}
use ore_pool.Program.Runtime.{
  AccountInfo, Runtime, Chain, set_share, TokenAccount, Instruction, bump_seed,
}
use ore_pool.Program.Stakes.{stake_accounts, unstake_accounts, UnstakeEvent, pay_out}

pub record Stakes {X : Type 0} (rt : Runtime X) (c c' : Chain X)
    (signer_info mint_info pool_info pool_tokens_info sender_tokens_info share_info
      token_program : AccountInfo)
    (amount : ℕ) : Type 0 where
  pub share : Share
  pub pool : Pool
  pub pool_tokens : TokenAccount
  pub after : X
  pub pool_at : get pool_info.key c.pools ≡ some pool
  pub signed : rt.is_signer signer_info ≡ true
  pub tokens_at :
      rt.to_associated_token_account c.outside pool_tokens_info pool_info.key mint_info.key
      ≡ some pool_tokens
  pub share_at : get share_info.key c.shares ≡ some share
  pub own_share : share.authority ≡ signer_info.key
  pub same_mint : share.mint ≡ mint_info.key
  pub fits : share.balance + amount < u64_mod
  pub paid :
      rt.invoke
        (Instruction.token_transfer signer_info.key sender_tokens_info.key pool_tokens_info.key
          amount)
        (signer_info ∷ sender_tokens_info ∷ pool_tokens_info ∷ token_program ∷ [])
        []
        c.outside
      ≡ some after
  pub written :
      c' ≡ record (set_share c share_info (record share { balance = share.balance + amount })) {
        outside = after;
      }

module _ {X : Type 0} (rt : Runtime X) (ids : Addresses) where
  pub stake_accounts-Stakes :
      (c : Chain X) {c' : Chain X} (s mt m p pt st sh tp : AccountInfo) (n : ℕ)
      → stake_accounts rt ids c (s ∷ mt ∷ m ∷ p ∷ pt ∷ st ∷ sh ∷ tp ∷ []) n ≡ ok c'
      → Stakes rt c c' s mt p pt st sh tp n
  unfolding stake_accounts
  stake_accounts-Stakes c s mt m p pt st sh tp n h = elim (Option-cases (get sh.key c.shares)) [
    | inl e ↦ absurd (ground arith)
    | inr (share, e) ↦
        elim (Option-cases (rt.to_associated_token_account c.outside pt p.key mt.key)) [
          | inl e' ↦ absurd (ground arith)
          | inr (pool_tokens, e') ↦ elim (Option-cases (get p.key c.pools)) [
            | inl e₂ ↦ absurd (ground arith)
            | inr (pool, e₂) ↦
                elim (Option-cases (
                  rt.invoke (Instruction.token_transfer s.key st.key pt.key n)
                    (s ∷ st ∷ pt ∷ tp ∷ []) [] c.outside)) [
                      | inl e'' ↦ absurd (ground arith)
                      | inr (after, e'') ↦ record {
                        share = share;
                        pool = pool;
                        pool_at = e₂;
                        pool_tokens = pool_tokens;
                        after = after;
                        signed = ground arith;
                        tokens_at = e';
                        share_at = e;
                        own_share = ground arith;
                        same_mint = ground arith;
                        fits = ground arith;
                        paid = e'';
                        written = ground arith;
                      }
                    ]
          ]
        ]
  ]

-- What `pay_out` has done: the boost is asked first for what the pending tokens lack, and then the
-- whole amount leaves the pool's token account.
pub record PaysOut {X : Type 0} (rt : Runtime X) (c c' : Chain X)
    (mint_info pool_info pool_tokens_info recipient_tokens_info : AccountInfo) (pending amount : ℕ)
    : Type 0 where
  pub withdrawn : X
  pub after : X
  pub infos : List AccountInfo
  pub infos' : List AccountInfo
  pub seeds : List Seed
  pub short : amount ≤ pending → withdrawn ≡ c.outside
  pub long :
      pending < amount
      → rt.invoke
          (Instruction.boost_withdraw pool_info.key mint_info.key (amount - pending))
          infos
          seeds
          c.outside
        ≡ some withdrawn
  pub paid :
      rt.invoke
        (Instruction.token_transfer pool_info.key pool_tokens_info.key recipient_tokens_info.key
          amount)
        infos'
        seeds
        withdrawn
      ≡ some after
  pub written : c' ≡ record c { outside = after }

module _ {X : Type 0} (rt : Runtime X) (ids : Addresses) where
  pub pay_out-PaysOut :
      (c : Chain X) {c' : Chain X} (pool : Pool) (p pt r b bt mt st tp : AccountInfo)
      (pending n : ℕ)
      → pay_out rt ids c pool p pt r b bt mt st tp pending n ≡ ok c'
      → PaysOut rt c c' mt p pt r pending n
  unfolding pay_out
  pay_out-PaysOut c pool p pt r b bt mt st tp pending n h = elim (Bool-cases (leb n pending)) [
    | inl fits ↦ elim (Option-cases (rt.invoke transfer infos' seeds c.outside)) [
      | inl e ↦ absurd (ground arith)
      | inr (after, e) ↦ record {
        withdrawn = c.outside;
        after = after;
        infos = infos;
        infos' = infos';
        seeds = seeds;
        short = λ _. refl;
        long = λ lt. absurd (ground arith);
        paid = e;
        written = ground arith;
      }
    ]
    | inr over ↦ elim (Option-cases (rt.invoke withdraw infos seeds c.outside)) [
      | inl e ↦ absurd (ground arith)
      | inr (x, e) ↦ elim (Option-cases (rt.invoke transfer infos' seeds x)) [
        | inl e' ↦ absurd (ground arith)
        | inr (after, e') ↦ record {
          withdrawn = x;
          after = after;
          infos = infos;
          infos' = infos';
          seeds = seeds;
          short = λ le. absurd (ground arith);
          long = λ _. e;
          paid = e';
          written = ground arith;
        }
      ]
    ]
  ]
    where
      seeds : List Seed
      seeds = pool_seed ∷ key pool.authority ∷ bump_seed pool.bump ∷ []

      infos : List AccountInfo
      infos = p ∷ pt ∷ b ∷ bt ∷ mt ∷ st ∷ tp ∷ []

      infos' : List AccountInfo
      infos' = p ∷ pt ∷ r ∷ tp ∷ []

      transfer : Instruction
      transfer = Instruction.token_transfer p.key pt.key r.key n

      withdraw : Instruction
      withdraw = Instruction.boost_withdraw p.key mt.key (n - pending)

-- What held, and what was written, when a withdrawal succeeded.
pub record Unstakes {X : Type 0} (rt : Runtime X) (c c' : Chain X) (ev : UnstakeEvent)
    (signer_info mint_info pool_info pool_tokens_info recipient_tokens_info
      share_info : AccountInfo)
    (amount : ℕ) : Type 0 where
  pub share : Share
  pub pool_tokens : TokenAccount
  pub signed : rt.is_signer signer_info ≡ true
  pub tokens_at :
      rt.to_associated_token_account c.outside pool_tokens_info pool_info.key mint_info.key
      ≡ some pool_tokens
  pub share_at : get share_info.key c.shares ≡ some share
  pub own_share : share.authority ≡ signer_info.key
  pub same_pool : share.pool ≡ pool_info.key
  pub same_mint : share.mint ≡ mint_info.key
  pub covered : amount ≤ share.balance
  pub pays :
      PaysOut rt
        (set_share c share_info (record share { balance = share.balance - amount }))
        c'
        mint_info
        pool_info
        pool_tokens_info
        recipient_tokens_info
        pool_tokens.amount
        amount
  pub logged : ev ≡ record {
    authority = signer_info.key;
    share = share_info.key;
    mint = mint_info.key;
    balance = share.balance - amount;
  }

module _ {X : Type 0} (rt : Runtime X) (ids : Addresses) where
  -- A withdrawal that succeeds is signed by the owner of the share account, which is of the named
  -- pool and mint and covers the amount; exactly that amount leaves it and is transferred, what the
  -- pending tokens do not cover being withdrawn from the boost first; the event logs what is left.
  pub unstake_accounts-Unstakes :
      (c : Chain X) {c' : Chain X} {ev : UnstakeEvent}
      (s b bt mt m p pt r sh st tp bp : AccountInfo) (n : ℕ)
      → unstake_accounts rt ids c (s ∷ b ∷ bt ∷ mt ∷ m ∷ p ∷ pt ∷ r ∷ sh ∷ st ∷ tp ∷ bp ∷ []) n
        ≡ ok (c', ev)
      → Unstakes rt c c' ev s mt p pt r sh n
  unfolding unstake_accounts
  unstake_accounts-Unstakes c {c'} s b bt mt m p pt r sh st tp bp n h =
      elim (Option-cases (get sh.key c.shares)) [
        | inl e ↦ absurd (ground arith)
        | inr (share, e) ↦
            elim (Option-cases (rt.to_associated_token_account c.outside pt p.key mt.key)) [
              | inl e' ↦ absurd (ground arith)
              | inr (pool_tokens, e') ↦ elim (Option-cases (get p.key c.pools)) [
                | inl e₂ ↦ absurd (ground arith)
                | inr (pool, e₂) ↦ record {
                  share = share;
                  pool_tokens = pool_tokens;
                  signed = ground arith;
                  tokens_at = e';
                  share_at = e;
                  own_share = ground arith;
                  same_pool = ground arith;
                  same_mint = ground arith;
                  covered = ground arith;
                  pays =
                      pay_out-PaysOut rt ids
                        (set_share c sh (record share { balance = share.balance - n })) pool p pt r
                        b bt mt st tp pool_tokens.amount n (ground arith);
                  logged = ground arith;
                }
              ]
            ]
      ]
