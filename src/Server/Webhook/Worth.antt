-- ===== src/Server/Webhook/Worth.antt =====
-- server/src/webhook.rs: what an event about a share account may change of the stakers' balances.
use ore_pool.Prelude.{
  ℕ, List, [], ◌∷◌, Option, none, some, Option-cases, ◌&&◌, ◌==◌, if◌then◌else◌, ◌≡◌, inl, inr,
  arith, min,
}
use ore_pool.Prelude.Store.{get, put, get-put}
use ore_pool.Api.State.{Pubkey, Addresses}
use ore_pool.Server.Aggregator.{StakerBalances, Stakers}
use ore_pool.Server.State.{ServerState, change, on_database, from_outside}
use ore_pool.Program.Stakes.{UnstakeEvent}
use ore_pool.Server.Webhook.{process_share_account_event, lowered}
use ore_pool.Server.Webhook.Client.{introduce, introduced, all_stakers, put_entry, ClientPutEntry}
use ore_pool.Server.Operator.{Operator, BoostAccount}
use ore_pool.Server.Operator.Reads.{get_stakers_db}
use ore_pool.Server.Rpc.{Rpc}
use ore_pool.Server.Io.{Io, Keeps, >>=-Keeps, same-Keeps}
use ore_pool.Server.Database.Stakers.{write_webhook_staker}

-- The balance that counts for a staker of a mint, if there is one.
unfoldable pub worth : Stakers → (mint authority : Pubkey) → Option ℕ
worth stake mint authority = elim (get mint stake) [
  | none ↦ none
  | some balances ↦ get authority balances
]

-- A balance that is known, and not above the bound.
abbrev pub at_most : ℕ → Option ℕ → Option ℕ
at_most bound none = none
at_most bound (some n) = some (min n bound)

get-lowered :
    (a authority balance : ℕ) (balances : StakerBalances)
    → get a (lowered authority balance balances)
      ≡ (if a == authority then at_most balance (get authority balances) else get a balances)
get-lowered a authority balance balances = elim (Option-cases (get authority balances)) [
  | inl e ↦ ground (arith, e)
  | inr (n, e) ↦ ground (arith, e, get-put a authority balance balances)
]

-- A balance, or zero.
abbrev pub or_zero : Option ℕ → Option ℕ
or_zero none = some 0
or_zero (some n) = some n

get-introduced :
    (a authority : ℕ) (balances : StakerBalances)
    → get a (introduced authority balances)
      ≡ (if a == authority then or_zero (get authority balances) else get a balances)
get-introduced a authority balances = elim (Option-cases (get authority balances)) [
  | inl e ↦ ground (arith, e, get-put a authority 0 balances)
  | inr (m, e) ↦ ground (arith, e)
]

worth-put :
    (mint a key : Pubkey) (balances : StakerBalances) (stake : Stakers)
    → worth (put key balances stake) mint a
      ≡ (if mint == key then get a balances else worth stake mint a)
unfolding worth
worth-put mint a key balances stake = ground (arith, get-put mint key balances stake)

module _ {R : Type 0} where
  -- An event about a share account lowers the balance of its staker in its mint to the event's
  -- balance where that is less, and leaves the balance of every other staker and mint as it was.
  pub process_share_account_event-worth :
      (event : UnstakeEvent) (s : ServerState R) (mint a : Pubkey)
      → worth (process_share_account_event event s).1.aggregator.stake mint a ≡ (
          if mint == event.mint && a == event.authority
          then at_most event.balance (worth s.aggregator.stake mint a)
          else worth s.aggregator.stake mint a)
  unfolding process_share_account_event worth
  process_share_account_event-worth event s mint a =
      elim (Option-cases (get event.mint s.aggregator.stake)) [
        | inl e ↦ ground (arith, e)
        | inr (balances, e) ↦ ground (
          arith,
          e,
          worth-put mint a event.mint (lowered event.authority event.balance balances)
              s.aggregator.stake,
          get-lowered a event.authority event.balance balances,
        )
      ]

  abbrev Worth : (mint a : Pubkey) (n : ℕ) → ServerState R → Type 0
  Worth mint a n s = worth s.aggregator.stake mint a ≡ some n

  introduce-Worth :
      (entry : ClientPutEntry) (mint a : Pubkey) (n : ℕ) → Keeps (Worth mint a n) (introduce entry)
  unfolding introduce worth
  introduce-Worth entry mint a n s h = elim (Option-cases (get entry.mint s.aggregator.stake)) [
    | inl e ↦ ground (arith, e, h)
    | inr (balances, e) ↦ ground (
      arith,
      e,
      h,
      get-put mint entry.mint (introduced entry.authority balances) s.aggregator.stake,
      get-introduced a entry.authority balances,
    )
  ]

pub on_database-aggregator :
    {R : Type 0} (rpc : Rpc R) (s : ServerState R) → (on_database rpc s).1.aggregator ≡ s.aggregator
on_database-aggregator rpc s = ground arith

module _ {R : Type 0} (rpc : Rpc R) (ids : Addresses) (operator : Operator)
    (edit : List Pubkey → Io R (Unit {0})) where
  get_stakers_db-aggregator :
      (mint : Pubkey) (s : ServerState R)
      → (get_stakers_db rpc ids operator mint s).1.aggregator ≡ s.aggregator
  unfolding get_stakers_db
  get_stakers_db-aggregator mint s = ground arith

  all_stakers-Worth :
      (mint a : Pubkey) (n : ℕ) (bas : List BoostAccount)
      → Keeps (Worth mint a n) (all_stakers rpc ids operator edit bas)
  unfolding all_stakers
  all_stakers-Worth mint a n [] s h = h
  all_stakers-Worth mint a n (ba ∷ bas) s h =
      >>=-Keeps (Worth mint a n) (get_stakers_db rpc ids operator ba.mint) _
        (same-Keeps (λ s. s.aggregator) (λ agg. worth agg.stake mint a ≡ some n)
          (get_stakers_db rpc ids operator ba.mint) (get_stakers_db-aggregator ba.mint))
        (λ keys.
          >>=-Keeps (Worth mint a n) (all_stakers rpc ids operator edit bas) _
            (all_stakers-Worth mint a n bas) (λ others s h. h))
        s h

  -- No balance that counts for a staker changes when the webhook is told of another staker, or of the
  -- same one again, whatever fails on the way.
  pub put_entry-worth :
      (entry : ClientPutEntry) (s : ServerState R) (mint a : Pubkey) (n : ℕ)
      → worth s.aggregator.stake mint a ≡ some n
      → worth (put_entry rpc ids operator edit entry s).1.aggregator.stake mint a ≡ some n
  unfolding put_entry
  put_entry-worth entry s mint a n h =
      >>=-Keeps (Worth mint a n) (all_stakers rpc ids operator edit operator.boost_accounts) _
        (all_stakers-Worth mint a n operator.boost_accounts)
        (λ keys.
          >>=-Keeps (Worth mint a n) (from_outside (edit keys)) _ (λ s h. h)
            (λ u.
              >>=-Keeps (Worth mint a n) (on_database rpc) _
                (same-Keeps (λ s. s.aggregator) (λ agg. worth agg.stake mint a ≡ some n)
                  (on_database rpc) (on_database-aggregator rpc))
                (λ u.
                  >>=-Keeps (Worth mint a n)
                    (change
                      (λ s. record s { stakers = write_webhook_staker s.stakers entry.share }))
                    (λ u. introduce entry) (λ s h. h) (λ u. introduce-Worth entry mint a n))))
        s h
