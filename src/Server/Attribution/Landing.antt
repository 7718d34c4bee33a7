-- ===== src/Server/Attribution/Landing.antt =====
-- server/src/database.rs, the tasks of `stream_members_attribution`, with the program of program/src
-- at the other end: a transaction of attributions is dropped, fails, or lands as a whole.
use mathlib.Core.Path.{subst}
use ore_pool.Prelude.{
  ℕ, ◌<◌, ◌≡◌, ok, err, List, [], ◌∷◌, ◌++◌, Result, Bool-cases, ◌>>=◌, >>=-eq-ok, map, min, length,
  arith, All, some, false, true, inl, inr, ◌⊎◌, ◌==◌, if◌then◌else◌, ok-injective,
}
use ore_pool.Prelude.Words.{
  u64_mod, to_le_bytes, from_le_bytes, from_le_bytes-to_le_bytes, length-to_le_bytes,
}
use ore_pool.Prelude.Store.{get, get-put}
use ore_pool.Api.State.{Addresses, Pubkey, Member, pool_pda, member_pda}
use ore_pool.Api.Instruction.{PoolInstruction, read_amount, exact}
use ore_pool.Api.Sdk.{BuiltInstruction, build_attribute}
use ore_pool.Program.Runtime.{AccountInfo, ProgramError, Runtime, Chain, parsed}
use ore_pool.Program.User.{process_attribute}
use ore_pool.Program.User.Attribution.{attribute_accounts-Attributes, attributed}
use ore_pool.Program.Totals.{Shows}
use ore_pool.Program.Dispatch.{run_instruction}
use ore_pool.Program.Built.{deliver}
use ore_pool.Server.Aggregator.{as_u64}
use ore_pool.Server.Database.{MemberRow, Members, is_in, read_member, write_synced_members}
use ore_pool.Server.Attribution.{unsynced, full_buffers, num_attributions_per_tx}
use ore_pool.Server.Attribution.Round.{addresses}

-- What becomes of a transaction that was sent: it is dropped, or the program gets it, and the server is
-- then told that it landed, or is not, or fails to write that it was.
pub data Fate : Type 0 where
  dropped : Fate
  unheard : Fate
  confirmed : Fate

-- The tasks run side by side: the next one to end is any of those that have not.
pub data Ends : List (List MemberRow) → List (List MemberRow) → Type 0 where
  none_left : Ends [] []
  next_ends :
      {tasks left : List (List MemberRow)} (xs ys : List (List MemberRow)) (b : List MemberRow)
      → left ≡ xs ++ b ∷ ys
      → Ends tasks (xs ++ ys)
      → Ends (b ∷ tasks) left

-- The batches of a round, for each of which a task is spawned.
unfoldable pub round_tasks : Members → List (List MemberRow)
round_tasks members =
    let rows = unsynced members in full_buffers (min num_attributions_per_tx (length rows)) rows []

module _ {X : Type 0} (rt : Runtime X) (ids : Addresses) (operator : Pubkey) where
  unfoldable pub deliver_all : Chain X → List BuiltInstruction → Result ProgramError (Chain X)
  deliver_all c [] = ok c
  deliver_all c (ix ∷ ixs) = deliver rt ids c ix >>= λ c'. deliver_all c' ixs

  -- The instructions of a batch, in its order.
  abbrev pub instructions : List MemberRow → List BuiltInstruction
  instructions =
      map (λ (r : MemberRow). build_attribute ids operator r.authority (as_u64 r.total_balance))

  -- One task: the transaction lands as a whole or not at all, and the records of a batch that was
  -- confirmed are marked.
  unfoldable pub land_task : Fate → Chain X → List MemberRow → Members → Chain X × Members
  land_task Fate.dropped c b members = (c, members)
  land_task Fate.unheard c b members = elim (deliver_all c (instructions b)) [
    | ok c' ↦ (c', members)
    | err e ↦ (c, members)
  ]
  land_task Fate.confirmed c b members = elim (deliver_all c (instructions b)) [
    | ok c' ↦ (c', write_synced_members members (addresses b))
    | err e ↦ (c, members)
  ]

  -- The tasks, in the order in which they end.
  unfoldable pub land_tasks :
      (List MemberRow → Fate) → Chain X → List (List MemberRow) → Members → Chain X × Members
  land_tasks fate c [] members = (c, members)
  land_tasks fate c (b ∷ bs) members =
      let (c', marked) = land_task (fate b) c b members in land_tasks fate c' bs marked

  -- The record that the database reads under an address, if marked as synced, is what the chain shows.
  abbrev pub IsMirrored : Chain X → Members → Type 0
  IsMirrored c members =
      (a : Pubkey) (r : MemberRow)
      → read_member members a ≡ ok r
      → r.is_synced ≡ true
      → Shows c a (as_u64 r.total_balance)

  -- The row of a member of the operator's pool, with a balance that its type holds.
  abbrev pub IsPlaced : MemberRow → Type 0
  IsPlaced r =
      (r.address ≡ (member_pda ids r.authority (pool_pda ids operator).0).0)
      × (as_u64 r.total_balance < u64_mod)

  deliver-Shows :
      (c : Chain X) {c' : Chain X} (authority : Pubkey) (t : ℕ)
      → t < u64_mod
      → deliver rt ids c (build_attribute ids operator authority t) ≡ ok c'
      → (m : Member) × ((a : Pubkey)
          → get a c'.members ≡ (
              if a == (member_pda ids authority (pool_pda ids operator).0).0
              then some (attributed m t)
              else get a c.members))
  unfolding build_attribute run_instruction process_attribute read_amount exact
  deliver-Shows c authority t small h =
      let (bytes, e, h') = >>=-eq-ok (parsed (read_amount (to_le_bytes 8 t))) _ h in
      let same : from_le_bytes bytes ≡ t =
        ground (arith, e, length-to_le_bytes 8 t, from_le_bytes-to_le_bytes 8 t (omega arith)) in
      let w =
        attribute_accounts-Attributes rt ids c
          (record { key = operator; is_signer = true; is_writable = true })
          (record { key = (pool_pda ids operator).0; is_signer = false; is_writable = false })
          (record {
            key = (member_pda ids authority (pool_pda ids operator).0).0;
            is_signer = false;
            is_writable = true;
          })
          (from_le_bytes bytes) h' in
      (
        w.member,
        λ a. ground (
          arith,
          w.written,
          same,
          get-put a (member_pda ids authority (pool_pda ids operator).0).0 (attributed w.member t)
              c.members,
        ),
      )

  -- An attribution of another account leaves what the chain shows for this one.
  pub attribute_elsewhere-Shows :
      (c : Chain X) {c' : Chain X} (s p m : AccountInfo) (d : List ℕ) (a : Pubkey) (t : ℕ)
      → run_instruction rt ids PoolInstruction.attribute c (s ∷ p ∷ m ∷ []) d ≡ ok c'
      → (a == m.key) ≡ false
      → Shows c a t
      → Shows c' a t
  unfolding run_instruction process_attribute
  attribute_elsewhere-Shows c s p m d a t h other (n, at, total) =
      let (bytes, _, h') = >>=-eq-ok (parsed (read_amount d)) _ h in
      let w = attribute_accounts-Attributes rt ids c s p m (from_le_bytes bytes) h' in
      (
        n,
        ground (
          arith,
          w.written,
          at,
          other,
          get-put a m.key (attributed w.member (from_le_bytes bytes)) c.members,
        ),
        total,
      )

  -- After the instructions of rows of which those at the address all have this total, the chain
  -- shows it if it did before or one of them is at the address.
  pub deliver_all-Shows :
      (c : Chain X) {c' : Chain X} (b : List MemberRow) (a : Pubkey) (t : ℕ)
      → All (λ (r : MemberRow). r.address ≡ a → as_u64 r.total_balance ≡ t) b
      → All IsPlaced b
      → deliver_all c (instructions b) ≡ ok c'
      → Shows c a t ⊎ (is_in a (addresses b) ≡ true)
      → Shows c' a t
  unfolding deliver_all
  deliver_all-Shows c [] a t same placed h (inl shown) =
      subst (λ d. Shows d a t) (ok-injective h) shown
  deliver_all-Shows c [] a t same placed h (inr e) = absurd (ground (arith, e))
  deliver_all-Shows c (r ∷ b) a t same placed h shown =
      let (c₁, h₁, h₂) =
        >>=-eq-ok
          (deliver rt ids c (build_attribute ids operator r.authority (as_u64 r.total_balance))) _
          h in
      let (m, after) = deliver-Shows c r.authority (as_u64 r.total_balance) placed.0.1 h₁ in
      elim (Bool-cases (a == r.address)) [
        | inl here ↦ deliver_all-Shows c₁ b a t same.1 placed.1 h₂ (
            inl (
              attributed m (as_u64 r.total_balance),
              ground (arith, after a, here, placed.0.0),
              same.0 (ground (arith, here)),
            ))
        | inr elsewhere ↦ deliver_all-Shows c₁ b a t same.1 placed.1 h₂ (elim shown [
          | inl (n, at, total) ↦ inl (n, ground (arith, after a, elsewhere, placed.0.0, at), total)
          | inr e ↦ inr (ground (arith, e, elsewhere))
        ])
      ]
