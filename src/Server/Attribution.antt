-- ===== src/Server/Attribution.antt =====
-- server/src/database.rs, `stream_members_attribution`: the members whose records changed are
-- attributed on chain in batches, and the records of a batch that was confirmed are marked.
pub mod Batches
pub mod Round
pub mod Landing
pub mod Current
pub mod Mirror
pub mod Crediting
pub mod Steps
pub mod History
use ore_pool.Prelude.{
  ℕ, List, [], ◌∷◌, ◌++◌, Bool, true, false, ◌==◌, length, map, min, if◌then◌else◌,
}
use ore_pool.Api.State.{Pubkey}
use ore_pool.Server.Aggregator.{as_u64}
use ore_pool.Server.Database.{MemberRow, Members, write_synced_members}

-- SELECT .. FROM members WHERE is_synced = false
unfoldable pub unsynced : Members → List MemberRow
unsynced [] = []
unsynced (r ∷ rs) = if r.is_synced then unsynced rs else r ∷ unsynced rs

abbrev pub num_attributions_per_tx : ℕ
num_attributions_per_tx = 10

-- The arguments of one `sdk::attribute`: the member's authority and its lifetime earnings.
abbrev pub attribution : MemberRow → Pubkey × ℕ
attribution r = (r.authority, as_u64 r.total_balance)

-- The loop over the stream: a buffer is handed on, and cleared, when it holds `size` rows. What it
-- holds when the stream ends is dropped.
unfoldable pub full_buffers : (size : ℕ) → List MemberRow → List MemberRow → List (List MemberRow)
full_buffers size [] buffer = []
full_buffers size (r ∷ rs) buffer =
    let filled = buffer ++ r ∷ [] in
    let flushed = full_buffers size rs [] in
    let kept = full_buffers size rs filled in
    if length filled == size then filled ∷ flushed else kept

-- The tasks, in the order in which they were spawned: `confirmed` says whether the transaction of
-- these instructions was. A failure of a task is only logged.
unfoldable pub run_tasks : (List (Pubkey × ℕ) → Bool) → List (List MemberRow) → Members → Members
run_tasks confirmed [] members = members
run_tasks confirmed (b ∷ bs) members = run_tasks confirmed bs (
    if confirmed (map attribution b)
    then write_synced_members members (map (λ (r : MemberRow). r.address) b)
    else members)

-- The count and the rows are read of one table.
unfoldable pub stream_members_attribution : (List (Pubkey × ℕ) → Bool) → Members → Members
stream_members_attribution confirmed members =
    let rows = unsynced members in
    let buffer_size = min num_attributions_per_tx (length rows) in
    run_tasks confirmed (full_buffers buffer_size rows []) members
