-- ===== src/Admin/Again.antt =====
-- admin/src/init.rs where both accounts are there: `init` may be run again.
use ore_pool.Prelude.{List, [], ◌∷◌}
use ore_pool.Api.State.{Addresses, Pubkey, Pool, Member, pool_pda, member_pda}
use ore_pool.Admin.Node.{Node, Line}

-- What `init` prints of accounts that are there.
abbrev pub found : Addresses → Pubkey → Pool → Member → List Line
found ids k p m =
    Line.pool_address (pool_pda ids k).0
    ∷ Line.pool p
    ∷ Line.member_address (member_pda ids k (pool_pda ids k).0).0
    ∷ Line.member m
    ∷ []
