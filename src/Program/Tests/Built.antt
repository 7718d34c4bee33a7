-- ===== src/Program/Tests/Built.antt =====
-- api/src/sdk.rs: an attribution that the operator 9 builds for the member 5.
use ore_pool.Prelude.{ℕ, ◌≡◌, refl, ok, [], ◌∷◌, some, arith, true, false}
use ore_pool.Prelude.Store.{get}
use ore_pool.Api.State.{Pubkey, Member, pool_pda, member_pda}
use ore_pool.Api.Sdk.{build_attribute}
use ore_pool.Api.Sample.{ids}
use ore_pool.Program.Runtime.{Chain, set_member}
use ore_pool.Program.User.Attribution.{attributed}
use ore_pool.Program.Built.{deliver, build_attribute-deliver}
use ore_pool.Program.Sample.{rt, pool_of}

abbrev pool_address : Pubkey
pool_address = (pool_pda ids 9).0

abbrev member_address : Pubkey
member_address = (member_pda ids 5 (pool_pda ids 9).0).0

abbrev enrolled : Member
enrolled = record { id = 0; pool = pool_address; authority = 5; balance = 4; total_balance = 4 }

abbrev chain : Chain (ℕ × ℕ)
chain = record {
  pools = (pool_address, pool_of 9) ∷ [];
  members = (member_address, enrolled) ∷ [];
  shares = [];
  outside = (0, 0);
}

pool_known : get (pool_pda ids 9).0 chain.pools ≡ some (pool_of 9)
unfolding get
pool_known = ground arith

member_known : get (member_pda ids 5 (pool_pda ids 9).0).0 chain.members ≡ some enrolled
unfolding get
member_known = ground arith

build_attribute-deliver_example :
    deliver rt ids chain (build_attribute ids 9 5 10)
    ≡ ok (
        set_member chain
          (record {
            key = (member_pda ids 5 (pool_pda ids 9).0).0;
            is_signer = false;
            is_writable = true;
          })
          (attributed enrolled 10))
build_attribute-deliver_example =
    build_attribute-deliver rt ids chain 9 5 10 (pool_of 9) enrolled (λ i. refl) (λ i. refl)
      pool_known refl member_known refl (omega arith) (omega arith)
