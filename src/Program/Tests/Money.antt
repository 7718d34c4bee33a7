-- ===== src/Program/Tests/Money.antt =====
-- program/src/attribute.rs, claim.rs and submit.rs on the sample chain.
use ore_pool.Prelude.{ℕ, ◌+◌, ◌-◌, ◌≡◌, refl, ok, List, [], ◌∷◌, ◌++◌, some, arith}
use ore_pool.Prelude.Words.{from_le_bytes}
use ore_pool.Prelude.Int.{pos}
use ore_pool.Prelude.Store.{get, put}
use ore_pool.Api.State.{Member}
use ore_pool.Api.Instruction.{
  PoolInstruction, read_amount, read_claim, exact, ClaimArgs, SubmitArgs,
}
use ore_pool.Program.Runtime.{Chain, AccountInfo}
use ore_pool.Program.User.{attribute_accounts, process_attribute, claim_accounts, process_claim}
use ore_pool.Program.Admin.{submit_accounts}
use ore_pool.Program.Admin.Inversion.{Submits, submit_accounts-Submits}
use ore_pool.Program.Dispatch.{run_instruction}
use ore_pool.Program.Earnings.{History, here, next, IsBalanced, History-IsBalanced}
use ore_pool.Program.Idempotence.{
  process_attribute_idempotent, attribute_all, attribute_all-Ascending, attribute_all_reordered,
  last_of,
}
use ore_pool.Api.Sample.{ids}
use ore_pool.Program.Sample.{rt, at, chain, member, pool_of}

abbrev ten : List ℕ
ten = 10 ∷ 0 ∷ 0 ∷ 0 ∷ 0 ∷ 0 ∷ 0 ∷ 0 ∷ []

abbrev six : List ℕ
six = 6 ∷ 0 ∷ 0 ∷ 0 ∷ 0 ∷ 0 ∷ 0 ∷ 0 ∷ []

abbrev earned : ℕ → ℕ → Chain (ℕ × ℕ)
earned balance total = record chain {
  members = (20, record member { balance = balance; total_balance = total }) ∷ [];
}

abbrev who : List AccountInfo
who = at 9 ∷ at 1 ∷ at 20 ∷ []

attributes : process_attribute rt ids chain who ten ≡ ok (earned 10 10)
unfolding process_attribute read_amount exact get put from_le_bytes
attributes = refl

process_attribute_idempotent_example :
    process_attribute rt ids (earned 10 10) who ten ≡ ok (earned 10 10)
process_attribute_idempotent_example = process_attribute_idempotent rt ids chain who ten attributes

abbrev claimants : List AccountInfo
claimants = at 5 ∷ at 50 ∷ at 20 ∷ at 1 ∷ at 51 ∷ at 52 ∷ at 53 ∷ at 102 ∷ at 104 ∷ []

abbrev six_args : ClaimArgs
six_args = record { amount = six; pool_bump = 255 ∷ [] }

claims : claim_accounts rt ids (earned 10 10) claimants six_args ≡ ok (earned 4 10)
unfolding claim_accounts get put from_le_bytes
claims = refl

attributes_run : run_instruction rt ids PoolInstruction.attribute chain who ten ≡ ok (earned 10 10)
unfolding run_instruction
attributes_run = attributes

claims_run :
    run_instruction rt ids PoolInstruction.claim (earned 10 10) claimants (six ++ 255 ∷ [])
    ≡ ok (earned 4 10)
unfolding run_instruction process_claim read_claim
claims_run = claims

-- The member earns 6 and claims 6.
history : History rt ids 20 chain (earned 4 10) 6
unfolding read_claim from_le_bytes read_amount exact get
history =
    next
      (next here PoolInstruction.attribute who ten attributes_run
        (λ bytes m e at. ground (arith, e, at)) refl)
      PoolInstruction.claim claimants (six ++ 255 ∷ []) claims_run tt refl

start : IsBalanced (get 20 chain.members) 0
unfolding get
start = refl

History-IsBalanced_example : IsBalanced (get 20 (earned 4 10).members) 6
History-IsBalanced_example = History-IsBalanced rt ids 20 chain start history

climbs : attribute_all rt ids chain (at 9) (at 1) (at 20) (7 ∷ 10 ∷ []) ≡ ok (earned 10 10)
unfolding attribute_all attribute_accounts get put
climbs = refl

stored : get 20 chain.members ≡ some member
unfolding get
stored = refl

attribute_all-Ascending_example :
    (after : Member) × (get 20 (earned 10 10).members ≡ some after)
    × (after.total_balance ≡ last_of 4 (7 ∷ 10 ∷ []))
    × (after.balance + 4 ≡ 4 + after.total_balance)
attribute_all-Ascending_example =
    attribute_all-Ascending rt ids chain (at 9) (at 1) (at 20) member (7 ∷ 10 ∷ []) stored
      (omega arith, (omega arith, tt)) climbs

repeats : attribute_all rt ids chain (at 9) (at 1) (at 20) (10 ∷ 7 ∷ 10 ∷ []) ≡ ok (earned 13 10)
unfolding attribute_all attribute_accounts get put
repeats = refl

attribute_all_reordered_example :
    (after : Member) × (get 20 (earned 13 10).members ≡ some after)
    × (after.total_balance ≡ 10)
    × (after.balance + 4 ≡ 4 + 10 + (10 - 7))
attribute_all_reordered_example =
    attribute_all_reordered rt ids chain (at 9) (at 1) (at 20) member 10 7 stored (omega arith)
      (omega arith) repeats

abbrev mine_args : SubmitArgs
mine_args = record { attestation = 1 ∷ []; digest = 2 ∷ []; nonce = 3 ∷ [] }

abbrev miners : List AccountInfo
miners = at 9 ∷ at 60 ∷ at 61 ∷ at 1 ∷ at 62 ∷ at 102 ∷ at 106 ∷ at 109 ∷ at 108 ∷ []

abbrev mined : Chain (ℕ × ℕ)
mined = record chain {
  pools =
      (
        1,
        record (pool_of 9) {
          total_submissions = 1;
          attestation = 1 ∷ [];
          last_total_members = 1;
          reward = 5;
          last_hash_at = pos 65;
        },
      )
      ∷ (3, pool_of 8)
      ∷ [];
  outside = (65, 90);
}

mines : submit_accounts rt ids chain miners mine_args ≡ ok mined
unfolding submit_accounts get put
mines = refl

submit_accounts-Submits_example :
    Submits rt chain mined
      (at 9)
      (at 60)
      (at 61)
      (at 1)
      (at 62)
      (at 9 ∷ at 60 ∷ at 61 ∷ at 62 ∷ at 109 ∷ at 108 ∷ [])
      []
      mine_args
submit_accounts-Submits_example =
    submit_accounts-Submits rt ids chain (at 9) (at 60) (at 61) (at 1) (at 62) (at 102) (at 106)
      (at 109) (at 108) [] mine_args mines
