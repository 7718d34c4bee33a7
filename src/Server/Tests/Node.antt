-- ===== src/Server/Tests/Node.antt =====
-- A node that answers every request, and counts those for accounts and transactions; whether it
-- shows the pool's account is given.
use ore_pool.Prelude.{ℕ, suc, ok, [], ◌∷◌, List, Option, some, none, Bool, true, if◌then◌else◌, map}
use ore_pool.Prelude.Int.{pos}
use ore_pool.Api.State.{Pool, Member}
use ore_pool.Server.Rpc.{Rpc}
use ore_pool.Server.State.{ServerState}
use ore_pool.Server.Cycle.{Surroundings}
use ore_pool.Server.Database.{MemberRow}
use ore_pool.Server.Operator.{Operator}
use ore_pool.Server.Tests.Round.{difficulty, round, by, won}

abbrev pub pool : Pool
pool = record {
  authority = 9;
  bump = 255;
  url = [];
  attestation = [];
  last_hash_at = pos 20;
  reward = 0;
  total_submissions = 1;
  total_members = 2;
  last_total_members = 2;
}

abbrev pub account : Member
account = record { id = 1; pool = 100; authority = 5; balance = 0; total_balance = 0 }

abbrev pub contents : ℕ → Option (List ℕ)
contents k = some (k ∷ [])

abbrev pub node : (readable : Bool) → Rpc ℕ
node readable = record {
  get_account_data = λ k r. (ok (k ∷ []), suc r);
  get_multiple_accounts = λ ks r. (ok (map contents ks), r);
  get_latest_blockhash = λ r. (ok 3, suc r);
  send_transaction = λ tx r. (ok 77, suc r);
  confirm_transaction_with_commitment = λ sig r. (ok true, suc r);
  connect = λ r. (ok tt, r);
  run_statement = λ r. (ok tt, r);
  new_signed = λ payer ixs hash. record { account_keys = payer ∷ []; instructions = [] };
  partial_sign = λ key hash tx. tx;
  pool_from_bytes = λ bytes. if readable then some pool else none;
  member_from_bytes = λ bytes. some account;
  share_from_bytes = λ bytes. none;
  proof_from_bytes = λ bytes. some (record { challenge = []; last_hash_at = pos 20 });
  config_from_bytes = λ bytes. some (record { min_difficulty = 3 });
  bus_from_bytes = λ bytes. none;
  unix_timestamp = λ bytes. some (pos 30);
}

abbrev pub operator : Operator
operator = record {
  keypair = 9;
  boost_accounts = [];
  operator_commission = 5;
  staker_commission = 50;
}

abbrev pub env : Surroundings
env = record {
  clock = 8;
  bus_addresses = [];
  bus_address = λ id. id;
  drawn_bus = 7;
  pubkey_text = λ k. k ∷ [];
  sha3 = λ bytes. bytes;
  difficulty = difficulty;
}

-- The server in the round before, with the rows that are given.
abbrev pub serving : List MemberRow → ServerState ℕ
serving rows = record {
  aggregator = round (by 5 4 ∷ []) 16 (won 4);
  members = rows;
  stakers = [];
  contributions = [];
  rewards = [];
  outside = 0;
}
