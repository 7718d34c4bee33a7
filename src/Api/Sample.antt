-- ===== src/Api/Sample.antt =====
-- Addresses that can be told apart.
use ore_pool.Prelude.{ℕ, ◌+◌, ◌*◌, List, [], ◌∷◌}
use ore_pool.Api.State.{Addresses, Seed, bytes, key}

abbrev pub hash : List Seed → ℕ
hash [] = 1
hash (bytes b ∷ s) = 2 * hash s
hash (key k ∷ s) = 1 + k + 1000 * hash s

abbrev pub ids : Addresses
ids = record {
  pool_program = 101;
  ore_program = 102;
  boost_program = 103;
  token_program = 104;
  associated_token_program = 105;
  system_program = 106;
  compute_budget = 107;
  slot_hashes = 108;
  instructions_sysvar = 109;
  ore_mint = 2;
  config = 110;
  treasury = 111;
  treasury_tokens = 112;
  proof_seed = bytes [];
  find_program_address = λ seeds program. (program + hash seeds, 255);
  get_associated_token_address = λ owner mint. 500 + owner * 10 + mint;
  boost_pda = λ mint. (600 + mint, 254);
  stake_pda = λ authority boost. (700 + authority + boost, 253);
}
