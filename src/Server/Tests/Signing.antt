-- ===== src/Server/Tests/Signing.antt =====
-- server/src/tx/validate.rs: an attribution that a client wants signed.
use ore_pool.Prelude.{ℕ, ◌≡◌, ◌↔◌, ok, [], ◌∷◌, List}
use ore_pool.Prelude.Int.{pos}
use ore_pool.Server.Validate.{CompiledInstruction, Transaction, returns, validate_attribution}
use ore_pool.Server.Validate.Exact.{
  IsAttribution, validate_attribution_iff, validate_attribution_blind,
}
use ore_pool.Api.Sample.{ids}

abbrev limit : CompiledInstruction
limit = record { program_id_index = 1; accounts = []; payload = 2 ∷ [] }

abbrev ten : List ℕ
ten = 10 ∷ 0 ∷ 0 ∷ 0 ∷ 0 ∷ 0 ∷ 0 ∷ 0 ∷ []

abbrev ending : List ℕ → ℕ → CompiledInstruction
ending accounts tag = record { program_id_index = 2; accounts = accounts; payload = tag ∷ ten }

abbrev pub tx : List ℕ → ℕ → Transaction
tx accounts tag = record {
  account_keys = 9 ∷ 107 ∷ 101 ∷ [];
  instructions = limit ∷ limit ∷ ending accounts tag ∷ [];
}

validate_attribution_iff_example :
    (validate_attribution ids (tx (0 ∷ []) 5) (pos 10) ≡ returns (ok tt))
    ↔ IsAttribution ids (tx (0 ∷ []) 5) (pos 10)
validate_attribution_iff_example = validate_attribution_iff ids (tx (0 ∷ []) 5) (pos 10)

validate_attribution_blind_example :
    validate_attribution ids (tx (0 ∷ []) 5) (pos 10)
    ≡ validate_attribution ids (tx (0 ∷ 1 ∷ []) 4) (pos 10)
validate_attribution_blind_example =
    validate_attribution_blind ids (9 ∷ 107 ∷ 101 ∷ []) (limit ∷ limit ∷ []) 2 5 4 (0 ∷ [])
      (0 ∷ 1 ∷ []) ten (pos 10)
