-- ===== src/Server/Cycle/Attestation.antt =====
-- server/src/aggregator.rs, `attestation`: the lines that are hashed, one for each contribution.
use ore_pool.Prelude.{ℕ, ◌+◌, ◌/◌, ◌%◌, List, [], ◌∷◌, ◌++◌, Result, ok, ◌>>=◌, ltb, if◌then◌else◌}
use ore_pool.Prelude.Text.{Text, decimal}
use ore_pool.Prelude.Words.{from_le_bytes}
use ore_pool.Api.State.{Pubkey}
use ore_pool.Server.Error.{Error}
use ore_pool.Server.Aggregator.{
  Aggregator, Contribution, MinerContributions, get_current_contributions,
}

abbrev pub hex_digit : ℕ → ℕ
hex_digit n = if ltb n 10 then b'0' + n else b'W' + n

-- `{:02x}` of every byte
unfoldable pub hex_string : List ℕ → Text
hex_string [] = []
hex_string (b ∷ bs) = hex_digit (b / 16) ∷ hex_digit (b % 16) ∷ hex_string bs

unfoldable pub line : (Pubkey → Text) → Contribution → Text
line pubkey_text c =
    pubkey_text c.member
    ++ (b' ' ∷ [])
    ++ hex_string c.solution.d
    ++ (b' ' ∷ [])
    ++ decimal (from_le_bytes c.solution.n)
    ++ (10 ∷ [])

unfoldable pub lines : (Pubkey → Text) → MinerContributions → Text
lines pubkey_text [] = []
lines pubkey_text (c ∷ cs) = line pubkey_text c ++ lines pubkey_text cs

unfoldable pub attestation_of :
    (Pubkey → Text) → (Text → List ℕ) → Aggregator → Result Error (List ℕ)
attestation_of pubkey_text sha3 agg = do
  contributions ← get_current_contributions agg
  ok (sha3 (lines pubkey_text contributions))
