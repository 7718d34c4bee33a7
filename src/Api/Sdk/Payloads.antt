-- ===== src/Api/Sdk/Payloads.antt =====
-- The data that the builders write and that the handlers read.
use mathlib.Core.List.{append_assoc}
use ore_pool.Prelude.{
  take_front, drop_front, take-append, ◌⊎◌, inl, inr, Bool-cases, ℕ, ◌-◌, ◌<◌, ◌≤◌, ◌≡◌, ap, ◌∙◌,
  List, ◌++◌, some, ok, err, arith, length, take, drop, length-append, length-replicate, replicate,
  ltb,
}
use ore_pool.Api.State.{Addresses, Pubkey}
use ore_pool.Api.Instruction.{read_submit}
use ore_pool.Api.Error.{ApiError}
use ore_pool.Api.Sdk.Operations.{url_to_bytes, build_submit}

module _ (ids : Addresses) where
  -- The handler of submissions reads back the attestation, the digest and the nonce that the
  -- builder was given, if they have the lengths of their types.
  pub read_submit-build_submit :
      (signer : Pubkey) (digest nonce attestation : List ℕ) (bus : Pubkey) (boosts : List Pubkey)
      → length attestation ≡ 32
      → length digest ≡ 16
      → length nonce ≡ 8
      → read_submit (build_submit ids signer digest nonce attestation bus boosts).payload
        ≡ some (record { attestation = attestation; digest = digest; nonce = nonce })
  unfolding read_submit build_submit
  read_submit-build_submit signer digest nonce attestation bus boosts a d n =
      let front : length (attestation ++ digest) ≡ 48 =
        omega (arith, length-append {0} attestation digest, a, d) in
      let whole : length (attestation ++ digest ++ nonce) ≡ 56 =
        omega (arith, length-append {0} (attestation ++ digest) nonce, front, n) in
      let e = append_assoc attestation digest nonce in
      ground (
        arith,
        whole,
        drop_front 48 (attestation ++ digest) nonce front,
        ap (take 32) e ∙ take_front 32 attestation (digest ++ nonce) a,
        ap (drop 32) e ∙ drop_front 32 attestation (digest ++ nonce) a,
        take_front 16 digest nonce d,
      )

-- What `url_to_bytes` returns fills the field of the instruction and starts with the url; longer
-- urls, and no others, are refused.
pub length-url_to_bytes :
    (url : List ℕ)
    → ((url_to_bytes url ≡ err ApiError.url_too_large) × (128 < length url))
      ⊎ ((bytes : List ℕ) × (url_to_bytes url ≡ ok bytes)
          × (length bytes ≡ 128)
          × (take (length url) bytes ≡ url)
          × (length url ≤ 128))
unfolding url_to_bytes
length-url_to_bytes url = elim (Bool-cases (ltb 128 (length url))) [
  | inl long ↦ inl (ground arith, ground arith)
  | inr short ↦ inr (
    url ++ replicate (128 - length url) 0,
    ground arith,
    ground (
      arith,
      short,
      length-append {0} url (replicate (128 - length url) 0),
      length-replicate {A = ℕ} (128 - length url) 0,
    ),
    take-append url _,
    ground arith,
  )
]
