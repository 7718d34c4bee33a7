-- ===== src/Api/Tests/Loading.antt =====
-- api/src/loaders.rs and sdk.rs: a share account that is loaded, and a submission that is built.
use ore_pool.Prelude.{◌≡◌, refl, ok, err, [], ◌∷◌, some, true, replicate}
use ore_pool.Api.State.{Share}
use ore_pool.Api.Sample.{ids}
use ore_pool.Api.Loaders.{LoadedInfo, Decoders, load_share, invalid_account_data}
use ore_pool.Api.Instruction.{read_submit}
use ore_pool.Api.Sdk.Operations.{build_submit}
use ore_pool.Api.Sdk.Payloads.{read_submit-build_submit}

abbrev share : Share
share = record { authority = 5; balance = 40; pool = 6; mint = 3 }

abbrev decoders : Decoders
decoders = record {
  member_from_bytes = λ bytes. err invalid_account_data;
  pool_from_bytes = λ bytes. err invalid_account_data;
  share_from_bytes = λ bytes. ok share;
}

abbrev info : LoadedInfo
info = record { owner = ids.pool_program; payload = 102 ∷ []; is_writable = true }

loads : load_share ids decoders info 5 6 3 true ≡ ok tt
unfolding load_share
loads = refl

read_submit-build_submit_example :
    read_submit (build_submit ids 9 (replicate 16 1) (replicate 8 2) (replicate 32 3) 7 []).payload
    ≡ some (record { attestation = replicate 32 3; digest = replicate 16 1; nonce = replicate 8 2 })
read_submit-build_submit_example =
    read_submit-build_submit ids 9 (replicate 16 1) (replicate 8 2) (replicate 32 3) 7 [] refl refl
      refl
