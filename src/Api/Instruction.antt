-- ===== src/Api/Instruction.antt =====
-- api/src/instruction.rs: the tags of the instructions, and the bytes of their arguments. The
-- structs are `#[repr(C)]` rows of bytes, so a slice reads as one exactly when its length fits.
use ore_pool.Prelude.{
  ℕ, List, Option, none, some, length, take, drop, ◌==◌, if◌then◌else◌, ◌≡◌, refl,
}

pub data PoolInstruction : Type 0 where
  claim join open_share stake unstake attribute commit launch open_stake submit : PoolInstruction

unfoldable pub tag : PoolInstruction → ℕ
tag claim = 0
tag join = 1
tag open_share = 2
tag stake = 3
tag unstake = 4
tag attribute = 100
tag commit = 101
tag launch = 102
tag open_stake = 103
tag submit = 104

-- `TryFromPrimitive`: the case with a given tag.
unfoldable pub from_tag : ℕ → Option PoolInstruction
from_tag t =
    if t == 0
    then some claim
    else if t == 1
    then some join
    else if t == 2
    then some open_share
    else if t == 3
    then some stake
    else if t == 4
    then some unstake
    else if t == 100
    then some attribute
    else if t == 101
    then some commit
    else if t == 102
    then some launch
    else if t == 103
    then some open_stake
    else if t == 104
    then some submit
    else none

-- The tag of every instruction is decoded to that instruction.
pub from_tag-tag : (ix : PoolInstruction) → from_tag (tag ix) ≡ some ix
unfolding from_tag tag
from_tag-tag claim = refl
from_tag-tag join = refl
from_tag-tag open_share = refl
from_tag-tag stake = refl
from_tag-tag unstake = refl
from_tag-tag attribute = refl
from_tag-tag commit = refl
from_tag-tag launch = refl
from_tag-tag open_stake = refl
from_tag-tag submit = refl

pub record ClaimArgs : Type 0 where
  pub amount : List ℕ
  pub pool_bump : List ℕ

pub record LaunchArgs : Type 0 where
  pub pool_bump : List ℕ
  pub proof_bump : List ℕ
  pub url : List ℕ

pub record SubmitArgs : Type 0 where
  pub attestation : List ℕ
  pub digest : List ℕ
  pub nonce : List ℕ

-- A row of bytes of the given length, or nothing.
unfoldable pub exact : ℕ → List ℕ → Option (List ℕ)
exact n data_bytes = if length data_bytes == n then some data_bytes else none

-- Attribute, Stake and Unstake hold one `[u8; 8]`; Join and OpenShare one bump.
unfoldable pub read_amount : List ℕ → Option (List ℕ)
unfolding exact
read_amount d = exact 8 d

unfoldable pub read_bump : List ℕ → Option (List ℕ)
unfolding exact
read_bump d = exact 1 d

unfoldable pub read_claim : List ℕ → Option ClaimArgs
read_claim d =
    if length d == 9 then some (record { amount = take 8 d; pool_bump = drop 8 d }) else none

unfoldable pub read_launch : List ℕ → Option LaunchArgs
read_launch d =
    if length d == 130
    then some (record { pool_bump = take 1 d; proof_bump = take 1 (drop 1 d); url = drop 2 d })
    else none

unfoldable pub read_submit : List ℕ → Option SubmitArgs
read_submit d =
    if length d == 56
    then some (record { attestation = take 32 d; digest = take 16 (drop 32 d); nonce = drop 48 d })
    else none
