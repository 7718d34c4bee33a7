-- ===== src/Api/Loaders/Conditions.antt =====
-- Which accounts the loaders accept, exactly.
use ore_pool.Prelude.{
  ◌≡◌, ◌⊎◌, ◌<◌, length, ◌↔◌, ok, Bool, true, false, arith, Result-cases, inl, inr,
}
use ore_pool.Api.State.{Addresses, Pubkey, Member, Share, Pool}
use ore_pool.Api.Loaders.{LoadedInfo, Decoders, load_member, load_share, load_pool}

-- Owned by the program, and writable where that is asked for.
abbrev pub IsOurs : Addresses → LoadedInfo → Bool → Type 0
IsOurs ids info is_writable =
    (info.owner ≡ ids.pool_program)
    × (0 < length info.payload)
    × ((is_writable ≡ false) ⊎ (info.is_writable ≡ true))

module _ (ids : Addresses) (decoders : Decoders) where
  -- A share account loads exactly if the program owns it, it decodes to a share of this authority,
  -- pool and mint, and it is writable where that is asked for.
  pub load_share_iff :
      (info : LoadedInfo) (authority pool mint : Pubkey) (w : Bool)
      → (load_share ids decoders info authority pool mint w ≡ ok tt) ↔ (
          IsOurs ids info w
          × ((s : Share) × (decoders.share_from_bytes info.payload ≡ ok s)
              × (s.authority ≡ authority)
              × (s.pool ≡ pool)
              × (s.mint ≡ mint)))
  unfolding load_share
  load_share_iff info authority pool mint w =
      elim (Result-cases (decoders.share_from_bytes info.payload)) [
        | inl (s, e) ↦ (
          λ h. (
            (ground (arith, e, h), ground (arith, e, h), ground (arith, e, h)),
            (s, e, ground (arith, e, h), ground (arith, e, h), ground (arith, e, h)),
          ),
          λ p. ground (arith, e, p),
        )
        | inr (x, e) ↦ (λ h. absurd (ground (arith, e, h)), λ p. ground (arith, e, p))
      ]

  -- The same of member accounts, by their authority and their pool.
  pub load_member_iff :
      (info : LoadedInfo) (authority pool : Pubkey) (w : Bool)
      → (load_member ids decoders info authority pool w ≡ ok tt) ↔ (
          IsOurs ids info w
          × ((s : Member) × (decoders.member_from_bytes info.payload ≡ ok s)
              × (s.authority ≡ authority)
              × (s.pool ≡ pool)))
  unfolding load_member
  load_member_iff info authority pool w =
      elim (Result-cases (decoders.member_from_bytes info.payload)) [
        | inl (s, e) ↦ (
          λ h. (
            (ground (arith, e, h), ground (arith, e, h), ground (arith, e, h)),
            (s, e, ground (arith, e, h), ground (arith, e, h)),
          ),
          λ p. ground (arith, e, p),
        )
        | inr (x, e) ↦ (λ h. absurd (ground (arith, e, h)), λ p. ground (arith, e, p))
      ]

  -- The same of pool accounts, by their authority.
  pub load_pool_iff :
      (info : LoadedInfo) (authority : Pubkey) (w : Bool)
      → (load_pool ids decoders info authority w ≡ ok tt) ↔ (
          IsOurs ids info w
          × ((s : Pool) × (decoders.pool_from_bytes info.payload ≡ ok s)
              × (s.authority ≡ authority)))
  unfolding load_pool
  load_pool_iff info authority w = elim (Result-cases (decoders.pool_from_bytes info.payload)) [
    | inl (s, e) ↦ (
      λ h. (
        (ground (arith, e, h), ground (arith, e, h), ground (arith, e, h)),
        (s, e, ground (arith, e, h)),
      ),
      λ p. ground (arith, e, p),
    )
    | inr (x, e) ↦ (λ h. absurd (ground (arith, e, h)), λ p. ground (arith, e, p))
  ]
