-- ===== src/Payload/Envelopes.antt =====
-- Which built payloads become an envelope of `engine_getPayload`, and what it carries.
use load_reth.Common.{◌≡◌, refl, ◌⊎◌, inl, inr, ◌≤◌, ◌<◌, List, length, ok, err, arith, false}
use native.Mathlib.Decide.{dec_lt}
use load_reth.Chain.Types.{load_max_blob_count}
use load_reth.Payload.Built.{
  Sidecar, CellSidecar, BlobSidecars, empty, eip4844, eip7594, LoadBuiltPayload, Conversions,
  BlobsBundleV1, ConversionError, unexpected_eip4844_sidecars, unexpected_eip7594_sidecars, refused,
  guard_sidecars, bundle_of, try_into_v3, try_into_v4, try_into_v5,
}

-- Sidecars that the Load Network hands out: none, or EIP-4844 sidecars, 1024 at most.
abbrev pub FitsEnvelope : BlobSidecars → Type 0
FitsEnvelope s =
    (s ≡ empty) ⊎ ((l : List Sidecar) × (s ≡ eip4844 l) × (length l ≤ load_max_blob_count))

-- Why a payload is refused otherwise.
abbrev pub RefusedWith : BlobSidecars → ConversionError → Type 0
RefusedWith s e =
    ((l : List CellSidecar) × (s ≡ eip7594 l) × (e ≡ unexpected_eip7594_sidecars))
    ⊎ ((l : List Sidecar) × (s ≡ eip4844 l)
        × (load_max_blob_count < length l)
        × (e ≡ unexpected_eip4844_sidecars))

guard_cases :
    {Block : Type 0} (p : LoadBuiltPayload Block) (s : BlobSidecars)
    → p.inner.sidecars ≡ s
    → (FitsEnvelope s × (guard_sidecars p load_max_blob_count ≡ ok tt))
      ⊎ ((e : ConversionError) × RefusedWith s e × (guard_sidecars p load_max_blob_count ≡ err e))
unfolding guard_sidecars
guard_cases p empty h = inl (inl refl, ground arith)
guard_cases p (eip7594 l) h = inr (_, inl (l, refl, refl), ground arith)
guard_cases p (eip4844 l) h = elim (dec_lt load_max_blob_count (length l)) [
  | yes over ↦ inr (_, inr (l, refl, over, refl), ground arith)
  | no fits ↦ inl (inr (l, refl, omega arith), ground arith)
]

module _ {Block Body Env4 Env5 : Type 0} (c : Conversions Block Body Env4 Env5) where
  -- The bundle that belongs to the sidecars: the empty one, or that of all sidecars in their order.
  abbrev pub CarriesAll : BlobSidecars → BlobsBundleV1 → Type 0
  CarriesAll empty b = b ≡ c.bundle_empty
  CarriesAll (eip4844 l) b = b ≡ c.bundle_from l
  CarriesAll (eip7594 l) b = ⊥

  bundle_fits :
      (s : BlobSidecars)
      → FitsEnvelope s
      → (b : BlobsBundleV1) × CarriesAll s b × (bundle_of c s ≡ ok b)
  unfolding bundle_of
  bundle_fits empty h = (_, refl, refl)
  bundle_fits (eip4844 l) h = (_, refl, refl)
  bundle_fits (eip7594 l) h = absurd (ground arith)

  -- The V3 conversion never panics. It gives an envelope exactly for a payload with no sidecars or
  -- with at most 1024 EIP-4844 sidecars: the block's body, its fees, and
  -- the empty bundle or reth's bundle of all the sidecars in their order.
  -- It refuses EIP-7594 sidecars and a longer list, each by its error.
  pub try_into_v3_cases :
      (p : LoadBuiltPayload Block)
      → (FitsEnvelope p.inner.sidecars
          × ((b : BlobsBundleV1) × CarriesAll p.inner.sidecars b
              × (try_into_v3 c p
                  ≡ ok (record {
                    execution_payload = c.from_block_unchecked (c.hash p.inner.block) p.inner.block;
                    block_value = p.inner.fees;
                    should_override_builder = false;
                    blobs_bundle = b;
                  }))))
        ⊎ ((e : ConversionError) × RefusedWith p.inner.sidecars e
            × (try_into_v3 c p ≡ err (refused e)))
  unfolding try_into_v3
  try_into_v3_cases p = elim (guard_cases p p.inner.sidecars refl) [
    | inl (fits, passed) ↦
        let (b, belongs, bundled) = bundle_fits p.inner.sidecars fits in
        inl (fits, (b, belongs, rw (passed, bundled)))
    | inr (e, why, failed) ↦ inr (e, why, rw failed)
  ]

  -- The V4 and V5 conversions are reth's on what the V3 conversion accepts, and refuse the rest by
  -- the same errors.
  pub try_into_v4_v5_cases :
      (p : LoadBuiltPayload Block)
      → (FitsEnvelope p.inner.sidecars
          × (try_into_v4 c p ≡ c.to_v4 p.inner)
          × (try_into_v5 c p ≡ c.to_v5 p.inner))
        ⊎ ((e : ConversionError) × RefusedWith p.inner.sidecars e
            × (try_into_v4 c p ≡ err e)
            × (try_into_v5 c p ≡ err e))
  unfolding try_into_v4 try_into_v5
  try_into_v4_v5_cases p = elim (guard_cases p p.inner.sidecars refl) [
    | inl (fits, passed) ↦ inl (fits, rw passed, rw passed)
    | inr (e, why, failed) ↦ inr (e, why, rw failed, rw failed)
  ]

  -- reth documents that its V5 conversion takes no EIP-4844 sidecars. Under that, a payload that
  -- becomes a V5 envelope has no sidecars at all, of either kind.
  pub try_into_v5-empty :
      (p : LoadBuiltPayload Block) (env : Env5)
      → ((l : List Sidecar)
          → p.inner.sidecars ≡ eip4844 l
          → c.to_v5 p.inner ≡ err unexpected_eip4844_sidecars)
      → try_into_v5 c p ≡ ok env
      → p.inner.sidecars ≡ empty
  try_into_v5-empty p env refuses done = elim (try_into_v4_v5_cases p) [
    | inl (inl none_there, _, _) ↦ none_there
    | inl (inr (l, e, _), _, same) ↦ cc (refuses l e)
    | inr (_, _, _, failed) ↦ cc
  ]
