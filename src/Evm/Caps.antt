-- ===== src/Evm/Caps.antt =====
-- The builder's cap on the blobs of a block, over time.
use load_reth.Common.{
  ℕ, ◌≡◌, refl, ◌⊎◌, inl, inr, ◌≤◌, true, false, ok, arith, min, Bool-cases, sym, ◌∙◌,
}
use load_reth.Chain.Types.{
  Genesis, Hardfork, LoadChainSpec, Upstream, UpstreamLaws, load_max_blob_count,
}
use load_reth.Chain.Spec.{from_genesis, load_blob_params}
use load_reth.Chain.Blobs.{from_genesis-IsLoadSpec}
use load_reth.Builder.Build.{compute_load_blob_cap}

-- On a specification that `from_genesis` has made, at any time, the builder's cap on the blobs of a
-- block is at most 1024: it is 1024 before Osaka, and from Osaka on the smaller of 1024 and reth's
-- Osaka maximum.
pub blob_caps_cases :
    (u : Upstream) (g : Genesis) (spec : LoadChainSpec) (t : ℕ)
    → UpstreamLaws u
    → from_genesis u g ≡ ok spec
    → (compute_load_blob_cap u spec t ≤ load_max_blob_count)
      × (((spec.inner.active Hardfork.osaka t ≡ false)
            × (compute_load_blob_cap u spec t ≡ load_max_blob_count))
          ⊎ ((spec.inner.active Hardfork.osaka t ≡ true)
              × (compute_load_blob_cap u spec t
                  ≡ min u.osaka_params.max_blob_count load_max_blob_count)))
unfolding compute_load_blob_cap load_blob_params
blob_caps_cases u g spec t laws made =
    let is_spec = from_genesis-IsLoadSpec u g spec t laws made in
    (
      omega arith,
      elim (Bool-cases (spec.inner.active Hardfork.osaka t)) [
        | inl late ↦ inr (late, rw (is_spec.params, sym is_spec.osaka_active ∙ late) refl)
        | inr early ↦ inl (early, rw (is_spec.params, sym is_spec.osaka_active ∙ early) refl)
      ],
    )
