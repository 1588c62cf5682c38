-- ===== src/Builder/Envelope.antt =====
-- The builder's payloads before Osaka, and `engine_getPayloadV3`.
use load_reth.Common.{
  Each, ℕ, ◌+◌, ◌≡◌, refl, ◌⊎◌, inl, inr, ◌≤◌, ◌<◌, false, Option, none, some, List, [], ◌∷◌, ◌++◌,
  ok, arith, sum_of, All, length, length-append, subst, sym,
}
use load_reth.Prevrandao.{B256}
use load_reth.Chain.Types.{LoadChainSpec, Upstream, Hardfork}
use load_reth.Payload.Attributes.{LoadPayloadBuilderAttributes}
use load_reth.Payload.Built.{
  Sidecar, BlobSidecars, empty, eip4844, LoadBuiltPayload, Conversions, ConversionError, EnvelopeV3,
  try_into_v3,
}
use load_reth.Payload.Envelopes.{FitsEnvelope, RefusedWith, try_into_v3_cases}
use load_reth.Builder.Types.{
  Tx, SidecarVariant, legacy, cells, Calls, Limits, CallLaws, PoolLaws, hash_count,
}
use load_reth.Builder.Loop.{push}
use load_reth.Builder.Totals.{blobs, HasSidecar, CarriesBlob, Matched, sidecar_for, collect}
use load_reth.Builder.Commit.{sidecar_for-Matched}
use load_reth.Builder.Build.{Header, Node, BuilderConfig, better, limits_of, default_load_payload}
use load_reth.Builder.Rules.{NodeLaws, IsLoadBlock}
use load_reth.Builder.Block.{default_load_payload-IsLoadBlock}

-- reth's `push_sidecar_variant` on EIP-4844 sidecars.
pub record PushLaws {I B : Type 0} (c : Calls I B) : Type 0 where
  pub first_pushed : (v : Sidecar) → c.push_sidecar_variant empty (legacy v) ≡ eip4844 (v ∷ [])
  pub next_pushed :
      (l : List Sidecar) (v : Sidecar)
      → c.push_sidecar_variant (eip4844 l) (legacy v) ≡ eip4844 (l ++ v ∷ [])

-- No sidecars, or EIP-4844 sidecars, `n` at most.
abbrev LegacyUpTo : ℕ → BlobSidecars → Type 0
LegacyUpTo n s = (s ≡ empty) ⊎ ((l : List Sidecar) × (s ≡ eip4844 l) × (length l ≤ n))

LegacyUpTo-mono : {m n : ℕ} {s : BlobSidecars} → m ≤ n → LegacyUpTo m s → LegacyUpTo n s
LegacyUpTo-mono h (inl e) = inl e
LegacyUpTo-mono h (inr (l, e, k)) = inr (l, e, omega arith)

module _ {I B : Type 0} (c : Calls I B) (l : Limits) (laws : PushLaws c)
    (early : l.is_osaka ≡ false) where
  push-LegacyUpTo :
      (n : ℕ) (v : Sidecar) (s : BlobSidecars)
      → LegacyUpTo n s
      → LegacyUpTo (n + 1) (c.push_sidecar_variant s (legacy v))
  push-LegacyUpTo n v s (inl e) = rw e (inr (v ∷ [], laws.first_pushed v, omega arith))
  push-LegacyUpTo n v s (inr (k, e, small)) =
      rw e (inr (k ++ v ∷ [], laws.next_pushed k v, omega (arith, length-append k (v ∷ []))))

  one-LegacyUpTo :
      (n : ℕ) (hash : B256) (hashes : Option (List B256)) (taken : Option SidecarVariant)
      (s : BlobSidecars)
      → Matched c l hash hashes taken
      → Each (λ hs. 0 < length hs) hashes
      → LegacyUpTo n s
      → LegacyUpTo (n + hash_count hashes) (push c l taken s)
  one-LegacyUpTo n hash none taken s m carried h = rw m (LegacyUpTo-mono (omega arith) h)
  one-LegacyUpTo n hash (some hs) taken s (legacy v, e, _, kind) carried h =
      rw e (LegacyUpTo-mono (omega (arith, carried)) (push-LegacyUpTo n v s h))
  one-LegacyUpTo n hash (some hs) taken s (cells v, e, _, kind) carried h = cc (rw early at kind)

  collect-LegacyUpTo :
      (n : ℕ) (xs : List (Tx × ℕ)) (s : BlobSidecars)
      → All (HasSidecar c l) xs
      → All (CarriesBlob c l) xs
      → LegacyUpTo n s
      → LegacyUpTo (n + sum_of blobs xs) (collect c l s xs)
  collect-LegacyUpTo n [] s m carried h = LegacyUpTo-mono (omega arith) h
  collect-LegacyUpTo n ((tx, gas) ∷ xs) s ((taken, m), ms) (carry, carried) h =
      let next = one-LegacyUpTo n tx.hash tx.blob_versioned_hashes taken s m carry h in
      LegacyUpTo-mono {m = n + hash_count tx.blob_versioned_hashes + sum_of blobs xs}
        {n = n + sum_of blobs ((tx, gas) ∷ xs)} (omega arith)
        (collect-LegacyUpTo (n + hash_count tx.blob_versioned_hashes) xs
          (push c l (sidecar_for c l tx.hash tx.blob_versioned_hashes) s) ms carried
          (rw (sidecar_for-Matched c l tx.hash tx.blob_versioned_hashes m) next))

-- Sidecars are not both handed out and refused.
pub refuted : {e : ConversionError} (s : BlobSidecars) → RefusedWith s e → ¬ FitsEnvelope s
refuted s (inl (l, e, _)) (inl e') = cc
refuted s (inl (l, e, _)) (inr (k, e', _)) = cc
refuted s (inr (l, e, over, _)) (inl e') = cc
refuted s (inr (l, e, over, _)) (inr (k, e', small)) = ground arith

module _ {I B Block Body Env4 Env5 : Type 0} (u : Upstream) (c : Calls I B) (node : Node I B Block)
    (spec : LoadChainSpec) (config : BuilderConfig) (conv : Conversions Block Body Env4 Env5)
    (pushes : PushLaws c) (laws : CallLaws c) (node_laws : NodeLaws c node) (parent : Header)
    (attrs : LoadPayloadBuilderAttributes)
    (pool : (b : B) → PoolLaws c (limits_of u c node spec config attrs b))
    (early : spec.inner.active Hardfork.osaka attrs.inner.timestamp ≡ false) where
  pub sidecars-FitsEnvelope :
      (p : LoadBuiltPayload Block)
      → IsLoadBlock u c node spec config parent attrs p
      → FitsEnvelope p.inner.sidecars
  unfolding limits_of
  sidecars-FitsEnvelope p is_block = elim gathered [
    | inl e ↦ inl e
    | inr (l, e, small) ↦ inr (l, e, omega (arith, is_block.blobs_capped_1024))
  ]
    where
      gathered : LegacyUpTo (0 + sum_of blobs (c.transactions is_block.last)) p.inner.sidecars
      gathered = subst (LegacyUpTo _) (sym is_block.sidecars) (
          collect-LegacyUpTo c (limits_of u c node spec config attrs is_block.start) pushes early 0
            (c.transactions is_block.last) empty is_block.every_sidecar is_block.every_blob
            (inl refl))

  -- Before Osaka, every better payload of `default_load_payload` becomes a V3 envelope, for any
  -- parent, pool and fuel: the conversion neither refuses it nor panics, and the envelope holds the
  -- block's body and its fees. The builder caps blobs and the conversion counts sidecars; this holds
  -- since a blob transaction that executes has a blob.
  pub default_load_payload-try_into_v3 :
      (fuel : ℕ) (best_payload : Option (LoadBuiltPayload Block)) (p : LoadBuiltPayload Block)
      → default_load_payload u c node spec config fuel parent attrs best_payload ≡ ok (better p)
      → (env : EnvelopeV3 Body) × (try_into_v3 conv p ≡ ok env)
        × (env.execution_payload
            ≡ conv.from_block_unchecked (conv.hash p.inner.block) p.inner.block)
        × (env.block_value ≡ p.inner.fees)
  default_load_payload-try_into_v3 fuel best_payload p built = elim (try_into_v3_cases conv p) [
    | inl (_, (b, _, done)) ↦ (_, done, refl, refl)
    | inr (_, why, _) ↦ absurd (refuted p.inner.sidecars why fits)
  ]
    where
      fits : FitsEnvelope p.inner.sidecars
      fits = sidecars-FitsEnvelope p (
          default_load_payload-IsLoadBlock u c node spec config laws node_laws parent attrs pool
            fuel best_payload p built)
