-- ===== src/Rpc/Capabilities.antt =====
-- What exchangeCapabilities lists, and which getBlobs calls are refused.
use load_reth.Common.{
  ◌≡◌, refl, ◌↔◌, ◌⊎◌, inl, inr, ◌≤◌, ◌<◌, true, false, List, [], ◌∷◌, length, err, arith, String,
  ltb, Bool-cases,
}
use load_reth.Prevrandao.{B256}
use load_reth.Chain.Types.{Hardfork, load_max_blob_count}
use load_reth.Validator.Defs.{unsupported_fork}
use load_reth.Rpc.Types.{
  blob_request_too_large, engine_object_validation_error, Answers, Engine, Server,
  validate_blob_request,
}
use load_reth.Rpc.Queries.{
  load_cap_blobs, load_cap_prevrandao, add_all, exchange_capabilities, ensure_osaka, get_blobs_v2,
  get_blobs_v3,
}

-- One of the texts of a list.
abbrev pub In : String → List String → Type 0
In x [] = ⊥
In x (y ∷ l) = (x ≡ y) ⊎ In x l

-- reth keeps capabilities as a set: adding one lists it besides those that were there.
pub record SetLaws {W S : Type 0} {T : Answers} (e : Engine W S T) : Type 0 where
  pub listed :
      (caps : T.Capabilities) (cap x : String)
      → In x (e.list (e.add_capability caps cap)) ↔ ((x ≡ cap) ⊎ In x (e.list caps))

module _ {W S : Type 0} {T : Answers} (e : Engine W S T) (laws : SetLaws e) where
  add_all_iff :
      (caps : T.Capabilities) (l : List String) (x : String)
      → In x (e.list (add_all e caps l)) ↔ (In x l ⊎ In x (e.list caps))
  add_all_iff caps [] x = ground arith
  add_all_iff caps (cap ∷ l) x =
      ground (arith, add_all_iff (e.add_capability caps cap) l x, laws.listed caps cap x)

  -- exchangeCapabilities lists exactly the Load Network's two capabilities, the client's version,
  -- those that the peer has sent, and reth's own.
  pub exchange_capabilities_iff :
      (version : String) (peer : List String) (x : String)
      → In x (exchange_capabilities e version peer) ↔ (
          In x (load_cap_blobs ∷ load_cap_prevrandao ∷ version ∷ peer)
          ⊎ In x (e.list e.capabilities))
  unfolding exchange_capabilities
  exchange_capabilities_iff version peer x =
      let with_blobs = e.add_capability e.capabilities load_cap_blobs in
      let with_prevrandao = e.add_capability with_blobs load_cap_prevrandao in
      ground (
        arith,
        add_all_iff (e.add_capability with_prevrandao version) peer x,
        laws.listed with_prevrandao version x,
        laws.listed with_blobs load_cap_prevrandao x,
        laws.listed e.capabilities load_cap_blobs x,
      )

-- Before Osaka, getBlobsV2 and getBlobsV3 are refused as unsupported whatever they ask for; from
-- Osaka on, a request for more than 1024 blobs is refused by its size. Nothing is changed or
-- counted, and the sync state does not matter.
pub get_blobs_refused :
    {W S : Type 0} {T : Answers} (e : Engine W S T) (hashes : List B256) (s : Server W)
    → ((e.chain_spec.inner.active Hardfork.osaka (e.unix_seconds s.world) ≡ true)
        × (length hashes ≤ load_max_blob_count))
      ⊎ ((e.chain_spec.inner.active Hardfork.osaka (e.unix_seconds s.world) ≡ true)
          × (load_max_blob_count < length hashes)
          × (get_blobs_v2 e hashes s ≡ (err (blob_request_too_large (length hashes)), s))
          × (get_blobs_v3 e hashes s ≡ (err (blob_request_too_large (length hashes)), s)))
      ⊎ ((e.chain_spec.inner.active Hardfork.osaka (e.unix_seconds s.world) ≡ false)
          × (get_blobs_v2 e hashes s ≡ (err (engine_object_validation_error unsupported_fork), s))
          × (get_blobs_v3 e hashes s ≡ (err (engine_object_validation_error unsupported_fork), s)))
unfolding get_blobs_v2 get_blobs_v3 ensure_osaka validate_blob_request
get_blobs_refused e hashes s =
    elim (Bool-cases (e.chain_spec.inner.active Hardfork.osaka (e.unix_seconds s.world))) [
      | inr early ↦ inr (inr (early, rw early refl, rw early refl))
      | inl now ↦ elim (Bool-cases (ltb load_max_blob_count (length hashes))) [
        | inl over ↦ inr (inl (now, ground arith, rw (now, over) refl, rw (now, over) refl))
        | inr few ↦ inl (now, ground arith)
      ]
    ]
