-- ===== src/Payload/Admission.antt =====
-- Which payload attributes pass.
use load_reth.Common.{ℕ, ◌≡◌, refl, ◌↔◌, ◌<◌, ◌≤◌, ◌-◌, ◌⊎◌, ◌≢◌, ok, err, arith, u64_mod}
use load_reth.Prevrandao.{B256, load_prevrandao, is_load_prev_randao_iff}
use load_reth.Chain.Types.{LoadChainSpec}
use load_reth.Payload.Attributes.{
  EthTryNew, TryNewLaws, LoadPayloadAttributes, LoadPayloadBuilderAttributes, invalid_prev_randao,
  invalid_timestamp, validate_prev_randao, try_new, validate_payload_attributes, build_local,
}

pub validate_prev_randao_iff : (b : B256) → (validate_prev_randao b ≡ ok tt) ↔ (b ≡ load_prevrandao)
unfolding validate_prev_randao
validate_prev_randao_iff b = ground (arith, is_load_prev_randao_iff b)

-- `try_new` accepts attributes exactly if their randomness is the constant, and keeps what reth made
-- of them.
pub try_new_iff :
    (f : EthTryNew) (parent : B256) (a : LoadPayloadAttributes) (version : ℕ)
    (r : LoadPayloadBuilderAttributes)
    → TryNewLaws f
    → (try_new f parent a version ≡ ok r) ↔ (
        (a.inner.prev_randao ≡ load_prevrandao) × (r ≡ record { inner = f parent a.inner version }))
unfolding try_new validate_prev_randao
try_new_iff f parent a version r laws = ground (
  arith,
  laws.prev_randao_kept parent a.inner version,
  is_load_prev_randao_iff (f parent a.inner version).prev_randao,
)

-- `validate_payload_attributes` accepts exactly the constant randomness with a timestamp above the
-- parent's; wrong randomness is reported first, whatever the timestamp.
pub validate_payload_attributes_cases :
    (parent_timestamp : ℕ) (a : LoadPayloadBuilderAttributes)
    → ((a.inner.prev_randao ≡ load_prevrandao)
        × (parent_timestamp < a.inner.timestamp)
        × (validate_payload_attributes parent_timestamp a ≡ ok tt))
      ⊎ ((a.inner.prev_randao ≡ load_prevrandao)
          × (a.inner.timestamp ≤ parent_timestamp)
          × (validate_payload_attributes parent_timestamp a
              ≡ err (invalid_timestamp a.inner.timestamp parent_timestamp)))
      ⊎ ((a.inner.prev_randao ≢ load_prevrandao)
          × (validate_payload_attributes parent_timestamp a
              ≡ err (invalid_prev_randao "prev_randao must be constant 0x01 for Load")))
unfolding validate_payload_attributes validate_prev_randao
validate_payload_attributes_cases p a = ground (arith, is_load_prev_randao_iff a.inner.prev_randao)

pub validate_payload_attributes_iff :
    (parent_timestamp : ℕ) (a : LoadPayloadBuilderAttributes)
    → (validate_payload_attributes parent_timestamp a ≡ ok tt)
      ↔ ((a.inner.prev_randao ≡ load_prevrandao) × (parent_timestamp < a.inner.timestamp))
validate_payload_attributes_iff t a = ground (arith, validate_payload_attributes_cases t a)

-- The attributes that the local builder makes on a parent pass `try_new`, and then
-- `validate_payload_attributes` exactly if the parent's timestamp is not the greatest `u64`.
pub build_local_admitted :
    (f : EthTryNew) (spec : LoadChainSpec) (root parent : B256) (version parent_timestamp : ℕ)
    → TryNewLaws f
    → parent_timestamp < u64_mod
    → let a = build_local spec root parent_timestamp in
      let r : LoadPayloadBuilderAttributes = record { inner = f parent a.inner version } in
      (try_new f parent a version ≡ ok r)
      × ((validate_payload_attributes parent_timestamp r ≡ ok tt)
          ↔ (parent_timestamp < u64_mod - 1))
unfolding build_local
build_local_admitted f spec root parent version t laws small =
    let a = build_local spec root t in
    let r : LoadPayloadBuilderAttributes = record { inner = f parent a.inner version } in
    (
      (try_new_iff f parent a version r laws).1 (refl, refl),
      ground (
        arith,
        laws.timestamp_kept parent a.inner version,
        laws.prev_randao_kept parent a.inner version,
        validate_payload_attributes_cases t r,
      ),
    )
