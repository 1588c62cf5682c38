-- ===== src/Validator/Acceptance.antt =====
-- Exactly what the validator accepts.
use load_reth.Common.{
  Each, ℕ, ◌≡◌, refl, ◌↔◌, ◌≤◌, Bool, true, false, Option, none, some, List, length, ok, arith,
  map_err, bind-eq-ok, map_err-eq-ok,
}
use load_reth.Prevrandao.{B256, load_prevrandao, is_load_prev_randao_iff}
use load_reth.Chain.Types.{LoadChainSpec, Hardfork, load_max_blob_count}
use load_reth.Payload.Attributes.{LoadPayloadAttributes}
use load_reth.Payload.Built.{Bytes}
use load_reth.Payload.Execution.{LoadExecutionData, Alloy}
use load_reth.Validator.Defs.{
  EngineApiMessageVersion, PayloadOrAttributes, execution_payload, payload_attributes, RethChecks,
  check_hashes, check_prev_randao, ensure_load_payload_invariants, check_payload_or_attributes,
  convert_payload_to_block, validate_version_specific_fields, ensure_well_formed_attributes, other,
  check_requests,
}

-- What the Load Network asks of an execution payload.
pub record IsLoadPayload {S : Type 0} (a : Alloy S) (spec : LoadChainSpec) (p : LoadExecutionData S)
    : Type 0 where
  pub fixed_randao : a.prev_randao p.inner.payload ≡ load_prevrandao
  pub few_hashes :
      Each (λ hashes. length hashes ≤ load_max_blob_count) (a.versioned_hashes p.inner.sidecar)
  pub requests_after_prague :
      Each
        (λ _. spec.inner.active Hardfork.prague (a.timestamp p.inner.payload) ≡ true)
        (a.requests_of p.inner.sidecar)

pub check_prev_randao_iff : (b : B256) → (check_prev_randao b ≡ ok tt) ↔ (b ≡ load_prevrandao)
unfolding check_prev_randao
check_prev_randao_iff b = ground (arith, is_load_prev_randao_iff b)

check_hashes_iff :
    (o : Option (List B256))
    → (check_hashes o ≡ ok tt) ↔ Each (λ hashes. length hashes ≤ load_max_blob_count) o
unfolding check_hashes
check_hashes_iff none = (λ _. tt, λ _. refl)
check_hashes_iff (some l) = ground arith

check_requests_iff :
    (active : Bool) (t : ℕ) (o : Option (List Bytes))
    → (check_requests active t o ≡ ok tt) ↔ Each (λ _. active ≡ true) o
unfolding check_requests
check_requests_iff true t none = (λ _. tt, λ _. refl)
check_requests_iff true t (some l) = (λ _. refl, λ _. refl)
check_requests_iff false t none = (λ _. tt, λ _. refl)
check_requests_iff false t (some l) = (λ h. cc, λ h. cc)

module _ {S : Type 0} (a : Alloy S) (spec : LoadChainSpec) (p : LoadExecutionData S) where
  -- `ensure_load_payload_invariants` accepts a payload exactly if its randomness is the constant, its
  -- versioned hashes, if any, are 1024 at most, and it lists requests only once Prague is active.
  pub ensure_load_payload_invariants_iff :
      (ensure_load_payload_invariants a spec p ≡ ok tt) ↔ IsLoadPayload a spec p
  unfolding ensure_load_payload_invariants
  ensure_load_payload_invariants_iff = (
    λ h.
        let (_, randao, h₁) = bind-eq-ok (check_prev_randao (a.prev_randao p.inner.payload)) _ h in
        let (_, few, h₂) = bind-eq-ok (check_hashes (a.versioned_hashes p.inner.sidecar)) _ h₁ in
        record {
          fixed_randao = (check_prev_randao_iff _).0 randao;
          few_hashes = (check_hashes_iff _).0 few;
          requests_after_prague = (check_requests_iff _ _ _).0 h₂;
        },
    λ v.
        rw ((check_prev_randao_iff _).1 v.fixed_randao, (check_hashes_iff _).1 v.few_hashes)
          ((check_requests_iff _ _ _).1 v.requests_after_prague),
  )

module _ {S Block : Type 0} (a : Alloy S) (r : RethChecks S Block) (spec : LoadChainSpec) where
  -- `convert_payload_to_block` gives a block exactly for a payload that meets the Load Network's
  -- rules and of which reth makes that block.
  pub convert_payload_to_block_iff :
      (p : LoadExecutionData S) (b : Block)
      → (convert_payload_to_block a r spec p ≡ ok b)
        ↔ (IsLoadPayload a spec p × (r.well_formed_payload p ≡ ok b))
  unfolding convert_payload_to_block
  convert_payload_to_block_iff p b = (
    λ h.
        let (_, rules, rest) =
          bind-eq-ok (map_err other (ensure_load_payload_invariants a spec p)) _ h in
        (
          (ensure_load_payload_invariants_iff a spec p).0
              (map_err-eq-ok other (ensure_load_payload_invariants a spec p) rules),
          rest,
        ),
    λ (v, made). rw ((ensure_load_payload_invariants_iff a spec p).1 v) made,
  )

  -- What the validator asks before reth's version-specific checks.
  abbrev pub IsLoadObject : PayloadOrAttributes S → Type 0
  IsLoadObject (execution_payload p) = IsLoadPayload a spec p
  IsLoadObject (payload_attributes attrs) = attrs.inner.prev_randao ≡ load_prevrandao

  check_object_iff :
      (o : PayloadOrAttributes S) → (check_payload_or_attributes a spec o ≡ ok tt) ↔ IsLoadObject o
  unfolding check_payload_or_attributes
  check_object_iff (execution_payload p) = ensure_load_payload_invariants_iff a spec p
  check_object_iff (payload_attributes attrs) = check_prev_randao_iff attrs.inner.prev_randao

  -- `validate_version_specific_fields` accepts, at every version, exactly what meets the Load
  -- Network's rules and passes reth's checks for that version; `ensure_well_formed_attributes`
  -- accepts the same attributes.
  pub validate_version_specific_fields_iff :
      (version : EngineApiMessageVersion) (o : PayloadOrAttributes S)
      (attrs : LoadPayloadAttributes)
      → ((validate_version_specific_fields a r spec version o ≡ ok tt)
          ↔ (IsLoadObject o × (r.version_specific_fields spec version o ≡ ok tt)))
        × ((ensure_well_formed_attributes a r spec version attrs ≡ ok tt) ↔ (
            validate_version_specific_fields a r spec version (payload_attributes attrs) ≡ ok tt))
  unfolding validate_version_specific_fields ensure_well_formed_attributes
      check_payload_or_attributes
  validate_version_specific_fields_iff version o attrs = (
    (
      λ h.
          let (_, rules, rest) = bind-eq-ok (check_payload_or_attributes a spec o) _ h in
          ((check_object_iff o).0 rules, rest),
      λ (v, passed). rw ((check_object_iff o).1 v) passed,
    ),
    (λ h. h, λ h. h),
  )
