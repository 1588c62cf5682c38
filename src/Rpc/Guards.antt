-- ===== src/Rpc/Guards.antt =====
-- Which calls of newPayload and forkchoiceUpdated reach the engine.
use load_reth.Common.{
  ℕ, ◌≡◌, refl, ◌↔◌, ◌⊎◌, inl, inr, Option, none, some, List, ok, err, true, Each, sym, ◌∙◌,
}
use load_reth.Prevrandao.{B256, load_prevrandao}
use load_reth.Chain.Types.{Genesis, LoadChainSpec, Upstream, UpstreamLaws, Hardfork}
use load_reth.Chain.Spec.{from_genesis}
use load_reth.Chain.Blobs.{from_genesis-IsLoadSpec}
use load_reth.Payload.Attributes.{LoadPayloadAttributes}
use load_reth.Payload.Execution.{
  ExecutionPayloadV3, RequestsOrHash, requests, hash, listed, Alloy, AlloyLaws, data_v3, data_v4,
}
use load_reth.Validator.Defs.{version_3, version_4, invalid_params, bad_prev_randao}
use load_reth.Validator.Acceptance.{IsLoadPayload}
use load_reth.Rpc.Metrics.{record_forkchoice, record_new_payload}
use load_reth.Rpc.Types.{
  EngineApiError, engine_object_validation_error, Answers, Engine, Server, payload_v3_prev_randao,
  timed,
}
use load_reth.Rpc.Payloads.{
  new_payload_v3, new_payload_v4, check_attributes, fork_choice_updated_v3,
}
use load_reth.Rpc.Refusals.{Fits, IsRefusal, prev_randao_cases, both_cases, refusal-not_Fits}

module _ {W S : Type 0} {T : Answers} (e : Engine W S T) (a : Alloy S) (laws : AlloyLaws a)
    (u : Upstream) (u_laws : UpstreamLaws u) (g : Genesis) (spec : LoadChainSpec)
    (made : from_genesis u g ≡ ok spec) (p : ExecutionPayloadV3) (hashes : List B256)
    (root : B256) where
  randao_of_v3 : a.prev_randao (data_v3 a p hashes root).inner.payload ≡ payload_v3_prev_randao p
  unfolding data_v3 payload_v3_prev_randao
  randao_of_v3 = laws.prev_randao_v1 _ ∙ rw (laws.as_v1_of_v3 p) refl

  v3_iff : Fits hashes (payload_v3_prev_randao p) ↔ IsLoadPayload a spec (data_v3 a p hashes root)
  unfolding data_v3
  v3_iff = (
    λ (few, e). record {
      fixed_randao = randao_of_v3 ∙ e;
      few_hashes = rw (laws.hashes_v3 _) few;
      requests_after_prague = rw (laws.requests_v3 _) tt;
    },
    λ v. (rw (laws.hashes_v3 _) at v.few_hashes, sym randao_of_v3 ∙ v.fixed_randao),
  )

  module _ (reqs : RequestsOrHash) where
    prague : (t : ℕ) → spec.inner.active Hardfork.prague t ≡ true
    prague t = (from_genesis-IsLoadSpec u g spec t u_laws made).prague_active

    randao_of_v4 :
        a.prev_randao (data_v4 a p hashes root reqs).inner.payload ≡ payload_v3_prev_randao p
    unfolding data_v4 payload_v3_prev_randao
    randao_of_v4 = laws.prev_randao_v1 _ ∙ rw (laws.as_v1_of_v3 p) refl

    listed_after_prague :
        (r : RequestsOrHash) (t : ℕ)
        → Each (λ _. spec.inner.active Hardfork.prague t ≡ true) (listed r)
    listed_after_prague (requests l) t = prague t
    listed_after_prague (hash h) t = tt

    pub v4_iff :
        Fits hashes (payload_v3_prev_randao p) ↔ IsLoadPayload a spec (data_v4 a p hashes root reqs)
    unfolding data_v4
    v4_iff = (
      λ (few, e). record {
        fixed_randao = randao_of_v4 ∙ e;
        few_hashes = rw (laws.hashes_v4 _ _) few;
        requests_after_prague = rw (laws.requests_v4 _ _) (listed_after_prague reqs _);
      },
      λ v. (rw (laws.hashes_v4 _ _) at v.few_hashes, sym randao_of_v4 ∙ v.fixed_randao),
    )

    -- newPayloadV4 and the engine's validator agree, on a specification that `from_genesis` has made
    -- and with what alloy documents of payloads. A call whose data the validator's Load rules accept
    -- goes to the engine, with a sample of its time if it succeeds. Any other is refused, by the size
    -- of the request first and by the randomness else, and changes nothing.
    pub new_payload_v4_cases :
        (s : Server W)
        → (IsLoadPayload a spec (data_v4 a p hashes root reqs)
            × (new_payload_v4 e a p hashes root reqs s
                ≡ timed e.now record_new_payload
                    (e.new_payload_metered version_4 (data_v4 a p hashes root reqs))
                    s))
          ⊎ ((¬ IsLoadPayload a spec (data_v4 a p hashes root reqs))
              × ((x : EngineApiError) × IsRefusal hashes (payload_v3_prev_randao p) x
                  × (new_payload_v4 e a p hashes root reqs s ≡ (err x, s))))
    unfolding new_payload_v4
    new_payload_v4_cases s =
        elim (both_cases hashes (payload_v3_prev_randao p)
          (timed e.now record_new_payload
            (e.new_payload_metered version_4 (data_v4 a p hashes root reqs)))
          s) [
            | inl (fits, run) ↦ inl (v4_iff.0 fits, run)
            | inr (x, why, run) ↦ inr (
              λ v. refusal-not_Fits hashes (payload_v3_prev_randao p) why (v4_iff.1 v),
              (x, why, run),
            )
          ]

  -- newPayloadV3 agrees with the validator in the same way.
  pub new_payload_v3_cases :
      (s : Server W)
      → (IsLoadPayload a spec (data_v3 a p hashes root)
          × (new_payload_v3 e a p hashes root s
              ≡ timed e.now record_new_payload
                  (e.new_payload_metered version_3 (data_v3 a p hashes root))
                  s))
        ⊎ ((¬ IsLoadPayload a spec (data_v3 a p hashes root))
            × ((x : EngineApiError) × IsRefusal hashes (payload_v3_prev_randao p) x
                × (new_payload_v3 e a p hashes root s ≡ (err x, s))))
  unfolding new_payload_v3
  new_payload_v3_cases s =
      elim (both_cases hashes (payload_v3_prev_randao p)
        (timed e.now record_new_payload (e.new_payload_metered version_3 (data_v3 a p hashes root)))
        s) [
          | inl (fits, run) ↦ inl (v3_iff.0 fits, run)
          | inr (x, why, run) ↦ inr (
            λ v. refusal-not_Fits hashes (payload_v3_prev_randao p) why (v3_iff.1 v),
            (x, why, run),
          )
        ]

-- forkchoiceUpdatedV3 goes to the engine exactly if its attributes, where it has some, carry the
-- constant randomness, with a sample if that succeeds; else it is refused and changes nothing.
pub fork_choice_updated_v3_cases :
    {W S : Type 0} {T : Answers} (e : Engine W S T) (a : Alloy S) (state : T.ForkchoiceState)
    (attributes : Option LoadPayloadAttributes) (s : Server W)
    → (Each (λ attrs. attrs.inner.prev_randao ≡ load_prevrandao) attributes
        × (fork_choice_updated_v3 e a state attributes s
            ≡ timed e.now record_forkchoice
                (e.fork_choice_updated_metered version_3 state attributes)
                s))
      ⊎ ((¬ Each (λ attrs. attrs.inner.prev_randao ≡ load_prevrandao) attributes)
          × (fork_choice_updated_v3 e a state attributes s
              ≡ (err (engine_object_validation_error (invalid_params bad_prev_randao)), s)))
unfolding fork_choice_updated_v3 check_attributes
fork_choice_updated_v3_cases e a state none s = inl (tt, refl)
fork_choice_updated_v3_cases e a state (some attrs) s =
    elim (prev_randao_cases attrs.inner.prev_randao) [
      | inl (same, passed) ↦ inl (same, rw passed refl)
      | inr (unlike, failed) ↦ inr (unlike, rw failed refl)
    ]
