-- ===== src/Builder/Block.antt =====
-- That a built payload follows the rules.
use load_reth.Common.{
  ℕ, ◌≡◌, refl, ◌≤◌, ◌<◌, Option, List, [], ok, map_err, arith, then_some, inl, inr, Bool-cases,
  bind-eq-ok, map_err-eq-ok, subst, sym, ◌∙◌,
}
use load_reth.Prevrandao.{load_prevrandao}
use load_reth.Chain.Types.{LoadChainSpec, Upstream, Hardfork, load_max_blob_count}
use load_reth.Payload.Attributes.{LoadPayloadBuilderAttributes, validate_payload_attributes}
use load_reth.Payload.Admission.{validate_payload_attributes_cases}
use load_reth.Payload.Built.{Bytes, LoadBuiltPayload}
use load_reth.Builder.Types.{
  Tx, other, internal, invalid_attributes, Calls, Limits, LoopState, LoopResult, CallLaws, PoolLaws,
}
use load_reth.Builder.Loop.{select}
use load_reth.Builder.Totals.{Inv}
use load_reth.Builder.Selection.{Verdict, Selects}
use load_reth.Builder.Selected.{select-Judges, Selects-chosen}
use load_reth.Builder.Reaches.{select-Reaches}
use load_reth.Builder.Invariant.{select-Inv}
use load_reth.Builder.Build.{
  Header, Node, BuilderConfig, better, error, compute_load_blob_cap, next_env, limits_of,
  first_state, seal, conclude_build, default_load_payload,
}
use load_reth.Builder.Rules.{NodeLaws, asked_for, IsLoadBlock}

module _ {I B Block : Type 0} (u : Upstream) (c : Calls I B) (node : Node I B Block)
    (spec : LoadChainSpec) (config : BuilderConfig) where
  cap-le : (t : ℕ) → compute_load_blob_cap u spec t ≤ load_max_blob_count
  unfolding compute_load_blob_cap
  cap-le t = omega arith

  first-Inv :
      (l : Limits) (best : I) (ready : B)
      → c.transactions ready ≡ []
      → Inv c l (first_state u c node spec config best ready)
  unfolding first_state
  first-Inv l best ready e = record {
    blobs_counted = rw e;
    blobs_capped = omega arith;
    gas_counted = rw e;
    gas_capped = omega arith;
    fees_counted = rw e;
    rlp_counted = rw e;
    sidecars_collected = rw e;
    sidecars_matched = rw e tt;
    blobs_carried = rw e tt;
  }

  -- The payload that `seal` makes of a finished loop.
  abbrev pub sealed :
      LoadPayloadBuilderAttributes → LoopState I B → List Bytes → Block → LoadBuiltPayload Block
  sealed attrs s reqs block = record {
    inner = record {
      id = attrs.inner.id;
      block = block;
      fees = s.total_fees;
      sidecars = s.blob_sidecars;
      requests = then_some (spec.inner.active Hardfork.prague attrs.inner.timestamp) reqs;
    };
  }

  seal_better :
      (attrs : LoadPayloadBuilderAttributes) (best : Option (LoadBuiltPayload Block))
      (s : LoopState I B) {p : LoadBuiltPayload Block}
      → seal u c node spec config attrs best s ≡ ok (better p)
      → (reqs : List Bytes) × (block : Block) × (node.finish s.builder ≡ ok (reqs, block))
        × (p ≡ sealed attrs s reqs block)
  unfolding seal
  seal_better attrs best s h = elim (Bool-cases (node.is_better_payload best s.total_fees)) [
    | inl improved ↦
        let ((reqs, block), done, rest) =
          bind-eq-ok (map_err error (node.finish s.builder)) _ (rw improved at h) in
        (reqs, block, map_err-eq-ok error (node.finish s.builder) done, ground arith)
    | inr worse ↦ cc (rw worse at h)
  ]

  module _ (laws : CallLaws c) (node_laws : NodeLaws c node) (parent : Header)
      (attrs : LoadPayloadBuilderAttributes)
      (pool : (b : B) → PoolLaws c (limits_of u c node spec config attrs b)) where
    attributes_valid :
        validate_payload_attributes parent.timestamp attrs ≡ ok tt
        → (attrs.inner.prev_randao ≡ load_prevrandao) × (parent.timestamp < attrs.inner.timestamp)
    attributes_valid h = ground (arith, validate_payload_attributes_cases parent.timestamp attrs)

    built-IsLoadBlock :
        (fuel : ℕ) (best_payload : Option (LoadBuiltPayload Block)) (start ready : B)
        (r : LoopResult I B) {p : LoadBuiltPayload Block}
        → validate_payload_attributes parent.timestamp attrs ≡ ok tt
        → node.builder_for_next_block parent (next_env u c node spec config parent attrs) ≡ ok start
        → node.apply_pre_execution_changes start ≡ ok ready
        → select c
            (limits_of u c node spec config attrs start)
            fuel
            (first_state u c node spec config (asked_for node start) ready)
          ≡ r
        → conclude_build u c node spec config attrs best_payload r ≡ ok (better p)
        → IsLoadBlock u c node spec config parent attrs p
    unfolding conclude_build limits_of first_state
    built-IsLoadBlock fuel best_payload start ready (LoopResult.finished s) valid begun prepared e
          h =
        let (reqs, block, done, made) = seal_better attrs best_payload s h in
        let (randao, later) = attributes_valid valid in
        subst (IsLoadBlock u c node spec config parent attrs) (sym made) (record {
          start = start;
          ready = ready;
          last = s.builder;
          requests = reqs;
          started = begun;
          prepared = prepared;
          reached = select-Reaches c _ fuel (first_state u c node spec config best ready) s e;
          log = judged.0;
          selected = judged.1;
          chosen_all =
              Selects-chosen c _ laws judged.1
              ∙ rw (node_laws.starts_empty start ready prepared) refl;
          finished = done;
          fixed_randao = randao;
          later = later;
          blobs_capped = omega (arith, inv.blobs_counted, inv.blobs_capped);
          blobs_capped_1024 =
              omega (arith, inv.blobs_counted, inv.blobs_capped, cap-le attrs.inner.timestamp);
          gas_capped = omega (arith, inv.gas_counted, inv.gas_capped);
          fees = inv.fees_counted;
          sidecars = inv.sidecars_collected;
          every_sidecar = inv.sidecars_matched;
          every_blob = inv.blobs_carried;
          requests_kept = refl;
        })
      where
        best : I
        best = asked_for node start

        begins :
            Inv c
              (limits_of u c node spec config attrs start)
              (first_state u c node spec config best ready)
        begins = first-Inv _ best ready (node_laws.starts_empty start ready prepared)

        judged :
            (log : List (Tx × Verdict)) × Selects c
              (limits_of u c node spec config attrs start)
              best
              ready
              log
              s.builder
        judged =
            select-Judges c (limits_of u c node spec config attrs start) laws
              (node_laws.gas_limit_u64 start) (omega (arith, cap-le attrs.inner.timestamp))
              (pool start) fuel (first_state u c node spec config best ready) s begins e

        inv : Inv c (limits_of u c node spec config attrs start) s
        inv =
            select-Inv c (limits_of u c node spec config attrs start) laws
              (node_laws.gas_limit_u64 start) (omega (arith, cap-le attrs.inner.timestamp))
              (pool start) fuel (first_state u c node spec config best ready) s begins e
    built-IsLoadBlock fuel best_payload start ready LoopResult.cancelled valid begun prepared e h =
        cc
    built-IsLoadBlock fuel best_payload start ready (LoopResult.failed x) valid begun prepared e h =
        cc
    built-IsLoadBlock fuel best_payload start ready LoopResult.panicked valid begun prepared e h =
        cc
    built-IsLoadBlock fuel best_payload start ready LoopResult.out_of_fuel valid begun prepared e
          h =
        cc

    -- Whatever the pool offers and the execution returns, and with any fuel: a payload that
    -- `default_load_payload` gives as better is the finished block of a builder started on the
    -- requested environment, prepared, and led on by executing transactions alone. Of everything that
    -- the pool's iterator handed out until it was exhausted, the block has, in that order, what
    -- executed; the rest was left out by the execution, or unexecuted for a reason that held on the
    -- block at that moment: too little gas left, too large with it, over the cap of blobs, or no
    -- sidecar of the fork's kind in the pool. The block carries at most the cap's blobs, so 1024 at
    -- most, and uses at most its gas; the fees are the tips of exactly its transactions, modulo
    -- 2 ^ 256; it has the pool's sidecar of each blob transaction, of the fork's kind, in the order of
    -- the block; and its requests are there exactly from Prague on. The attributes had the constant
    -- randomness and a timestamp after the parent's.
    pub default_load_payload-IsLoadBlock :
        (fuel : ℕ) (best_payload : Option (LoadBuiltPayload Block)) (p : LoadBuiltPayload Block)
        → default_load_payload u c node spec config fuel parent attrs best_payload ≡ ok (better p)
        → IsLoadBlock u c node spec config parent attrs p
    unfolding default_load_payload
    default_load_payload-IsLoadBlock fuel best_payload p h =
        let (_, valid, h₁) =
          bind-eq-ok
            (map_err (λ e. error (invalid_attributes e))
              (validate_payload_attributes parent.timestamp attrs))
            _ h in
        let (_, _, h₂) = bind-eq-ok (map_err error (node.state_by_block_hash parent.hash)) _ h₁ in
        let (start, begun, h₃) =
          bind-eq-ok
            (map_err (λ e. error (other e))
              (node.builder_for_next_block parent (next_env u c node spec config parent attrs)))
            _ h₂ in
        let (ready, prepared, h₄) =
          bind-eq-ok (map_err (λ e. error (internal e)) (node.apply_pre_execution_changes start)) _
            h₃ in
        built-IsLoadBlock fuel best_payload start ready _ (map_err-eq-ok _ _ valid)
          (map_err-eq-ok _ _ begun) (map_err-eq-ok _ _ prepared) refl h₄
