-- ===== src/Builder/Empty.antt =====
-- What the empty payload of the builder satisfies.
use load_reth.Common.{
  ℕ, ◌≡◌, false, Option, none, some, Result, ok, bind-eq-ok, Option-cases, inl, inr,
}
use load_reth.Chain.Types.{LoadChainSpec, Upstream}
use load_reth.Payload.Attributes.{LoadPayloadBuilderAttributes}
use load_reth.Payload.Built.{LoadBuiltPayload}
use load_reth.Builder.Types.{Calls, CallLaws, PoolLaws}
use load_reth.Builder.Build.{
  Header, Node, BuilderConfig, BuildFailure, BuildOutcome, better, limits_of, default_load_payload,
  build_empty_payload,
}
use load_reth.Builder.Rules.{NodeLaws, IsLoadBlock}
use load_reth.Builder.Block.{default_load_payload-IsLoadBlock}

-- The calls with a cancellation mark that nobody sets.
abbrev pub uncancelled : {I B : Type 0} → Calls I B → Calls I B
uncancelled c = record c { is_cancelled = λ _. false }

-- What `build_empty_payload` returns is a finished block of `default_load_payload`, under the same
-- rules, where `into_payload` takes payloads from better outcomes alone.
pub build_empty_payload-IsLoadBlock :
    {I B Block : Type 0} (u : Upstream) (c : Calls I B) (node : Node I B Block)
    (spec : LoadChainSpec) (config : BuilderConfig)
    (into_payload : BuildOutcome Block → Option (LoadBuiltPayload Block)) (fuel : ℕ)
    (parent : Header) (attrs : LoadPayloadBuilderAttributes) (p : LoadBuiltPayload Block)
    → CallLaws (uncancelled c)
    → NodeLaws (uncancelled c) node
    → ((b : B) → PoolLaws (uncancelled c) (limits_of u (uncancelled c) node spec config attrs b))
    → ((o : BuildOutcome Block) (q : LoadBuiltPayload Block)
        → into_payload o ≡ some q
        → o ≡ better q)
    → build_empty_payload u c node spec config into_payload fuel parent attrs ≡ ok p
    → IsLoadBlock u (uncancelled c) node spec config parent attrs p
unfolding build_empty_payload
build_empty_payload-IsLoadBlock u c node spec config into_payload fuel parent attrs p laws node_laws
      pool only_better h =
    let (outcome, built, rest) =
      bind-eq-ok (default_load_payload u (uncancelled c) node spec config fuel parent attrs none) _
        h in
    default_load_payload-IsLoadBlock u (uncancelled c) node spec config laws node_laws parent attrs
      pool fuel none p
      (elim (Option-cases (into_payload outcome)) [
        | inl nothing ↦ cc (rw nothing at rest)
        | inr (q, there) ↦
            let same : Path (Result (BuildFailure) (LoadBuiltPayload _)) (ok q) (ok p) =
              rw there at rest in
            cc (only_better outcome q there, same)
      ])
