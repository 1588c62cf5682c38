-- ===== src/Builder/Rules.antt =====
-- The rules of a built payload, and what is relied on of the builder of a block.
use load_reth.Common.{◌%◌, ◌≡◌, ◌≤◌, ◌<◌, List, [], ok, sum_of, All, u64_mod, u256_mod, then_some}
use mathlib.Core.Option
use load_reth.Prevrandao.{load_prevrandao}
use load_reth.Chain.Types.{LoadChainSpec, Upstream, Hardfork, load_max_blob_count}
use load_reth.Payload.Attributes.{LoadPayloadBuilderAttributes}
use load_reth.Payload.Built.{Bytes, empty, LoadBuiltPayload}
use load_reth.Builder.Types.{Tx, Calls}
use load_reth.Builder.Totals.{fee, blobs, gas_used, HasSidecar, CarriesBlob, collect}
use load_reth.Builder.Selection.{Verdict, chosen, Selects}
use load_reth.Builder.Reaches.{Reaches}
use load_reth.Builder.Build.{
  Header, Node, BuilderConfig, compute_load_blob_cap, next_env, limits_of,
}

-- reth's promises on the builder of a block: it starts out empty, and its gas limit is a `u64`.
pub record NodeLaws {I B Block : Type 0} (c : Calls I B) (node : Node I B Block) : Type 0 where
  pub starts_empty :
      (b ready : B) → node.apply_pre_execution_changes b ≡ ok ready → c.transactions ready ≡ []
  pub gas_limit_u64 : (b : B) → node.block_gas_limit b < u64_mod

-- What the build asks the pool for, on the builder `b`.
abbrev pub asked_for : {I B Block : Type 0} → Node I B Block → B → I
asked_for node b =
    node.best_transactions (node.basefee b)
      (Option.map (λ gasprice. gasprice % u64_mod) (node.blob_gasprice b))

module _ {I B Block : Type 0} (u : Upstream) (c : Calls I B) (node : Node I B Block)
    (spec : LoadChainSpec) (config : BuilderConfig) where
  -- A payload for the attributes `attrs`: it is the finished block of a builder whose transactions
  -- stay within the caps, and its fees, sidecars and requests are theirs.
  pub record IsLoadBlock (parent : Header) (attrs : LoadPayloadBuilderAttributes)
      (p : LoadBuiltPayload Block) : Type 0 where
    pub start : B
    pub ready : B
    pub last : B
    pub requests : List Bytes
    pub started :
        node.builder_for_next_block parent (next_env u c node spec config parent attrs) ≡ ok start
    pub prepared : node.apply_pre_execution_changes start ≡ ok ready
    pub reached : Reaches c.execute_transaction ready last
    pub log : List (Tx × Verdict)
    pub selected :
        Selects c (limits_of u c node spec config attrs start) (asked_for node start) ready log last
    pub chosen_all : c.transactions last ≡ chosen log
    pub finished : node.finish last ≡ ok (requests, p.inner.block)
    pub fixed_randao : attrs.inner.prev_randao ≡ load_prevrandao
    pub later : parent.timestamp < attrs.inner.timestamp
    pub blobs_capped :
        sum_of blobs (c.transactions last) ≤ compute_load_blob_cap u spec attrs.inner.timestamp
    pub blobs_capped_1024 : sum_of blobs (c.transactions last) ≤ load_max_blob_count
    pub gas_capped : sum_of gas_used (c.transactions last) ≤ node.block_gas_limit start
    pub fees : p.inner.fees ≡ sum_of (fee (node.basefee start)) (c.transactions last) % u256_mod
    pub sidecars :
        p.inner.sidecars
        ≡ collect c (limits_of u c node spec config attrs start) empty (c.transactions last)
    pub every_sidecar :
        All (HasSidecar c (limits_of u c node spec config attrs start)) (c.transactions last)
    pub every_blob :
        All (CarriesBlob c (limits_of u c node spec config attrs start)) (c.transactions last)
    pub requests_kept :
        p.inner.requests
        ≡ then_some (spec.inner.active Hardfork.prague attrs.inner.timestamp) requests
