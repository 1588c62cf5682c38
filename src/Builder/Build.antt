-- ===== src/Builder/Build.antt =====
-- `default_load_payload` around its loop, `LoadPayloadBuilder` and `LoadPayloadServiceBuilder`.
use load_reth.Common.{
  ℕ, ◌%◌, Bool, true, false, not, ◌&&◌, Option, none, some, List, Result, ok, err, ◌>>=◌, ◌>>◌,
  map_err, String, ltb, if◌then◌else◌, min, unwrap_or, then_some, u64_mod,
}
use mathlib.Core.Option
use load_reth.Prevrandao.{B256}
use load_reth.Chain.Types.{
  LoadChainSpec, Upstream, Hardfork, load_max_blob_count, load_execution_gas_limit,
}
use load_reth.Payload.Attributes.{
  Withdrawal, LoadPayloadBuilderAttributes, validate_payload_attributes,
}
use load_reth.Payload.Built.{Bytes, empty, LoadBuiltPayload}
use load_reth.Builder.Types.{
  Calls, Limits, LoopState, PayloadBuilderError, other, invalid_attributes, internal,
  block_too_large, missing_payload, LoopResult,
}
use load_reth.Builder.Loop.{select}

pub record Header : Type 0 where
  pub hash : B256
  pub number : ℕ
  pub timestamp : ℕ
  pub gas_limit : ℕ

-- reth's `NextBlockEnvAttributes`
pub record NextBlockEnv : Type 0 where
  pub timestamp : ℕ
  pub suggested_fee_recipient : Bytes
  pub prev_randao : B256
  pub gas_limit : ℕ
  pub parent_beacon_block_root : Option B256
  pub withdrawals : Option (List Withdrawal)
  pub extra_data : Bytes

-- `EthereumBuilderConfig`, the two settings that the source makes.
pub record BuilderConfig : Type 0 where
  pub desired_gas_limit : ℕ
  pub await_payload_on_missing : Bool

pub data MissingPayloadBehaviour : Type 0 where
  await_in_progress race_empty_payload : MissingPayloadBehaviour

-- `fees` of an aborted build; the cached reads that reth returns beside it are left out.
pub data BuildOutcome (Block : Type 0) : Type 0 where
  better : LoadBuiltPayload Block → BuildOutcome Block
  aborted : (fees : ℕ) → BuildOutcome Block
  cancelled : BuildOutcome Block

-- `out_of_fuel` is the model's.
pub data BuildFailure : Type 0 where
  error : PayloadBuilderError → BuildFailure
  panicked : BuildFailure
  out_of_fuel : BuildFailure

-- What the build calls of reth. `gas_limit_toward` is `EthereumBuilderConfig::gas_limit` at the
-- desired and the parent's limit; the three readers are those of the block environment.
pub record Node (I B Block : Type 0) : Type 0 where
  pub state_by_block_hash : B256 → Result PayloadBuilderError (Unit {0})
  pub builder_for_next_block : Header → NextBlockEnv → Result String B
  pub gas_limit_toward : ℕ → ℕ → ℕ
  pub block_gas_limit : B → ℕ
  pub basefee : B → ℕ
  pub blob_gasprice : B → Option ℕ
  pub best_transactions : ℕ → Option ℕ → I
  pub apply_pre_execution_changes : B → Result String B
  pub is_better_payload : Option (LoadBuiltPayload Block) → ℕ → Bool
  pub finish : B → Result PayloadBuilderError (List Bytes × Block)
  pub rlp_length : Block → ℕ
  pub withdrawals_length : List Withdrawal → ℕ
  pub max_rlp_block_size : ℕ

unfoldable pub compute_load_blob_cap : Upstream → LoadChainSpec → ℕ → ℕ
compute_load_blob_cap u spec timestamp =
    min
      (unwrap_or
        (Option.map (λ p. p.max_blob_count) (u.blob_params_at_timestamp spec.inner timestamp))
        load_max_blob_count)
      load_max_blob_count

-- `build_payload_builder`; the argument is the operator's own setting.
unfoldable pub builder_config : Option ℕ → BuilderConfig
builder_config gas_limit = record {
  desired_gas_limit = unwrap_or gas_limit load_execution_gas_limit;
  await_payload_on_missing = true;
}

unfoldable pub on_missing_payload : BuilderConfig → MissingPayloadBehaviour
on_missing_payload config =
    if config.await_payload_on_missing then await_in_progress else race_empty_payload

module _ {I B Block : Type 0} (u : Upstream) (c : Calls I B) (node : Node I B Block)
    (spec : LoadChainSpec) (config : BuilderConfig) where
  unfoldable pub next_env : Header → LoadPayloadBuilderAttributes → NextBlockEnv
  next_env parent attrs = record {
    timestamp = attrs.inner.timestamp;
    suggested_fee_recipient = attrs.inner.suggested_fee_recipient;
    prev_randao = attrs.inner.prev_randao;
    gas_limit = node.gas_limit_toward config.desired_gas_limit parent.gas_limit;
    parent_beacon_block_root = attrs.inner.parent_beacon_block_root;
    withdrawals = some attrs.inner.withdrawals;
    extra_data = spec.inner.genesis.extra_data;
  }

  -- What the loop reads and never writes; `b` is the builder before any change.
  unfoldable pub limits_of : LoadPayloadBuilderAttributes → B → Limits
  limits_of attrs b = record {
    block_gas_limit = node.block_gas_limit b;
    base_fee = node.basefee b;
    max_blob_count = compute_load_blob_cap u spec attrs.inner.timestamp;
    is_osaka = spec.inner.active Hardfork.osaka attrs.inner.timestamp;
    withdrawals_length = node.withdrawals_length attrs.inner.withdrawals;
    max_rlp_block_size = node.max_rlp_block_size;
  }

  unfoldable pub first_state : I → B → LoopState I B
  first_state best_txs b = record {
    best_txs = best_txs;
    builder = b;
    cumulative_gas_used = 0;
    total_fees = 0;
    blob_sidecars = empty;
    block_blob_count = 0;
    block_transactions_rlp_length = 0;
    looks = 0;
  }

  -- From the finished loop to the payload.
  unfoldable pub seal :
      LoadPayloadBuilderAttributes
      → Option (LoadBuiltPayload Block)
      → LoopState I B
      → Result BuildFailure (BuildOutcome Block)
  seal attrs best_payload s =
      if not (node.is_better_payload best_payload s.total_fees)
      then ok (aborted s.total_fees)
      else (do
        (execution_requests, block) ← map_err error (node.finish s.builder)
        if spec.inner.active Hardfork.osaka attrs.inner.timestamp
              && ltb node.max_rlp_block_size (node.rlp_length block)
            then err (error (block_too_large (node.rlp_length block) node.max_rlp_block_size))
            else ok (
                better (record {
                  inner = record {
                    id = attrs.inner.id;
                    block = block;
                    fees = s.total_fees;
                    sidecars = s.blob_sidecars;
                    requests =
                        then_some (spec.inner.active Hardfork.prague attrs.inner.timestamp)
                          execution_requests;
                  };
                })))

  -- What each end of the loop makes of the build.
  unfoldable pub conclude_build :
      LoadPayloadBuilderAttributes
      → Option (LoadBuiltPayload Block)
      → LoopResult I B
      → Result BuildFailure (BuildOutcome Block)
  conclude_build attrs best_payload (LoopResult.finished s) = seal attrs best_payload s
  conclude_build attrs best_payload LoopResult.cancelled = ok cancelled
  conclude_build attrs best_payload (LoopResult.failed e) = err (error e)
  conclude_build attrs best_payload LoopResult.panicked = err panicked
  conclude_build attrs best_payload LoopResult.out_of_fuel = err out_of_fuel

  unfoldable pub default_load_payload :
      ℕ
      → Header
      → LoadPayloadBuilderAttributes
      → Option (LoadBuiltPayload Block)
      → Result BuildFailure (BuildOutcome Block)
  default_load_payload fuel parent attrs best_payload = do
    map_err (λ e. error (invalid_attributes e)) (validate_payload_attributes parent.timestamp attrs)
    map_err error (node.state_by_block_hash parent.hash)
    b ← map_err (λ e. error (other e)) (node.builder_for_next_block parent (next_env parent attrs))
    let best =
        node.best_transactions (node.basefee b)
          (Option.map (λ gasprice. gasprice % u64_mod) (node.blob_gasprice b))
    ready ← map_err (λ e. error (internal e)) (node.apply_pre_execution_changes b)
    conclude_build attrs best_payload (select c (limits_of attrs b) fuel (first_state best ready))

-- `build_empty_payload`, with a fresh cancellation mark that nobody sets; `into_payload` is reth's
-- method of `BuildOutcome`.
unfoldable pub build_empty_payload :
    {I B Block : Type 0}
    → Upstream
    → Calls I B
    → Node I B Block
    → LoadChainSpec
    → BuilderConfig
    → (BuildOutcome Block → Option (LoadBuiltPayload Block))
    → ℕ
    → Header
    → LoadPayloadBuilderAttributes
    → Result BuildFailure (LoadBuiltPayload Block)
build_empty_payload u c node spec config into_payload fuel parent attrs = do
  outcome ←
      default_load_payload u (record c { is_cancelled = λ _. false }) node spec config fuel parent
        attrs none
  elim (into_payload outcome) [ none ↦ err (error missing_payload) | some payload ↦ ok payload ]
