-- ===== src/Cycle/Simulated.antt =====
-- An engine around the sample node that runs the builder on forkchoiceUpdated, keeps the payload,
-- and runs the validator on newPayload; and a slot of it.
use mathlib.Core.Option
use load_reth.Common.{
  true, Bool, ◌+◌, ◌==◌, then_some, ℕ, ◌≡◌, Option, none, some, List, [], Result, ok, err, false,
  String,
}
use load_reth.Prevrandao.{slice_eq}
use load_reth.Chain.Tests.{reth}
use load_reth.Payload.Attributes.{LoadPayloadAttributes, LoadPayloadBuilderAttributes, try_new}
use load_reth.Payload.Built.{Bytes, LoadBuiltPayload, Conversions, try_into_v4}
use load_reth.Payload.Execution.{ExecutionPayloadV3}
use load_reth.Payload.Tests.{Side, alloy, asked, eth_try_new}
use load_reth.Validator.Defs.{
  EngineApiMessageVersion, payload_attributes, convert_payload_to_block,
  validate_version_specific_fields,
}
use load_reth.Builder.Build.{Header, BuildFailure, BuildOutcome, better, default_load_payload}
use load_reth.Builder.Sample.{spec, config, parent}
use load_reth.Rpc.Types.{EngineApiError, internal, Answers, Engine, Server}
use load_reth.Cycle.Tests.{Block, checks}
use load_reth.Cycle.Engine.{EngineView}
use load_reth.Cycle.Devnet.{dev_calls, dev_node, header}

-- The clock, the header that is imported last, and the last job.
record World : Type 0 where
  clock : ℕ
  imported : Header
  job : Option (LoadPayloadBuilderAttributes × LoadBuiltPayload Block)

abbrev Envelope : Type 0
Envelope = ExecutionPayloadV3 × List Bytes

abbrev answers : Answers
answers = record {
  PayloadStatus = Option Block;
  ForkchoiceState = Header;
  ForkchoiceUpdated = Option ℕ;
  Envelope = λ v. Envelope;
  Bodies = Unit;
  BlobAndProofV1 = Unit;
  BlobAndProofV2 = Unit;
  ClientVersion = Unit;
  Capabilities = List String;
}

abbrev listed : Option (List Bytes) → List Bytes
listed none = []
listed (some l) = l

abbrev conversions : Conversions Block ExecutionPayloadV3 Envelope Unit
conversions = record {
  hash = λ block. [];
  from_block_unchecked = λ hash block. block.0;
  bundle_empty = record { commitments = []; proofs = []; blobs = [] };
  bundle_from = λ l. record { commitments = []; proofs = []; blobs = [] };
  to_v4 = λ p. ok (p.block.0, listed p.requests);
  to_v5 = λ p. ok tt;
}

abbrev better_of : Result BuildFailure (BuildOutcome Block) → Option (LoadBuiltPayload Block)
better_of (ok (better p)) = some p
better_of _ = none

abbrev job_of :
    {E F : Type 0}
    → Bool
    → Header
    → Result E (Unit {0})
    → Result F LoadPayloadBuilderAttributes
    → Option (LoadPayloadBuilderAttributes × LoadBuiltPayload Block)
job_of true head (ok _) (ok attrs) =
    Option.map (λ p. (attrs, p))
      (better_of (default_load_payload reth dev_calls dev_node spec config 3 head attrs none))
job_of _ head _ _ = none

abbrev keep :
    World
    → Option (LoadPayloadBuilderAttributes × LoadBuiltPayload Block)
    → Result EngineApiError (Option ℕ) × World
keep w none = (ok none, w)
keep w (some (attrs, p)) = (ok (some p.inner.id), record w { job = some (attrs, p) })

-- Without the head the answer has no identifier: the engine syncs.
abbrev start_job :
    EngineApiMessageVersion
    → Header
    → Option LoadPayloadAttributes
    → World
    → Result EngineApiError (Option ℕ) × World
start_job version head none w = (ok none, w)
start_job version head (some asked) w = keep w (
    job_of (slice_eq head.hash w.imported.hash) head
      (validate_version_specific_fields alloy checks spec version (payload_attributes asked))
      (try_new eth_try_new head.hash asked 3))

abbrev answer : {E A : Type 0} → Result E A → Result EngineApiError A
answer (ok a) = ok a
answer (err e) = err (internal "refused")

abbrev get_job :
    Option (LoadPayloadBuilderAttributes × LoadBuiltPayload Block) → Result EngineApiError Envelope
get_job none = err (internal "unknown payload")
get_job (some (attrs, p)) = answer (try_into_v4 conversions p)

-- A block of the next number is valid; of any other the engine says that it syncs.
abbrev judge : World → {E : Type 0} → Result E Block → Result EngineApiError (Option Block)
judge w (ok block) = ok (then_some ((header block).number == w.imported.number + 1) block)
judge w (err e) = err (internal "refused")

abbrev engine : Engine World Side answers
engine = record {
  now = λ w. w.clock;
  unix_seconds = λ w. w.clock;
  is_syncing = λ w. false;
  chain_spec = spec;
  new_payload_metered =
      λ v payload w. (judge w (convert_payload_to_block alloy checks spec payload), w);
  fork_choice_updated_metered = start_job;
  get_payload_metered = λ v id w. (get_job w.job, w);
  get_payload_bodies_by_hash_metered = λ hashes w. (ok tt, w);
  get_payload_bodies_by_range_metered = λ start count w. (ok tt, w);
  get_client_version = λ v. ok [];
  capabilities = [];
  add_capability = λ caps cap. caps;
  list = λ caps. caps;
  get_blobs_v1_of_pool = λ w hashes. ok [];
  get_blobs_v2_of_pool = λ w hashes. ok none;
  get_blobs_v3_of_pool = λ w hashes. ok [];
}

abbrev view : EngineView World Block Envelope answers
view = record {
  head = λ head. head;
  HasHead = λ w h. w.imported ≡ h;
  payload_id = λ upd. upd;
  job = λ w id. w.job;
  body = λ env. env.0;
  execution_requests = λ env. env.1;
  envelope = λ env. env;
  valid = λ block. some block;
  beacon_root = λ block. [];
}

abbrev server : Server World
server = record {
  metrics = record {
    forkchoice_latency = [];
    get_payload_latency = [];
    new_payload_latency = [];
    get_blobs_requests = 0;
    get_blobs_hits = 0;
    get_blobs_misses = 0;
  };
  world = record { clock = 2_000; imported = parent; job = none };
}
