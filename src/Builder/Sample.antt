-- ===== src/Builder/Sample.antt =====
-- A pool of two blob transactions, with calls of reth that are written out and keep its promises.
use load_reth.Common.{
  ℕ, zero, suc, ◌≡◌, refl, ◌≤◌, ◌<◌, Bool, true, false, Option, none, some, List, [], ◌∷◌, ◌++◌, ok,
  arith, length, ap, sym,
}
use load_reth.Prevrandao.{B256, load_prevrandao}
use load_reth.Chain.Types.{LoadChainSpec, Hardfork}
use load_reth.Chain.Blobs.{spec_of}
use load_reth.Chain.Tests.{minimal, reth}
use load_reth.Payload.Attributes.{LoadPayloadBuilderAttributes}
use load_reth.Payload.Built.{Sidecar, BlobSidecars, empty, eip4844, eip7594, LoadBuiltPayload}
use load_reth.Builder.Types.{
  Tx, SidecarVariant, legacy, cells, Execution, executed, invalid_tx, Calls, CallLaws, PoolLaws,
  IsFinite,
}
use load_reth.Builder.Build.{
  Header, Node, BuilderConfig, builder_config, compute_load_blob_cap, limits_of,
}
use load_reth.Builder.Rules.{asked_for, NodeLaws}
use load_reth.Builder.Envelope.{PushLaws}

abbrev pub sidecar : Sidecar
sidecar = record { blobs = (1 ∷ []) ∷ []; commitments = []; proofs = [] }

abbrev pub blob_tx : Tx
blob_tx = record {
  hash = 7 ∷ [];
  gas_limit = 21_000;
  rlp_length = 100;
  blob_versioned_hashes = some ((1 ∷ []) ∷ []);
  effective_tip_per_gas = λ base_fee. some 2;
}

-- An iterator that hands out the same transaction as often as its number says.
abbrev pub next : ℕ → Option (Tx × ℕ)
next zero = none
next (suc n) = some (blob_tx, n)

abbrev pub run : List (Tx × ℕ) → Tx → Option (List B256) → Execution × List (Tx × ℕ)
run b tx none = (executed tx.gas_limit, b ++ (tx, tx.gas_limit) ∷ [])
run b tx (some []) = (invalid_tx false, b)
run b tx (some (h ∷ hs)) = (executed tx.gas_limit, b ++ (tx, tx.gas_limit) ∷ [])

abbrev pub push_variant : BlobSidecars → SidecarVariant → BlobSidecars
push_variant empty (legacy v) = eip4844 (v ∷ [])
push_variant empty (cells v) = eip7594 (v ∷ [])
push_variant (eip4844 l) (legacy v) = eip4844 (l ++ v ∷ [])
push_variant (eip4844 l) (cells v) = eip4844 l
push_variant (eip7594 l) (legacy v) = eip7594 l
push_variant (eip7594 l) (cells v) = eip7594 (l ++ v ∷ [])

abbrev pub calls : Calls ℕ (List (Tx × ℕ))
calls = record {
  next = next;
  mark_invalid = λ i tx e. i;
  skip_blobs = λ i. i;
  execute_transaction = λ b tx. run b tx tx.blob_versioned_hashes;
  transactions = λ b. b;
  get_blob = λ hash. ok (some (legacy sidecar));
  push_sidecar_variant = push_variant;
  is_cancelled = λ look. false;
}

abbrev pub node : Node ℕ (List (Tx × ℕ)) (List (Tx × ℕ))
node = record {
  state_by_block_hash = λ hash. ok tt;
  builder_for_next_block = λ parent env. ok [];
  gas_limit_toward = λ desired parent. desired;
  block_gas_limit = λ b. 2_000_000_000;
  basefee = λ b. 7;
  blob_gasprice = λ b. none;
  best_transactions = λ base_fee blob_fee. 2;
  apply_pre_execution_changes = λ b. ok [];
  is_better_payload = λ best fees. true;
  finish = λ b. ok ([], b);
  rlp_length = λ block. 0;
  withdrawals_length = λ l. 1;
  max_rlp_block_size = 8_388_608;
}

used : {a b : ℕ} → executed a ≡ executed b → a ≡ b
used h = cc

run_laws :
    (b : List (Tx × ℕ)) (tx : Tx) (gas : ℕ) (o : Option (List B256))
    → (run b tx o).0 ≡ executed gas
    → ((run b tx o).1 ≡ b ++ (tx, gas) ∷ []) × (gas ≤ tx.gas_limit)
run_laws b tx gas none h = (ap (λ g. b ++ (tx, g) ∷ []) (used h), omega (arith, used h))
run_laws b tx gas (some []) h = cc
run_laws b tx gas (some (x ∷ xs)) h = (ap (λ g. b ++ (tx, g) ∷ []) (used h), omega (arith, used h))

run_kept :
    (b : List (Tx × ℕ)) (tx : Tx) (n : Bool) (o : Option (List B256))
    → (run b tx o).0 ≡ invalid_tx n
    → (run b tx o).1 ≡ b
run_kept b tx n none h = cc
run_kept b tx n (some []) h = refl
run_kept b tx n (some (x ∷ xs)) h = cc

run_blobs :
    (b : List (Tx × ℕ)) (tx : Tx) (gas : ℕ) (o : Option (List B256)) (hashes : List B256)
    → (run b tx o).0 ≡ executed gas
    → o ≡ some hashes
    → 0 < length hashes
run_blobs b tx gas none hashes h e = cc
run_blobs b tx gas (some []) hashes h e = cc
run_blobs b tx gas (some (x ∷ xs)) [] h e = cc
run_blobs b tx gas (some (x ∷ xs)) (y ∷ ys) h e = omega arith

pub call_laws : CallLaws calls
call_laws = record {
  block_grows = λ b tx gas h. (run_laws b tx gas tx.blob_versioned_hashes h).0;
  gas_within_limit = λ b tx gas h. (run_laws b tx gas tx.blob_versioned_hashes h).1;
  blob_tx_has_blobs = λ b tx gas hashes. run_blobs b tx gas tx.blob_versioned_hashes hashes;
  block_kept = λ b tx n. run_kept b tx n tx.blob_versioned_hashes;
}

first : {a b : Tx × ℕ} → some a ≡ some b → a ≡ b
first h = cc

pub handed_out :
    (i : ℕ) (tx : Tx) (rest : ℕ) → next i ≡ some (tx, rest) → (tx ≡ blob_tx) × (rest < i)
handed_out zero tx rest h = cc
handed_out (suc n) tx rest h =
    (sym (ap (λ p. p.0) (first h)), omega (arith, ap (λ p. p.1) (first h)))

pub finite : IsFinite calls (λ i. i)
finite = record {
  next_falls = λ i tx rest h. (handed_out i tx rest h).1;
  mark_invalid_keeps = λ i tx e. omega arith;
  skip_blobs_keeps = λ i. omega arith;
}

pub node_laws : NodeLaws calls node
node_laws = record { starts_empty = λ b ready h. cc; gas_limit_u64 = λ b. omega arith }

pub push_laws : PushLaws calls
push_laws = record { first_pushed = λ v. refl; next_pushed = λ l v. refl }

abbrev pub spec : LoadChainSpec
spec = spec_of reth minimal

abbrev pub config : BuilderConfig
unfolding builder_config
config = builder_config none

abbrev pub parent : Header
parent = record { hash = 1 ∷ []; number = 4; timestamp = 10; gas_limit = 2_000_000_000 }

abbrev pub attrs : LoadPayloadBuilderAttributes
attrs = record {
  inner = record {
    id = 3;
    parent = 1 ∷ [];
    timestamp = 12;
    suggested_fee_recipient = [];
    prev_randao = load_prevrandao;
    withdrawals = [];
    parent_beacon_block_root = none;
  };
}

pub pool_laws : (b : List (Tx × ℕ)) → PoolLaws calls (limits_of reth calls node spec config attrs b)
unfolding limits_of compute_load_blob_cap
pool_laws b = record {
  gas_in_range = λ i tx rest h. rw ((handed_out i tx rest h).0) (omega arith);
  blobs_in_range = λ i tx rest h. rw ((handed_out i tx rest h).0) (omega arith);
}

pub before_osaka : spec.inner.active Hardfork.osaka attrs.inner.timestamp ≡ false
before_osaka = refl

pub two_left : (b : List (Tx × ℕ)) → asked_for node b < 3
two_left b = omega arith

abbrev pub payload : LoadBuiltPayload (List (Tx × ℕ))
payload = record {
  inner = record {
    id = 3;
    block = (blob_tx, 21_000) ∷ (blob_tx, 21_000) ∷ [];
    fees = 84_000;
    sidecars = eip4844 (sidecar ∷ sidecar ∷ []);
    requests = some [];
  };
}
