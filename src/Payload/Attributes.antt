-- ===== src/Payload/Attributes.antt =====
-- The payload attributes: what the consensus layer sends, what the builder keeps, and their guards.
use load_reth.Common.{
  ℕ, Option, List, [], Result, ok, err, ◌>>◌, map_err, String, leb, if◌then◌else◌, then_some,
  replicate, add64,
}
use load_reth.Prevrandao.{B256, load_prevrandao, is_load_prev_randao}
use load_reth.Chain.Types.{LoadChainSpec, Hardfork}

unfoldable pub validate_prev_randao : B256 → Result String (Unit {0})
unfolding is_load_prev_randao
validate_prev_randao prev_randao =
    if is_load_prev_randao prev_randao
    then ok tt
    else err "prev_randao must be constant 0x01 for Load"

-- The timestamp error holds the two numbers that its message is formatted from.
pub data LoadPayloadAttributesError : Type 0 where
  invalid_prev_randao : String → LoadPayloadAttributesError
  invalid_timestamp : (timestamp parent_timestamp : ℕ) → LoadPayloadAttributesError

-- EIP-4895
pub record Withdrawal : Type 0 where
  pub index : ℕ
  pub validator_index : ℕ
  pub address : List ℕ
  pub amount : ℕ

-- alloy's `PayloadAttributes`
pub record EthPayloadAttributes : Type 0 where
  pub timestamp : ℕ
  pub prev_randao : B256
  pub suggested_fee_recipient : List ℕ
  pub withdrawals : Option (List Withdrawal)
  pub parent_beacon_block_root : Option B256

pub record LoadPayloadAttributes : Type 0 where
  pub inner : EthPayloadAttributes

-- reth's builder attributes
pub record EthPayloadBuilderAttributes : Type 0 where
  pub id : ℕ
  pub parent : B256
  pub timestamp : ℕ
  pub suggested_fee_recipient : List ℕ
  pub prev_randao : B256
  pub withdrawals : List Withdrawal
  pub parent_beacon_block_root : Option B256

pub record LoadPayloadBuilderAttributes : Type 0 where
  pub inner : EthPayloadBuilderAttributes

-- `EthPayloadBuilderAttributes::try_new`, which the source calls infallible.
abbrev pub EthTryNew : Type 0
EthTryNew = B256 → EthPayloadAttributes → ℕ → EthPayloadBuilderAttributes

-- It copies the timestamp and the randomness.
pub record TryNewLaws (eth_try_new : EthTryNew) : Type 0 where
  pub timestamp_kept :
      (parent : B256) (a : EthPayloadAttributes) (v : ℕ)
      → Path ℕ (eth_try_new parent a v).timestamp a.timestamp
  pub prev_randao_kept :
      (parent : B256) (a : EthPayloadAttributes) (v : ℕ)
      → Path B256 (eth_try_new parent a v).prev_randao a.prev_randao

unfoldable pub try_new :
    EthTryNew
    → B256
    → LoadPayloadAttributes
    → ℕ
    → Result LoadPayloadAttributesError LoadPayloadBuilderAttributes
try_new eth_try_new parent rpc_payload_attributes version = do
  let inner = eth_try_new parent rpc_payload_attributes.inner version
  map_err invalid_prev_randao (validate_prev_randao inner.prev_randao)
  ok (record { inner = inner })

unfoldable pub validate_payload_attributes :
    ℕ → LoadPayloadBuilderAttributes → Result LoadPayloadAttributesError (Unit {0})
validate_payload_attributes parent_timestamp attrs = do
  map_err invalid_prev_randao (validate_prev_randao attrs.inner.prev_randao)
  if leb attrs.inner.timestamp parent_timestamp
      then err (invalid_timestamp attrs.inner.timestamp parent_timestamp)
      else ok tt

-- `LoadLocalPayloadAttributesBuilder::build`; `root` is what `B256::random` returned.
unfoldable pub build_local : LoadChainSpec → B256 → ℕ → LoadPayloadAttributes
build_local chain_spec root parent_timestamp =
    let timestamp = add64 parent_timestamp 1 in
    record {
      inner = record {
        timestamp = timestamp;
        prev_randao = load_prevrandao;
        suggested_fee_recipient = replicate 20 0;
        withdrawals = then_some (chain_spec.inner.active Hardfork.shanghai timestamp) [];
        parent_beacon_block_root =
            then_some (chain_spec.inner.active Hardfork.cancun timestamp) root;
      };
    }
