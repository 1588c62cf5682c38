-- ===== src/Node/Network.antt =====
-- `LoadNetworkBuilder::build_network` of src/node/mod.rs.
use load_reth.Common.{ℕ, ◌*◌, Result, ok, ◌>>=◌, String}
use load_reth.Chain.Types.{load_max_blobs_per_tx}

-- `BYTES_PER_BLOB` of alloy is the parameter.
unfoldable pub load_pooled_tx_soft_limit_bytes : ℕ → ℕ
load_pooled_tx_soft_limit_bytes bytes_per_blob = load_max_blobs_per_tx * bytes_per_blob

-- reth's settings, of which the builder writes three; `X` is the rest of each.
pub record TransactionFetcherConfig (X : Type 0) : Type 0 where
  pub soft_limit_byte_size_pooled_transactions_response : ℕ
  pub soft_limit_byte_size_pooled_transactions_response_on_pack_request : ℕ
  pub rest : X

pub record TransactionsManagerConfig (X : Type 0) : Type 0 where
  pub transaction_fetcher_config : TransactionFetcherConfig X
  pub rest : X

pub record HelloMessage (X : Type 0) : Type 0 where
  pub client_version : String
  pub rest : X

pub record NetworkConfig (X : Type 0) : Type 0 where
  pub hello_message : HelloMessage X
  pub rest : X

-- The calls of reth: on the context of the node, and on the network's builders `N` and `B`.
pub record NetworkCalls (X N B Pool Handle : Type 0) : Type 0 where
  pub network_config_builder : Result String N
  pub transactions_manager_config : TransactionsManagerConfig X
  pub with_transactions_manager_config : N → TransactionsManagerConfig X → N
  pub build_network_config : N → NetworkConfig X
  pub manager_builder : NetworkConfig X → Result String B
  pub start_network : B → Pool → Handle

-- The two writes to the transactions manager's settings.
unfoldable pub with_soft_limits :
    {X : Type 0} → ℕ → TransactionsManagerConfig X → TransactionsManagerConfig X
with_soft_limits limit tx_config = record tx_config {
  transaction_fetcher_config = record tx_config.transaction_fetcher_config {
    soft_limit_byte_size_pooled_transactions_response = limit;
    soft_limit_byte_size_pooled_transactions_response_on_pack_request = limit;
  };
}

-- `version` is `load_client_version_string()`.
unfoldable pub with_client_version : {X : Type 0} → String → NetworkConfig X → NetworkConfig X
with_client_version version config = record config {
  hello_message = record config.hello_message { client_version = version };
}

unfoldable pub build_network :
    {X N B Pool Handle : Type 0}
    → NetworkCalls X N B Pool Handle
    → ℕ
    → String
    → Pool
    → Result String Handle
build_network c bytes_per_blob version pool = do
  network_builder ← c.network_config_builder
  let tx_config =
      with_soft_limits (load_pooled_tx_soft_limit_bytes bytes_per_blob)
        c.transactions_manager_config
  let network_config =
      with_client_version version
        (c.build_network_config (c.with_transactions_manager_config network_builder tx_config))
  builder ← c.manager_builder network_config
  ok (c.start_network builder pool)
