-- ===== src/Chain/Delegations.antt =====
-- The traits that src/chainspec/mod.rs implements by the specification it wraps.
use load_reth.Common.{ℕ, Option, List}
use mathlib.Core.Option
use load_reth.Prevrandao.{B256}
use load_reth.Chain.Types.{Genesis, BlobParams, ChainSpec, LoadChainSpec, Upstream}

-- alloy's `Address`, as its bytes.
abbrev pub Address : Type 0
Address = List ℕ

pub record DepositContract : Type 0 where
  pub address : Address
  pub block : ℕ
  pub topic : B256

-- reth's types that the methods only hand on.
pub record SpecAnswers : Type 1 where
  pub BaseFeeParams : Type 0
  pub GenesisHeader : Type 0
  pub Hardforks : Type 0
  pub NodeRecord : Type 0
  pub Fork : Type 0
  pub ForkCondition : Type 0
  pub Head : Type 0
  pub ForkId : Type 0
  pub ForkFilter : Type 0

-- reth's methods of `ChainSpec`, beside those that are its fields here.
pub record SpecCalls (T : SpecAnswers) : Type 0 where
  pub base_fee_params_at_timestamp : ChainSpec → ℕ → T.BaseFeeParams
  pub deposit_contract : ChainSpec → Option DepositContract
  pub genesis_hash : ChainSpec → B256
  pub prune_delete_limit : ChainSpec → ℕ
  pub display_hardforks : ChainSpec → T.Hardforks
  pub genesis_header : ChainSpec → T.GenesisHeader
  pub bootnodes : ChainSpec → Option (List T.NodeRecord)
  pub final_paris_total_difficulty : ChainSpec → Option ℕ
  pub ethereum_fork_activation : ChainSpec → T.Fork → T.ForkCondition
  pub fork : ChainSpec → T.Fork → T.ForkCondition
  pub forks_iter : ChainSpec → List (T.Fork × T.ForkCondition)
  pub fork_id : ChainSpec → T.Head → T.ForkId
  pub latest_fork_id : ChainSpec → T.ForkId
  pub fork_filter : ChainSpec → T.Head → T.ForkFilter

-- `EthChainSpec`, `EthExecutorSpec`, `EthereumHardforks` and `Hardforks` of `LoadChainSpec`.
module _ {T : SpecAnswers} (u : Upstream) (r : SpecCalls T) (s : LoadChainSpec) where
  unfoldable pub chain : ℕ
  chain = s.inner.chain

  unfoldable pub base_fee_params_at_timestamp : ℕ → T.BaseFeeParams
  base_fee_params_at_timestamp timestamp = r.base_fee_params_at_timestamp s.inner timestamp

  unfoldable pub blob_params_at_timestamp : ℕ → Option BlobParams
  blob_params_at_timestamp timestamp = u.blob_params_at_timestamp s.inner timestamp

  unfoldable pub deposit_contract : Option DepositContract
  deposit_contract = r.deposit_contract s.inner

  unfoldable pub genesis_hash : B256
  genesis_hash = r.genesis_hash s.inner

  unfoldable pub prune_delete_limit : ℕ
  prune_delete_limit = r.prune_delete_limit s.inner

  unfoldable pub display_hardforks : T.Hardforks
  display_hardforks = r.display_hardforks s.inner

  unfoldable pub genesis_header : T.GenesisHeader
  genesis_header = r.genesis_header s.inner

  unfoldable pub genesis : Genesis
  genesis = s.inner.genesis

  unfoldable pub bootnodes : Option (List T.NodeRecord)
  bootnodes = r.bootnodes s.inner

  unfoldable pub final_paris_total_difficulty : Option ℕ
  final_paris_total_difficulty = r.final_paris_total_difficulty s.inner

  unfoldable pub deposit_contract_address : Option Address
  unfolding deposit_contract
  deposit_contract_address = Option.map (λ contract. contract.address) deposit_contract

  unfoldable pub ethereum_fork_activation : T.Fork → T.ForkCondition
  ethereum_fork_activation f = r.ethereum_fork_activation s.inner f

  unfoldable pub fork : T.Fork → T.ForkCondition
  fork f = r.fork s.inner f

  unfoldable pub forks_iter : List (T.Fork × T.ForkCondition)
  forks_iter = r.forks_iter s.inner

  unfoldable pub fork_id : T.Head → T.ForkId
  fork_id head = r.fork_id s.inner head

  unfoldable pub latest_fork_id : T.ForkId
  latest_fork_id = r.latest_fork_id s.inner

  unfoldable pub fork_filter : T.Head → T.ForkFilter
  fork_filter head = r.fork_filter s.inner head
