-- ===== src/Chain/Types.antt =====
-- The constants of src/chainspec/mod.rs, and the alloy and reth structures whose fields it uses.
use load_reth.Common.{ℕ, ◌≡◌, Bool, Option, none, some, List, [], leb, if◌then◌else◌, false}

abbrev pub load_max_blob_count : ℕ
load_max_blob_count = 1024

abbrev pub load_target_blob_count : ℕ
load_target_blob_count = 512

abbrev pub load_max_blobs_per_tx : ℕ
load_max_blobs_per_tx = 32

abbrev pub load_blob_update_fraction : ℕ
load_blob_update_fraction = 5_007_716

abbrev pub load_execution_gas_limit : ℕ
load_execution_gas_limit = 2_000_000_000

-- The block numbers of the forks before Cancun, as the genesis configuration names them.
pub record PreCancunForks : Type 0 where
  pub homestead_block : Option ℕ
  pub dao_fork_block : Option ℕ
  pub eip150_block : Option ℕ
  pub eip155_block : Option ℕ
  pub eip158_block : Option ℕ
  pub byzantium_block : Option ℕ
  pub constantinople_block : Option ℕ
  pub petersburg_block : Option ℕ
  pub istanbul_block : Option ℕ
  pub muir_glacier_block : Option ℕ
  pub berlin_block : Option ℕ
  pub london_block : Option ℕ
  pub arrow_glacier_block : Option ℕ
  pub gray_glacier_block : Option ℕ

pub record ChainConfig : Type 0 where
  pub chain_id : ℕ
  pub forks : PreCancunForks
  pub merge_netsplit_block : Option ℕ
  pub shanghai_time : Option ℕ
  pub cancun_time : Option ℕ
  pub prague_time : Option ℕ
  pub osaka_time : Option ℕ
  pub terminal_total_difficulty : Option ℕ
  pub terminal_total_difficulty_passed : Bool

pub record Genesis : Type 0 where
  pub config : ChainConfig
  pub extra_data : List ℕ

pub record BlobParams : Type 0 where
  pub target_blob_count : ℕ
  pub max_blob_count : ℕ
  pub max_blobs_per_tx : ℕ
  pub update_fraction : ℕ
  pub min_blob_fee : ℕ
  pub blob_base_cost : ℕ

-- `BlobScheduleBlobParams`; a scheduled entry is an activation time with its parameters.
pub record BlobSchedule : Type 0 where
  pub cancun : BlobParams
  pub prague : BlobParams
  pub osaka : BlobParams
  pub scheduled : List (ℕ × BlobParams)

pub data Hardfork : Type 0 where
  shanghai cancun prague osaka : Hardfork

-- reth's `ChainSpec`. `active` is its fork table as the `is_*_active_at_timestamp` methods read it.
pub record ChainSpec : Type 0 where
  pub chain : ℕ
  pub genesis : Genesis
  pub active : Hardfork → ℕ → Bool
  pub blob_params : BlobSchedule

pub record LoadChainSpec : Type 0 where
  pub inner : ChainSpec

-- What the program calls of reth and alloy here.
pub record Upstream : Type 0 where
  pub into_chain_spec : Genesis → ChainSpec
  pub blob_params_at_timestamp : ChainSpec → ℕ → Option BlobParams
  pub cancun_params : BlobParams
  pub osaka_params : BlobParams

abbrev pub fork_time : ChainConfig → Hardfork → Option ℕ
fork_time c Hardfork.shanghai = c.shanghai_time
fork_time c Hardfork.cancun = c.cancun_time
fork_time c Hardfork.prague = c.prague_time
fork_time c Hardfork.osaka = c.osaka_time

abbrev pub active_from : Option ℕ → ℕ → Bool
active_from none t = false
active_from (some start) t = leb start t

-- What reth documents of these calls: a specification keeps its genesis, a timestamp fork is active
-- from its time on, and with nothing scheduled the newest active fork gives the blob parameters.
pub record UpstreamLaws (u : Upstream) : Type 0 where
  pub genesis_kept : (g : Genesis) → (u.into_chain_spec g).genesis ≡ g
  pub active_kept :
      (g : Genesis) (f : Hardfork) (t : ℕ)
      → (u.into_chain_spec g).active f t ≡ active_from (fork_time g.config f) t
  pub newest_params :
      (s : ChainSpec) (t : ℕ)
      → s.blob_params.scheduled ≡ []
      → u.blob_params_at_timestamp s t ≡ (
          if s.active Hardfork.osaka t
          then some s.blob_params.osaka
          else (if s.active Hardfork.prague t
              then some s.blob_params.prague
              else (if s.active Hardfork.cancun t then some s.blob_params.cancun else none)))
