-- ===== src/Chain/Spec.antt =====
-- `LoadChainSpec::from_genesis`, its `Default`, and `LoadChainSpecParser::parse`.
use load_reth.Common.{true, some, [], Result, ok, ◌>>=◌, String, map_err, if◌then◌else◌}
use load_reth.Chain.Types.{
  Genesis, BlobParams, LoadChainSpec, Upstream, load_max_blob_count, load_target_blob_count,
  load_max_blobs_per_tx, load_blob_update_fraction,
}
use load_reth.Chain.Genesis.{GenesisError, validate_genesis}
use text.Mathlib.Text.{◌==◌ as str_eq}

unfoldable pub load_blob_params : Upstream → BlobParams
load_blob_params u = record {
  target_blob_count = load_target_blob_count;
  max_blob_count = load_max_blob_count;
  max_blobs_per_tx = load_max_blobs_per_tx;
  update_fraction = load_blob_update_fraction;
  min_blob_fee = u.cancun_params.min_blob_fee;
  blob_base_cost = u.cancun_params.blob_base_cost;
}

unfoldable pub from_genesis : Upstream → Genesis → Result GenesisError LoadChainSpec
unfolding load_blob_params
from_genesis u genesis = do
  genesis ← validate_genesis genesis
  let inner = u.into_chain_spec genesis
  ok (record {
    inner = record inner {
      chain = genesis.config.chain_id;
      blob_params = record {
        cancun = load_blob_params u;
        prague = load_blob_params u;
        osaka = u.osaka_params;
        scheduled = [];
      };
    };
  })

-- The genesis that `Default` starts from `Genesis::default()`, which is `blank` here.
unfoldable pub default_genesis : Genesis → Genesis
default_genesis blank = record blank {
  config = record blank.config {
    chain_id = 16_383;
    terminal_total_difficulty = some 0;
    terminal_total_difficulty_passed = true;
    shanghai_time = some 0;
    cancun_time = some 0;
    prague_time = some 0;
    merge_netsplit_block = some 0;
  };
}

-- `Default::default`; its `expect` panics on an error.
unfoldable pub default_spec : Upstream → Genesis → Result GenesisError LoadChainSpec
default_spec u blank = from_genesis u (default_genesis blank)

pub data ParseError : Type 0 where
  json : String → ParseError
  file : (path reason : String) → ParseError
  genesis : GenesisError → ParseError

-- The readers that `parse` calls, and the two genesis files built into the program.
pub record Readers : Type 0 where
  pub from_str : String → Result String Genesis
  pub parse_genesis : String → Result String Genesis
  pub dev_genesis_json : String
  pub mainnet_genesis_json : String

unfoldable pub parse : Upstream → Readers → String → Result ParseError LoadChainSpec
parse u r s =
    if str_eq s "load-dev"
    then (do g ← map_err json (r.from_str r.dev_genesis_json); map_err genesis (from_genesis u g))
    else (if str_eq s "load"
        then (do
          g ← map_err json (r.from_str r.mainnet_genesis_json)
          map_err genesis (from_genesis u g))
        else (do g ← map_err (file s) (r.parse_genesis s); map_err genesis (from_genesis u g)))
