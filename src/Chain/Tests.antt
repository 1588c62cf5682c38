-- ===== src/Chain/Tests.antt =====
-- Runs of the chain specification, with a reth whose calls are written out.
use load_reth.Common.{
  All, ◌↔◌, ℕ, ◌≡◌, refl, inl, false, none, some, [], ok, err, arith, if◌then◌else◌,
}
use load_reth.Chain.Types.{
  LoadChainSpec, PreCancunForks, Genesis, BlobParams, BlobSchedule, Upstream, UpstreamLaws, cancun,
  prague, osaka, active_from, fork_time,
}
use load_reth.Chain.Genesis.{
  validate_genesis, check_cancun, zero_or_default, normalize_forks, pre_cancun_forks,
  cancun_not_at_genesis, nonzero_fork, prague_not_at_genesis, nonzero_difficulty,
}
use load_reth.Chain.Spec.{default_spec, default_genesis, Readers, parse}
use load_reth.Chain.Guardrails.{
  IsLoadGenesis, at_genesis, validate_genesis_iff, validate_genesis_idem,
}
use load_reth.Chain.Blobs.{
  default_spec-IsLoadSpec, spec_of, from_genesis_ok, IsLoadSpec, from_genesis-IsLoadSpec, read_for,
  parse-IsLoadGenesis,
}

abbrev pub no_forks : PreCancunForks
no_forks = record {
  homestead_block = none;
  dao_fork_block = none;
  eip150_block = none;
  eip155_block = none;
  eip158_block = none;
  byzantium_block = none;
  constantinople_block = none;
  petersburg_block = none;
  istanbul_block = none;
  muir_glacier_block = none;
  berlin_block = none;
  london_block = none;
  arrow_glacier_block = none;
  gray_glacier_block = none;
}

-- A genesis that names Cancun only.
abbrev pub minimal : Genesis
minimal = record {
  config = record {
    chain_id = 7;
    forks = no_forks;
    merge_netsplit_block = none;
    shanghai_time = none;
    cancun_time = some 0;
    prague_time = none;
    osaka_time = some 1000;
    terminal_total_difficulty = none;
    terminal_total_difficulty_passed = false;
  };
  extra_data = [];
}

abbrev pub mainnet_blobs : ℕ → BlobParams
mainnet_blobs m = record {
  target_blob_count = 3;
  max_blob_count = m;
  max_blobs_per_tx = 6;
  update_fraction = 3_338_477;
  min_blob_fee = 1;
  blob_base_cost = 0;
}

abbrev same_blobs : BlobParams → BlobSchedule
same_blobs p = record { cancun = p; prague = p; osaka = p; scheduled = [] }

abbrev pub reth : Upstream
reth = record {
  into_chain_spec = λ g. record {
    chain = 1;
    genesis = g;
    active = λ f t. active_from (fork_time g.config f) t;
    blob_params = same_blobs (mainnet_blobs 6);
  };
  blob_params_at_timestamp = λ s t.
      if s.active osaka t
      then some s.blob_params.osaka
      else (if s.active prague t
          then some s.blob_params.prague
          else (if s.active cancun t then some s.blob_params.cancun else none));
  cancun_params = mainnet_blobs 6;
  osaka_params = mainnet_blobs 9;
}

pub reth_laws : UpstreamLaws reth
reth_laws = record {
  genesis_kept = λ g. refl;
  active_kept = λ g f t. refl;
  newest_params = λ s t h. refl;
}

pub minimal-IsLoadGenesis : IsLoadGenesis minimal
unfolding pre_cancun_forks
minimal-IsLoadGenesis = record {
  cancun_at_genesis = refl;
  no_difficulty = inl refl;
  merged = inl refl;
  forks_at_genesis = ground arith;
  shanghai_at_genesis = inl refl;
  prague_at_genesis = inl refl;
}

-- test_genesis_validation_requires_cancun_at_zero
cancun_late :
    validate_genesis (record minimal { config = record minimal.config { cancun_time = some 100 } })
    ≡ err (cancun_not_at_genesis (some 100))
unfolding validate_genesis check_cancun
cancun_late = refl

-- prague_must_be_at_genesis
prague_late :
    validate_genesis (record minimal { config = record minimal.config { prague_time = some 1 } })
    ≡ err (prague_not_at_genesis 1)
unfolding validate_genesis check_cancun zero_or_default normalize_forks pre_cancun_forks
prague_late = refl

-- test_genesis_validation_rejects_nonzero_ttd
difficulty_left :
    validate_genesis
      (record minimal { config = record minimal.config { terminal_total_difficulty = some 1000 } })
    ≡ err (nonzero_difficulty 1000)
unfolding validate_genesis check_cancun zero_or_default
difficulty_left = refl

london_late :
    validate_genesis (record minimal {
      config = record minimal.config { forks = record no_forks { london_block = some 5 } };
    })
    ≡ err (nonzero_fork 5)
unfolding validate_genesis check_cancun zero_or_default normalize_forks pre_cancun_forks
london_late = refl

validate_genesis_iff_example :
    (validate_genesis minimal ≡ ok (at_genesis minimal))
    ↔ (IsLoadGenesis minimal × (at_genesis minimal ≡ at_genesis minimal))
validate_genesis_iff_example = validate_genesis_iff minimal (at_genesis minimal)

validate_genesis_idem_example : validate_genesis (at_genesis minimal) ≡ ok (at_genesis minimal)
validate_genesis_idem_example =
    validate_genesis_idem minimal (at_genesis minimal)
      ((validate_genesis_iff minimal (at_genesis minimal)).1 (minimal-IsLoadGenesis, refl))

from_genesis-IsLoadSpec_example : IsLoadSpec reth minimal (spec_of reth minimal) 12
from_genesis-IsLoadSpec_example =
    from_genesis-IsLoadSpec reth minimal (spec_of reth minimal) 12 reth_laws
      (from_genesis_ok reth minimal minimal-IsLoadGenesis)

abbrev readers : Readers
readers = record {
  from_str = λ s. ok minimal;
  parse_genesis = λ s. err s;
  dev_genesis_json = "dev";
  mainnet_genesis_json = "main";
}

parse_dev : parse reth readers "load-dev" ≡ ok (spec_of reth minimal)
unfolding parse
parse_dev = rw (from_genesis_ok reth minimal minimal-IsLoadGenesis)

parse-IsLoadGenesis_example :
    (g : Genesis) × (read_for readers "load-dev" ≡ ok g)
    × IsLoadGenesis g
    × (spec_of reth minimal ≡ spec_of reth g)
parse-IsLoadGenesis_example =
    parse-IsLoadGenesis reth readers "load-dev" (spec_of reth minimal) parse_dev

no_blocks : All (λ block. block ≡ none) (pre_cancun_forks minimal.config.forks)
unfolding pre_cancun_forks
no_blocks = (
  refl,
  (
    refl,
    (
      refl,
      (refl, (refl, (refl, (refl, (refl, (refl, (refl, (refl, (refl, (refl, (refl, tt))))))))))),
    ),
  ),
)

default_spec-IsLoadSpec_example :
    (s : LoadChainSpec) × (default_spec reth minimal ≡ ok s)
    × (s.inner.chain ≡ 16_383)
    × IsLoadSpec reth (default_genesis minimal) s 12
default_spec-IsLoadSpec_example = default_spec-IsLoadSpec reth minimal 12 reth_laws no_blocks
