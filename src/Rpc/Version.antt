-- ===== src/Rpc/Version.antt =====
-- version.rs: the identity of the client; and what `build_engine_api` of engine/rpc.rs makes of it.
use load_reth.Common.{Option, Result, ok, ◌>>=◌, String, unwrap_or}
use Prim.Native.String.{◌++◌ as concat}
use mathlib.Core.Option
use load_reth.Chain.Types.{LoadChainSpec}
use load_reth.Rpc.Queries.{load_cap_blobs, load_cap_prevrandao}

abbrev pub default_name : String
default_name = "load-reth"

-- What the build sets: the version of the package, and the short and the long hash of the commit.
pub record BuildInfo : Type 0 where
  pub cargo_pkg_version : String
  pub sha_short : Option String
  pub sha_long : Option String

-- The value that the `OnceLock` computes at its first use, and keeps.
unfoldable pub load_client_version_string : BuildInfo → String
load_client_version_string b =
    concat default_name
      (concat "/v" (concat b.cargo_pkg_version (concat "-" (unwrap_or b.sha_short "unknown"))))

unfoldable pub load_commit : BuildInfo → String
load_commit b = unwrap_or (Option.map (λ sha. concat "0x" sha) b.sha_long) "0x0"

-- alloy's `ClientVersionV1`; `Code` is its `ClientCode`.
pub record ClientVersionV1 (Code : Type 0) : Type 0 where
  pub code : Code
  pub name : String
  pub version : String
  pub commit : String

unfoldable pub load_client_version_entry : {Code : Type 0} → Code → BuildInfo → ClientVersionV1 Code
unfolding load_client_version_string load_commit
load_client_version_entry client_code b = record {
  code = client_code;
  name = default_name;
  version = load_client_version_string b;
  commit = load_commit b;
}

-- reth's `version_metadata`
pub record VersionMetadata : Type 0 where
  pub name_client : String
  pub cargo_pkg_version : String
  pub vergen_git_sha : String

-- What `build_engine_api` gives to reth's engine: `V` is the validator, `Caps` the capabilities.
pub record EngineParts (Code V Caps : Type 0) : Type 0 where
  pub chain_spec : LoadChainSpec
  pub client : ClientVersionV1 Code
  pub capabilities : Caps
  pub validator : V

-- The reth calls of `build_engine_api`; `accept_execution_requests_hash` and the handles of the
-- provider, the pool, the network and the tasks are only passed on.
pub record ApiContext (Code V Caps : Type 0) : Type 0 where
  pub chain_spec : LoadChainSpec
  pub client_code : Code
  pub metadata : VersionMetadata
  pub build_validator : Result String V
  pub default_capabilities : Caps
  pub add_capability : Caps → String → Caps

unfoldable pub build_engine_api :
    {Code V Caps : Type 0} → ApiContext Code V Caps → Result String (EngineParts Code V Caps)
build_engine_api ctx = do
  engine_validator ← ctx.build_validator
  ok (record {
    chain_spec = ctx.chain_spec;
    client = record {
      code = ctx.client_code;
      name = ctx.metadata.name_client;
      version = ctx.metadata.cargo_pkg_version;
      commit = ctx.metadata.vergen_git_sha;
    };
    capabilities =
        ctx.add_capability (ctx.add_capability ctx.default_capabilities load_cap_blobs)
          load_cap_prevrandao;
    validator = engine_validator;
  })
