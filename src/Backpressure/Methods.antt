-- ===== src/Backpressure/Methods.antt =====
-- Which methods are guarded, and what the limits are where the environment is silent.
use load_reth.Common.{
  ℕ, ◌≡◌, refl, ◌↔◌, ◌<◌, Option, none, some, String, arith, ltb, lt→ltb, subst, Bool-cases, inl,
  inr,
}
use text.Mathlib.Text.{◌==◌ as str_eq}
use text.Mathlib.TextEquality.{eq_iff}
use load_reth.Backpressure.Config.{
  GuardedMethod, send_raw_transaction, get_transaction_count, send_raw_transaction_sync,
  LoadRpcBackpressureConfig, default_config, EnvVar, not_present, limit_or, parse_env_limit,
  parse_env_mb_as_bytes, from_env, from_rpc_method, rpc_method_name, limit_for, enabled,
  classify_method,
}

from_rpc_method-name : (m : GuardedMethod) → from_rpc_method (rpc_method_name m) ≡ some m
unfolding from_rpc_method rpc_method_name
from_rpc_method-name send_raw_transaction = refl
from_rpc_method-name get_transaction_count = refl
from_rpc_method-name send_raw_transaction_sync = refl

name-from_rpc_method :
    (name : String) (m : GuardedMethod) → from_rpc_method name ≡ some m → name ≡ rpc_method_name m
unfolding from_rpc_method rpc_method_name
name-from_rpc_method name m h = elim (Bool-cases (str_eq name "eth_sendRawTransaction")) [
  | inl raw ↦ named (rw raw at h) ((eq_iff name "eth_sendRawTransaction").0 raw)
  | inr other ↦ elim (Bool-cases (str_eq name "eth_getTransactionCount")) [
    | inl count ↦ named (rw (other, count) at h) ((eq_iff name "eth_getTransactionCount").0 count)
    | inr neither ↦ elim (Bool-cases (str_eq name "eth_sendRawTransactionSync")) [
      | inl sync ↦
          named (rw (other, neither, sync) at h) ((eq_iff name "eth_sendRawTransactionSync").0 sync)
      | inr unknown ↦ cc (rw (other, neither, unknown) at h)
    ]
  ]
]
  where
    named :
        {k m : GuardedMethod}
        → some k ≡ some m
        → name ≡ rpc_method_name k
        → name ≡ rpc_method_name m
    named h e = cc

-- A method is guarded exactly if its name is that of a guarded method with a limit above zero, so a
-- limit of zero switches the guard off; the three names are different, and no other is guarded.
pub classify_method_iff :
    (config : LoadRpcBackpressureConfig) (name : String) (m : GuardedMethod)
    → (classify_method config name ≡ some m)
      ↔ ((name ≡ rpc_method_name m) × (0 < limit_for config m))
unfolding classify_method enabled
classify_method_iff config name m = (to (from_rpc_method name) refl, back)
  where
    to :
        (found : Option GuardedMethod)
        → from_rpc_method name ≡ found
        → enabled config found ≡ some m
        → (name ≡ rpc_method_name m) × (0 < limit_for config m)
    to none e h = cc
    to (some k) e h = elim (Bool-cases (ltb 0 (limit_for config k))) [
      | inl on ↦
          let same : k ≡ m = cc (rw on at h) in
          (
            name-from_rpc_method name m (cc),
            subst (λ j. 0 < limit_for config j) same (ground arith),
          )
      | inr off ↦ cc (rw off at h)
    ]

    back :
        (name ≡ rpc_method_name m) × (0 < limit_for config m)
        → enabled config (from_rpc_method name) ≡ some m
    back (e, on) = rw (e, from_rpc_method-name m, lt→ltb 0 (limit_for config m) on) refl

-- With none of the variables set, the configuration is the default one, whose batch limit of
-- 200 megabytes does not saturate.
pub from_env-default :
    (var : String → EnvVar) (parse : String → Option ℕ)
    → ((name : String) → var name ≡ not_present)
    → from_env var parse ≡ default_config
unfolding from_env parse_env_limit parse_env_mb_as_bytes limit_or default_config
from_env-default var parse unset = rw (unset _, unset _, unset _, unset _) refl
