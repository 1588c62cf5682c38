-- ===== src/Chain/Blobs.antt =====
-- What holds of every specification that `from_genesis` and `parse` hand out.
use load_reth.Common.{
  Option, List, [], ◌∷◌, All, inl, inr, none, ℕ, ◌≡◌, refl, sym, ◌∙◌, ◌≢◌, true, some, Result, ok,
  ◌>>=◌, arith, String, map_err, map_err-eq-ok, bind-eq-ok, Bool-cases, if◌then◌else◌,
}
use load_reth.Chain.Types.{
  Genesis, Hardfork, shanghai, cancun, prague, osaka, LoadChainSpec, Upstream, UpstreamLaws,
  active_from,
}
use load_reth.Chain.Genesis.{pre_cancun_forks, validate_genesis}
use load_reth.Chain.Spec.{
  default_spec, default_genesis, load_blob_params, from_genesis, Readers, ParseError, json, file,
  genesis, parse,
}
use load_reth.Chain.Guardrails.{IsZeroOrAbsent, IsLoadGenesis, at_genesis, validate_genesis_iff}
use text.Mathlib.Text.{◌==◌ as str_eq}

-- The specification built from an accepted genesis.
abbrev pub spec_of : Upstream → Genesis → LoadChainSpec
spec_of u g = record {
  inner = record (u.into_chain_spec (at_genesis g)) {
    chain = g.config.chain_id;
    blob_params = record {
      cancun = load_blob_params u;
      prague = load_blob_params u;
      osaka = u.osaka_params;
      scheduled = [];
    };
  };
}

-- `from_genesis` succeeds exactly where `validate_genesis` does, with that specification.
pub from_genesis_inv :
    (u : Upstream) (g : Genesis) {s : LoadChainSpec}
    → from_genesis u g ≡ ok s
    → IsLoadGenesis g × (s ≡ spec_of u g)
unfolding from_genesis
from_genesis_inv u g h =
    let (r, e, k) = bind-eq-ok (validate_genesis g) _ h in
    let (v, er) = (validate_genesis_iff g r).0 e in (v, cc (sym er))

pub from_genesis_ok :
    (u : Upstream) (g : Genesis) → IsLoadGenesis g → from_genesis u g ≡ ok (spec_of u g)
unfolding from_genesis
from_genesis_ok u g v = rw ((validate_genesis_iff g (at_genesis g)).1 (v, refl))

-- What holds of a specification at a time: Shanghai, Cancun and Prague are active, and the blob
-- parameters in force are reth's from the genesis's Osaka time on, the Load Network's before it.
pub record IsLoadSpec (u : Upstream) (g : Genesis) (s : LoadChainSpec) (t : ℕ) : Type 0 where
  pub shanghai_active : s.inner.active shanghai t ≡ true
  pub cancun_active : s.inner.active cancun t ≡ true
  pub prague_active : s.inner.active prague t ≡ true
  pub osaka_active : s.inner.active osaka t ≡ active_from g.config.osaka_time t
  pub params :
      u.blob_params_at_timestamp s.inner t
      ≡ some (if active_from g.config.osaka_time t then u.osaka_params else load_blob_params u)

module _ (u : Upstream) (laws : UpstreamLaws u) (g : Genesis) (v : IsLoadGenesis g) (t : ℕ) where
  spec_of-active : (f : Hardfork) → f ≢ osaka → (spec_of u g).inner.active f t ≡ true
  spec_of-active shanghai h = laws.active_kept (at_genesis g) shanghai t ∙ ground arith
  spec_of-active cancun h = laws.active_kept (at_genesis g) cancun t ∙ ground arith
  spec_of-active prague h = laws.active_kept (at_genesis g) prague t ∙ ground arith
  spec_of-active osaka h = absurd (h refl)

  spec_of-IsLoadSpec : IsLoadSpec u g (spec_of u g) t
  spec_of-IsLoadSpec = record {
    shanghai_active = spec_of-active shanghai (λ e. cc);
    cancun_active = spec_of-active cancun (λ e. cc);
    prague_active = spec_of-active prague (λ e. cc);
    osaka_active = laws.active_kept (at_genesis g) osaka t;
    params =
        laws.newest_params (spec_of u g).inner t refl
        ∙ rw (laws.active_kept (at_genesis g) osaka t, spec_of-active prague (λ e. cc))
            (ground arith);
  }

-- Of a genesis that `from_genesis` accepts, the specification has Shanghai, Cancun and Prague
-- active at every time, and the Load Network's blob parameters until the genesis's Osaka time.
pub from_genesis-IsLoadSpec :
    (u : Upstream) (g : Genesis) (s : LoadChainSpec) (t : ℕ)
    → UpstreamLaws u
    → from_genesis u g ≡ ok s
    → IsLoadSpec u g s t
from_genesis-IsLoadSpec u g s t laws h =
    let (v, e) = from_genesis_inv u g h in rw e (spec_of-IsLoadSpec u laws g v t)

-- The genesis that `parse` has read for a name: the built-in one of the two names it knows, and
-- otherwise the file of that name.
abbrev pub read_for : Readers → String → Result String Genesis
read_for r s =
    if str_eq s "load-dev"
    then r.from_str r.dev_genesis_json
    else (if str_eq s "load" then r.from_str r.mainnet_genesis_json else r.parse_genesis s)

read_then_build :
    (u : Upstream) (e : String → ParseError) (m : Result String Genesis) {spec : LoadChainSpec}
    → (map_err e m >>= λ g. map_err genesis (from_genesis u g)) ≡ ok spec
    → (g : Genesis) × (m ≡ ok g) × (from_genesis u g ≡ ok spec)
read_then_build u e m h =
    let (g, read, k) = bind-eq-ok (map_err e m) _ h in
    (g, map_err-eq-ok e m read, map_err-eq-ok genesis (from_genesis u g) k)

-- Whatever name `parse` is given, a specification that it returns was built from the genesis read
-- for that name, and that genesis has passed the checks.
pub parse-IsLoadGenesis :
    (u : Upstream) (r : Readers) (s : String) (spec : LoadChainSpec)
    → parse u r s ≡ ok spec
    → (g : Genesis) × (read_for r s ≡ ok g) × IsLoadGenesis g × (spec ≡ spec_of u g)
unfolding parse
parse-IsLoadGenesis u r s spec h = elim (Bool-cases (str_eq s "load-dev")) [
  | inl dev ↦
      let (g, read, built) = read_then_build u json (r.from_str r.dev_genesis_json) (rw dev at h) in
      (g, rw dev read, (from_genesis_inv u g built).0, (from_genesis_inv u g built).1)
  | inr other ↦ elim (Bool-cases (str_eq s "load")) [
    | inl main ↦
        let (g, read, built) =
          read_then_build u json (r.from_str r.mainnet_genesis_json) (rw (other, main) at h) in
        (g, rw (other, main) read, (from_genesis_inv u g built).0, (from_genesis_inv u g built).1)
    | inr path ↦
        let (g, read, built) =
          read_then_build u (file s) (r.parse_genesis s) (rw (other, path) at h) in
        (g, rw (other, path) read, (from_genesis_inv u g built).0, (from_genesis_inv u g built).1)
  ]
]

-- `Default` does not panic: of a blank genesis without fork blocks, its settings pass the checks, on
-- chain 16383, and the specification has Shanghai, Cancun and Prague active at every time.
pub default_spec-IsLoadSpec :
    (u : Upstream) (blank : Genesis) (t : ℕ)
    → UpstreamLaws u
    → All (λ block. block ≡ none) (pre_cancun_forks blank.config.forks)
    → (s : LoadChainSpec) × (default_spec u blank ≡ ok s)
      × (s.inner.chain ≡ 16_383)
      × IsLoadSpec u (default_genesis blank) s t
unfolding default_spec default_genesis
default_spec-IsLoadSpec u blank t laws no_blocks = (
  spec_of u (default_genesis blank),
  from_genesis_ok u (default_genesis blank) accepted,
  refl,
  spec_of-IsLoadSpec u laws (default_genesis blank) accepted t,
)
  where
    absent : (l : List (Option ℕ)) → All (λ block. block ≡ none) l → All IsZeroOrAbsent l
    absent [] h = tt
    absent (o ∷ l) (e, h) = (inl e, absent l h)

    accepted : IsLoadGenesis (default_genesis blank)
    accepted = record {
      cancun_at_genesis = refl;
      no_difficulty = inr refl;
      merged = inr refl;
      forks_at_genesis = absent (pre_cancun_forks blank.config.forks) no_blocks;
      shanghai_at_genesis = inr refl;
      prague_at_genesis = inr refl;
    }
