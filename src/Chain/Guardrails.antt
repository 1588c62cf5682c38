-- ===== src/Chain/Guardrails.antt =====
-- Which genesis the checks accept, and what they make of it.
use load_reth.Common.{
  ℕ, ◌≡◌, refl, ◌↔◌, ◌⊎◌, inl, inr, true, Option, none, some, List, [], ◌∷◌, ok, arith, All, map,
  Result-cases, bind-eq-ok,
}
use load_reth.Chain.Types.{PreCancunForks, Genesis}
use load_reth.Chain.Genesis.{
  GenesisError, nonzero_fork, nonzero_difficulty, nonzero_netsplit, shanghai_not_at_genesis,
  prague_not_at_genesis, check_cancun, zero_or_default, pre_cancun_forks, write_forks,
  normalize_forks, validate_genesis,
}

-- A value that is 0 or left out.
abbrev pub IsZeroOrAbsent : Option ℕ → Type 0
IsZeroOrAbsent o = (o ≡ none) ⊎ (o ≡ some 0)

pub record IsLoadGenesis (g : Genesis) : Type 0 where
  pub cancun_at_genesis : g.config.cancun_time ≡ some 0
  pub no_difficulty : IsZeroOrAbsent g.config.terminal_total_difficulty
  pub merged : IsZeroOrAbsent g.config.merge_netsplit_block
  pub forks_at_genesis : All IsZeroOrAbsent (pre_cancun_forks g.config.forks)
  pub shanghai_at_genesis : IsZeroOrAbsent g.config.shanghai_time
  pub prague_at_genesis : IsZeroOrAbsent g.config.prague_time

abbrev pub forks_at_zero : PreCancunForks
forks_at_zero = record {
  homestead_block = some 0;
  dao_fork_block = some 0;
  eip150_block = some 0;
  eip155_block = some 0;
  eip158_block = some 0;
  byzantium_block = some 0;
  constantinople_block = some 0;
  petersburg_block = some 0;
  istanbul_block = some 0;
  muir_glacier_block = some 0;
  berlin_block = some 0;
  london_block = some 0;
  arrow_glacier_block = some 0;
  gray_glacier_block = some 0;
}

-- The genesis with every fork of the Load Network at 0, all else as it was.
abbrev pub at_genesis : Genesis → Genesis
at_genesis g = record g {
  config = record g.config {
    terminal_total_difficulty = some 0;
    terminal_total_difficulty_passed = true;
    merge_netsplit_block = some 0;
    forks = forks_at_zero;
    shanghai_time = some 0;
    prague_time = some 0;
  };
}

zero_or_default_ok :
    (e : ℕ → GenesisError) {o : Option ℕ} → IsZeroOrAbsent o → zero_or_default e o ≡ ok (some 0)
unfolding zero_or_default
zero_or_default_ok e {o} h = ground arith

zero_or_default_inv :
    (e : ℕ → GenesisError) (o : Option ℕ) {r : Option ℕ}
    → zero_or_default e o ≡ ok r
    → IsZeroOrAbsent o
unfolding zero_or_default
zero_or_default_inv e none h = inl refl
zero_or_default_inv e (some v) h = ground arith

check_cancun_iff : (o : Option ℕ) → (check_cancun o ≡ ok tt) ↔ (o ≡ some 0)
unfolding check_cancun
check_cancun_iff none = ground arith
check_cancun_iff (some t) = ground arith

normalize_forks_ok :
    (fs : List (Option ℕ)) → All IsZeroOrAbsent fs → normalize_forks fs ≡ ok (map (λ _. some 0) fs)
unfolding normalize_forks
normalize_forks_ok [] h = refl
normalize_forks_ok (f ∷ fs) h = rw (zero_or_default_ok nonzero_fork h.0, normalize_forks_ok fs h.1)

normalize_forks_inv :
    (fs : List (Option ℕ)) {r : List (Option ℕ)} → normalize_forks fs ≡ ok r → All IsZeroOrAbsent fs
unfolding normalize_forks
normalize_forks_inv [] h = tt
normalize_forks_inv (f ∷ fs) h = elim (Result-cases (zero_or_default nonzero_fork f)) [
  | inl (b, e) ↦ elim (Result-cases (normalize_forks fs)) [
    | inl (bs, es) ↦ (zero_or_default_inv nonzero_fork f e, normalize_forks_inv fs es)
    | inr (x, es) ↦ cc
  ]
  | inr (x, e) ↦ cc
]

write_forks_zero :
    (f : PreCancunForks) → write_forks (map (λ _. some 0) (pre_cancun_forks f)) f ≡ forks_at_zero
unfolding write_forks pre_cancun_forks
write_forks_zero f = refl

validate_genesis_ok : (g : Genesis) → IsLoadGenesis g → validate_genesis g ≡ ok (at_genesis g)
unfolding validate_genesis
validate_genesis_ok g h = rw (
  (check_cancun_iff g.config.cancun_time).1 h.cancun_at_genesis,
  zero_or_default_ok nonzero_difficulty h.no_difficulty,
  zero_or_default_ok nonzero_netsplit h.merged,
  normalize_forks_ok (pre_cancun_forks g.config.forks) h.forks_at_genesis,
  zero_or_default_ok shanghai_not_at_genesis h.shanghai_at_genesis,
  zero_or_default_ok prague_not_at_genesis h.prague_at_genesis,
  write_forks_zero g.config.forks,
)

validate_genesis_inv : (g : Genesis) {r : Genesis} → validate_genesis g ≡ ok r → IsLoadGenesis g
unfolding validate_genesis
validate_genesis_inv g h =
    let (_, c, h₁) = bind-eq-ok (check_cancun g.config.cancun_time) _ h in
    let (_, d, h₂) = bind-eq-ok (zero_or_default nonzero_difficulty _) _ h₁ in
    let (_, m, h₃) = bind-eq-ok (zero_or_default nonzero_netsplit _) _ h₂ in
    let (_, f, h₄) = bind-eq-ok (normalize_forks (pre_cancun_forks g.config.forks)) _ h₃ in
    let (_, s, h₅) = bind-eq-ok (zero_or_default shanghai_not_at_genesis _) _ h₄ in
    let (_, p, _) = bind-eq-ok (zero_or_default prague_not_at_genesis _) _ h₅ in
    record {
      cancun_at_genesis = (check_cancun_iff g.config.cancun_time).0 c;
      no_difficulty = zero_or_default_inv nonzero_difficulty _ d;
      merged = zero_or_default_inv nonzero_netsplit _ m;
      forks_at_genesis = normalize_forks_inv _ f;
      shanghai_at_genesis = zero_or_default_inv shanghai_not_at_genesis _ s;
      prague_at_genesis = zero_or_default_inv prague_not_at_genesis _ p;
    }

-- `validate_genesis` succeeds exactly on a genesis whose Cancun time is 0 and whose terminal total
-- difficulty, netsplit block, fourteen earlier forks, Shanghai and Prague are each 0 or left out;
-- the result is then the genesis with all of these at 0, the merge marked as passed, and nothing
-- else changed.
pub validate_genesis_iff :
    (g r : Genesis) → (validate_genesis g ≡ ok r) ↔ (IsLoadGenesis g × (r ≡ at_genesis g))
validate_genesis_iff g r = (
  λ h. let v = validate_genesis_inv g h in (v, cc (validate_genesis_ok g v)),
  λ (v, e). rw e (validate_genesis_ok g v),
)

at_genesis-IsLoadGenesis : (g : Genesis) → IsLoadGenesis g → IsLoadGenesis (at_genesis g)
unfolding pre_cancun_forks
at_genesis-IsLoadGenesis g h = record {
  cancun_at_genesis = h.cancun_at_genesis;
  no_difficulty = inr refl;
  merged = inr refl;
  forks_at_genesis = ground arith;
  shanghai_at_genesis = inr refl;
  prague_at_genesis = inr refl;
}

-- A genesis that `validate_genesis` has accepted is accepted again, and comes back unchanged.
pub validate_genesis_idem : (g r : Genesis) → validate_genesis g ≡ ok r → validate_genesis r ≡ ok r
validate_genesis_idem g r h =
    let (v, e) = (validate_genesis_iff g r).0 h in
    (validate_genesis_iff r r).1 (rw e (at_genesis-IsLoadGenesis g v, refl))
