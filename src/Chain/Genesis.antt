-- ===== src/Chain/Genesis.antt =====
-- `LoadChainSpec::validate_genesis`. On success it returns the genesis with its defaults filled in;
-- on an error the caller drops the half-changed genesis, so none is returned.
use load_reth.Common.{
  ℕ, true, Option, none, some, List, [], ◌∷◌, Result, ok, err, ◌>>=◌, ◌>>◌, ◌==◌, if◌then◌else◌,
}
use load_reth.Chain.Types.{PreCancunForks, Genesis}

pub data GenesisError : Type 0 where
  cancun_not_at_genesis : Option ℕ → GenesisError
  nonzero_difficulty : ℕ → GenesisError
  nonzero_netsplit : ℕ → GenesisError
  nonzero_fork : ℕ → GenesisError
  shanghai_not_at_genesis : ℕ → GenesisError
  prague_not_at_genesis : ℕ → GenesisError

-- `genesis.config.cancun_time != Some(0)`
unfoldable pub check_cancun : Option ℕ → Result GenesisError (Unit {0})
check_cancun none = err (cancun_not_at_genesis none)
check_cancun (some t) = if t == 0 then ok tt else err (cancun_not_at_genesis (some t))

-- A present value must be 0, an absent one becomes 0.
unfoldable pub zero_or_default : (ℕ → GenesisError) → Option ℕ → Result GenesisError (Option ℕ)
zero_or_default e none = ok (some 0)
zero_or_default e (some v) = if v == 0 then ok (some v) else err (e v)

-- The array of references `pre_cancun_forks`: its values, and the write through it.
unfoldable pub pre_cancun_forks : PreCancunForks → List (Option ℕ)
pre_cancun_forks f =
    f.homestead_block ∷ f.dao_fork_block ∷ f.eip150_block ∷ f.eip155_block ∷ f.eip158_block
    ∷ f.byzantium_block ∷ f.constantinople_block ∷ f.petersburg_block ∷ f.istanbul_block
    ∷ f.muir_glacier_block ∷ f.berlin_block ∷ f.london_block ∷ f.arrow_glacier_block
    ∷ f.gray_glacier_block ∷ []

unfoldable pub write_forks : List (Option ℕ) → PreCancunForks → PreCancunForks
write_forks (a ∷ b ∷ c ∷ d ∷ e ∷ g ∷ h ∷ i ∷ j ∷ k ∷ l ∷ m ∷ n ∷ o ∷ []) f = record {
  homestead_block = a;
  dao_fork_block = b;
  eip150_block = c;
  eip155_block = d;
  eip158_block = e;
  byzantium_block = g;
  constantinople_block = h;
  petersburg_block = i;
  istanbul_block = j;
  muir_glacier_block = k;
  berlin_block = l;
  london_block = m;
  arrow_glacier_block = n;
  gray_glacier_block = o;
}
write_forks _ f = f

-- The loop over the array.
unfoldable pub normalize_forks : List (Option ℕ) → Result GenesisError (List (Option ℕ))
normalize_forks [] = ok []
normalize_forks (f ∷ fs) = do
  block ← zero_or_default nonzero_fork f
  blocks ← normalize_forks fs
  ok (block ∷ blocks)

unfoldable pub validate_genesis : Genesis → Result GenesisError Genesis
validate_genesis g = do
  check_cancun g.config.cancun_time
  difficulty ← zero_or_default nonzero_difficulty g.config.terminal_total_difficulty
  netsplit ← zero_or_default nonzero_netsplit g.config.merge_netsplit_block
  forks ← normalize_forks (pre_cancun_forks g.config.forks)
  shanghai ← zero_or_default shanghai_not_at_genesis g.config.shanghai_time
  prague ← zero_or_default prague_not_at_genesis g.config.prague_time
  ok (record g {
    config = record g.config {
      terminal_total_difficulty = difficulty;
      terminal_total_difficulty_passed = true;
      merge_netsplit_block = netsplit;
      forks = write_forks forks g.config.forks;
      shanghai_time = shanghai;
      prague_time = prague;
    };
  })
