-- ===== src/Builder/Healthy.antt =====
-- A healthy node: of the pool of the tests, with transactions that execute if they pay the base fee.
use load_reth.Common.{
  ℕ, ◌≡◌, refl, ◌≢◌, Option, none, some, List, [], ◌∷◌, ok, arith, String, false,
}
use load_reth.Prevrandao.{B256, is_load_prev_randao, slice_eq, load_prevrandao}
use load_reth.Chain.Tests.{reth}
use load_reth.Payload.Attributes.{validate_payload_attributes, validate_prev_randao}
use load_reth.Builder.Types.{Tx, Execution, executed, invalid_tx, fatal, Calls, IsFinite}
use load_reth.Builder.Build.{default_load_payload}
use load_reth.Builder.Progress.{IsHealthy, Finishes, Yields, default_load_payload-Yields}
use load_reth.Builder.Sample.{run, calls, node, spec, config, parent, attrs, handed_out}

abbrev pub paid : List (Tx × ℕ) → Tx → Option ℕ → Option (List B256) → Execution × List (Tx × ℕ)
paid b tx none hashes = (invalid_tx false, b)
paid b tx (some tip) hashes = run b tx hashes

abbrev pub paying : Calls ℕ (List (Tx × ℕ))
paying = record calls {
  execute_transaction = λ b tx. paid b tx (tx.effective_tip_per_gas 7) tx.blob_versioned_hashes;
}

paid_tip :
    (b : List (Tx × ℕ)) (tx : Tx) (gas : ℕ) (tip : Option ℕ) (hashes : Option (List B256))
    → (paid b tx tip hashes).0 ≡ executed gas
    → (n : ℕ) × (tip ≡ some n)
paid_tip b tx gas none hashes h = cc
paid_tip b tx gas (some n) hashes h = (n, refl)

never_fatal :
    (b : List (Tx × ℕ)) (tx : Tx) (e : String) (tip : Option ℕ) (hashes : Option (List B256))
    → (paid b tx tip hashes).0 ≢ fatal e
never_fatal b tx e none hashes = λ h. cc
never_fatal b tx e (some n) none = λ h. cc
never_fatal b tx e (some n) (some []) = λ h. cc
never_fatal b tx e (some n) (some (x ∷ xs)) = λ h. cc

pub healthy : IsHealthy paying 7
healthy = record {
  uncancelled = λ look. refl;
  answers = λ hash. (_, refl);
  executes = λ b tx e. never_fatal b tx e (tx.effective_tip_per_gas 7) tx.blob_versioned_hashes;
  pays = λ b tx gas. paid_tip b tx gas (tx.effective_tip_per_gas 7) tx.blob_versioned_hashes;
}

pub finishing : Finishes node
finishing b = ([], b, refl, omega arith)

pub paying_finite : IsFinite paying (λ i. i)
paying_finite = record {
  next_falls = λ i tx rest h. (handed_out i tx rest h).1;
  mark_invalid_keeps = λ i tx e. omega arith;
  skip_blobs_keeps = λ i. omega arith;
}

valid : validate_payload_attributes 10 attrs ≡ ok tt
unfolding validate_payload_attributes validate_prev_randao is_load_prev_randao slice_eq
    load_prevrandao
valid = refl

default_load_payload-Yields_example :
    Yields reth paying node spec config parent attrs none
      (default_load_payload reth paying node spec config 3 parent attrs none)
default_load_payload-Yields_example =
    default_load_payload-Yields reth paying node spec config parent attrs paying_finite 3 none [] []
      valid refl refl refl healthy finishing (omega arith)
