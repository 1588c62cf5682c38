-- ===== src/Transaction.antt =====
-- `blob_count` of src/transaction/mod.rs.
use load_reth.Common.{ℕ, length, unwrap_or}
use mathlib.Core.Option
use load_reth.Builder.Types.{Tx}

-- `Tx` holds the versioned hashes of an EIP-4844 transaction, and none of any other.
unfoldable pub blob_count : Tx → ℕ
blob_count tx = unwrap_or (Option.map (λ hashes. length hashes) tx.blob_versioned_hashes) 0
