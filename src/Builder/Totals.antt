-- ===== src/Builder/Totals.antt =====
-- The totals of a block under construction, and what the loop's variables have to do with them.
use load_reth.Common.{
  Each, ℕ, ◌+◌, ◌*◌, ◌%◌, ◌≡◌, refl, ◌≤◌, ◌<◌, String, Bool, true, false, Option, none, some, List,
  [], ◌∷◌, ◌++◌, Result, ok, err, arith, sum_of, All, length, u64_mod, u256_mod,
}
use load_reth.Prevrandao.{B256}
use load_reth.Payload.Built.{BlobSidecars, empty}
use load_reth.Builder.Types.{
  Tx, SidecarVariant, legacy, cells, is_eip4844, is_eip7594, Calls, Limits, LoopState, hash_count,
  blob_count,
}
use load_reth.Builder.Loop.{take, pick_sidecar, choose_sidecar, push}

-- The fee that an executed transaction pays, 0 where it could not be computed.
abbrev pub fee : ℕ → Tx × ℕ → ℕ
fee base_fee (tx, gas) = elim (tx.effective_tip_per_gas base_fee) [
  | none ↦ 0
  | some tip ↦ tip * gas
]

abbrev pub blobs : Tx × ℕ → ℕ
blobs (tx, _) = blob_count tx

abbrev pub gas_used : Tx × ℕ → ℕ
gas_used (_, gas) = gas

abbrev pub rlp : Tx × ℕ → ℕ
rlp (tx, _) = tx.rlp_length

-- The kind of sidecar that the fork asks for.
abbrev pub is_right_kind : Bool → SidecarVariant → Bool
is_right_kind true v = is_eip7594 v
is_right_kind false v = is_eip4844 v

pick_taken :
    (is_osaka : Bool) (found : Result String (Option SidecarVariant))
    {taken : Option SidecarVariant}
    → pick_sidecar is_osaka found ≡ take taken
    → (v : SidecarVariant) × (taken ≡ some v)
      × (found ≡ ok (some v))
      × (is_right_kind is_osaka v ≡ true)
unfolding pick_sidecar
pick_taken is_osaka (err e) h = cc
pick_taken is_osaka (ok none) h = cc
pick_taken true (ok (some (legacy v))) h = cc
pick_taken true (ok (some (cells v))) h = (cells v, cc, refl, refl)
pick_taken false (ok (some (legacy v))) h = (legacy v, cc, refl, refl)
pick_taken false (ok (some (cells v))) h = cc

module _ {I B : Type 0} (c : Calls I B) (l : Limits) where
  -- A blob transaction comes with the sidecar that the pool keeps for it, of the right kind; any
  -- other comes with none.
  abbrev pub Matched : B256 → Option (List B256) → Option SidecarVariant → Type 0
  Matched hash none taken = taken ≡ none
  Matched hash (some _) taken =
      (v : SidecarVariant) × (taken ≡ some v)
      × (c.get_blob hash ≡ ok (some v))
      × (is_right_kind l.is_osaka v ≡ true)

  abbrev pub HasSidecar : Tx × ℕ → Type 0
  HasSidecar (tx, _) =
      (taken : Option SidecarVariant) × Matched tx.hash tx.blob_versioned_hashes taken

  -- A blob transaction has a blob.
  abbrev pub CarriesBlob : Tx × ℕ → Type 0
  CarriesBlob (tx, _) = Each (λ hashes. 0 < length hashes) tx.blob_versioned_hashes

  abbrev pub pooled : Result String (Option SidecarVariant) → Option SidecarVariant
  pooled (err _) = none
  pooled (ok found) = found

  abbrev pub sidecar_for : B256 → Option (List B256) → Option SidecarVariant
  sidecar_for hash none = none
  sidecar_for hash (some _) = pooled (c.get_blob hash)

  -- The sidecars of a block's blob transactions, pushed in the order of the block.
  abbrev pub collect : BlobSidecars → List (Tx × ℕ) → BlobSidecars
  collect acc [] = acc
  collect acc ((tx, _) ∷ rest) =
      collect (push c l (sidecar_for tx.hash tx.blob_versioned_hashes) acc) rest

  pub collect-append :
      (acc : BlobSidecars) (xs ys : List (Tx × ℕ))
      → collect acc (xs ++ ys) ≡ collect (collect acc xs) ys
  collect-append acc [] ys = refl
  collect-append acc ((tx, _) ∷ xs) ys =
      collect-append (push c l (sidecar_for tx.hash tx.blob_versioned_hashes) acc) xs ys

  -- The block so far is within its caps, and the variables are its totals.
  pub record Inv (s : LoopState I B) : Type 0 where
    pub blobs_counted : s.block_blob_count ≡ sum_of blobs (c.transactions s.builder)
    pub blobs_capped : s.block_blob_count ≤ l.max_blob_count
    pub gas_counted : s.cumulative_gas_used ≡ sum_of gas_used (c.transactions s.builder)
    pub gas_capped : s.cumulative_gas_used ≤ l.block_gas_limit
    pub fees_counted : s.total_fees ≡ sum_of (fee l.base_fee) (c.transactions s.builder) % u256_mod
    pub rlp_counted :
        s.block_transactions_rlp_length ≡ sum_of rlp (c.transactions s.builder) % u64_mod
    pub sidecars_collected : s.blob_sidecars ≡ collect empty (c.transactions s.builder)
    pub sidecars_matched : All HasSidecar (c.transactions s.builder)
    pub blobs_carried : All CarriesBlob (c.transactions s.builder)

  -- What the tests of a turn have shown about a transaction that is then executed.
  pub record Admitted (s : LoopState I B) (tx : Tx) (taken : Option SidecarVariant) : Type 0 where
    pub gas_fits : s.cumulative_gas_used + tx.gas_limit ≤ l.block_gas_limit
    pub blobs_fit : s.block_blob_count + blob_count tx ≤ l.max_blob_count
    pub matched : Matched tx.hash tx.blob_versioned_hashes taken

  pub choose_taken :
      (count : ℕ) (hash : B256) (hashes : Option (List B256)) {taken : Option SidecarVariant}
      → l.max_blob_count + hash_count hashes < u64_mod
      → count ≤ l.max_blob_count
      → choose_sidecar c l count hash hashes ≡ take taken
      → (count + hash_count hashes ≤ l.max_blob_count) × Matched hash hashes taken
  unfolding choose_sidecar
  choose_taken count hash none small capped h = (omega arith, cc)
  choose_taken count hash (some hs) {taken} small capped h =
      let (within, picked) = within_cap in (within, pick_taken l.is_osaka (c.get_blob hash) picked)
    where
      within_cap :
          (count + length hs ≤ l.max_blob_count)
          × (pick_sidecar l.is_osaka (c.get_blob hash) ≡ take taken)
      within_cap = ground arith
