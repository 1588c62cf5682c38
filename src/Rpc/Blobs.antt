-- ===== src/Rpc/Blobs.antt =====
-- What getBlobs answers and counts.
use load_reth.Common.{
  ℕ, ◌≡◌, refl, ◌⊎◌, inl, inr, ◌≤◌, Bool, true, false, Option, none, some, List, length, Result, ok,
  err, arith, String, sub64, Bool-cases, subst,
}
use load_reth.Prevrandao.{B256}
use load_reth.Chain.Types.{Hardfork, load_max_blob_count}
use load_reth.Rpc.Types.{Answers, Engine, Server, validate_blob_request}
use load_reth.Rpc.Queries.{
  count_some, ensure_osaka, answer_entries, answer_all_or_none, answer_unless_syncing, get_blobs_v1,
  get_blobs_v2, get_blobs_v3,
}
use load_reth.Rpc.Counting.{
  PoolAnswers, Counted, present, count_some-present, length-present-le, few_passed, guarded-ok,
  in_some-ok, now_Counted, all_or_none,
}

module _ {W S : Type 0} {T : Answers} (e : Engine W S T) where
  answer_entries-Counted :
      {A : Type 0} (n : ℕ) (found : Result String (List (Option A))) {s s' : Server W}
      {blobs : List (Option A)}
      → n ≤ load_max_blob_count
      → ((l : List (Option A)) → found ≡ ok l → length l ≡ n)
      → answer_entries e found s ≡ (ok blobs, s')
      → (found ≡ ok blobs) × Counted (length (present blobs)) n s s'
  unfolding answer_entries
  answer_entries-Counted n (err x) small one_each h = cc
  answer_entries-Counted n (ok l) {s} {s'} {blobs} small one_each h = (
    cc,
    subst (λ b. Counted (length (present b)) n s s') {x = l} {y = blobs} (cc)
        (subst (Counted (length (present l)) n s) (cc) (
          now_Counted (length (present l)) n (count_some l) (sub64 (length l) (count_some l)) s
            (omega (arith, one_each l refl, length-present-le l)) (count_some-present l)
            (omega (arith, one_each l refl, count_some-present l, length-present-le l, small)))),
  )

  all_or_none-Counted :
      {A : Type 0} (hashes : List B256) (found : Result String (Option (List A))) {s s' : Server W}
      {answer : Option (List A)}
      → length hashes ≤ load_max_blob_count
      → ((l : List A) → found ≡ ok (some l) → length l ≡ length hashes)
      → answer_all_or_none e hashes found s ≡ (ok answer, s')
      → (found ≡ ok answer) × Counted (all_or_none answer) (length hashes) s s'
  unfolding answer_all_or_none
  all_or_none-Counted hashes (err x) small one_each h = cc
  all_or_none-Counted hashes (ok none) {s} {s'} {answer} small one_each h = (
    cc,
    subst (λ b. Counted (all_or_none b) (length hashes) s s') {x = none} {y = answer} (cc)
        (subst (Counted 0 (length hashes) s) (cc)
          (now_Counted 0 (length hashes) 0 (length hashes) s (omega arith) refl (omega arith))),
  )
  all_or_none-Counted hashes (ok (some l)) {s} {s'} {answer} small one_each h = (
    cc,
    subst (λ b. Counted (all_or_none b) (length hashes) s s') {x = some l} {y = answer} (cc)
        (subst (Counted (length l) (length hashes) s) (cc) (
          now_Counted (length l) (length hashes) (length l) (sub64 (length hashes) (length l)) s
            (omega (arith, one_each l refl)) refl (omega (arith, one_each l refl, small)))),
  )

  -- A successful getBlobsV1 answers with the pool's entries for at most 1024 hashes, and counts one
  -- request with a hit for each entry that is there and a miss for each other hash.
  pub get_blobs_v1-Counted :
      (hashes : List B256) (s s' : Server W) (blobs : List (Option T.BlobAndProofV1))
      → PoolAnswers e
      → get_blobs_v1 e hashes s ≡ (ok blobs, s')
      → (length hashes ≤ load_max_blob_count)
        × (e.get_blobs_v1_of_pool s.world hashes ≡ ok blobs)
        × Counted (length (present blobs)) (length hashes) s s'
  unfolding get_blobs_v1
  get_blobs_v1-Counted hashes s s' blobs answers h =
      let (fits, rest) = guarded-ok (validate_blob_request hashes) _ h in
      let small = few_passed hashes fits in
      let (found, counted) =
        answer_entries-Counted (length hashes) (e.get_blobs_v1_of_pool s.world hashes) small
          (answers.one_each_v1 s.world hashes) rest in
      (small, found, counted)

  osaka_passed :
      (s : Server W)
      → ensure_osaka e s ≡ ok tt
      → e.chain_spec.inner.active Hardfork.osaka (e.unix_seconds s.world) ≡ true
  unfolding ensure_osaka
  osaka_passed s h =
      elim (Bool-cases (e.chain_spec.inner.active Hardfork.osaka (e.unix_seconds s.world))) [
        | inl now ↦ now
        | inr early ↦ cc (rw early at h)
      ]

  -- A successful getBlobsV2 needs Osaka and at most 1024 hashes. It answers as the pool does, for
  -- all hashes or for none, and counts one request with all hits or all misses.
  pub get_blobs_v2-Counted :
      (hashes : List B256) (s s' : Server W) (answer : Option (List T.BlobAndProofV2))
      → PoolAnswers e
      → get_blobs_v2 e hashes s ≡ (ok answer, s')
      → (e.chain_spec.inner.active Hardfork.osaka (e.unix_seconds s.world) ≡ true)
        × (length hashes ≤ load_max_blob_count)
        × (e.get_blobs_v2_of_pool s.world hashes ≡ ok answer)
        × Counted (all_or_none answer) (length hashes) s s'
  unfolding get_blobs_v2
  get_blobs_v2-Counted hashes s s' answer answers h =
      let (now, h₁) = guarded-ok (ensure_osaka e s) _ h in
      let (fits, h₂) = guarded-ok (validate_blob_request hashes) _ h₁ in
      let small = few_passed hashes fits in
      let (found, counted) =
        all_or_none-Counted hashes (e.get_blobs_v2_of_pool s.world hashes) small
          (answers.one_each_v2 s.world hashes) h₂ in
      (osaka_passed s now, small, found, counted)

  -- While the node syncs, nothing is looked up and nothing counted; else the entries are the pool's.
  abbrev pub AnswersV3 :
      List B256 → Server W → Server W → Option (List (Option T.BlobAndProofV2)) → Type 0
  AnswersV3 hashes s s' none = (e.is_syncing s.world ≡ true) × (s' ≡ s)
  AnswersV3 hashes s s' (some blobs) =
      (e.is_syncing s.world ≡ false)
      × (e.get_blobs_v3_of_pool s.world hashes ≡ ok blobs)
      × Counted (length (present blobs)) (length hashes) s s'

  unless_syncing-Counted :
      {A : Type 0} (syncing : Bool) (n : ℕ) (found : Result String (List (Option A)))
      {s s' : Server W} (answer : Option (List (Option A)))
      → n ≤ load_max_blob_count
      → ((l : List (Option A)) → found ≡ ok l → length l ≡ n)
      → answer_unless_syncing e syncing found s ≡ (ok answer, s')
      → ((syncing ≡ true) × (answer ≡ none) × (s' ≡ s))
        ⊎ ((syncing ≡ false)
            × ((blobs : List (Option A)) × (answer ≡ some blobs)
                × (found ≡ ok blobs)
                × Counted (length (present blobs)) n s s'))
  unfolding answer_unless_syncing
  unless_syncing-Counted true n found answer small one_each h = inl (refl, cc, cc)
  unless_syncing-Counted false n found {s} answer small one_each h =
      let (blobs, same, rest) = in_some-ok (answer_entries e found s) h in
      let (there, counted) = answer_entries-Counted n found small one_each rest in
      inr (refl, (blobs, same, there, counted))

  answers_v3 :
      (hashes : List B256) (s s' : Server W) (answer : Option (List (Option T.BlobAndProofV2)))
      → ((e.is_syncing s.world ≡ true) × (answer ≡ none) × (s' ≡ s))
        ⊎ ((e.is_syncing s.world ≡ false)
            × ((blobs : List (Option T.BlobAndProofV2)) × (answer ≡ some blobs)
                × (e.get_blobs_v3_of_pool s.world hashes ≡ ok blobs)
                × Counted (length (present blobs)) (length hashes) s s'))
      → AnswersV3 hashes s s' answer
  answers_v3 hashes s s' answer (inl (now, same, kept)) = rw same (now, kept)
  answers_v3 hashes s s' answer (inr (now, (blobs, same, found, counted))) =
      rw same (now, found, counted)

  -- A successful getBlobsV3 needs Osaka and at most 1024 hashes. While the node syncs it answers
  -- with nothing and changes nothing; else it answers with the pool's entries, and counts one
  -- request with a hit for each entry that is there and a miss for each other hash.
  pub get_blobs_v3-AnswersV3 :
      (hashes : List B256) (s s' : Server W) (answer : Option (List (Option T.BlobAndProofV2)))
      → PoolAnswers e
      → get_blobs_v3 e hashes s ≡ (ok answer, s')
      → (e.chain_spec.inner.active Hardfork.osaka (e.unix_seconds s.world) ≡ true)
        × (length hashes ≤ load_max_blob_count)
        × AnswersV3 hashes s s' answer
  unfolding get_blobs_v3
  get_blobs_v3-AnswersV3 hashes s s' answer answers h =
      let (now, h₁) = guarded-ok (ensure_osaka e s) _ h in
      let (fits, h₂) = guarded-ok (validate_blob_request hashes) _ h₁ in
      let small = few_passed hashes fits in
      (
        osaka_passed s now,
        small,
        answers_v3 hashes s s' answer (
            unless_syncing-Counted (e.is_syncing s.world) (length hashes)
              (e.get_blobs_v3_of_pool s.world hashes) answer small
              (answers.one_each_v3 s.world hashes) h₂),
      )
