-- ===== src/Rpc/Counting.antt =====
-- How the requests of getBlobs are counted.
use load_reth.Common.{
  ℕ, ◌-◌, ◌≡◌, refl, ◌≤◌, Option, none, some, List, [], ◌∷◌, length, Result, ok, err, arith, add64,
  ap,
}
use load_reth.Prevrandao.{B256}
use load_reth.Chain.Types.{load_max_blob_count}
use load_reth.Rpc.Metrics.{record_get_blobs}
use load_reth.Rpc.Types.{
  EngineApiError, Answers, Engine, Server, Handler, validate_blob_request, guarded,
}
use load_reth.Rpc.Queries.{count_some, in_some}

-- What the pool documents: its lists have one entry for each requested hash, in version 2 where
-- there is an answer at all.
pub record PoolAnswers {W S : Type 0} {T : Answers} (e : Engine W S T) : Type 0 where
  pub one_each_v1 :
      (w : W) (hashes : List B256) (l : List (Option T.BlobAndProofV1))
      → e.get_blobs_v1_of_pool w hashes ≡ ok l
      → length l ≡ length hashes
  pub one_each_v2 :
      (w : W) (hashes : List B256) (l : List T.BlobAndProofV2)
      → e.get_blobs_v2_of_pool w hashes ≡ ok (some l)
      → length l ≡ length hashes
  pub one_each_v3 :
      (w : W) (hashes : List B256) (l : List (Option T.BlobAndProofV2))
      → e.get_blobs_v3_of_pool w hashes ≡ ok l
      → length l ≡ length hashes

-- The request is counted in `s'`: `found` of its `asked` blobs as hits, the others as misses.
pub record Counted {W : Type 0} (found asked : ℕ) (s s' : Server W) : Type 0 where
  pub few : found ≤ asked
  pub request : s'.metrics.get_blobs_requests ≡ add64 s.metrics.get_blobs_requests 1
  pub hits : s'.metrics.get_blobs_hits ≡ add64 s.metrics.get_blobs_hits found
  pub misses : s'.metrics.get_blobs_misses ≡ add64 s.metrics.get_blobs_misses (asked - found)
  pub forkchoices : s'.metrics.forkchoice_latency ≡ s.metrics.forkchoice_latency
  pub world : s'.world ≡ s.world

-- The entries that are there.
abbrev pub present : {A : Type 0} → List (Option A) → List A
present [] = []
present (none ∷ l) = present l
present (some a ∷ l) = a ∷ present l

pub count_some-present : {A : Type 0} (l : List (Option A)) → count_some l ≡ length (present l)
count_some-present [] = refl
count_some-present (none ∷ l) = count_some-present l
count_some-present (some a ∷ l) = omega (arith, count_some-present l)

pub length-present-le : {A : Type 0} (l : List (Option A)) → length (present l) ≤ length l
length-present-le [] = omega arith
length-present-le (none ∷ l) = omega (arith, length-present-le l)
length-present-le (some a ∷ l) = omega (arith, length-present-le l)

pub few_passed :
    (hashes : List B256)
    → validate_blob_request hashes ≡ ok tt
    → length hashes ≤ load_max_blob_count
unfolding validate_blob_request
few_passed hashes h = ground arith

-- A request that a guard lets through.
pub guarded-ok :
    {W A : Type 0} (r : Result EngineApiError (Unit {0})) (rest : Handler W A) {s s' : Server W}
    {a : A}
    → guarded r rest s ≡ (ok a, s')
    → (r ≡ ok tt) × (rest s ≡ (ok a, s'))
guarded-ok (ok tt) rest h = (refl, h)
guarded-ok (err x) rest h = cc

pub in_some-ok :
    {W A : Type 0} (r : Result EngineApiError A × Server W) {s' : Server W} {answer : Option A}
    → in_some r ≡ (ok answer, s')
    → (a : A) × (answer ≡ some a) × (r ≡ (ok a, s'))
in_some-ok (ok a, s) h = (a, cc, cc)
in_some-ok (err x, s) h = cc

pub now_Counted :
    {W : Type 0} (found asked hit missed : ℕ) (s : Server W)
    → found ≤ asked
    → hit ≡ found
    → missed ≡ asked - found
    → Counted found asked s (record s { metrics = record_get_blobs s.metrics hit missed })
unfolding record_get_blobs
now_Counted found asked hit missed s le h e = record {
  few = le;
  request = refl;
  hits = ap (add64 s.metrics.get_blobs_hits) h;
  misses = ap (add64 s.metrics.get_blobs_misses) e;
  forkchoices = refl;
  world = refl;
}

-- How many blobs an answer of version 2 has.
abbrev pub all_or_none : {A : Type 0} → Option (List A) → ℕ
all_or_none none = 0
all_or_none (some l) = length l
