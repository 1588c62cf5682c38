-- ===== src/Backpressure/Sequence.antt =====
-- A batch with a guarded call beside its entries, answered one after the other.
use load_reth.Common.{
  ◌≡◌, refl, ◌∙◌, ◌⊎◌, inl, inr, Bool, true, false, ◌||◌, Option, none, some, List, [], ◌∷◌, ◌++◌,
  any, Result, ok, err, ◌>>=◌, Result-cases, ap, arith,
}
use load_reth.Backpressure.Config.{LoadRpcBackpressureConfig}
use load_reth.Backpressure.Service.{
  World, Entry, call_entry, note_entry, bad_entry, Service, call, is_guarded, close, batch_loop,
  batch,
}

abbrev pub is_note : {Req Note : Type 0} → Entry Req Note → Bool
is_note (call_entry req) = false
is_note (note_entry n) = true
is_note (bad_entry e) = false

module _ {W Req Note Resp Builder : Type 0} (sv : Service W Req Note Resp Builder)
    (config : LoadRpcBackpressureConfig) where
  -- The answer to one entry: none for a notification.
  unfoldable pub answer : Entry Req Note → World W → Option Resp × World W
  answer (call_entry req) w = (some (call sv config req w).0, (call sv config req w).1)
  answer (note_entry n) w = (none, sv.notification n w)
  answer (bad_entry e) w = (some (sv.error_of e), w)

  -- The answers to entries, each from the state that the one before it has left.
  unfoldable pub answers : List (Entry Req Note) → World W → List (Option Resp) × World W
  answers [] w = ([], w)
  answers (e ∷ rest) w =
      ((answer e w).0 ∷ (answers rest (answer e w).1).0, (answers rest (answer e w).1).1)

  abbrev pub append_answer : Builder → Option Resp → Result Resp Builder
  append_answer b none = ok b
  append_answer b (some r) = sv.append b r

  unfoldable pub append_all : Builder → List (Option Resp) → Result Resp Builder
  append_all b [] = ok b
  append_all b (o ∷ rest) = append_answer b o >>= λ b'. append_all b' rest

  -- Every answer has been appended.
  pub record Completed (entries : List (Entry Req Note)) (noted : Bool) (b : Builder) (w : World W)
      (result : Resp × World W) : Type 0 where
    pub full : Builder
    pub appended_all : append_all b (answers entries w).0 ≡ ok full
    pub closed :
        result ≡ (close sv config full (noted || any is_note entries), (answers entries w).1)

  -- The answer to one entry did not fit; the entries after it have not run.
  pub record Stopped (entries : List (Entry Req Note)) (b : Builder) (w : World W)
      (result : Resp × World W) : Type 0 where
    pub before : List (Entry Req Note)
    pub last : Entry Req Note
    pub rest : List (Entry Req Note)
    pub split : entries ≡ before ++ last ∷ rest
    pub full : Builder
    pub appended_before : append_all b (answers before w).0 ≡ ok full
    pub refused : append_answer full (answer last (answers before w).1).0 ≡ err result.0
    pub left : result.1 ≡ (answer last (answers before w).1).1

  abbrev pub IsSequential :
      List (Entry Req Note) → Bool → Builder → World W → Resp × World W → Type 0
  IsSequential entries noted b w result =
      Completed entries noted b w result ⊎ Stopped entries b w result

  -- An entry in front, whose answer has been appended.
  prepend-IsSequential :
      (e : Entry Req Note) (entries : List (Entry Req Note)) (noted noted' : Bool) (b b' : Builder)
      (w : World W) {result : Resp × World W}
      → append_answer b (answer e w).0 ≡ ok b'
      → noted' ≡ noted || is_note e
      → IsSequential entries noted' b' (answer e w).1 result
      → IsSequential (e ∷ entries) noted b w result
  unfolding answers append_all
  prepend-IsSequential e entries noted noted' b b' w fits marked (inl c) = inl (record {
    full = c.full;
    appended_all = rw fits c.appended_all;
    closed = c.closed ∙ rw marked (ground arith);
  })
  prepend-IsSequential e entries noted noted' b b' w fits marked (inr s) = inr (record {
    before = e ∷ s.before;
    last = s.last;
    rest = s.rest;
    split = ap (λ l. e ∷ l) s.split;
    full = s.full;
    appended_before = rw fits s.appended_before;
    refused = s.refused;
    left = s.left;
  })

  stop-IsSequential :
      (e : Entry Req Note) (entries : List (Entry Req Note)) (noted : Bool) (b : Builder)
      (w : World W) (x : Resp)
      → append_answer b (answer e w).0 ≡ err x
      → IsSequential (e ∷ entries) noted b w (x, (answer e w).1)
  unfolding answers append_all
  stop-IsSequential e entries noted b w x over = inr (record {
    before = [];
    last = e;
    rest = entries;
    split = refl;
    full = b;
    appended_before = refl;
    refused = over;
    left = refl;
  })

  batch_loop-IsSequential :
      (entries : List (Entry Req Note)) (noted : Bool) (b : Builder) (w : World W)
      → IsSequential entries noted b w (batch_loop sv config entries noted b w)
  unfolding batch_loop answers append_all answer
  batch_loop-IsSequential [] noted b w =
      inl (record { full = b; appended_all = refl; closed = ground arith })
  batch_loop-IsSequential (call_entry req ∷ rest) noted b w =
      elim (Result-cases (sv.append b (call sv config req w).0)) [
        | inl (b', fits) ↦ rw fits (
            prepend-IsSequential (call_entry req) rest noted noted b b' w fits (ground arith)
              (batch_loop-IsSequential rest noted b' (call sv config req w).1))
        | inr (x, over) ↦ rw over (stop-IsSequential (call_entry req) rest noted b w x over)
      ]
  batch_loop-IsSequential (note_entry n ∷ rest) noted b w =
      prepend-IsSequential (note_entry n) rest noted true b b w refl (ground arith)
        (batch_loop-IsSequential rest true b (sv.notification n w))
  batch_loop-IsSequential (bad_entry e ∷ rest) noted b w =
      elim (Result-cases (sv.append b (sv.error_of e))) [
        | inl (b', fits) ↦ rw fits (
            prepend-IsSequential (bad_entry e) rest noted noted b b' w fits (ground arith)
              (batch_loop-IsSequential rest noted b' w))
        | inr (x, over) ↦ rw over (stop-IsSequential (bad_entry e) rest noted b w x over)
      ]

  -- A batch with a guarded call, in full. Its entries are answered in order, each from the state that
  -- the one before it has left. Either every answer is appended, and the batch ends in the state after
  -- the last entry with the response that closes what was appended; or one answer does not fit, and the batch ends at once, with the error
  -- of that append and in the state after that entry: no later entry has run.
  pub batch-IsSequential :
      (entries : List (Entry Req Note)) (w : World W)
      → any (is_guarded sv config) entries ≡ true
      → IsSequential entries false
          (sv.new_with_limit config.batch_response_limit_bytes)
          w
          (batch sv config entries w)
  unfolding batch
  batch-IsSequential entries w guarded = rw guarded (batch_loop-IsSequential entries false _ w)
