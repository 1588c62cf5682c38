-- ===== src/Backpressure/Batch.antt =====
-- How a batch with a guarded call is answered.
use load_reth.Common.{
  ◌≡◌, refl, ◌⊎◌, inl, inr, Bool, true, false, List, [], ◌∷◌, ok, err, any, Bool-cases,
  Result-cases,
}
use load_reth.Backpressure.Config.{LoadRpcBackpressureConfig}
use load_reth.Backpressure.Service.{
  World, Entry, call_entry, note_entry, bad_entry, Service, call, is_guarded, appended, batch_loop,
  batch,
}

module _ {W Req Note Resp Builder : Type 0} (sv : Service W Req Note Resp Builder)
    (config : LoadRpcBackpressureConfig)
    (fills : (b b' : Builder) (r : Resp) → sv.append b r ≡ ok b' → sv.is_empty b' ≡ false) where
  -- A finished batch of responses, or the error of an append that did not fit.
  abbrev pub IsBatchAnswer : Resp × World W → Type 0
  IsBatchAnswer (r, w) =
      ((b : Builder) × (sv.is_empty b ≡ false) × (r ≡ sv.from_batch b))
      ⊎ ((b : Builder) × (x : Resp) × (sv.append b x ≡ err r))

  appended-IsBatchAnswer :
      (go : Builder → World W → Resp × World W) (w : World W) (b : Builder) (r : Resp)
      → ((b' : Builder) → sv.is_empty b' ≡ false → IsBatchAnswer (go b' w))
      → IsBatchAnswer (appended sv config go w (sv.append b r))
  appended-IsBatchAnswer go w b r next = elim (Result-cases (sv.append b r)) [
    | inl (b', e) ↦ rw e (next b' (fills b b' r e))
    | inr (x, e) ↦ rw e (inr (b, r, e))
  ]

  filled-IsBatchAnswer :
      (entries : List (Entry Req Note)) (noted : Bool) (b : Builder) (w : World W)
      → sv.is_empty b ≡ false
      → IsBatchAnswer (batch_loop sv config entries noted b w)
  unfolding batch_loop
  filled-IsBatchAnswer [] noted b w full = inl (b, full, rw full refl)
  filled-IsBatchAnswer (call_entry req ∷ rest) noted b w full =
      appended-IsBatchAnswer (batch_loop sv config rest noted) (call sv config req w).1 b
        (call sv config req w).0
        (λ b' full'. filled-IsBatchAnswer rest noted b' (call sv config req w).1 full')
  filled-IsBatchAnswer (note_entry n ∷ rest) noted b w full =
      filled-IsBatchAnswer rest true b (sv.notification n w) full
  filled-IsBatchAnswer (bad_entry e ∷ rest) noted b w full =
      appended-IsBatchAnswer (batch_loop sv config rest noted) w b (sv.error_of e)
        (λ b' full'. filled-IsBatchAnswer rest noted b' w full')

  guarded-IsBatchAnswer :
      (entries : List (Entry Req Note)) (noted : Bool) (b : Builder) (w : World W)
      → any (is_guarded sv config) entries ≡ true
      → IsBatchAnswer (batch_loop sv config entries noted b w)
  unfolding batch_loop
  guarded-IsBatchAnswer [] noted b w some_guarded = cc
  guarded-IsBatchAnswer (call_entry req ∷ rest) noted b w some_guarded =
      appended-IsBatchAnswer (batch_loop sv config rest noted) (call sv config req w).1 b
        (call sv config req w).0
        (λ b' full. filled-IsBatchAnswer rest noted b' (call sv config req w).1 full)
  guarded-IsBatchAnswer (note_entry n ∷ rest) noted b w some_guarded =
      guarded-IsBatchAnswer rest true b (sv.notification n w) some_guarded
  guarded-IsBatchAnswer (bad_entry e ∷ rest) noted b w some_guarded =
      appended-IsBatchAnswer (batch_loop sv config rest noted) w b (sv.error_of e)
        (λ b' full. filled-IsBatchAnswer rest noted b' w full)

  -- A batch without a guarded call is the wrapped service's. Any other is answered by the finished
  -- batch of its responses, which is not empty, or by the error of the append that went over the
  -- limit: never as a notification, whatever the calls answer. Appending fills a batch.
  pub batch_cases :
      (entries : List (Entry Req Note)) (w : World W)
      → ((any (is_guarded sv config) entries ≡ false)
          × (batch sv config entries w ≡ sv.batch entries w))
        ⊎ ((any (is_guarded sv config) entries ≡ true) × IsBatchAnswer (batch sv config entries w))
  unfolding batch
  batch_cases entries w = elim (Bool-cases (any (is_guarded sv config) entries)) [
    | inl yes_guarded ↦
        inr (yes_guarded, rw yes_guarded (guarded-IsBatchAnswer entries false _ w yes_guarded))
    | inr none_guarded ↦ inl (none_guarded, rw none_guarded refl)
  ]
