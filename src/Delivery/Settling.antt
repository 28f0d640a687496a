-- ===== src/Delivery/Settling.antt =====
-- No delivery of a batch is left behind in PROCESSING.
use shannon_bot.Base.{
  ==_iff, All, Bool, Bool-cases, List, [], ap, arith, contains, inl, inr, map, refl, true, ℕ, ◌+◌,
  ◌==◌, ◌∷◌, ◌≡◌, ◌≢◌,
}
use shannon_bot.Delivery.Calm.{
  IsCalm, finished-Calms, given_up-Calms, release-IsCalm, release-settles, sent_round-Calms,
  still_held-hits, update-IsCalm, update-settles,
}
use shannon_bot.Delivery.Store.{
  Table, WebhookEvent, finish, finished, give_up, given_up, ids, lease, retry_later, sent_round,
  still_held,
}
use shannon_bot.Delivery.Worker.{
  Delivery, Dispatched, Failure, Ran, WorkerSettings, World, answered, backoff_for, cancelled,
  cancelled_batch, delivery_ids, delivery_of, failed_batch, failing, hand_back, handle, handled,
  outcome_status, reason, recorded, refused, reschedule, run_batch, run_once,
}
use shannon_bot.Intake.Reading.{whole}

module _ (s : WorkerSettings) (w : World) where
  reschedule-IsCalm :
      (i now : ℕ) (d : Delivery) (e : Failure) (t : Table)
      → All (IsCalm i) t.rows
      → All (IsCalm i) (reschedule s now d e t).rows
  unfolding reschedule give_up retry_later
  reschedule-IsCalm i now d e t h = ground (
    arith,
    update-IsCalm i (given_up now (reason s e)) (given_up-Calms now (reason s e)) t
        (still_held d.id) h,
    update-IsCalm i (sent_round (now + backoff_for s d.attempts) (reason s e))
        (sent_round-Calms (now + backoff_for s d.attempts) (reason s e)) t (still_held d.id) h,
  )

  reschedule-settles :
      (now : ℕ) (d : Delivery) (e : Failure) (t : Table)
      → All (IsCalm d.id) (reschedule s now d e t).rows
  unfolding reschedule give_up retry_later
  reschedule-settles now d e t = ground (
    arith,
    update-settles d.id (given_up now (reason s e)) (given_up-Calms now (reason s e)) t
        (still_held d.id) (still_held-hits d.id),
    update-settles d.id (sent_round (now + backoff_for s d.attempts) (reason s e))
        (sent_round-Calms (now + backoff_for s d.attempts) (reason s e)) t (still_held d.id)
        (still_held-hits d.id),
  )

  handle-IsCalm :
      (i index : ℕ) (d : Delivery) (t : Table)
      → All (IsCalm i) t.rows
      → All (IsCalm i) (handle s w index d t).0.rows
  unfolding handle finish give_up
  handle-IsCalm i index d t h = go (w.dispatch d) refl
    where
      go : (x : Dispatched) → w.dispatch d ≡ x → All (IsCalm i) (handle s w index d t).0.rows
      go (answered o) e =
          rw (e, handle)
            (ground (
              arith,
              update-IsCalm i (finished (w.clock index) (outcome_status o))
                  (finished-Calms (w.clock index) o) t (still_held d.id) h,
            ))
      go (refused f) e =
          rw (e, handle)
            (ground (
              arith,
              update-IsCalm i (given_up (w.clock index) (reason s f))
                  (given_up-Calms (w.clock index) (reason s f)) t (still_held d.id) h,
            ))
      go (failing f) e =
          rw (e, handle) (ground (arith, reschedule-IsCalm i (w.clock index) d f t h))
      go cancelled e = rw (e, handle) h

  handle-settles :
      (index : ℕ) (d : Delivery) (t : Table)
      → (handle s w index d t).1 ≡ recorded
      → All (IsCalm d.id) (handle s w index d t).0.rows
  unfolding handle finish give_up
  handle-settles index d t landed = go (w.dispatch d) refl landed
    where
      go :
          (x : Dispatched)
          → w.dispatch d ≡ x
          → (handle s w index d t).1 ≡ recorded
          → All (IsCalm d.id) (handle s w index d t).0.rows
      go (answered o) e =
          rw (e, handle)
            (λ k. ground (
              arith,
              k,
              update-settles d.id (finished (w.clock index) (outcome_status o))
                  (finished-Calms (w.clock index) o) t (still_held d.id) (still_held-hits d.id),
            ))
      go (refused f) e =
          rw (e, handle)
            (λ k. ground (
              arith,
              k,
              update-settles d.id (given_up (w.clock index) (reason s f))
                  (given_up-Calms (w.clock index) (reason s f)) t (still_held d.id)
                  (still_held-hits d.id),
            ))
      go (failing f) e =
          rw (e, handle) (λ k. ground (arith, k, reschedule-settles (w.clock index) d f t))
      go cancelled e = rw (e, handle) (λ k. cc)

  hand_back-IsCalm :
      (i : ℕ) (ds : List Delivery) (result : Ran) (t : Table)
      → All (IsCalm i) t.rows
      → All (IsCalm i) (hand_back w ds result t).0.rows
  unfolding hand_back
  hand_back-IsCalm i ds result t h = ground (arith, release-IsCalm i (delivery_ids ds) t h)

  run_batch-IsCalm :
      (i index : ℕ) (ds : List Delivery) (t : Table)
      → All (IsCalm i) t.rows
      → All (IsCalm i) (run_batch s w index ds t).0.rows
  unfolding run_batch
  run_batch-IsCalm i index [] t h = h
  run_batch-IsCalm i index (d ∷ ds) t h =
      let after = (handle s w index d t).0 in
      ground (
        arith,
        hand_back-IsCalm i (d ∷ ds) (handled index) t h,
        hand_back-IsCalm i (d ∷ ds) failed_batch after (handle-IsCalm i index d t h),
        hand_back-IsCalm i ds cancelled_batch after (handle-IsCalm i index d t h),
        run_batch-IsCalm i (index + 1) ds after (handle-IsCalm i index d t h),
      )

  hand_back-settles :
      (i : ℕ) (ds : List Delivery) (result : Ran) (t : Table)
      → w.hands_back ≡ true
      → contains i (delivery_ids ds) ≡ true
      → All (IsCalm i) (hand_back w ds result t).0.rows
  unfolding hand_back
  hand_back-settles i ds result t lands c = rw lands (release-settles i (delivery_ids ds) t c)

  -- The delivery in hand was recorded; `later` is about the rest of the batch.
  rest-settles :
      (i index : ℕ) (d : Delivery) (ds : List Delivery) (t : Table)
      → contains i (delivery_ids (d ∷ ds)) ≡ true
      → (contains i (delivery_ids ds) ≡ true
          → All (IsCalm i) (run_batch s w (index + 1) ds (handle s w index d t).0).0.rows)
      → (handle s w index d t).1 ≡ recorded
      → All (IsCalm i) (run_batch s w (index + 1) ds (handle s w index d t).0).0.rows
  rest-settles i index d ds t c rest e = elim (Bool-cases (i == d.id)) [
    | inl same ↦
        run_batch-IsCalm i (index + 1) ds (handle s w index d t).0
          (rw ((==_iff i d.id).0 same) (handle-settles index d t e))
    | inr other ↦ rest (ground arith)
  ]

  run_batch-settles :
      (i index : ℕ) (ds : List Delivery) (t : Table)
      → w.hands_back ≡ true
      → contains i (delivery_ids ds) ≡ true
      → (run_batch s w index ds t).1 ≢ cancelled_batch
      → All (IsCalm i) (run_batch s w index ds t).0.rows
  unfolding run_batch hand_back
  run_batch-settles i index [] t lands c whole = cc
  run_batch-settles i index (d ∷ ds) t lands c whole =
      let after = (handle s w index d t).0 in
      ground (
        arith,
        release-settles i (delivery_ids (d ∷ ds)) t c,
        release-settles i (delivery_ids (d ∷ ds)) after c,
        λ (calm : (run_batch s w (index + 1) ds after).1 ≢ cancelled_batch).
            rest-settles i index d ds t c
              (λ k. run_batch-settles i (index + 1) ds after lands k calm),
      )

pub delivery_ids-delivery_of :
    (rows : List WebhookEvent) → delivery_ids (map delivery_of rows) ≡ ids rows
unfolding delivery_of
delivery_ids-delivery_of [] = refl
delivery_ids-delivery_of (r ∷ rows) = ap (λ l. r.id ∷ l) (delivery_ids-delivery_of rows)

-- Where the database takes the release and nobody cancels the worker, no delivery that `run_once`
-- leased is still PROCESSING when it comes back: settled, or handed back, whether it returned,
-- was asked to stop, or raised because an outcome could not be written.
pub run_once-settles :
    (s : WorkerSettings) (w : World) (held : ℕ → Bool) (now i : ℕ) (t : Table)
    → w.hands_back ≡ true
    → contains i (ids (lease held s.batch_size s.lease_for now t).1) ≡ true
    → (run_once s w held now t).1 ≢ cancelled_batch
    → All (IsCalm i) (run_once s w held now t).0.rows
unfolding run_once
run_once-settles s w held now i t lands c whole =
    let (after, rows) = lease held s.batch_size s.lease_for now t in
    run_batch-settles s w i 0 (map delivery_of rows) after lands
      (rw (delivery_ids-delivery_of rows) c) whole
