-- ===== src/Delivery/Attempts.antt =====
-- How often a delivery is tried.
use shannon_bot.Base.{
  All, All-both, All-keep, Bool, List, String, [], arith, false, map, not, refl, true, ℕ, ◌+◌, ◌<◌,
  ◌∷◌, ◌≡◌, ◌≢◌,
}
use shannon_bot.Delivery.Batches.{
  Agrees, HasDistinctIds, IsApart, leased-HasDistinctIds, leased-agree,
}
use shannon_bot.Delivery.Bounded.{
  IsBounded, enqueue-IsBounded, lease-IsBounded, release-IsBounded, update-IsBounded,
}
use shannon_bot.Delivery.Handling.{handle-ind, run_once-IsWellFormed}
use shannon_bot.Delivery.Invariant.{
  IsWellFormed, Step-IsWellFormed, empty_table, enqueues, leases, prunes,
}
use shannon_bot.Delivery.Rows.{All-update_where}
use shannon_bot.Delivery.Store.{
  Table, WebhookEvent, enqueue, finish, finished, give_up, given_up, is_prunable, lease, prune,
  retry_later, sent_round, still_held, update_where,
}
use shannon_bot.Delivery.Worker.{
  Delivery, Ran, WebhookOutcome, WorkerSettings, World, backoff_for, cancelled_batch, delivery_ids,
  delivery_of, failed_batch, hand_back, handle, handled, outcome_status, run_batch, run_once,
}
use shannon_bot.Domain.Enums.{is_live, is_processing}
use shannon_bot.Domain.Json.{JsonObject}

-- A write of the worker to row `i` leaves the others alone.
module _ (d : Delivery) (test : WebhookEvent → Bool) (values : WebhookEvent → WebhookEvent) where
  update-Agrees :
      (t : Table)
      → ((r : WebhookEvent) → test r ≡ true → r.id ≢ d.id)
      → ((r : WebhookEvent) → (values r).id ≡ r.id)
      → All (Agrees d) t.rows
      → All (Agrees d) (update_where test values t).rows
  unfolding update_where
  update-Agrees t elsewhere same =
      All-update_where test values (Agrees d) (Agrees d) t.rows
        (λ r h. ground (arith, elsewhere r, same r))

still_held-id : (i : ℕ) (r : WebhookEvent) → still_held i r ≡ true → r.id ≡ i
unfolding still_held
still_held-id i r h = ground arith

outcome_status-not_live : (o : WebhookOutcome) → is_live (outcome_status o) ≡ false
unfolding outcome_status is_live
outcome_status-not_live WebhookOutcome.processed = refl
outcome_status-not_live _ = refl

module _ (s : WorkerSettings) (w : World) where
  handle-Agrees :
      (index : ℕ) (d e : Delivery) (t : Table)
      → e.id ≢ d.id
      → All (Agrees e) t.rows
      → All (Agrees e) (handle s w index d t).0.rows
  unfolding finish give_up retry_later
  handle-Agrees index d e t ne h =
      handle-ind s w index d t (λ u. All (Agrees e) u.rows) h
        (λ o. spared (finished (w.clock index) (outcome_status o)) (λ r. refl))
        (λ f. spared (given_up (w.clock index) f) (λ r. refl))
        (λ f more. spared (sent_round (w.clock index + backoff_for s d.attempts) f) (λ r. refl))
    where
      spared :
          (values : WebhookEvent → WebhookEvent)
          → ((r : WebhookEvent) → (values r).id ≡ r.id)
          → All (Agrees e) (update_where (still_held d.id) values t).rows
      spared values same =
          update-Agrees e (still_held d.id) values t
            (λ r hit. ground (arith, still_held-id d.id r hit)) same h

  handle-IsBounded :
      (index : ℕ) (d : Delivery) (t : Table)
      → All (Agrees d) t.rows
      → All (IsBounded s.max_attempts) t.rows
      → All (IsBounded s.max_attempts) (handle s w index d t).0.rows
  unfolding finish give_up retry_later finished given_up sent_round still_held is_live is_processing
      update_where
  handle-IsBounded index d t a h =
      handle-ind s w index d t (λ u. All (IsBounded s.max_attempts) u.rows) h
        (λ o.
          update-IsBounded s.max_attempts (still_held d.id)
            (finished (w.clock index) (outcome_status o)) t
            (λ r b hit. (b.0, λ live. cc (outcome_status-not_live o))) h)
        (λ f.
          update-IsBounded s.max_attempts (still_held d.id) (given_up (w.clock index) f) t
            (λ r b hit. ground arith) h)
        (λ f more.
          All-update_where (still_held d.id)
            (sent_round (w.clock index + backoff_for s d.attempts) f)
            (λ r. IsBounded s.max_attempts r × Agrees d r) (IsBounded s.max_attempts) t.rows
            (λ r b. ground arith) (All-both (IsBounded s.max_attempts) (Agrees d) t.rows h a))

  -- Every delivery still to come agrees with its row.
  abbrev AllAgree : List Delivery → Table → Type 0
  AllAgree ds t = All (λ d. All (Agrees d) t.rows) ds

  AllAgree-handle :
      (index : ℕ) (d : Delivery) (ds : List Delivery) (t : Table)
      → IsApart d.id ds
      → AllAgree ds t
      → AllAgree ds (handle s w index d t).0
  AllAgree-handle index d [] t a h = tt
  AllAgree-handle index d (e ∷ ds) t a h =
      (handle-Agrees index d e t a.0 h.0, AllAgree-handle index d ds t a.1 h.1)

  hand_back-IsBounded :
      (ds : List Delivery) (result : Ran) (t : Table)
      → All (IsBounded s.max_attempts) t.rows
      → All (IsBounded s.max_attempts) (hand_back w ds result t).0.rows
  unfolding hand_back
  hand_back-IsBounded ds result t h =
      ground (arith, release-IsBounded s.max_attempts (delivery_ids ds) t h)

  run_batch-IsBounded :
      (index : ℕ) (ds : List Delivery) (t : Table)
      → HasDistinctIds ds
      → AllAgree ds t
      → All (IsBounded s.max_attempts) t.rows
      → All (IsBounded s.max_attempts) (run_batch s w index ds t).0.rows
  unfolding run_batch
  run_batch-IsBounded index [] t u a h = h
  run_batch-IsBounded index (d ∷ ds) t u a h =
      let after = (handle s w index d t).0 in
      let h' = handle-IsBounded index d t a.0 h in
      ground (
        arith,
        hand_back-IsBounded (d ∷ ds) (handled index) t h,
        hand_back-IsBounded (d ∷ ds) failed_batch after h',
        hand_back-IsBounded ds cancelled_batch after h',
        run_batch-IsBounded (index + 1) ds after u.1 (AllAgree-handle index d ds t u.0 a.1) h',
      )

run_once-IsBounded :
    (s : WorkerSettings) (w : World) (held : ℕ → Bool) (now : ℕ) (t : Table)
    → IsWellFormed t
    → All (IsBounded s.max_attempts) t.rows
    → All (IsBounded s.max_attempts) (run_once s w held now t).0.rows
unfolding run_once
run_once-IsBounded s w held now t wf h =
    let (after, rows) = lease held s.batch_size s.lease_for now t in
    let wf' = Step-IsWellFormed (leases held s.batch_size s.lease_for now t) wf in
    run_batch-IsBounded s w 0 (map delivery_of rows) after
      (leased-HasDistinctIds held s.batch_size s.lease_for now t wf'.keyed)
      (leased-agree held s.batch_size s.lease_for now t wf'.keyed)
      (lease-IsBounded s.max_attempts held s.batch_size s.lease_for now t wf.keyed h)

-- What happens to the queue: the route writes deliveries down, the worker runs batches and prunes.
pub data Running (s : WorkerSettings) : Table → Type 0 where
  empty_queue : Running s empty_table
  route :
      {t : Table} (now : ℕ) (delivery_id event_type payload_hash : String) (payload : JsonObject)
      → Running s t
      → Running s (enqueue now delivery_id event_type payload_hash payload t).0
  batch :
      {t : Table} (w : World) (held : ℕ → Bool) (now : ℕ)
      → Running s t
      → Running s (run_once s w held now t).0
  sweep : {t : Table} (now keep_for : ℕ) → Running s t → Running s (prune now keep_for t).0

Running-invariant :
    {s : WorkerSettings} {t : Table}
    → 0 < s.max_attempts
    → Running s t
    → IsWellFormed t × All (IsBounded s.max_attempts) t.rows
unfolding prune
Running-invariant pos empty_queue = (record { keyed = tt; below = tt; locks = tt }, tt)
Running-invariant {s} pos (route {t = t} now d e p payload r) =
    let (wf, h) = Running-invariant pos r in
    (
      Step-IsWellFormed (enqueues now d e p payload t) wf,
      enqueue-IsBounded s.max_attempts now d e p payload t pos h,
    )
Running-invariant {s} pos (batch {t = t} w held now r) =
    let (wf, h) = Running-invariant pos r in
    (run_once-IsWellFormed s w held now t wf, run_once-IsBounded s w held now t wf h)
Running-invariant {s} pos (sweep {t = t} now keep_for r) =
    let (wf, h) = Running-invariant pos r in
    (
      Step-IsWellFormed (prunes now keep_for t) wf,
      All-keep (IsBounded s.max_attempts) (λ r. not (is_prunable now keep_for r)) t.rows h,
    )

-- Where `max_attempts` is positive, and however a queue that one worker serves has run, no
-- delivery has been counted more often than `max_attempts`, and one that is still going has an
-- attempt left.
pub Running-IsBounded :
    {s : WorkerSettings} {t : Table}
    → 0 < s.max_attempts
    → Running s t
    → All (IsBounded s.max_attempts) t.rows
Running-IsBounded pos r = (Running-invariant pos r).1
