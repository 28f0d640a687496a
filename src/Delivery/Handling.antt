-- ===== src/Delivery/Handling.antt =====
-- What one delivery's handling can leave of the table, for proofs by cases.
use shannon_bot.Base.{
  Bool, Bool-cases, List, String, [], arith, false, inl, inr, leb, map, refl, true, ℕ, ◌+◌, ◌∷◌,
  ◌≡◌,
}
use shannon_bot.Delivery.Invariant.{
  IsWellFormed, Step-IsWellFormed, finishes, gives_up, leases, releases, retries,
}
use shannon_bot.Delivery.Store.{Table, finish, give_up, lease, release, retry_later}
use shannon_bot.Delivery.Worker.{
  Delivery, Dispatched, Failure, Ran, WebhookOutcome, WorkerSettings, World, answered, backoff_for,
  cancelled, cancelled_batch, delivery_ids, delivery_of, failed_batch, failing, hand_back, handle,
  handled, outcome_status, reason, refused, reschedule, run_batch, run_once, written,
}
use shannon_bot.Domain.Enums.{is_terminal}

module _ (s : WorkerSettings) (w : World) (index : ℕ) (d : Delivery) (t : Table) where
  -- The table is as it was, or one of the four writes was made.
  pub handle-ind :
      (P : Table → Type 0)
      → P t
      → ((o : WebhookOutcome) → P (finish (w.clock index) d.id (outcome_status o) t))
      → ((error : String) → P (give_up (w.clock index) d.id error t))
      → ((error : String)
          → leb s.max_attempts (d.attempts + 1) ≡ false
          → P (retry_later (w.clock index) d.id error (backoff_for s d.attempts) t))
      → P (handle s w index d t).0
  unfolding written reschedule handle
  handle-ind P same ended given again = go (w.dispatch d) refl
    where
      once : (new : Table) → P new → P (written (w.writes index) t new).0
      once new p = elim (Bool-cases (w.writes index)) [
        | inl lands ↦ rw (lands, written) p
        | inr lost ↦ rw (lost, written) same
      ]

      rescheduled : (e : Failure) → P (reschedule s (w.clock index) d e t)
      rescheduled e = elim (Bool-cases (leb s.max_attempts (d.attempts + 1))) [
        | inl enough ↦ rw (enough, reschedule) (given (reason s e))
        | inr more ↦ rw (more, reschedule) (again (reason s e) more)
      ]

      go : (x : Dispatched) → w.dispatch d ≡ x → P (handle s w index d t).0
      go (answered o) e =
          rw (e, handle) (once (finish (w.clock index) d.id (outcome_status o) t) (ended o))
      go (refused f) e =
          rw (e, handle) (once (give_up (w.clock index) d.id (reason s f) t) (given (reason s f)))
      go (failing f) e = rw (e, handle) (once (reschedule s (w.clock index) d f t) (rescheduled f))
      go cancelled e = rw (e, handle) same

pub outcome_status-is_terminal : (o : WebhookOutcome) → is_terminal (outcome_status o) ≡ true
unfolding outcome_status is_terminal
outcome_status-is_terminal WebhookOutcome.processed = refl
outcome_status-is_terminal _ = refl

-- An invariant that every write and every release of the worker keeps is kept by a whole batch.
module _ (s : WorkerSettings) (w : World) (P : Table → Type 0)
    (P-release : (event_ids : List ℕ) (t : Table) → P t → P (release event_ids t))
    (P-handle : (index : ℕ) (d : Delivery) (t : Table) → P t → P (handle s w index d t).0) where
  hand_back-keeps :
      (ds : List Delivery) (result : Ran) (t : Table) → P t → P (hand_back w ds result t).0
  unfolding hand_back
  hand_back-keeps ds result t p = elim (Bool-cases w.hands_back) [
    | inl lands ↦ rw lands (P-release (delivery_ids ds) t p)
    | inr lost ↦ rw lost p
  ]

  pub run_batch-keeps :
      (index : ℕ) (ds : List Delivery) (t : Table) → P t → P (run_batch s w index ds t).0
  unfolding run_batch
  run_batch-keeps index [] t p = p
  run_batch-keeps index (d ∷ ds) t p =
      let after = (handle s w index d t).0 in
      let p' = P-handle index d t p in
      ground (
        arith,
        hand_back-keeps (d ∷ ds) (handled index) t p,
        hand_back-keeps (d ∷ ds) failed_batch after p',
        hand_back-keeps ds cancelled_batch after p',
        run_batch-keeps (index + 1) ds after p',
      )

-- The worker's writes keep the table well formed.
pub run_once-IsWellFormed :
    (s : WorkerSettings) (w : World) (held : ℕ → Bool) (now : ℕ) (t : Table)
    → IsWellFormed t
    → IsWellFormed (run_once s w held now t).0
unfolding run_once
run_once-IsWellFormed s w held now t wf =
    run_batch-keeps s w IsWellFormed (λ event_ids u. Step-IsWellFormed (releases event_ids u))
      (λ index d u p.
        handle-ind s w index d u IsWellFormed p
          (λ o.
            Step-IsWellFormed
              (finishes (w.clock index) d.id (outcome_status o) u (outcome_status-is_terminal o)) p)
          (λ e. Step-IsWellFormed (gives_up (w.clock index) d.id e u) p)
          (λ e more.
            Step-IsWellFormed (retries (w.clock index) d.id e (backoff_for s d.attempts) u) p))
      0 (map delivery_of (lease held s.batch_size s.lease_for now t).1)
      (lease held s.batch_size s.lease_for now t).0
      (Step-IsWellFormed (leases held s.batch_size s.lease_for now t) wf)
