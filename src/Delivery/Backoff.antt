-- ===== src/Delivery/Backoff.antt =====
-- How long a failing delivery waits, and when it is given up on.
use native.Mathlib.Numerals.{add-one}
use native.Mathlib.Nat.{pow-suc, pow-le-pow_right}
use shannon_bot.Base.{
  [], arith, if◌then◌else◌, min, none, refl, some, subst, suc, sym, true, zero, ℕ, ◌*◌, ◌+◌, ◌-◌,
  ◌<◌, ◌^◌, ◌∷◌, ◌≡◌, ◌≤◌,
}
use shannon_bot.Delivery.Store.{
  Table, WebhookEvent, claimed, give_up, given_up, retry_later, sent_round, still_held,
  update_where,
}
use shannon_bot.Delivery.Worker.{
  Failure, WorkerSettings, backoff_for, backoff_sum, delivery_of, reason, reschedule, total_backoff,
}
use shannon_bot.Domain.Enums.{is_failed, is_processing}

-- A longer history never shortens the wait, and no wait passes the cap.
pub backoff_for_mono :
    (s : WorkerSettings) (a b : ℕ)
    → a ≤ b
    → (backoff_for s a ≤ backoff_for s b) × (backoff_for s b ≤ s.max_backoff)
unfolding backoff_for
backoff_for_mono s a b h =
    let grown : 2 ^ min a 32 ≤ 2 ^ min b 32 = pow-le-pow_right (omega arith) (omega arith) in
    let scaled : s.first_backoff * 2 ^ min a 32 ≤ s.first_backoff * 2 ^ min b 32 = grind arith in
    (omega arith, omega arith)

-- Up to the thirty-second failure the wait doubles until it meets the cap.
pub backoff_for_doubles :
    (s : WorkerSettings) (a : ℕ)
    → a < 32
    → backoff_for s (suc a) ≡ min (2 * backoff_for s a) s.max_backoff
unfolding backoff_for
backoff_for_doubles s a h =
    let left : min (suc a) 32 ≡ suc a = omega arith in
    let right : min a 32 ≡ a = omega arith in
    let step : s.first_backoff * 2 ^ suc a ≡ 2 * (s.first_backoff * 2 ^ a) =
      rw pow-suc (omega arith) in
    rw (left, right, step) (omega arith)

backoff_sum-next :
    (s : WorkerSettings) (a : ℕ) → backoff_sum s (a + 1) ≡ backoff_sum s a + backoff_for s a
unfolding backoff_sum
backoff_sum-next s a = rw add-one

backoff_sum-zero : (s : WorkerSettings) → backoff_sum s 0 ≡ 0
unfolding backoff_sum
backoff_sum-zero s = refl

-- The row of a delivery after it was leased at `now` and failed.
abbrev table_of : WebhookEvent → Table
table_of r = record { rows = r ∷ []; next_id = r.id + 1 }

abbrev row_of : WebhookEvent → Table → WebhookEvent
row_of r t = elim t.rows [ [] ↦ r | x ∷ rest ↦ x ]

fail_at : WorkerSettings → Failure → ℕ → WebhookEvent → WebhookEvent
fail_at s e now r =
    row_of r (reschedule s now (delivery_of r) e (table_of (claimed (now + s.lease_for) r)))

-- A delivery that fails whenever it is due: when it was given up on, and its row then.
pub fail_always : WorkerSettings → Failure → ℕ → ℕ → WebhookEvent → ℕ × WebhookEvent
fail_always s e zero now r = (now, r)
fail_always s e (suc rounds) now r =
    let r' = fail_at s e now r in
    let due : ℕ = elim r'.next_attempt_at [ none ↦ now | some at ↦ at ] in
    let rest = fail_always s e rounds due r' in if is_failed r'.status then (now, r') else rest

module _ (s : WorkerSettings) (e : Failure) where
  fail_at-last :
      (now : ℕ) (r : WebhookEvent)
      → s.max_attempts ≡ r.attempts + 1
      → fail_at s e now r ≡ given_up now (reason s e) (claimed (now + s.lease_for) r)
  unfolding fail_at reschedule give_up retry_later update_where still_held claimed delivery_of
      is_processing
  fail_at-last now r h = ground arith

  fail_at-again :
      (now : ℕ) (r : WebhookEvent)
      → r.attempts + 1 < s.max_attempts
      → fail_at s e now r
        ≡ sent_round (now + backoff_for s r.attempts) (reason s e) (claimed (now + s.lease_for) r)
  unfolding fail_at reschedule give_up retry_later update_where still_held claimed delivery_of
      is_processing
  fail_at-again now r h = ground arith

  -- One failure more: the delivery is sent round with the next wait.
  fail_always-again :
      (k now : ℕ) (r : WebhookEvent)
      → r.attempts + 1 < s.max_attempts
      → fail_always s e (suc k) now r
        ≡ fail_always s e k (now + backoff_for s r.attempts) (
            sent_round
              (now + backoff_for s r.attempts)
              (reason s e)
              (claimed (now + s.lease_for) r))
  unfolding fail_always sent_round is_failed
  fail_always-again k now r h = rw (fail_at-again now r h)

  fail_always-last :
      (k now : ℕ) (r : WebhookEvent)
      → s.max_attempts ≡ r.attempts + 1
      → fail_always s e (suc k) now r
        ≡ (now, given_up now (reason s e) (claimed (now + s.lease_for) r))
  unfolding fail_always given_up is_failed
  fail_always-last k now r h = rw (fail_at-last now r h)

  fail_always-from :
      (k now : ℕ) (r : WebhookEvent)
      → r.attempts + k + 1 ≡ s.max_attempts
      → (is_failed (fail_always s e (suc k) now r).1.status ≡ true)
        × ((fail_always s e (suc k) now r).1.attempts ≡ s.max_attempts)
        × ((fail_always s e (suc k) now r).0 + backoff_sum s r.attempts ≡ now + total_backoff s)
  unfolding total_backoff given_up claimed is_failed sent_round
  fail_always-from zero now r h =
      let last : s.max_attempts ≡ r.attempts + 1 = omega arith in
      let before : s.max_attempts - 1 ≡ r.attempts = omega arith in
      rw (fail_always-last 0 now r last, before) (refl, sym last, refl)
  fail_always-from (suc k) now r h =
      let more : r.attempts + 1 < s.max_attempts = omega arith in
      let due = now + backoff_for s r.attempts in
      let r' = sent_round due (reason s e) (claimed (now + s.lease_for) r) in
      let ih = fail_always-from k due r' (omega arith) in
      let sum : (fail_always s e (suc k) due r').0 + backoff_sum s (r.attempts + 1)
          ≡ due + total_backoff s =
        ih.2 in
      rw (fail_always-again (suc k) now r more)
        (ih.0, ih.1, omega (arith, sum, backoff_sum-next s r.attempts))

-- Where `max_attempts` is positive, a new delivery that fails whenever it is due is given up on:
-- after `max_attempts` failures exactly, and exactly `total_backoff` after the first, with every
-- retry made the moment that it is due.
pub fail_always-total :
    (s : WorkerSettings) (e : Failure) (now : ℕ) (r : WebhookEvent)
    → 0 < s.max_attempts
    → r.attempts ≡ 0
    → (is_failed (fail_always s e s.max_attempts now r).1.status ≡ true)
      × ((fail_always s e s.max_attempts now r).1.attempts ≡ s.max_attempts)
      × ((fail_always s e s.max_attempts now r).0 ≡ now + total_backoff s)
fail_always-total s e now r pos new =
    let rounds : s.max_attempts ≡ suc (s.max_attempts - 1) = omega arith in
    let h = fail_always-from s e (s.max_attempts - 1) now r (omega arith) in
    let none_yet : backoff_sum s r.attempts ≡ 0 = rw new (backoff_sum-zero s) in
    subst
      (λ n.
        (is_failed (fail_always s e n now r).1.status ≡ true)
        × ((fail_always s e n now r).1.attempts ≡ s.max_attempts)
        × ((fail_always s e n now r).0 ≡ now + total_backoff s))
      (sym rounds) (h.0, h.1, omega (arith, h.2))
