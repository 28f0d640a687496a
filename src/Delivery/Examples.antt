-- ===== src/Delivery/Examples.antt =====
-- The queue of deliveries at concrete inputs.
use shannon_bot.Base.{
  All, Bool, In, [], arith, at_head, contains, false, if◌then◌else◌, in_tail, length, refl, true, ℕ,
  ◌*◌, ◌+◌, ◌==◌, ◌∷◌, ◌≡◌, ◌≢◌, ◌≤◌, ◌⊎◌,
}
use shannon_bot.Delivery.Attempts.{Running, Running-IsBounded, batch, empty_queue, route}
use shannon_bot.Delivery.Backoff.{fail_always, fail_always-total}
use shannon_bot.Delivery.Bounded.{IsBounded}
use shannon_bot.Delivery.Calm.{IsCalm}
use shannon_bot.Delivery.Invariant.{
  IsWellFormed, Reach, Reach-IsWellFormed, empty_table, enqueues, here, next,
}
use shannon_bot.Delivery.Leases.{Meanwhile, lease-exclusive}
use shannon_bot.Delivery.Order.{lease-first_come}
use shannon_bot.Delivery.Settling.{run_once-settles}
use shannon_bot.Delivery.Store.{
  Table, chosen, claimed, eligible, enqueue, finish, fresh_event, give_up, given_up_on, ids,
  insert_by_id, lease, retry_later, revive, sort_by_id, update_where,
}
use shannon_bot.Delivery.Worker.{
  Delivery, Dispatched, Failure, WebhookOutcome, WorkerSettings, World, answered, backoff_for,
  backoff_sum, cancelled_batch, default_settings, delivery_of, failing, hand_back, handle, handled,
  minute, outcome_status, reason, reschedule, run_batch, run_once, second, total_backoff, written,
}
use shannon_bot.Domain.Enums.{is_failed, is_pending, is_processing}
use shannon_bot.Domain.Json.{JsonObject, entry, no_entries, string}

abbrev body : JsonObject
body = entry "action" (string "opened") no_entries

abbrev nobody : ℕ → Bool
nobody _ = false

-- Two deliveries, queued at 5 and 6.
abbrev one_row : Table
one_row = (enqueue 5 "a1" "issues" "h1" body empty_table).0

abbrev two_rows : Table
two_rows = (enqueue 6 "b2" "issues" "h2" body one_row).0

abbrev two_steps : Reach empty_table two_rows
two_steps =
    next (next here (enqueues 5 "a1" "issues" "h1" body empty_table))
      (enqueues 6 "b2" "issues" "h2" body one_row)

abbrev small : WorkerSettings
small = record default_settings { batch_size = 2; max_attempts = 3 }

abbrev timed_out : Failure
timed_out = record { name = "TimeoutError"; said = "deadline" }

-- The first delivery is processed, the second fails.
abbrev dispatch_some : Delivery → Dispatched
dispatch_some d = if d.id == 1 then answered WebhookOutcome.processed else failing timed_out

abbrev calm : World
calm = record {
  dispatch = dispatch_some;
  stopping = nobody;
  clock = λ j. 100 + j;
  writes = λ j. true;
  hands_back = true;
}

-- A duplicate is turned away, and draws a number of the sequence.
enqueue_again : (enqueue 7 "a1" "issues" "h1" body two_rows).1 ≡ false
unfolding enqueue fresh_event revive given_up_on update_where is_failed
enqueue_again = refl

leased_ids : ids (lease nobody 1 100 10 two_rows).1 ≡ 1 ∷ []
unfolding lease chosen eligible sort_by_id insert_by_id claimed update_where is_pending
    is_processing enqueue fresh_event
leased_ids = refl

settled_ids : (run_once small calm nobody 10 two_rows).1 ≡ handled 2
unfolding run_once run_batch handle hand_back written outcome_status reschedule reason backoff_for
    lease delivery_of chosen eligible sort_by_id insert_by_id claimed update_where is_pending
    is_processing enqueue fresh_event retry_later give_up finish
settled_ids = refl

-- Retries of the default settings go on for two hours and fifteen minutes, and a bit.
waits : total_backoff default_settings ≡ 7 * (15 * minute) + 1275 * second
unfolding total_backoff backoff_sum backoff_for
waits = refl

row_b : In (fresh_event 6 2 "b2" "issues" "h2" body) two_rows.rows
unfolding enqueue revive
row_b = in_tail at_head

b_eligible : eligible 10 (fresh_event 6 2 "b2" "issues" "h2" body) ≡ true
unfolding eligible fresh_event is_pending
b_eligible = refl

lease-first_come_example :
    (contains (fresh_event 6 2 "b2" "issues" "h2" body).id (chosen nobody 1 10 two_rows) ≡ true)
    ⊎ (All (λ i. i ≤ (fresh_event 6 2 "b2" "issues" "h2" body).id) (chosen nobody 1 10 two_rows)
        × (length (chosen nobody 1 10 two_rows) ≡ 1))
lease-first_come_example =
    lease-first_come nobody 1 10 two_rows (fresh_event 6 2 "b2" "issues" "h2" body) row_b b_eligible
      refl

Reach-IsWellFormed_example : IsWellFormed two_rows
Reach-IsWellFormed_example = Reach-IsWellFormed two_steps

abbrev leased : Table
leased = (lease nobody 1 100 10 two_rows).0

one_leased : contains 1 (ids (lease nobody 1 100 10 two_rows).1) ≡ true
unfolding lease chosen eligible sort_by_id insert_by_id claimed update_where is_pending
    is_processing enqueue fresh_event
one_leased = refl

-- A second worker comes at 50, while the lease runs until 110.
lease-exclusive_example : contains 1 (ids (lease nobody 5 100 50 leased).1) ≡ false
lease-exclusive_example =
    lease-exclusive nobody nobody 1 5 100 100 10 50 1 two_rows leased (Reach-IsWellFormed two_steps)
      one_leased Meanwhile.here (omega arith)

two_leased : contains 2 (ids (lease nobody 2 small.lease_for 10 two_rows).1) ≡ true
unfolding lease chosen eligible sort_by_id insert_by_id claimed update_where is_pending
    is_processing enqueue fresh_event
two_leased = refl

not_cancelled : (run_once small calm nobody 10 two_rows).1 ≢ cancelled_batch
not_cancelled e = cc (e, settled_ids)

run_once-settles_example : All (IsCalm 2) (run_once small calm nobody 10 two_rows).0.rows
run_once-settles_example =
    run_once-settles small calm nobody 10 2 two_rows refl two_leased not_cancelled

abbrev history : Running small (run_once small calm nobody 10 two_rows).0
history =
    batch calm nobody 10
      (route 6 "b2" "issues" "h2" body (route 5 "a1" "issues" "h1" body empty_queue))

Running-IsBounded_example : All (IsBounded 3) (run_once small calm nobody 10 two_rows).0.rows
Running-IsBounded_example = Running-IsBounded (omega arith) history

fail_always-total_example :
    (is_failed (fail_always small timed_out 3 10 (fresh_event 6 2 "b2" "issues" "h2" body)).1.status
      ≡ true)
    × ((fail_always small timed_out 3 10 (fresh_event 6 2 "b2" "issues" "h2" body)).1.attempts ≡ 3)
    × ((fail_always small timed_out 3 10 (fresh_event 6 2 "b2" "issues" "h2" body)).0
        ≡ 10 + total_backoff small)
unfolding fresh_event
fail_always-total_example =
    fail_always-total small timed_out 10 (fresh_event 6 2 "b2" "issues" "h2" body) (omega arith)
      refl
