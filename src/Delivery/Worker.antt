-- ===== src/Delivery/Worker.antt =====
-- shannon/services/delivery/worker.py and the `Delivery` of queue.py: leasing a batch, dispatching
-- each delivery, recording what came of it, handing back what was not started.
-- Durations are numbers of microseconds.
use Prim.Native.String.{◌++◌ as text_append}
use shannon_bot.Base.{
  Bool, List, Option, String, [], if◌then◌else◌, leb, ltb, map, min, none, not, some, suc, zero, ℕ,
  ◌*◌, ◌+◌, ◌-◌, ◌^◌, ◌∷◌,
}
use shannon_bot.Delivery.Store.{Table, WebhookEvent, finish, give_up, lease, release, retry_later}
use shannon_bot.Domain.Enums.{DeliveryStatus}
use shannon_bot.Domain.Json.{JsonObject, as_text, get, no_entries}

-- WebhookOutcome of shannon/github/webhooks/events.py
pub data WebhookOutcome : Type 0 where
  accepted ignored duplicate processed : WebhookOutcome

pub record Delivery : Type 0 where
  pub id : ℕ
  pub delivery_id : String
  pub event_type : String
  pub payload : JsonObject
  pub attempts : ℕ

-- `Delivery.action`
unfoldable pub action : Delivery → Option String
action d = as_text (get d.payload "action")

-- The copy that `WebhookDeliveryQueue.lease` makes of a row.
unfoldable pub delivery_of : WebhookEvent → Delivery
delivery_of r = record {
  id = r.id;
  delivery_id = r.github_delivery_id;
  event_type = r.event_type;
  payload = elim r.payload [ none ↦ no_entries | some p ↦ p ];
  attempts = r.attempts;
}

-- The settings that decide what becomes of a delivery.
pub record WorkerSettings : Type 0 where
  pub batch_size : ℕ
  pub max_attempts : ℕ
  pub first_backoff : ℕ
  pub max_backoff : ℕ
  pub lease_for : ℕ
  pub delivery_timeout : ℕ
  pub error_limit : ℕ

abbrev pub second : ℕ
second = 1_000_000

abbrev pub minute : ℕ
minute = 60 * second

abbrev pub default_settings : WorkerSettings
default_settings = record {
  batch_size = 10;
  max_attempts = 16;
  first_backoff = 5 * second;
  max_backoff = 15 * minute;
  lease_for = 15 * minute;
  delivery_timeout = 60 * second;
  error_limit = 2000;
}

-- `Settings._lease_fits_a_batch` of shannon/config.py: whether the settings are taken.
unfoldable pub lease_fits_a_batch : WorkerSettings → Bool
lease_fits_a_batch s = not (ltb s.lease_for (s.batch_size * s.delivery_timeout))

unfoldable pub backoff_for : WorkerSettings → ℕ → ℕ
backoff_for s attempts = min (s.first_backoff * 2 ^ min attempts 32) s.max_backoff

-- `sum(backoff_for(attempt) for attempt in range(n))`
unfoldable pub backoff_sum : WorkerSettings → ℕ → ℕ
unfolding backoff_for
backoff_sum s zero = 0
backoff_sum s (suc n) = backoff_sum s n + backoff_for s n

unfoldable pub total_backoff : WorkerSettings → ℕ
unfolding backoff_sum
total_backoff s = backoff_sum s (s.max_attempts - 1)

-- An exception: the name of its type, and its text.
pub record Failure : Type 0 where
  pub name : String
  pub said : String

-- text[:n]
unfoldable pub cut : ℕ → String → String
cut zero s = String.[]
cut (suc n) String.[] = String.[]
cut (suc n) (String.◌∷◌ c s) = String.◌∷◌ c (cut n s)

unfoldable pub reason : WorkerSettings → Failure → String
unfolding cut
reason s error = cut s.error_limit (text_append error.name (text_append ": " error.said))

unfoldable pub reschedule : WorkerSettings → ℕ → Delivery → Failure → Table → Table
unfolding reason backoff_for
reschedule s now d error t =
    if leb s.max_attempts (d.attempts + 1)
    then give_up now d.id (reason s error) t
    else retry_later now d.id (reason s error) (backoff_for s d.attempts) t

-- What `dispatch` under its deadline comes to. A deadline that passes is a failure.
pub data Dispatched : Type 0 where
  answered : WebhookOutcome → Dispatched
  refused : Failure → Dispatched
  failing : Failure → Dispatched
  cancelled : Dispatched

-- What a batch meets: the handlers' answers, the stop flag as it reads before the delivery of an
-- index, the database clock and whether the database takes the write that records that delivery's
-- outcome, and whether it takes the release.
pub record World : Type 0 where
  pub dispatch : Delivery → Dispatched
  pub stopping : ℕ → Bool
  pub clock : ℕ → ℕ
  pub writes : ℕ → Bool
  pub hands_back : Bool

pub data Handled : Type 0 where
  recorded raised interrupted : Handled

unfoldable pub outcome_status : WebhookOutcome → DeliveryStatus
outcome_status WebhookOutcome.processed = DeliveryStatus.processed
outcome_status _ = DeliveryStatus.ignored

-- A write that the database does not take changes nothing and raises.
unfoldable pub written : Bool → Table → Table → Table × Handled
written lands old new = if lands then (new, recorded) else (old, raised)

-- `_handle`
unfoldable pub handle : WorkerSettings → World → ℕ → Delivery → Table → Table × Handled
unfolding written outcome_status reschedule reason
handle s w index d t = elim (w.dispatch d) [
  | answered outcome ↦
      written (w.writes index) t (finish (w.clock index) d.id (outcome_status outcome) t)
  | refused error ↦ written (w.writes index) t (give_up (w.clock index) d.id (reason s error) t)
  | failing error ↦ written (w.writes index) t (reschedule s (w.clock index) d error t)
  | cancelled ↦ (t, interrupted)
]

pub data Ran : Type 0 where
  handled : ℕ → Ran
  failed_batch : Ran
  cancelled_batch : Ran

abbrev pub delivery_ids : List Delivery → List ℕ
delivery_ids ds = map (λ d. d.id) ds

unfoldable pub hand_back : World → List Delivery → Ran → Table → Table × Ran
hand_back w ds result t =
    if w.hands_back then (release (delivery_ids ds) t, result) else (t, failed_batch)

-- The loop of `run_once`, from the delivery number `index`.
unfoldable pub run_batch : WorkerSettings → World → ℕ → List Delivery → Table → Table × Ran
unfolding handle hand_back
run_batch s w index [] t = (t, handled index)
run_batch s w index (d ∷ ds) t =
    let (t', how) = handle s w index d t in
    let rest = run_batch s w (index + 1) ds t' in
    if w.stopping index then hand_back w (d ∷ ds) (handled index) t else elim how [
      | recorded ↦ rest
      | raised ↦ hand_back w (d ∷ ds) failed_batch t'
      | interrupted ↦ hand_back w ds cancelled_batch t'
    ]

-- `held` and `now` are what the lease meets. A lease that fails raises before any of this.
unfoldable pub run_once : WorkerSettings → World → (ℕ → Bool) → ℕ → Table → Table × Ran
unfolding run_batch lease delivery_of
run_once s w held now t =
    let (t', rows) = lease held s.batch_size s.lease_for now t in
    run_batch s w 0 (map delivery_of rows) t'
