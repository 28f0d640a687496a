-- ===== src/Delivery/Store.antt =====
-- shannon/db/stores/webhook_events.py and the table `webhook_events` of shannon/db/models.py.
-- Every method is one transaction, and so one function from table to table. Times and durations
-- are numbers of microseconds; `now` is the database clock, and a method takes it as an argument.
use shannon_bot.Base.{
  ℕ, ◌+◌, String, Bool, true, false, ◌&&◌, ◌||◌, not, Option, none, some, List, [], ◌∷◌, ◌++◌, map,
  ltb, leb, if◌then◌else◌, is_none, length, take, keep, any, contains, str_eq, ◌==◌,
}
use shannon_bot.Domain.Json.{JsonObject}
use shannon_bot.Domain.Enums.{
  DeliveryStatus, pending, processing, failed, is_processing, is_pending, is_failed, is_terminal,
}

pub record WebhookEvent : Type 0 where
  pub id : ℕ
  pub github_delivery_id : String
  pub event_type : String
  pub payload_hash : String
  pub processed_at : ℕ
  pub status : DeliveryStatus
  pub payload : Option JsonObject
  pub attempts : ℕ
  pub next_attempt_at : Option ℕ
  pub locked_until : Option ℕ
  pub last_error : Option String

-- The rows, in any order, and the next value of the primary key's sequence.
pub record Table : Type 0 where
  pub rows : List WebhookEvent
  pub next_id : ℕ

-- UPDATE ... WHERE ... VALUES
unfoldable pub update_where : (WebhookEvent → Bool) → (WebhookEvent → WebhookEvent) → Table → Table
update_where test values t = record t { rows = map (λ r. if test r then values r else r) t.rows }

unfoldable pub revived : JsonObject → WebhookEvent → WebhookEvent
revived payload r = record r {
  status = pending;
  payload = some payload;
  attempts = 0;
  next_attempt_at = none;
  locked_until = none;
  last_error = none;
}

unfoldable pub given_up_on : String → WebhookEvent → Bool
unfolding is_failed
given_up_on delivery_id r = str_eq r.github_delivery_id delivery_id && is_failed r.status

-- `_revive`: the table, and whether a row moved.
unfoldable pub revive : String → JsonObject → Table → Table × Bool
unfolding update_where revived given_up_on
revive delivery_id payload t = (
  update_where (given_up_on delivery_id) (revived payload) t,
  any (given_up_on delivery_id) t.rows,
)

-- The row that an insert writes, the server's defaults included.
unfoldable pub fresh_event : ℕ → ℕ → String → String → String → JsonObject → WebhookEvent
fresh_event now id delivery_id event_type payload_hash payload = record {
  id = id;
  github_delivery_id = delivery_id;
  event_type = event_type;
  payload_hash = payload_hash;
  processed_at = now;
  status = pending;
  payload = some payload;
  attempts = 0;
  next_attempt_at = none;
  locked_until = none;
  last_error = none;
}

-- An insert that meets the unique constraint writes no row, and has drawn a number all the same.
unfoldable pub enqueue : ℕ → String → String → String → JsonObject → Table → Table × Bool
unfolding fresh_event revive
enqueue now delivery_id event_type payload_hash payload t =
    let drawn = record t { next_id = t.next_id + 1 } in
    if any (λ r. str_eq r.github_delivery_id delivery_id) t.rows
    then revive delivery_id payload drawn
    else (
      record drawn {
        rows = t.rows ++ fresh_event now t.next_id delivery_id event_type payload_hash payload ∷ [];
      },
      true,
    )

-- `column IS NULL OR column <= now`, and `column IS NOT NULL AND column <= now`
abbrev pub none_or_past : ℕ → Option ℕ → Bool
none_or_past now none = true
none_or_past now (some at) = leb at now

abbrev pub past : ℕ → Option ℕ → Bool
past now none = false
past now (some at) = leb at now

-- The WHERE clause of `lease`.
unfoldable pub eligible : ℕ → WebhookEvent → Bool
unfolding is_pending is_processing
eligible now r =
    not (is_none r.payload)
    && ((is_pending r.status && none_or_past now r.next_attempt_at)
        || (is_processing r.status && past now r.locked_until))

unfoldable pub insert_by_id : WebhookEvent → List WebhookEvent → List WebhookEvent
insert_by_id r [] = r ∷ []
insert_by_id r (s ∷ rest) =
    let later = insert_by_id r rest in if leb r.id s.id then r ∷ s ∷ rest else s ∷ later

-- ORDER BY id, and `sorted(..., key=lambda row: row.id)`
unfoldable pub sort_by_id : List WebhookEvent → List WebhookEvent
unfolding insert_by_id
sort_by_id [] = []
sort_by_id (r ∷ rest) = insert_by_id r (sort_by_id rest)

abbrev pub ids : List WebhookEvent → List ℕ
ids rows = map (λ r. r.id) rows

-- The subquery of `lease`. `held` are the rows that another transaction has locked: SKIP LOCKED.
unfoldable pub chosen : (ℕ → Bool) → ℕ → ℕ → Table → List ℕ
unfolding eligible sort_by_id
chosen held limit now t =
    ids (take limit (sort_by_id (keep (λ r. eligible now r && not (held r.id)) t.rows)))

unfoldable pub claimed : ℕ → WebhookEvent → WebhookEvent
claimed until r = record r { status = processing; locked_until = some until }

-- The table, and the rows that the worker gets.
unfoldable pub lease : (ℕ → Bool) → ℕ → ℕ → ℕ → Table → Table × List WebhookEvent
unfolding chosen claimed update_where
lease held limit lease_for now t =
    let picked = chosen held limit now t in
    let after = update_where (λ r. contains r.id picked) (claimed (now + lease_for)) t in
    (after, sort_by_id (keep (λ r. contains r.id picked) after.rows))

unfoldable pub released : WebhookEvent → WebhookEvent
released r = record r { status = pending; locked_until = none }

-- With no ids the source makes no call, and the UPDATE would match no row.
unfoldable pub release : List ℕ → Table → Table
unfolding update_where released is_processing
release event_ids t =
    update_where (λ r. contains r.id event_ids && is_processing r.status) released t

-- `id == event_id AND status == PROCESSING`: the row that this worker still holds.
unfoldable pub still_held : ℕ → WebhookEvent → Bool
unfolding is_processing
still_held event_id r = r.id == event_id && is_processing r.status

unfoldable pub finished : ℕ → DeliveryStatus → WebhookEvent → WebhookEvent
finished now status r = record r {
  status = status;
  processed_at = now;
  locked_until = none;
  last_error = none;
}

unfoldable pub finish : ℕ → ℕ → DeliveryStatus → Table → Table
unfolding update_where still_held finished
finish now event_id status t = update_where (still_held event_id) (finished now status) t

unfoldable pub sent_round : ℕ → String → WebhookEvent → WebhookEvent
sent_round next error r = record r {
  status = pending;
  attempts = r.attempts + 1;
  next_attempt_at = some next;
  locked_until = none;
  last_error = some error;
}

unfoldable pub retry_later : ℕ → ℕ → String → ℕ → Table → Table
unfolding update_where still_held sent_round
retry_later now event_id error delay t =
    update_where (still_held event_id) (sent_round (now + delay) error) t

unfoldable pub given_up : ℕ → String → WebhookEvent → WebhookEvent
given_up now error r = record r {
  status = failed;
  attempts = r.attempts + 1;
  processed_at = now;
  locked_until = none;
  last_error = some error;
}

unfoldable pub give_up : ℕ → ℕ → String → Table → Table
unfolding update_where still_held given_up
give_up now event_id error t = update_where (still_held event_id) (given_up now error) t

-- `processed_at < now - keep_for`, where the source's difference may lie before the epoch.
unfoldable pub is_prunable : ℕ → ℕ → WebhookEvent → Bool
unfolding is_terminal
is_prunable now keep_for r = is_terminal r.status && ltb (r.processed_at + keep_for) now

-- The table, and how many rows went.
unfoldable pub prune : ℕ → ℕ → Table → Table × ℕ
unfolding is_prunable
prune now keep_for t = (
  record t { rows = keep (λ r. not (is_prunable now keep_for r)) t.rows },
  length (keep (is_prunable now keep_for) t.rows),
)
