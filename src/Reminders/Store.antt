-- ===== src/Reminders/Store.antt =====
-- shannon/db/stores/reminders.py and the table `reminders`: each method is one transaction.
-- Times are numbers of microseconds by the application's clock, which the caller passes in.
use shannon_bot.Base.{
  Bool, List, Option, String, [], if◌then◌else◌, keep, leb, length, ltb, map, none, not, some, true,
  ℕ, ◌&&◌, ◌++◌, ◌+◌, ◌==◌, ◌||◌, ◌∷◌,
}

pub record Reminder : Type 0 where
  pub id : ℕ
  pub guild_id : ℕ
  pub channel_id : ℕ
  pub member_id : ℕ
  pub set_by : ℕ
  pub message : Option String
  pub set_at : ℕ
  pub due_at : ℕ
  pub claimed_at : Option ℕ
  pub failed_attempts : ℕ

-- The rows, in any order, and the next value of the primary key's sequence.
pub record Reminders : Type 0 where
  pub rows : List Reminder
  pub next_id : ℕ

-- What `/remind` asks for.
pub record Ask : Type 0 where
  pub guild_id : ℕ
  pub channel_id : ℕ
  pub member_id : ℕ
  pub set_by : ℕ
  pub message : Option String

-- The INSERT of `add`: the table, and the id of the new row.
unfoldable pub insert_reminder : Ask → ℕ → ℕ → Reminders → Reminders × ℕ
insert_reminder ask set_at due_at t = (
  record {
    rows =
        t.rows
        ++ record {
          id = t.next_id;
          guild_id = ask.guild_id;
          channel_id = ask.channel_id;
          member_id = ask.member_id;
          set_by = ask.set_by;
          message = ask.message;
          set_at = set_at;
          due_at = due_at;
          claimed_at = none;
          failed_attempts = 0;
        }
          ∷ [];
    next_id = t.next_id + 1;
  },
  t.next_id,
)

unfoldable pub is_from : ℕ → ℕ → Reminder → Bool
is_from guild_id set_by r = r.guild_id == guild_id && r.set_by == set_by

unfoldable pub waiting_from : ℕ → ℕ → Reminders → ℕ
unfolding is_from
waiting_from guild_id set_by t = length (keep (is_from guild_id set_by) t.rows)

abbrev pub unclaimed : ℕ → Option ℕ → Bool
unclaimed stale_before none = true
unclaimed stale_before (some at) = leb at stale_before

-- The WHERE clause of `claim_next`.
unfoldable pub is_due : ℕ → ℕ → Reminder → Bool
is_due now stale_before r = leb r.due_at now && unclaimed stale_before r.claimed_at

-- ORDER BY due_at, id: whether `r` comes before `s`.
unfoldable pub sooner : Reminder → Reminder → Bool
sooner r s = ltb r.due_at s.due_at || (r.due_at == s.due_at && leb r.id s.id)

-- The sooner of a row and what was found among the rest.
unfoldable pub sooner_of : Reminder → Option Reminder → Reminder
unfolding sooner
sooner_of r none = r
sooner_of r (some s) = if sooner r s then r else s

-- ORDER BY ... LIMIT 1
unfoldable pub soonest : List Reminder → Option Reminder
unfolding sooner_of
soonest [] = none
soonest (r ∷ rest) = some (sooner_of r (soonest rest))

unfoldable pub stamped : ℕ → ℕ → Reminder → Reminder
stamped i now r = if r.id == i then record r { claimed_at = some now } else r

-- `held` are the rows that another transaction has locked: SKIP LOCKED.
unfoldable pub next_due : (ℕ → Bool) → ℕ → ℕ → Reminders → Option Reminder
unfolding soonest is_due
next_due held now stale_before t =
    soonest (keep (λ r. is_due now stale_before r && not (held r.id)) t.rows)

-- `claim_next`: the table, and the reminder taken, as the update left it.
unfoldable pub claim_next : (ℕ → Bool) → ℕ → ℕ → Reminders → Reminders × Option Reminder
unfolding next_due stamped
claim_next held now stale_before t = elim (next_due held now stale_before t) [
  | none ↦ (t, none)
  | some r ↦ (record t { rows = map (stamped r.id now) t.rows }, some (stamped r.id now r))
]

unfoldable pub failed_again : ℕ → Reminder → Reminder
failed_again i r = if r.id == i then record r { failed_attempts = r.failed_attempts + 1 } else r

-- RETURNING failed_attempts of the row with this id, or 0.
unfoldable pub failures_of : ℕ → List Reminder → ℕ
failures_of i [] = 0
failures_of i (r ∷ rest) =
    let found = failures_of i rest in if r.id == i then r.failed_attempts else found

unfoldable pub note_failure : ℕ → Reminders → Reminders × ℕ
unfolding failed_again failures_of
note_failure reminder_id t =
    let rows = map (failed_again reminder_id) t.rows in
    (record t { rows = rows }, failures_of reminder_id rows)

unfoldable pub finish : ℕ → Reminders → Reminders
finish reminder_id t = record t { rows = keep (λ r. not (r.id == reminder_id)) t.rows }
