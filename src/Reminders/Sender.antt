-- ===== src/Reminders/Sender.antt =====
-- shannon/services/reminders/send.py: sending what has fallen due, one reminder at a time.
use shannon_bot.Base.{
  Bool, false, if◌then◌else◌, leb, ltb, none, some, suc, true, zero, ℕ, ◌*◌, ◌+◌, ◌-◌,
}
use shannon_bot.Delivery.Worker.{minute}
use shannon_bot.Reminders.Store.{Reminder, Reminders, claim_next, finish, note_failure}

abbrev pub retry_after : ℕ
retry_after = 5 * minute

abbrev pub most_attempts : ℕ
most_attempts = 24

abbrev pub late_after : ℕ
late_after = minute

-- What posting a reminder in its channel comes to: Discord takes it, refuses it for good
-- (PermanentError), refuses it for now (any other ShannonError), or something else goes wrong.
pub data Posted : Type 0 where
  taken permanent refused broken : Posted

-- What `_send` does to the table, and whether it returns or lets an exception out.
pub data Sent : Type 0 where
  returned raised : Sent

unfoldable pub is_late : ℕ → Reminder → Bool
is_late now r = leb (r.due_at + late_after) now

-- `_refused`: count a refusal, and give up once there have been enough.
unfoldable pub note_refused : Reminder → Reminders → Reminders
unfolding note_failure finish
note_refused r t =
    let (t', attempts) = note_failure r.id t in
    if ltb attempts most_attempts then t' else finish r.id t'

-- `_send`. `shuts` is whether putting the thread back returns.
unfoldable pub send : Posted → Bool → Reminder → Reminders → Reminders × Sent
unfolding note_refused finish
send taken shuts r t = (finish r.id t, if shuts then returned else raised)
send permanent shuts r t = (finish r.id t, returned)
send refused shuts r t = (note_refused r t, returned)
send broken shuts r t = (t, raised)

-- What a run of `send_due` meets: the clock at each round, the stop flag before each round, what
-- posting each reminder comes to (it is told the round, the reminder and whether it is late),
-- whether the thread can be put back, and the rows that others have locked.
pub record World : Type 0 where
  pub now : ℕ → ℕ
  pub stopping : ℕ → Bool
  pub post : ℕ → Reminder → Bool → Posted
  pub shuts : ℕ → Bool
  pub held : ℕ → ℕ → Bool

pub data Due : Type 0 where
  settled : ℕ → Due
  failed : Due
  out_of_fuel : Due

-- The loop of `send_due` from round `i`; a round settles one reminder, so `i` is also the count.
unfoldable pub send_due : World → ℕ → ℕ → Reminders → Reminders × Due
unfolding claim_next send is_late
send_due w zero i t = (t, out_of_fuel)
send_due w (suc fuel) i t = elim (w.stopping i) [
  | true ↦ (t, settled i)
  | false ↦
      let (t', taken?) = claim_next (w.held i) (w.now i) (w.now i - retry_after) t in
      elim taken? [
        | none ↦ (t', settled i)
        | some r ↦
            let (t'', how) = send (w.post i r (is_late (w.now i) r)) (w.shuts i) r t' in
            elim how [ returned ↦ send_due w fuel (i + 1) t'' | raised ↦ (t'', failed) ]
      ]
]
