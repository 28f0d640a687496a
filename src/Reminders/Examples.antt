-- ===== src/Reminders/Examples.antt =====
-- Reminders at concrete inputs.
use shannon_bot.Base.{Bool, [], arith, false, none, refl, some, true, ℕ, ◌+◌, ◌∷◌, ◌≡◌, ◌≢◌, ◌≤◌}
use shannon_bot.Delivery.Worker.{cut}
use shannon_bot.Reminders.Book.{add, is_empty, is_space, lstrip, most_waiting, rstrip, said}
use shannon_bot.Reminders.Runs.{send_due-ends}
use shannon_bot.Reminders.Sender.{World, out_of_fuel, retry_after, send_due, taken}
use shannon_bot.Reminders.Store.{
  Ask, Reminder, Reminders, claim_next, insert_reminder, is_from, next_due, waiting_from,
}

abbrev ask : Ask
ask = record { guild_id = 1; channel_id = 2; member_id = 3; set_by = 3; message = some " tea " }

abbrev empty : Reminders
empty = record { rows = []; next_id = 1 }

abbrev one_due : Reminder
one_due = record {
  id = 1;
  guild_id = 1;
  channel_id = 2;
  member_id = 3;
  set_by = 3;
  message = some "tea";
  set_at = 10;
  due_at = 20;
  claimed_at = none;
  failed_attempts = 0;
}

abbrev waiting : Reminders
waiting = record { rows = one_due ∷ []; next_id = 2 }

abbrev nobody : ℕ → Bool
nobody _ = false

tea : (add 10 10 ask empty).0 ≡ waiting
unfolding add said insert_reminder waiting_from lstrip rstrip is_space is_empty cut is_from
tea = refl

-- The clock stands at the retry window's end; Discord takes every post.
abbrev world : World
world = record {
  now = λ j. retry_after + 30;
  stopping = nobody;
  post = λ j r is_after. taken;
  shuts = λ j. true;
  held = λ j. nobody;
}

none_waiting : waiting_from 1 3 empty ≤ most_waiting
unfolding waiting_from is_from
none_waiting = omega arith

send_due-ends_example : (send_due world 2 0 waiting).1 ≢ out_of_fuel
send_due-ends_example =
    send_due-ends world (retry_after + 30) (omega arith) (λ j. (omega arith, omega arith)) 2 0
      waiting (omega arith)

claimed_tea : (claim_next nobody 30 0 waiting).1 ≡ some (record one_due { claimed_at = some 30 })
unfolding claim_next next_due
claimed_tea = refl
