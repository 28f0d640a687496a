-- ===== src/Reminders/Cap.antt =====
-- The cap on waiting reminders, and the bound on what a reminder says.
use shannon_bot.Base.{
  Bool-cases, List, [], arith, if◌then◌else◌, inl, inr, keep, leb, leb→le, length, none, refl, true,
  ℕ, ◌++◌, ◌+◌, ◌<◌, ◌∷◌, ◌≡◌, ◌≤◌, ◌⊎◌,
}
use shannon_bot.Reminders.Book.{add, due, most_waiting, said, too_many_reminders}
use shannon_bot.Reminders.Store.{Ask, Reminder, Reminders, insert_reminder, is_from, waiting_from}

-- What one more reminder adds to somebody's count.
waiting_from-append :
    (g p : ℕ) (l : List Reminder) (x : Reminder)
    → length (keep (is_from g p) (l ++ x ∷ []))
      ≡ length (keep (is_from g p) l) + (if is_from g p x then 1 else 0)
waiting_from-append g p [] x = ground arith
waiting_from-append g p (r ∷ l) x = ground (arith, waiting_from-append g p l x)

module _ (g p : ℕ) (x : Reminder) where
  is_from-same :
      (l : List Reminder)
      → is_from g p x ≡ true
      → keep (is_from g p) l ≡ keep (is_from x.guild_id x.set_by) l
  unfolding is_from
  is_from-same l e = ground arith

is_from-own : (x : Reminder) → is_from x.guild_id x.set_by x ≡ true
unfolding is_from
is_from-own x = ground arith

-- The row that an `add` with room writes.
abbrev written_for : ℕ → ℕ → Ask → Reminders → Reminder
written_for now after ask t = record {
  id = t.next_id;
  guild_id = ask.guild_id;
  channel_id = ask.channel_id;
  member_id = ask.member_id;
  set_by = ask.set_by;
  message = said ask.message;
  set_at = now;
  due_at = now + after;
  claimed_at = none;
  failed_attempts = 0;
}

-- An `add` either finds the cap reached, answers so and writes nothing, or writes one reminder of
-- the asker's and answers when it falls due; and nobody who had `most_waiting` waiting in a
-- server at most comes to have more there by it.
add-cap :
    (now after g p : ℕ) (ask : Ask) (t : Reminders)
    → waiting_from g p t ≤ most_waiting
    → (waiting_from g p (add now after ask t).0 ≤ most_waiting)
      × ((most_waiting ≤ waiting_from ask.guild_id ask.set_by t
            × ((add now after ask t).1 ≡ too_many_reminders)
            × ((add now after ask t).0 ≡ t))
          ⊎ (waiting_from ask.guild_id ask.set_by t < most_waiting
              × ((add now after ask t).1 ≡ due (now + after))
              × (waiting_from ask.guild_id ask.set_by (add now after ask t).0
                  ≡ waiting_from ask.guild_id ask.set_by t + 1)))
unfolding add waiting_from insert_reminder
add-cap now after g p ask t h =
    let written = written_for now after ask t in
    elim (Bool-cases (leb most_waiting (waiting_from ask.guild_id ask.set_by t))) [
      | inl full ↦ rw full (h, inl (leb→le _ _ full, refl, refl))
      | inr room ↦ rw room (
        elim (Bool-cases (is_from g p written)) [
          | inl mine ↦
              ground (
                arith,
                waiting_from-append g p t.rows written,
                is_from-same g p written t.rows mine,
              )
          | inr other ↦ rw waiting_from-append (rw other (omega arith))
        ],
        inr (ground arith, refl, rw waiting_from-append (rw (is_from-own written) (omega arith))),
      )
    ]
