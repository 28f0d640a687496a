-- ===== src/Reminders/Runs.antt =====
-- A run of the sender ends: what it takes it does not take again.
use shannon_bot.Base.{
  Bool, In, List, Option, Option-cases, [], arith, at_head, in_tail, inl, inr, keep, length, ltb,
  map, none, not, refl, some, suc, true, zero, ℕ, ◌&&◌, ◌+◌, ◌-◌, ◌<◌, ◌==◌, ◌∷◌, ◌≡◌, ◌≢◌, ◌≤◌,
}
use shannon_bot.Reminders.Claims.{next_due-cases}
use shannon_bot.Reminders.Sender.{
  Posted, World, broken, is_late, note_refused, out_of_fuel, permanent, refused, retry_after, send,
  send_due, taken,
}
use shannon_bot.Reminders.Store.{
  Reminder, Reminders, claim_next, failed_again, finish, is_due, next_due, note_failure, stamped,
}
use shannon_bot.Reviews.Verdicts.{place}

-- Not claimed since `t0`.
abbrev older : ℕ → Reminder → Bool
older t0 r = elim r.claimed_at [ none ↦ true | some at ↦ ltb at t0 ]

abbrev count_older : ℕ → List Reminder → ℕ
count_older t0 l = length (keep (older t0) l)

module _ (t0 now : ℕ) (h : t0 ≤ now) (i : ℕ) where
  stamped-older : (r : Reminder) → older t0 (stamped i now r) ≡ (not (r.id == i) && older t0 r)
  unfolding stamped
  stamped-older r = ground arith

  count_older-stamped-le :
      (l : List Reminder) → count_older t0 (map (stamped i now) l) ≤ count_older t0 l
  count_older-stamped-le [] = omega arith
  count_older-stamped-le (r ∷ l) = ground (arith, stamped-older r, count_older-stamped-le l)

  count_older-stamped-lt :
      {r : Reminder} {l : List Reminder}
      → In r l
      → r.id ≡ i
      → older t0 r ≡ true
      → count_older t0 (map (stamped i now) l) < count_older t0 l
  count_older-stamped-lt {r} (at_head {xs = xs}) e o =
      ground (arith, stamped-older r, count_older-stamped-le xs)
  count_older-stamped-lt (in_tail {x = x} m) e o =
      ground (arith, stamped-older x, count_older-stamped-lt m e o)

-- A claim in the window stamps a row that was not stamped in it.
claim_next-older :
    (t0 now : ℕ) (held : ℕ → Bool) (t : Reminders) (got : Reminder)
    → t0 ≤ now
    → now < t0 + retry_after
    → retry_after ≤ t0
    → (claim_next held now (now - retry_after) t).1 ≡ some got
    → count_older t0 (claim_next held now (now - retry_after) t).0.rows < count_older t0 t.rows
unfolding claim_next
claim_next-older t0 now held t got a b c e = go (next_due held now (now - retry_after) t) refl
  where
    go :
        (o : Option Reminder)
        → next_due held now (now - retry_after) t ≡ o
        → count_older t0 (claim_next held now (now - retry_after) t).0.rows < count_older t0 t.rows
    go none k = let e' : none ≡ some got = rw (k, claim_next) at e in cc e'
    go (some r) k =
        let (place, ready, free, before) = next_due-cases held now (now - retry_after) t r k in
        rw (k, claim_next)
          (count_older-stamped-lt t0 now a r.id place refl (unfold is_due in ground arith))

count_older-keep :
    (t0 : ℕ) (p : Reminder → Bool) (l : List Reminder)
    → count_older t0 (keep p l) ≤ count_older t0 l
count_older-keep t0 p [] = omega arith
count_older-keep t0 p (r ∷ l) = ground (arith, count_older-keep t0 p l)

count_older-failed_again :
    (t0 i : ℕ) (l : List Reminder) → count_older t0 (map (failed_again i) l) ≤ count_older t0 l
unfolding failed_again
count_older-failed_again t0 i [] = omega arith
count_older-failed_again t0 i (r ∷ l) = ground (arith, count_older-failed_again t0 i l)

-- Sending stamps nothing: rows go, or count a refusal.
send-older :
    (t0 : ℕ) (how : Posted) (shuts : Bool) (r : Reminder) (t : Reminders)
    → count_older t0 (send how shuts r t).0.rows ≤ count_older t0 t.rows
unfolding send finish note_refused note_failure
send-older t0 taken shuts r t = count_older-keep t0 (λ x. not (x.id == r.id)) t.rows
send-older t0 permanent shuts r t = count_older-keep t0 (λ x. not (x.id == r.id)) t.rows
send-older t0 refused shuts r t = ground (
  arith,
  count_older-failed_again t0 r.id t.rows,
  count_older-keep t0 (λ x. not (x.id == r.id)) (map (failed_again r.id) t.rows),
)
send-older t0 broken shuts r t = omega arith

-- With the clock of the run inside one retry window: `send_due` ends by itself within one round for
-- each reminder that has no claim from inside that window, an older claim or none, and one more: it
-- never runs out of the rounds it is given.
pub send_due-ends :
    (w : World) (t0 : ℕ)
    → retry_after ≤ t0
    → ((j : ℕ) → (t0 ≤ w.now j) × (w.now j < t0 + retry_after))
    → (fuel i : ℕ) (t : Reminders) → count_older t0 t.rows < fuel
    → (send_due w fuel i t).1 ≢ out_of_fuel
unfolding send_due
send_due-ends w t0 late window zero i t h = absurd (omega arith)
send_due-ends w t0 late window (suc fuel) i t h =
    let now = w.now i in
    let after = claim_next (w.held i) now (now - retry_after) t in
    elim (Option-cases after.1) [
      | inl idle ↦ ground (arith, idle)
      | inr (r, got) ↦
          let sent = send (w.post i r (is_late now r)) (w.shuts i) r after.0 in
          ground (
            arith,
            got,
            claim_next-older t0 now (w.held i) t r (window i).0 (window i).1 late got,
            send-older t0 (w.post i r (is_late now r)) (w.shuts i) r after.0,
            send_due-ends w t0 late window fuel (i + 1) sent.0,
          )
    ]
