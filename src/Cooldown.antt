-- ===== src/Cooldown.antt =====
-- shannon/commands/_cooldowns.py: one run at a time per key, and a wait after each one finishes.
-- A time is a number of microseconds, and the spacing too; the clock is an argument, never stepping
-- back.
pub mod Waits
pub mod Turns
use shannon_bot.Base.{
  Bool, List, Option, [], contains, if◌then◌else◌, keep, ltb, none, not, some, ℕ, ◌+◌, ◌-◌, ◌/◌,
  ◌==◌, ◌∷◌,
}

-- A finish that is remembered: the key and when.
pub record Wait : Type 0 where
  pub key : ℕ
  pub at : ℕ

pub record Cooldown : Type 0 where
  pub spacing : ℕ
  pub running : List ℕ
  pub waits : List Wait

pub data Answer : Type 0 where
  begun : Answer
  under_way : Answer
  wait_for : ℕ → Answer

unfoldable pub find_wait : ℕ → List Wait → Option ℕ
find_wait key [] = none
find_wait key (w ∷ rest) =
    let later = find_wait key rest in if w.key == key then some w.at else later

-- `math.ceil` of a number of microseconds, in seconds.
unfoldable pub whole_seconds : ℕ → ℕ
whole_seconds us = (us + 999999) / 1000000

-- `now - at < spacing`
abbrev pub is_waiting : ℕ → ℕ → Wait → Bool
is_waiting now spacing w = ltb (now - w.at) spacing

unfoldable pub begin : ℕ → ℕ → Cooldown → Cooldown × Answer
unfolding find_wait whole_seconds
begin now key c =
    let waits = keep (is_waiting now c.spacing) c.waits in
    let swept : Cooldown = record { spacing = c.spacing; running = c.running; waits = waits } in
    if contains key c.running then (swept, under_way) else elim (find_wait key waits) [
      | some at ↦ (swept, wait_for (whole_seconds (c.spacing - (now - at))))
      | none ↦ (record { spacing = c.spacing; running = key ∷ c.running; waits = waits }, begun)
    ]

-- `self._finished[key] = now`
unfoldable pub finish : ℕ → ℕ → Cooldown → Cooldown
finish now key c = record {
  spacing = c.spacing;
  running = keep (λ k. not (k == key)) c.running;
  waits = record { key = key; at = now } ∷ keep (λ w. not (w.key == key)) c.waits;
}
