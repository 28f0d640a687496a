-- ===== src/Sync/StateLine.antt =====
-- shannon/services/sync/state_lines.py: saying out loud that an item closed, merged or reopened.
use shannon_bot.Base.{
  Bool, Option, Option-cases, arith, false, if◌then◌else◌, inl, inr, none, not, some, subst, true,
  ℕ, ◌&&◌, ◌||◌, ◌≡◌, ◌⊎◌,
}
use shannon_bot.Domain.Enums.{StateChange, reopened}
use shannon_bot.Domain.Text.{Text, text_eq, text_eq_iff}
use shannon_bot.Sync.Once.{Thread, Weather, say_once}
use shannon_bot.Sync.Policies.{Snapshot, display_state, state_change_of}

-- What `say` reads of the arrival and of the item's row, if there is one. `told` is what the
-- thread's tracking wants of `state`, and `note_key` is `state:` with the delivery's number.
pub record Arrival : Type 0 where
  pub action : Text
  pub snapshot : Snapshot
  pub tracked_item_id : ℕ
  pub note_key : Text
  pub shut_refused : Bool
  pub told : Bool

pub record Row : Type 0 where
  pub github_state : Text
  pub is_shut : Bool

unfoldable pub is_reopened : StateChange → Bool
is_reopened reopened = true
is_reopened _ = false

-- The gates after the item was read.
unfoldable pub still_said : Arrival → Row → StateChange → Option StateChange
unfolding text_eq display_state is_reopened
still_said arrival item change =
    if not (text_eq item.github_state (display_state arrival.snapshot))
    then none
    else if not arrival.told && (item.is_shut || is_reopened change)
    then none
    else some change

abbrev pub of_row : Arrival → Option Row → StateChange → Option StateChange
of_row arrival none change = none
of_row arrival (some item) change = still_said arrival item change

-- Whether the line is said, and which change it says.
unfoldable pub said_of : Arrival → Option Row → Option StateChange
unfolding state_change_of still_said
said_of arrival row = elim (state_change_of arrival.action arrival.snapshot) [
  | none ↦ none
  | some change ↦
      if not arrival.told && not arrival.shut_refused then none else of_row arrival row change
]

-- `StateLine.say`: the claimed line, or nothing.
unfoldable pub say : Weather → Arrival → Option Row → Thread → Thread
unfolding said_of say_once
say w arrival row t = elim (said_of arrival row) [
  | none ↦ t
  | some change ↦ (say_once w arrival.tracked_item_id arrival.note_key t).0
]

-- The row has the state that the arrival's snapshot shows, and a thread that did not ask for the
-- line has a shut refused of an item that closed.
pub IsDue : Arrival → Row → StateChange → Type 0
IsDue arrival item change =
    (item.github_state ≡ display_state arrival.snapshot)
    × ((arrival.told ≡ true)
        ⊎ ((arrival.shut_refused ≡ true) × ((item.is_shut ≡ false) × (is_reopened change ≡ false))))

still_said-IsDue :
    (arrival : Arrival) (item : Row) (change c : StateChange)
    → (if not arrival.told && not arrival.shut_refused
        then none
        else still_said arrival item change)
      ≡ some c
    → (change ≡ c) × IsDue arrival item change
unfolding still_said IsDue
still_said-IsDue arrival item change c e = (
  ground arith,
  ((text_eq_iff item.github_state (display_state arrival.snapshot)).0 (ground arith), ground arith),
)

-- Where the item has a row: a line is said only of a state that the row still has, and in a thread
-- that did not ask for it only when the item closed and its thread, which the row calls open,
-- could not be shut.
said_of-IsDue :
    (arrival : Arrival) (item : Row) (change : StateChange)
    → said_of arrival (some item) ≡ some change
    → IsDue arrival item change
unfolding said_of
said_of-IsDue arrival item change e =
    elim (Option-cases (state_change_of arrival.action arrival.snapshot)) [
      | inl f ↦ cc (rw (f, said_of) at e)
      | inr (c, f) ↦
          let (same, found) = still_said-IsDue arrival item c change (rw (f, said_of) at e) in
          subst (λ (x : StateChange). IsDue arrival item x) same found
    ]
