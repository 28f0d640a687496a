-- ===== src/People/Rename.antt =====
-- `_rename` of shannon/db/stores/assignments.py: rows take the names their accounts go by now, in an
-- order in which no two rows hold one name.
use shannon_bot.Base.{
  Bool, List, Option, [], any, false, if◌then◌else◌, keep, length, ltb, map, none, not, some, suc,
  true, zero, ℕ, ◌%◌, ◌&&◌, ◌*◌, ◌++◌, ◌+◌, ◌/◌, ◌==◌, ◌||◌, ◌∷◌,
}
use shannon_bot.Domain.Text.{Text, codes, text_eq}
use shannon_bot.People.Ledger.{Assignment, is_for, is_named}
use shannon_bot.Sync.Policies.{ActorRole}

unfoldable pub text_leb : Text → Text → Bool
text_leb [] t = true
text_leb (c ∷ s) [] = false
text_leb (c ∷ s) (d ∷ t) = ltb c d || (c == d && text_leb s t)

-- `sorted` by a text, as insertion.
unfoldable pub insert_by {ℓ} : {A : Type ℓ} → (A → Text) → A → List A → List A
unfolding text_leb
insert_by key a [] = a ∷ []
insert_by key a (x ∷ xs) =
    let later = insert_by key a xs in if text_leb (key a) (key x) then a ∷ x ∷ xs else x ∷ later

unfoldable pub sort_by {ℓ} : {A : Type ℓ} → (A → Text) → List A → List A
unfolding insert_by
sort_by key [] = []
sort_by key (x ∷ xs) = insert_by key x (sort_by key xs)

-- The digits of a number before a text, on fuel; `number` gives one round for each unit and one more.
unfoldable pub digits_before : ℕ → ℕ → Text → Text
digits_before zero n rest = rest
digits_before (suc fuel) n rest = elim (ltb n 10) [
  | true ↦ (48 + n) ∷ rest
  | false ↦ digits_before fuel (n / 10) ((48 + n % 10) ∷ rest)
]

unfoldable pub number : ℕ → Text
unfolding digits_before
number n = digits_before (n + 1) n []

-- f"--swap-{row.id}"
unfoldable pub parked_name : ℕ → Text
unfolding number
parked_name i = codes "--swap-" ++ number i

-- A row and the login that it is to take.
abbrev pub Renames : Type 0
Renames = List (Text × Assignment)

-- `held.discard`
unfoldable pub discard : Text → List Text → List Text
discard name held = keep (λ n. not (text_eq name n)) held

-- What the loop has yet to do, the names that are held, and the names it has written to rows, by
-- their ids, in this round.
pub record Round : Type 0 where
  pub waiting : Renames
  pub held : List Text
  pub writes : List (ℕ × Text)

unfoldable pub hand_on : Renames → List Text → List Text
unfolding discard
hand_on [] held = held
hand_on (e ∷ ready) held = hand_on ready (e.0 ∷ discard e.1.github_username held)

unfoldable pub named_round : Renames → Renames → List Text → Round
unfolding hand_on is_named
named_round ready waiting held = record {
  waiting = keep (λ e. is_named e.0 held) waiting;
  held = hand_on ready held;
  writes = map (λ e. (e.1.id, e.0)) ready;
}

-- The entry of a login with its row on another name.
unfoldable pub parked_entry : Text → Text → Text × Assignment → Text × Assignment
parked_entry login name e =
    if text_eq login e.0 then (e.0, record e.1 { github_username = name }) else e

unfoldable pub parked_round : Text × Assignment → Renames → List Text → Round
unfolding parked_entry parked_name discard
parked_round e waiting held = record {
  waiting = map (parked_entry e.0 (parked_name e.1.id)) waiting;
  held = parked_name e.1.id ∷ discard e.1.github_username held;
  writes = (e.1.id, parked_name e.1.id) ∷ [];
}

-- One round of the loop: every name that is free is taken, or one row is parked.
unfoldable pub round : Renames → List Text → Round
unfolding named_round parked_round sort_by is_named
round waiting held = elim (sort_by (λ e. e.0) (keep (λ e. not (is_named e.0 held)) waiting)) [
  | (e ∷ ready) ↦ named_round (e ∷ ready) waiting held
  | [] ↦ elim (sort_by (λ e. e.0) waiting) [
    | (e ∷ others) ↦ parked_round e waiting held
    | [] ↦ named_round [] waiting held
  ]
]

-- The loop, on fuel: the writes of its rounds in order, or none where the fuel runs out.
unfoldable pub rename_rounds : ℕ → Renames → List Text → Option (List (ℕ × Text))
unfolding round
rename_rounds fuel [] held = some []
rename_rounds zero (e ∷ waiting) held = none
rename_rounds (suc fuel) (e ∷ waiting) held =
    let r = round (e ∷ waiting) held in
    elim (rename_rounds fuel r.waiting r.held) [
      | none ↦ none
      | some later ↦ some (r.writes ++ later)
    ]

-- The loop's outcome on the table; `name_taken` is the error of the unique constraint.
pub data Renamed : Type 0 where
  names_written : List Assignment → Renamed
  name_taken still_going : Renamed

-- Whether a row of the item and role, other than the one with the id, holds the name.
unfoldable pub is_taken : ℕ → ActorRole → ℕ → Text → List Assignment → Bool
unfolding is_for
is_taken item role i name rows =
    any (λ r. is_for item role r && (not (r.id == i) && text_eq name r.github_username)) rows

unfoldable pub written : ℕ → Text → Assignment → Assignment
written i name r = if r.id == i then record r { github_username = name } else r

unfoldable pub write_names : ℕ → ActorRole → List (ℕ × Text) → List Assignment → Renamed
unfolding is_taken written
write_names item role [] rows = names_written rows
write_names item role (w ∷ writes) rows =
    let later = write_names item role writes (map (written w.0 w.1) rows) in
    if is_taken item role w.0 w.1 rows then name_taken else later

-- Two rounds for each name are enough.
unfoldable pub renamed : ℕ → ActorRole → Renames → List Text → List Assignment → Renamed
unfolding rename_rounds write_names
renamed item role waiting held rows = elim (rename_rounds (2 * length waiting) waiting held) [
  | none ↦ still_going
  | some writes ↦ write_names item role writes rows
]
