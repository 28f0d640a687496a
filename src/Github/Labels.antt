-- ===== src/Github/Labels.antt =====
-- shannon/github/labels.py: the labels to take off an item and the one to put on.
use shannon_bot.Base.{
  Bool, List, Option, [], any, false, if◌then◌else◌, is_none, keep, none, not, some, true, ◌&&◌,
  ◌∷◌,
}
use shannon_bot.Domain.Enums.{
  Priority, Status, backlog, done, high, in_review, low, medium, not_reviewed, unset,
}
use shannon_bot.Domain.Priority.{look_up, parse_priority}
use shannon_bot.Domain.Text.{Text, codes, lower, strip, text_eq}

-- STATUS_LABELS: the enum's own spelling.
unfoldable pub status_label : Status → Text
status_label not_reviewed = codes "NOT_REVIEWED"
status_label in_review = codes "IN_REVIEW"
status_label backlog = codes "BACKLOG"
status_label done = codes "DONE"

-- `_STATUS_BY_LABEL`: the same, case-folded.
abbrev pub status_by_label : List (Text × Status)
status_by_label =
    (codes "not_reviewed", not_reviewed)
    ∷ (codes "in_review", in_review)
    ∷ (codes "backlog", backlog)
    ∷ (codes "done", done)
    ∷ []

-- PRIORITY_LABELS, and the spelling of UNSET, which no label has.
unfoldable pub priority_label : Priority → Text
priority_label high = codes "HIGH"
priority_label medium = codes "MEDIUM"
priority_label low = codes "LOW"
priority_label unset = codes "UNSET"

-- `name.strip().casefold()`
unfoldable pub folded : Text → Text
unfolding strip lower
folded name = lower (strip name)

unfoldable pub status_named : Text → Option Status
unfolding look_up folded
status_named name = look_up (folded name) status_by_label

unfoldable pub first_of_both {ℓ} : {A : Type ℓ} → Option A → Option A → Option A
first_of_both none b = b
first_of_both (some a) b = some a

unfoldable pub status_of : List Text → Option Status
unfolding status_named first_of_both
status_of [] = none
status_of (name ∷ rest) = first_of_both (status_named name) (status_of rest)

unfoldable pub same_status : Status → Status → Bool
same_status not_reviewed not_reviewed = true
same_status in_review in_review = true
same_status backlog backlog = true
same_status done done = true
same_status _ _ = false

-- An empty `add` is the source's empty string.
pub record LabelChange : Type 0 where
  pub remove : List Text
  pub add : Option Text

unfoldable pub nothing_to_do : LabelChange → Bool
nothing_to_do change = elim change.remove [ [] ↦ is_none change.add | x ∷ rest ↦ false ]

-- `status not in (None, wanted)`
abbrev pub is_other_status : Status → Option Status → Bool
is_other_status wanted none = false
is_other_status wanted (some s) = not (same_status s wanted)

abbrev pub is_status : Status → Option Status → Bool
is_status wanted none = false
is_status wanted (some s) = same_status s wanted

unfoldable pub status_change : List Text → Status → LabelChange
unfolding status_of status_named same_status status_label
status_change current wanted = record {
  remove = keep (λ name. is_other_status wanted (status_named name)) current;
  add = if is_status wanted (status_of current) then none else some (status_label wanted);
}

unfoldable pub same_priority : Priority → Priority → Bool
same_priority high high = true
same_priority medium medium = true
same_priority low low = true
same_priority unset unset = true
same_priority _ _ = false

-- `_is_priority`
unfoldable pub is_priority : Text → Bool
unfolding parse_priority same_priority
is_priority name = not (same_priority (parse_priority (name ∷ [])) unset)

unfoldable pub is_stale_priority : Priority → Text → Bool
unfolding is_priority folded text_eq
is_stale_priority wanted name =
    is_priority name && not (text_eq (folded name) (lower (priority_label wanted)))

unfoldable pub priority_change : List Text → Priority → LabelChange
unfolding is_stale_priority parse_priority same_priority
priority_change current wanted =
    let stale = keep (is_stale_priority wanted) current in
    let already =
      same_priority (parse_priority current) wanted
      && elim stale [ [] ↦ true | x ∷ rest ↦ false ] in
    record { remove = stale; add = if already then none else some (priority_label wanted) }

pub data Reserved : Type 0 where
  for_status : Status → Reserved
  for_priority : Priority → Reserved

abbrev reserved_priority : Priority → Option Reserved
reserved_priority unset = none
reserved_priority p = some (for_priority p)

unfoldable pub reserved_as : Text → Option Reserved
unfolding status_of parse_priority
reserved_as name = elim (status_of (name ∷ [])) [
  | some s ↦ some (for_status s)
  | none ↦ reserved_priority (parse_priority (name ∷ []))
]

unfoldable pub label_change : List Text → Text → Bool → LabelChange
unfolding folded text_eq
label_change current name adding =
    let on_it = any (λ held. text_eq (folded held) (folded name)) current in
    if adding
    then record { remove = []; add = if on_it then none else some name }
    else record { remove = if on_it then name ∷ [] else []; add = none }
