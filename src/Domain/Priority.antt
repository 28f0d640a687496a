-- ===== src/Domain/Priority.antt =====
-- shannon/domain/priority.py: the priority that an item's labels say it has.
use shannon_bot.Base.{Bool, List, Option, [], if◌then◌else◌, ltb, none, some, ℕ, ◌||◌, ◌∷◌}
use shannon_bot.Domain.Enums.{Priority, high, low, medium, unset}
use shannon_bot.Domain.Text.{Text, codes, lower, strip, text_eq, words}

-- `_WORDS`
abbrev pub priority_words : List (Text × Priority)
priority_words =
    (codes "high", high)
    ∷ (codes "urgent", high)
    ∷ (codes "critical", high)
    ∷ (codes "medium", medium)
    ∷ (codes "med", medium)
    ∷ (codes "moderate", medium)
    ∷ (codes "low", low)
    ∷ (codes "minor", low)
    ∷ []

-- `table.get(word)`
unfoldable pub look_up {ℓ} : {A : Type ℓ} → Text → List (Text × A) → Option A
unfolding text_eq
look_up word [] = none
look_up word ((key, value) ∷ rest) =
    let found = look_up word rest in if text_eq key word then some value else found

unfoldable pub is_prefix_word : Text → Bool
unfolding text_eq
is_prefix_word s =
    text_eq s (codes "priority") || (text_eq s (codes "prio") || text_eq s (codes "p"))

unfoldable pub last_two : Text → Text → List Text → Text × Text
last_two a b [] = (a, b)
last_two a b (c ∷ rest) = last_two b c rest

-- The body of `_from_label`, on the parts of the name.
unfoldable pub from_parts : List Text → Option Priority
unfolding look_up is_prefix_word last_two
from_parts [] = none
from_parts (a ∷ []) = look_up a priority_words
from_parts (a ∷ b ∷ rest) =
    let (before, final) = last_two a b rest in
    if is_prefix_word a
    then look_up b priority_words
    else if text_eq final (codes "priority")
    then look_up before priority_words
    else none

unfoldable pub from_label : Text → Option Priority
unfolding from_parts words strip lower
from_label name = from_parts (words (lower (strip name)))

-- `_RANK`
unfoldable pub rank : Priority → ℕ
rank high = 3
rank medium = 2
rank low = 1
rank unset = 0

-- `max(found, key=rank)`: of equals the first, and they are the same.
unfoldable pub higher : Priority → Priority → Priority
unfolding rank
higher a b = if ltb (rank a) (rank b) then b else a

unfoldable pub raise_by : Option Priority → Priority → Priority
unfolding higher
raise_by none best = best
raise_by (some p) best = higher p best

-- `parse_priority`: with nothing found, UNSET, which ranks lowest.
unfoldable pub parse_priority : List Text → Priority
unfolding from_label raise_by
parse_priority [] = unset
parse_priority (name ∷ rest) = raise_by (from_label name) (parse_priority rest)
