-- ===== src/Domain/Tracking.antt =====
-- shannon/domain/tracking.py and shannon/services/tracking.py: which kinds of line a thread is
-- told, with `remember_tracking` of shannon/db/stores/tracked_items.py.
use shannon_bot.Base.{
  Bool, Bool-cases, Option, String, ap, eq_iff, false, if◌then◌else◌, inl, inr, none, not, refl,
  some, str_eq, sym, true, ◌∙◌, ◌≡◌, ◌≢◌,
}
use shannon_bot.Domain.Enums.{ObjectType, issue, pr, ticket}
use shannon_bot.Domain.Json.{Json, JsonObject, entry, flag, get, no_entries, obj}

pub data TrackedEvent : Type 0 where
  comments labels commits checks approvals draft people state : TrackedEvent

unfoldable pub value_of : TrackedEvent → String
value_of comments = "comments"
value_of labels = "labels"
value_of commits = "commits"
value_of checks = "checks"
value_of approvals = "approvals"
value_of draft = "draft"
value_of people = "people"
value_of state = "state"

-- DEFAULTS
unfoldable pub default_of : TrackedEvent → Bool
default_of labels = false
default_of commits = false
default_of _ = true

-- HAPPENS_TO
unfoldable pub happens_to : ObjectType → TrackedEvent → Bool
happens_to pr _ = true
happens_to issue comments = true
happens_to issue labels = true
happens_to issue people = true
happens_to issue state = true
happens_to issue _ = false
happens_to ticket labels = true
happens_to ticket state = true
happens_to ticket _ = false

-- What one kind was set to: only a real `true` or `false` counts. The sets `on` and `off` are the
-- kinds for which this is `some true` and `some false`.
unfoldable pub chosen_of : Option Json → Option Bool
chosen_of (some (flag b)) = some b
chosen_of _ = none

-- `Tracking.of(stored)`
unfoldable pub tracking_of : Json → TrackedEvent → Option Bool
unfolding chosen_of
tracking_of (obj o) event = chosen_of (get o (value_of event))
tracking_of _ event = none

-- `Tracking.wants`
unfoldable pub wants : (TrackedEvent → Option Bool) → TrackedEvent → Bool
wants tracking event = elim (tracking event) [ some b ↦ b | none ↦ default_of event ]

-- PostgreSQL's `||` of an object with one key: the key's value is replaced, or added.
unfoldable pub merged_with : JsonObject → String → Json → JsonObject
merged_with no_entries key v = entry key v no_entries
merged_with (entry k w rest) key v =
    let tail = merged_with rest key v in if str_eq k key then entry key v rest else entry k w tail

unfoldable pub remember_tracking : TrackedEvent → Bool → JsonObject → JsonObject
unfolding merged_with
remember_tracking event wanted tracking = merged_with tracking (value_of event) (flag wanted)

-- The row of the item whose thread it is, as far as `choose` reads it.
pub record TrackedItem : Type 0 where
  pub kind : ObjectType
  pub tracking : JsonObject

-- What `choose` answers, less the kinds themselves, which are read off the row.
pub record ThreadLines : Type 0 where
  pub kind : ObjectType
  pub tracking : JsonObject
  pub was : Option Bool

-- `choose`, where the thread is an item's: the row after it, and the answer.
unfoldable pub choose : TrackedEvent → Bool → TrackedItem → TrackedItem × ThreadLines
unfolding happens_to remember_tracking tracking_of wants
choose event wanted item =
    let before = item.tracking in
    if not (happens_to item.kind event)
    then (item, record { kind = item.kind; tracking = before; was = none })
    else let after = remember_tracking event wanted before in
      (
        record { kind = item.kind; tracking = after },
        record {
          kind = item.kind;
          tracking = after;
          was = some (wants (tracking_of (obj before)) event);
        },
      )

-- Whether the row's thread is told about a kind of line.
abbrev pub is_told : TrackedItem → TrackedEvent → Bool
is_told item event = wants (tracking_of (obj item.tracking)) event

str_eq_refl : (s : String) → str_eq s s ≡ true
str_eq_refl s = (eq_iff s s).1 refl

get-entry :
    (key other : String) (v : Json) (rest : JsonObject)
    → get (entry key v rest) other ≡ (if str_eq key other then some v else get rest other)
unfolding get
get-entry key other v rest = refl

get-merged_with :
    (o : JsonObject) (key : String) (v : Json) → get (merged_with o key v) key ≡ some v
unfolding get merged_with
get-merged_with no_entries key v = rw (str_eq_refl key) refl
get-merged_with (entry k w rest) key v = elim (Bool-cases (str_eq k key)) [
  | inl e ↦ rw (e, str_eq_refl key) refl
  | inr e ↦ rw (e, e) (get-merged_with rest key v)
]

get-merged_other :
    (o : JsonObject) (key other : String) (v : Json)
    → str_eq key other ≡ false
    → get (merged_with o key v) other ≡ get o other
unfolding get merged_with
get-merged_other no_entries key other v e = rw e refl
get-merged_other (entry k w rest) key other v e = elim (Bool-cases (str_eq k key)) [
  | inl f ↦ let same : k ≡ key = (eq_iff k key).0 f in rw (f, e, same, e) refl
  | inr f ↦
      rw f (ap (λ r. if str_eq k other then some w else r) (get-merged_other rest key other v e))
]

-- The row after a choice that the item can have.
choose-tracking :
    (event : TrackedEvent) (wanted : Bool) (item : TrackedItem)
    → happens_to item.kind event ≡ true
    → (choose event wanted item).0.tracking
      ≡ merged_with item.tracking (value_of event) (flag wanted)
unfolding choose remember_tracking
choose-tracking event wanted item h = rw h refl

unfoldable told_by : TrackedEvent → Option Json → Bool
told_by event found = elim (chosen_of found) [ some b ↦ b | none ↦ default_of event ]

told_by-get :
    (o : JsonObject) (event : TrackedEvent)
    → wants (tracking_of (obj o)) event ≡ told_by event (get o (value_of event))
unfolding wants tracking_of told_by
told_by-get o event = refl

-- A kind that the item can have is told as chosen, whatever it was.
choose-is_told :
    (event : TrackedEvent) (wanted : Bool) (item : TrackedItem)
    → happens_to item.kind event ≡ true
    → is_told (choose event wanted item).0 event ≡ wanted
unfolding told_by chosen_of
choose-is_told event wanted item h =
    ap (λ (o : JsonObject). wants (tracking_of (obj o)) event) (choose-tracking event wanted item h)
    ∙ told_by-get (merged_with item.tracking (value_of event) (flag wanted)) event
    ∙ ap (told_by event) (get-merged_with item.tracking (value_of event) (flag wanted))

not_chosen :
    (event : TrackedEvent) (wanted : Bool) (item : TrackedItem)
    → happens_to item.kind event ≡ false
    → (choose event wanted item).0 ≡ item
unfolding choose
not_chosen event wanted item h = rw h refl

-- The kind that a key names.
unfoldable event_at_key : String → Option TrackedEvent
event_at_key key =
    if str_eq key "comments"
    then some comments
    else if str_eq key "labels"
    then some labels
    else if str_eq key "commits"
    then some commits
    else if str_eq key "checks"
    then some checks
    else if str_eq key "approvals"
    then some approvals
    else if str_eq key "draft"
    then some draft
    else if str_eq key "people"
    then some people
    else if str_eq key "state"
    then some state
    else none

-- Each kind has its own key.
event_at_key-value_of : (event : TrackedEvent) → event_at_key (value_of event) ≡ some event
unfolding event_at_key value_of
event_at_key-value_of comments = refl
event_at_key-value_of labels = refl
event_at_key-value_of commits = refl
event_at_key-value_of checks = refl
event_at_key-value_of approvals = refl
event_at_key-value_of draft = refl
event_at_key-value_of people = refl
event_at_key-value_of state = refl

some-inj : {a b : TrackedEvent} → some a ≡ some b → a ≡ b
some-inj e = cc e

keys_differ :
    (event other : TrackedEvent) → event ≢ other → str_eq (value_of event) (value_of other) ≡ false
keys_differ event other ne = elim (Bool-cases (str_eq (value_of event) (value_of other))) [
  | inr e ↦ e
  | inl e ↦
      let same : value_of event ≡ value_of other = (eq_iff (value_of event) (value_of other)).0 e in
      elim (ne (
        some-inj (
          sym (event_at_key-value_of event)
          ∙ ap event_at_key same
          ∙ event_at_key-value_of other))) [ ]
]

-- Choosing one kind changes no other: it is told as before.
pub choose-others :
    (event other : TrackedEvent) (wanted : Bool) (item : TrackedItem)
    → event ≢ other
    → is_told (choose event wanted item).0 other ≡ is_told item other
choose-others event other wanted item ne = elim (Bool-cases (happens_to item.kind event)) [
  | inl h ↦
      ap (λ (o : JsonObject). wants (tracking_of (obj o)) other)
        (choose-tracking event wanted item h)
      ∙ told_by-get (merged_with item.tracking (value_of event) (flag wanted)) other
      ∙ ap (told_by other) (
          get-merged_other item.tracking (value_of event) (value_of other) (flag wanted)
            (keys_differ event other ne))
      ∙ sym (told_by-get item.tracking other)
  | inr h ↦ rw (not_chosen event wanted item h) refl
]
