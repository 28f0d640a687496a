-- ===== src/Events.antt =====
-- shannon/github/webhooks/events.py and router.py: which deliveries are acted on, and by which
-- handler. What a handler answers is a parameter.
use shannon_bot.Base.{
  Bool, List, Option, String, [], any, false, if◌then◌else◌, is_none, none, not, some, str_eq, true,
  ℕ, ◌&&◌, ◌∷◌,
}
use shannon_bot.Delivery.Worker.{WebhookOutcome, action}
use shannon_bot.Domain.Json.{JsonObject}

abbrev pub pull_request_actions : List String
pull_request_actions =
    "opened" ∷ "edited" ∷ "closed" ∷ "reopened" ∷ "review_requested" ∷ "review_request_removed"
    ∷ "labeled" ∷ "unlabeled" ∷ "assigned" ∷ "unassigned" ∷ "synchronize" ∷ "ready_for_review"
    ∷ "converted_to_draft" ∷ []

abbrev pub issue_actions : List String
issue_actions =
    "opened" ∷ "edited" ∷ "closed" ∷ "reopened" ∷ "labeled" ∷ "unlabeled" ∷ "assigned"
    ∷ "unassigned" ∷ []

abbrev pub comment_actions : List String
comment_actions = "created" ∷ "edited" ∷ []

abbrev pub review_actions : List String
review_actions = "submitted" ∷ "edited" ∷ []

abbrev pub review_comment_actions : List String
review_comment_actions = "created" ∷ "edited" ∷ []

abbrev pub check_suite_actions : List String
check_suite_actions = "completed" ∷ []

abbrev pub installation_actions : List String
installation_actions =
    "created" ∷ "deleted" ∷ "suspend" ∷ "unsuspend" ∷ "new_permissions_accepted" ∷ []

abbrev pub installation_repository_actions : List String
installation_repository_actions = "added" ∷ "removed" ∷ []

-- SUPPORTED_EVENTS
abbrev pub supported_events : List (String × List String)
supported_events =
    ("pull_request", pull_request_actions)
    ∷ ("issues", issue_actions)
    ∷ ("issue_comment", comment_actions)
    ∷ ("pull_request_review", review_actions)
    ∷ ("pull_request_review_comment", review_comment_actions)
    ∷ ("check_suite", check_suite_actions)
    ∷ ("installation", installation_actions)
    ∷ ("installation_repositories", installation_repository_actions)
    ∷ []

-- `table.get(key)`
unfoldable pub at_key {ℓ} : {A : Type ℓ} → String → List (String × A) → Option A
at_key key [] = none
at_key key (p ∷ rest) = let later = at_key key rest in if str_eq p.0 key then some p.1 else later

-- None is in no set of actions.
abbrev pub is_action_in : Option String → List String → Bool
is_action_in none actions = false
is_action_in (some action) actions = any (λ a. str_eq a action) actions

unfoldable pub is_supported : String → Option String → Bool
unfolding at_key
is_supported event action = elim (at_key event supported_events) [
  | none ↦ false
  | some actions ↦ is_action_in action actions
]

-- What a handler answers to an action, a payload and the delivery's number.
abbrev pub Handler : Type 0
Handler = String → JsonObject → Option ℕ → WebhookOutcome

pub record EventRouter : Type 0 where
  pub handlers : List (String × Handler)
  pub worth_recording : List (String × (JsonObject → Bool))

abbrev pub with_question :
    String
    → Option (JsonObject → Bool)
    → List (String × (JsonObject → Bool))
    → List (String × (JsonObject → Bool))
with_question event none questions = questions
with_question event (some question) questions = (event, question) ∷ questions

-- None where the source raises ValueError. The newest entry of a key is the one that is found.
unfoldable pub register :
    String → Handler → Option (JsonObject → Bool) → EventRouter → Option EventRouter
unfolding at_key
register event handler question r =
    if is_none (at_key event supported_events)
    then none
    else some (record {
      handlers = (event, handler) ∷ r.handlers;
      worth_recording = with_question event question r.worth_recording;
    })

abbrev pub is_worth : Option (JsonObject → Bool) → JsonObject → Bool
is_worth none payload = true
is_worth (some question) payload = question payload

unfoldable pub will_act_on : EventRouter → String → Option String → JsonObject → Bool
unfolding is_supported at_key
will_act_on r event action payload =
    (is_supported event action && not (is_none (at_key event r.handlers)))
    && is_worth (at_key event r.worth_recording) payload

-- `action or ""`
abbrev pub or_empty : Option String → String
or_empty none = ""
or_empty (some action) = action

unfoldable pub dispatch :
    EventRouter → String → Option String → JsonObject → Option ℕ → WebhookOutcome
unfolding is_supported at_key
dispatch r event action payload arrived =
    if not (is_supported event action)
    then WebhookOutcome.ignored
    else elim (at_key event r.handlers) [
      | none ↦ WebhookOutcome.ignored
      | some handler ↦ handler (or_empty action) payload arrived
    ]
