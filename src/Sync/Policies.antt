-- ===== src/Sync/Policies.antt =====
-- shannon/services/sync/policies.py: what differs between pull requests, issues and tickets, with
-- what they read of shannon/domain/models.py and shannon/domain/state_changes.py.
use shannon_bot.Base.{
  Bool, List, Option, [], false, if◌then◌else◌, none, not, some, true, ℕ, ◌||◌, ◌∷◌,
}
use shannon_bot.Delivery.Worker.{action}
use shannon_bot.Domain.Board.{status_from_column}
use shannon_bot.Domain.Enums.{
  ObjectType, StateChange, Status, closed, done, issue, merged, not_reviewed, pr, reopened, ticket,
}
use shannon_bot.Domain.Text.{Text, codes, lower, strip, text_eq}

pub record Actor : Type 0 where
  pub login : Text
  pub github_user_id : Option ℕ

-- The fields of every snapshot that the policies read.
pub record Item : Type 0 where
  pub title : Text
  pub state : Text
  pub author : Option Actor
  pub assignees : List Actor

pub record Asked : Type 0 where
  pub reviewers : List Actor
  pub reviewer_teams : List Actor
  pub person_asked_now : Option Actor
  pub team_asked_now : Option Actor
  pub is_merged : Bool

-- One constructor for each class of snapshot; a ticket's text is its column.
pub data Snapshot : Type 0 where
  pull_request : Item → Asked → Snapshot
  an_issue : Item → Snapshot
  a_ticket : Item → Option Text → Snapshot

unfoldable pub item_of : Snapshot → Item
item_of (pull_request i a) = i
item_of (an_issue i) = i
item_of (a_ticket i column) = i

unfoldable pub kind_of : Snapshot → ObjectType
kind_of (pull_request i a) = pr
kind_of (an_issue i) = issue
kind_of (a_ticket i column) = ticket

-- `(self.state or "open").lower()`
unfoldable pub state_or_open : Text → Text
unfolding lower
state_or_open [] = codes "open"
state_or_open (c ∷ s) = lower (c ∷ s)

unfoldable pub display_state : Snapshot → Text
unfolding state_or_open
display_state (pull_request i a) = if a.is_merged then codes "merged" else state_or_open i.state
display_state (an_issue i) = state_or_open i.state
display_state (a_ticket i column) = state_or_open i.state

unfoldable pub is_closed : Snapshot → Bool
unfolding display_state
is_closed s = not (text_eq (display_state s) (codes "open"))

pub data ActorRole : Type 0 where
  author_role assignee_role reviewer_role reviewer_team_role : ActorRole

abbrev pub at_most_one : Option Actor → List Actor
at_most_one none = []
at_most_one (some a) = a ∷ []

-- A mapping from roles to actors is the list of its entries.
abbrev pub Roles : Type 0
Roles = List (ActorRole × List Actor)

-- `assignments` and `asked_again` of each policy, and the choice of the policy by the snapshot.
abbrev pub pull_request_assignments : Item → Asked → Roles
pull_request_assignments i a =
    (author_role, at_most_one i.author)
    ∷ (assignee_role, i.assignees)
    ∷ (reviewer_role, a.reviewers)
    ∷ (reviewer_team_role, a.reviewer_teams)
    ∷ []

abbrev pub issue_assignments : Item → Roles
issue_assignments i = (author_role, at_most_one i.author) ∷ (assignee_role, i.assignees) ∷ []

unfoldable pub assignments : Snapshot → Roles
assignments (pull_request i a) = pull_request_assignments i a
assignments (an_issue i) = issue_assignments i
assignments (a_ticket i column) = []

abbrev pub pull_request_asked_again : Asked → Roles
pull_request_asked_again a =
    (reviewer_role, at_most_one a.person_asked_now)
    ∷ (reviewer_team_role, at_most_one a.team_asked_now)
    ∷ []

unfoldable pub asked_again : Snapshot → Roles
asked_again (pull_request i a) = pull_request_asked_again a
asked_again (an_issue i) = []
asked_again (a_ticket i column) = []

unfoldable pub is_done : Status → Bool
is_done done = true
is_done _ = false

abbrev pub or_current : Option Status → Status → Status
or_current none current = current
or_current (some s) current = s

-- `status_for` of each policy.
abbrev pub issue_status_for : Item → Status → Status
issue_status_for i current =
    if is_closed (an_issue i) then done else if is_done current then not_reviewed else current

abbrev pub ticket_status_for : Option Text → Status → Status
ticket_status_for column current = or_current (status_from_column column) current

unfoldable pub status_for : Snapshot → Status → Status
unfolding is_closed is_done status_from_column
status_for (pull_request i a) current = current
status_for (an_issue i) current = issue_status_for i current
status_for (a_ticket i column) current = ticket_status_for column current

-- `shut` of each policy.
abbrev pub pull_request_shut : Item → Asked → Status → Option Bool
pull_request_shut i a status =
    if is_closed (pull_request i a) then some true else if is_done status then none else some false

unfoldable pub shut : Snapshot → Status → Option Bool
unfolding is_closed is_done
shut (pull_request i a) status = pull_request_shut i a status
shut (an_issue i) status = some (is_closed (an_issue i))
shut (a_ticket i column) status = none

-- `shut_for_state` of each policy.
abbrev pub pull_request_shut_for_state : Status → Text → Bool
pull_request_shut_for_state status github_state =
    is_done status || not (text_eq github_state (codes "open"))

abbrev pub issue_shut_for_state : Text → Bool
issue_shut_for_state github_state = text_eq github_state (codes "closed")

unfoldable pub shut_for_state : ObjectType → Status → Text → Bool
unfolding is_done text_eq
shut_for_state pr status github_state = pull_request_shut_for_state status github_state
shut_for_state issue status github_state = issue_shut_for_state github_state
shut_for_state ticket status github_state = false

unfoldable pub lock_lives_in_the_row : ObjectType → Bool
lock_lives_in_the_row pr = true
lock_lives_in_the_row issue = false
lock_lives_in_the_row ticket = false

unfoldable pub channel_fallback : ObjectType → Option ObjectType
channel_fallback pr = none
channel_fallback issue = some pr
channel_fallback ticket = none

-- `TicketPolicy.thread_name`: a stripped title, or a name for one that is blank.
unfoldable pub ticket_name : Item → Text
unfolding strip
ticket_name i = elim (strip i.title) [ [] ↦ codes "Untitled ticket" | c ∷ s ↦ c ∷ s ]

-- What a delivery did to the item's state.
unfoldable pub state_change_of : Text → Snapshot → Option StateChange
unfolding text_eq display_state
state_change_of action s =
    if text_eq action (codes "reopened")
    then some reopened
    else if not (text_eq action (codes "closed"))
    then none
    else if text_eq (display_state s) (codes "merged")
    then some merged
    else some closed
