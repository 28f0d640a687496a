-- ===== src/People/Ledger.antt =====
-- shannon/db/stores/assignments.py and the table `item_assignments`: who is on an item, and who of
-- them has been told. A statement is a function of the table; a time is a number of microseconds.
use shannon_bot.Base.{
  Bool, List, Option, [], any, false, if◌then◌else◌, is_none, keep, leb, ltb, map, none, not, some,
  true, ℕ, ◌&&◌, ◌==◌, ◌||◌, ◌∷◌,
}
use shannon_bot.Domain.Text.{Text, lower, text_eq}
use shannon_bot.Sync.Policies.{
  ActorRole, assignee_role, author_role, reviewer_role, reviewer_team_role,
}

pub record Assignment : Type 0 where
  pub id : ℕ
  pub tracked_item_id : ℕ
  pub github_username : Text
  pub github_user_id : Option ℕ
  pub role_type : ActorRole
  pub notified_at : Option ℕ
  pub requested_at : Option ℕ
  pub fulfilled_at : Option ℕ

-- The rows, in any order, and the next value of the primary key's sequence.
pub record Assignments : Type 0 where
  pub rows : List Assignment
  pub next_id : ℕ

unfoldable pub role_eq : ActorRole → ActorRole → Bool
role_eq author_role author_role = true
role_eq assignee_role assignee_role = true
role_eq reviewer_role reviewer_role = true
role_eq reviewer_team_role reviewer_team_role = true
role_eq _ _ = false

-- A mapping from logins to account ids is the list of its entries.
abbrev pub People : Type 0
People = List (Text × Option ℕ)

unfoldable pub same_id : ℕ → Option ℕ → Bool
same_id account none = false
same_id account (some other) = account == other

unfoldable pub is_named : Text → List Text → Bool
is_named name names = any (text_eq name) names

-- `tracked_item_id == item AND role_type == role`
unfoldable pub is_for : ℕ → ActorRole → Assignment → Bool
unfolding role_eq
is_for item role r = r.tracked_item_id == item && role_eq r.role_type role

-- Applies a change to the rows that a WHERE clause finds.
abbrev pub update_where :
    (Assignment → Bool) → (Assignment → Assignment) → List Assignment → List Assignment
update_where found change rows = map (λ r. if found r then change r else r) rows

-- The WHERE clause of `claim_notifications`.
unfoldable pub is_owed : ℕ → ActorRole → Assignment → Bool
unfolding is_for
is_owed item role r = is_for item role r && (is_none r.notified_at && is_none r.fulfilled_at)

unfoldable pub told : ℕ → Assignment → Assignment
told now r = record r { notified_at = some now }

-- The rows that a claim takes, and what it answers with: RETURNING the name and the account.
unfoldable pub owed_rows : ℕ → ActorRole → Assignments → List Assignment
unfolding is_owed
owed_rows item role t = keep (is_owed item role) t.rows

unfoldable pub person_of : Assignment → Text × Option ℕ
person_of r = (r.github_username, r.github_user_id)

unfoldable pub claim_notifications : ℕ → ℕ → ActorRole → Assignments → Assignments × People
unfolding owed_rows is_owed told person_of
claim_notifications now item role t = (
  record t { rows = update_where (is_owed item role) (told now) t.rows },
  map person_of (owed_rows item role t),
)

-- `github_user_id IN ids`, the accounts that the claim had.
unfoldable pub has_account : People → Option ℕ → Bool
has_account told_to none = false
has_account told_to (some account) = any (λ p. same_id account p.1) told_to

-- `github_username IN logins`, the names of those for whom it had none.
unfoldable pub has_login : People → Text → Bool
unfolding lower
has_login told_to name = any (λ p. is_none p.1 && text_eq (lower p.0) name) told_to

-- The WHERE clause of `release_notifications`.
unfoldable pub is_released : ℕ → ActorRole → People → Assignment → Bool
unfolding is_for has_account has_login
is_released item role told_to r =
    is_for item role r
    && (has_account told_to r.github_user_id || has_login told_to r.github_username)

unfoldable pub untold : Assignment → Assignment
untold r = record r { notified_at = none }

unfoldable pub release_notifications : ℕ → ActorRole → People → Assignments → Assignments
unfolding is_released untold
release_notifications item role [] t = t
release_notifications item role (p ∷ told_to) t = record t {
  rows = update_where (is_released item role (p ∷ told_to)) untold t.rows;
}

-- `submitted = when or func.now()`
unfoldable pub or_now : Option ℕ → ℕ → ℕ
or_now none now = now
or_now (some submitted) now = submitted

-- `same_person` of `mark_fulfilled`: by account where both know one, by name otherwise.
unfoldable pub same_person : Text → Option ℕ → Assignment → Bool
unfolding lower same_id
same_person name none r = text_eq r.github_username (lower name)
same_person name (some account) r =
    same_id account r.github_user_id
    || (is_none r.github_user_id && text_eq r.github_username (lower name))

-- `requested_at IS NULL OR requested_at <= submitted`
unfoldable pub asked_by : ℕ → Option ℕ → Bool
asked_by submitted none = true
asked_by submitted (some at) = leb at submitted

unfoldable pub is_answered_by : ℕ → ActorRole → Text → Option ℕ → ℕ → Assignment → Bool
unfolding is_for same_person asked_by
is_answered_by item role name account submitted r =
    is_for item role r && (same_person name account r && asked_by submitted r.requested_at)

unfoldable pub answered : ℕ → Assignment → Assignment
answered submitted r = record r { fulfilled_at = some submitted }

-- `mark_fulfilled`, and whether it found a row.
unfoldable pub mark_fulfilled :
    ℕ → ℕ → ActorRole → Text → Option ℕ → Option ℕ → Assignments → Assignments × Bool
unfolding or_now is_answered_by answered
mark_fulfilled now item role name when account t =
    let found = is_answered_by item role name account (or_now when now) in
    (record t { rows = update_where found (answered (or_now when now)) t.rows }, any found t.rows)

-- `requested_at IS NULL OR requested_at < as_of`
unfoldable pub asked_before : ℕ → Option ℕ → Bool
asked_before as_of none = true
asked_before as_of (some at) = ltb at as_of

-- `fulfilled_at IS NOT NULL AND fulfilled_at < as_of`
unfoldable pub answered_before : ℕ → Option ℕ → Bool
answered_before as_of none = false
answered_before as_of (some at) = ltb at as_of

unfoldable pub folded : List Text → List Text
unfolding lower
folded logins = map lower logins

-- The WHERE clauses of `reopen_request` and `reopen_if_newer`.
unfoldable pub is_asked_again : ℕ → ActorRole → List Text → ℕ → Assignment → Bool
unfolding is_for is_named asked_before folded
is_asked_again item role logins as_of r =
    is_for item role r
    && (is_named r.github_username (folded logins)
        && (not (is_none r.notified_at) && asked_before as_of r.requested_at))

unfoldable pub is_answered_and_asked : ℕ → ActorRole → List Text → ℕ → Assignment → Bool
unfolding is_for is_named answered_before folded
is_answered_and_asked item role logins as_of r =
    is_for item role r
    && (is_named r.github_username (folded logins) && answered_before as_of r.fulfilled_at)

unfoldable pub asked_anew : ℕ → Assignment → Assignment
asked_anew as_of r = record r { notified_at = none; requested_at = some as_of; fulfilled_at = none }

-- The update that both share: the table, and the names that were reopened.
unfoldable pub reopened_where : (Assignment → Bool) → ℕ → Assignments → Assignments × List Text
unfolding asked_anew
reopened_where found as_of t = (
  record t { rows = update_where found (asked_anew as_of) t.rows },
  map (λ r. r.github_username) (keep found t.rows),
)

unfoldable pub reopen_request :
    ℕ → ActorRole → List Text → Option ℕ → Assignments → Assignments × List Text
unfolding is_asked_again reopened_where
reopen_request item role [] as_of t = (t, [])
reopen_request item role (l ∷ logins) none t = (t, [])
reopen_request item role (l ∷ logins) (some as_of) t =
    reopened_where (is_asked_again item role (l ∷ logins) as_of) as_of t

unfoldable pub reopen_if_newer :
    ℕ → ActorRole → List Text → Option ℕ → Assignments → Assignments × List Text
unfolding is_answered_and_asked reopened_where
reopen_if_newer item role [] as_of t = (t, [])
reopen_if_newer item role (l ∷ logins) none t = (t, [])
reopen_if_newer item role (l ∷ logins) (some as_of) t =
    reopened_where (is_answered_and_asked item role (l ∷ logins) as_of) as_of t
