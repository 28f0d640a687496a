-- ===== src/People/Once.antt =====
-- Each request is pinged for once, a review that answers it stops its ping, and a payload asks for it
-- again once, whatever other statements come in between.
use shannon_bot.Base.{
  All, All-imp, All-keep_if, Bool, In, In-keep, List, Option, [], arith, false, is_none, keep, none,
  refl, some, true, ℕ, ◌∷◌, ◌≡◌, ◌≢◌, ◌≤◌, ◌⊎◌,
}
use shannon_bot.Domain.Text.{Text}
use shannon_bot.People.Ledger.{
  Assignment, Assignments, answered, answered_before, asked_anew, asked_before, asked_by,
  claim_notifications, folded, is_answered_by, is_asked_again, is_named, is_owed, mark_fulfilled,
  or_now, owed_rows, reopen_request, reopened_where, told, untold,
}
use shannon_bot.People.Pings.{is_owed-parts}
use shannon_bot.People.Rows.{IsSuch}
use shannon_bot.People.Steps.{
  IsKept, IsKeyed, IsSuch-changed, IsSuch-run, LedgerRun, is_asked_again-asked,
}
use shannon_bot.Sync.Policies.{ActorRole}

-- A row that somebody has been pinged from.
abbrev IsTold : Assignment → Type 0
IsTold r = is_none r.notified_at ≡ false

IsTold-IsKept : IsKept false false IsTold
unfolding told answered
IsTold-IsKept = record {
  nameless = record { any_name = λ r name h. h; any_account = λ r a h. h };
  telling = λ now r h. refl;
  answering = λ submitted r e h. h;
  handing = λ no r h. ground arith;
  asking = λ no as_of r e h. ground arith;
}

-- A row whose review has been submitted.
abbrev IsAnswered : Assignment → Type 0
IsAnswered r = is_none r.fulfilled_at ≡ false

IsAnswered-IsKept : IsKept true false IsAnswered
unfolding told answered untold
IsAnswered-IsKept = record {
  nameless = record { any_name = λ r name h. h; any_account = λ r a h. h };
  telling = λ now r h. h;
  answering = λ submitted r e h. refl;
  handing = λ allowed r h. h;
  asking = λ no as_of r e h. ground arith;
}

-- A request that was made at `at` or later, and reviewed no earlier than it was made.
WasAsked : ℕ → Option ℕ → Option ℕ → Type 0
WasAsked at none fulfilled = ⊥
WasAsked at (some asked) none = at ≤ asked
WasAsked at (some asked) (some fulfilled) = (at ≤ asked) × (asked ≤ fulfilled)

abbrev WasAskedSince : ℕ → Assignment → Type 0
WasAskedSince at r = WasAsked at r.requested_at r.fulfilled_at

WasAsked-answered :
    (at submitted : ℕ) (asked fulfilled : Option ℕ)
    → asked_by submitted asked ≡ true
    → WasAsked at asked fulfilled
    → WasAsked at asked (some submitted)
unfolding WasAsked asked_by
WasAsked-answered at submitted none fulfilled e h = h
WasAsked-answered at submitted (some asked) none e h = ground arith
WasAsked-answered at submitted (some asked) (some fulfilled) e h = ground arith

WasAsked-anew :
    (at as_of : ℕ) (asked fulfilled : Option ℕ)
    → (asked_before as_of asked ≡ true) ⊎ (answered_before as_of fulfilled ≡ true)
    → WasAsked at asked fulfilled
    → at ≤ as_of
unfolding WasAsked asked_before answered_before
WasAsked-anew at as_of none fulfilled e h = elim h [ ]
WasAsked-anew at as_of (some asked) none e h = ground arith
WasAsked-anew at as_of (some asked) (some fulfilled) e h = ground arith

WasAskedSince-IsKept : (at : ℕ) → IsKept true true (WasAskedSince at)
unfolding told answered untold asked_anew WasAsked
WasAskedSince-IsKept at = record {
  nameless = record { any_name = λ r name h. h; any_account = λ r a h. h };
  telling = λ now r h. h;
  answering = λ submitted r e h. WasAsked-answered at submitted r.requested_at r.fulfilled_at e h;
  handing = λ allowed r h. h;
  asking = λ allowed as_of r e h. WasAsked-anew at as_of r.requested_at r.fulfilled_at e h;
}

-- What is so of a row with an id is at odds with a WHERE clause, which passes the row over.
passed_over :
    (P : Assignment → Type 0) (i : ℕ) (found : Assignment → Bool) (u : Assignments)
    → ((s : Assignment) → P s → found s ≡ true → ⊥)
    → IsSuch P i u
    → All (λ s. s.id ≢ i) (keep found u.rows)
passed_over P i found u clash h =
    All-keep_if (λ s. s.id ≢ i) found u.rows
      (All-imp (λ s. s.id ≡ i → P s) (λ s. found s ≡ true → s.id ≢ i) u.rows
        (λ s k hit same. clash s (k same) hit) h.1)

-- Where rows have ids of their own: of what a claim took, no later claim takes anything, for any item
-- and role, whatever claims, answers and lists of people come in between, as long as no ping is
-- handed back and no request is asked again.
pub claim-once :
    (now item item' : ℕ) (role role' : ActorRole) (t u : Assignments) (r : Assignment)
    → IsKeyed t
    → In r (owed_rows item role t)
    → LedgerRun false false (claim_notifications now item role t).0 u
    → All (λ s. s.id ≢ r.id) (owed_rows item' role' u)
unfolding owed_rows claim_notifications told
claim-once now item item' role role' t u r k m run =
    let changed = IsSuch-changed IsTold (is_owed item role) (told now) t r k m (λ s. refl) refl in
    passed_over IsTold r.id (is_owed item' role') u
      (λ s h hit. let unsaid = (is_owed-parts item' role' s hit).1 in cc)
      (IsSuch-run false false IsTold IsTold-IsKept r.id run changed)

-- Where rows have ids of their own: a request that a review answered is not pinged for, whatever
-- claims, hand-backs, answers and lists of people follow, until something asks for it again.
pub mark_fulfilled-quiet :
    (now item item' : ℕ) (role role' : ActorRole) (name : Text) (when account : Option ℕ)
    (t u : Assignments) (r : Assignment)
    → IsKeyed t
    → In r (keep (is_answered_by item role name account (or_now when now)) t.rows)
    → LedgerRun true false (mark_fulfilled now item role name when account t).0 u
    → All (λ s. s.id ≢ r.id) (owed_rows item' role' u)
unfolding owed_rows mark_fulfilled answered
mark_fulfilled-quiet now item item' role role' name when account t u r k m run =
    let at = or_now when now in
    let found = is_answered_by item role name account at in
    let changed = IsSuch-changed IsAnswered found (answered at) t r k m (λ s. refl) refl in
    passed_over IsAnswered r.id (is_owed item' role') u
      (λ s h hit. let unanswered = (is_owed-parts item' role' s hit).2 in cc)
      (IsSuch-run true false IsAnswered IsAnswered-IsKept r.id run changed)

not_asked_before :
    (as_of as_of' : ℕ) (asked fulfilled : Option ℕ)
    → as_of' ≤ as_of
    → WasAsked as_of asked fulfilled
    → asked_before as_of' asked ≡ true
    → ⊥
unfolding WasAsked asked_before
not_asked_before as_of as_of' none fulfilled older h e = h
not_asked_before as_of as_of' (some asked) none older h e = ground arith
not_asked_before as_of as_of' (some asked) (some fulfilled) older h e = ground arith

is_asked_again-nobody :
    (item : ℕ) (role : ActorRole) (as_of : ℕ) (r : Assignment)
    → is_asked_again item role [] as_of r ≡ false
unfolding is_asked_again is_named folded
is_asked_again-nobody item role as_of r = ground arith

-- Where rows have ids of their own: a request that a payload asked again is not asked again by it, nor
-- by an older payload, whatever statements any workers put in between: a replay is harmless.
pub reopen_request-replayed :
    (item item' : ℕ) (role role' : ActorRole) (logins logins' : List Text) (as_of as_of' : ℕ)
    (t u : Assignments) (r : Assignment)
    → IsKeyed t
    → In r (keep (is_asked_again item role logins as_of) t.rows)
    → LedgerRun true true (reopen_request item role logins (some as_of) t).0 u
    → as_of' ≤ as_of
    → All (λ s. s.id ≢ r.id) (keep (is_asked_again item' role' logins' as_of') u.rows)
unfolding reopen_request reopened_where asked_anew WasAsked
reopen_request-replayed item item' role role' [] logins' as_of as_of' t u r k m run older =
    let (place, hit) = In-keep (is_asked_again item role [] as_of) t.rows m in
    let nobody = is_asked_again-nobody item role as_of r in cc
reopen_request-replayed item item' role role' (l ∷ logins) logins' as_of as_of' t u r k m run
      older =
    let found = is_asked_again item role (l ∷ logins) as_of in
    let changed =
      IsSuch-changed (WasAskedSince as_of) found (asked_anew as_of) t r k m (λ s. refl)
        (omega arith) in
    passed_over (WasAskedSince as_of) r.id (is_asked_again item' role' logins' as_of') u
      (λ s h hit.
        not_asked_before as_of as_of' s.requested_at s.fulfilled_at older h
          (is_asked_again-asked item' role' logins' as_of' s hit))
      (IsSuch-run true true (WasAskedSince as_of) (WasAskedSince-IsKept as_of) r.id run changed)
