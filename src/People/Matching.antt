-- ===== src/People/Matching.antt =====
-- `_match` of shannon/db/stores/assignments.py: which stored row belongs to each person that a payload
-- names. A dict is the list of its entries in order of insertion.
use shannon_bot.Base.{
  Bool, List, Option, [], any, contains, false, if◌then◌else◌, none, not, some, ℕ, ◌++◌, ◌==◌, ◌||◌,
  ◌∷◌,
}
use shannon_bot.Delivery.Store.{claimed}
use shannon_bot.Domain.Text.{Text, lower, text_eq}
use shannon_bot.People.Ledger.{Assignment, People, same_id}
use shannon_bot.Sync.Policies.{Actor}

-- `{actor.login.lower(): actor.github_user_id for actor in actors}`
unfoldable pub entry_put : Text → Option ℕ → People → People
entry_put login account [] = (login, account) ∷ []
entry_put login account (p ∷ rest) =
    let later = entry_put login account rest in
    if text_eq p.0 login then (p.0, account) ∷ rest else p ∷ later

unfoldable pub wanted_from : People → List Actor → People
unfolding entry_put
wanted_from entries [] = entries
wanted_from entries (a ∷ actors) =
    wanted_from (entry_put (lower a.login) a.github_user_id entries) actors

-- The last row that passes a test.
unfoldable pub last_where : (Assignment → Bool) → List Assignment → Option Assignment
last_where test [] = none
last_where test (r ∷ rest) = elim (last_where test rest) [
  | some later ↦ some later
  | none ↦ if test r then some r else none
]

-- What `by_id` and `by_name` hold for an account and a login.
unfoldable pub by_account : Option ℕ → List Assignment → Option Assignment
unfolding last_where same_id
by_account none rows = none
by_account (some account) rows = last_where (λ r. same_id account r.github_user_id) rows

unfoldable pub by_name : Text → List Assignment → Option Assignment
unfolding last_where
by_name login rows = last_where (λ r. text_eq login r.github_username) rows

abbrev pub Matches : Type 0
Matches = List (Text × Option Assignment)

unfoldable pub ids_of : Matches → List ℕ
ids_of [] = []
ids_of ((login, none) ∷ rest) = ids_of rest
ids_of ((login, some r) ∷ rest) = r.id ∷ ids_of rest

-- The first pass of `_match`: by account.
unfoldable pub matched_by_account : People → List Assignment → Matches
unfolding by_account
matched_by_account [] rows = []
matched_by_account (p ∷ wanted) rows =
    let rest = matched_by_account wanted rows in
    elim (by_account p.1 rows) [ some r ↦ (p.0, some r) ∷ rest | none ↦ rest ]

-- Whether a row is another account's, which left the login.
unfoldable pub is_disputed : Option ℕ → Option ℕ → Bool
is_disputed none held = false
is_disputed (some account) none = false
is_disputed (some account) (some other) = not (other == account)

-- The row that the second pass takes for a login.
unfoldable pub unclaimed_row : Option ℕ → List ℕ → Option Assignment → Option Assignment
unfolding is_disputed
unclaimed_row account claimed none = none
unclaimed_row account claimed (some r) =
    if is_disputed account r.github_user_id || contains r.id claimed then none else some r

-- The second pass of `_match`: by name, for whoever the first has not matched.
unfoldable pub matched_by_name : People → List Assignment → Matches → Matches
unfolding unclaimed_row by_name ids_of
matched_by_name [] rows mine = mine
matched_by_name (p ∷ wanted) rows mine = matched_by_name wanted rows (
    if any (λ m. text_eq p.0 m.0) mine
    then mine
    else mine ++ (p.0, unclaimed_row p.1 (ids_of mine) (by_name p.0 rows)) ∷ [])

unfoldable pub match_rows : People → List Assignment → Matches
unfolding matched_by_name matched_by_account
match_rows wanted rows = matched_by_name wanted rows (matched_by_account wanted rows)

-- The rows that are kept, as the payload names them.
unfoldable pub matched_rows : Matches → List (Text × Assignment)
matched_rows [] = []
matched_rows ((login, none) ∷ rest) = matched_rows rest
matched_rows ((login, some r) ∷ rest) = (login, r) ∷ matched_rows rest
