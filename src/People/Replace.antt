-- ===== src/People/Replace.antt =====
-- `replace` of shannon/db/stores/assignments.py: the rows of one role are made to match what GitHub
-- lists, with `on_conflict_do_nothing` for whoever another transaction has put there.
use shannon_bot.Base.{
  Bool, List, Option, [], any, contains, false, if◌then◌else◌, is_none, keep, leb, map, none, not,
  some, ℕ, ◌&&◌, ◌++◌, ◌+◌, ◌==◌, ◌∷◌,
}
use shannon_bot.Domain.Text.{Text, text_eq}
use shannon_bot.People.Ledger.{Assignment, Assignments, People, is_for, is_named}
use shannon_bot.People.Matching.{Matches, ids_of, match_rows, matched_rows, wanted_from}
use shannon_bot.People.Rename.{
  Renamed, Renames, name_taken, names_written, renamed, sort_by, still_going,
}
use shannon_bot.Sync.Policies.{Actor, ActorRole}

-- `_already_told_and_newer`
unfoldable pub already_told_and_newer : Option ℕ → Assignment → Bool
already_told_and_newer none r = false
already_told_and_newer (some as_of) r =
    not (is_none r.notified_at) && elim r.requested_at [ none ↦ false | some at ↦ leb as_of at ]

-- The names of the rows that are deleted.
unfoldable pub removed_names : Option ℕ → List ℕ → List Assignment → List Text
unfolding already_told_and_newer
removed_names as_of kept rows =
    map (λ r. r.github_username)
      (keep (λ r. not (contains r.id kept) && not (already_told_and_newer as_of r)) rows)

unfoldable pub without_names : ℕ → ActorRole → List Text → List Assignment → List Assignment
unfolding is_for is_named
without_names item role names rows =
    keep (λ r. not (is_for item role r && is_named r.github_username names)) rows

unfoldable pub account_of : Text → People → Option ℕ
account_of login [] = none
account_of login (p ∷ rest) =
    let later = account_of login rest in if text_eq login p.0 then p.1 else later

-- A row with no account learns the one of the login that it was matched with.
unfoldable pub learnt : People → List (Text × Assignment) → Assignment → Assignment
unfolding account_of
learnt wanted [] r = r
learnt wanted (m ∷ mine) r =
    let later = learnt wanted mine r in
    if m.1.id == r.id && is_none r.github_user_id
    then record r { github_user_id = account_of m.0 wanted }
    else later

-- INSERT ... ON CONFLICT DO NOTHING, which spends an id either way.
unfoldable pub insert_one : ℕ → ActorRole → Option ℕ → Text → Option ℕ → Assignments → Assignments
unfolding is_for
insert_one item role as_of login account t = record {
  rows =
      if any (λ r. is_for item role r && text_eq r.github_username login) t.rows
      then t.rows
      else t.rows
        ++ record {
          id = t.next_id;
          tracked_item_id = item;
          github_username = login;
          github_user_id = account;
          role_type = role;
          notified_at = none;
          requested_at = as_of;
          fulfilled_at = none;
        }
          ∷ [];
  next_id = t.next_id + 1;
}

unfoldable pub insert_all :
    ℕ → ActorRole → Option ℕ → People → List Text → Assignments → Assignments
unfolding insert_one account_of
insert_all item role as_of wanted [] t = t
insert_all item role as_of wanted (login ∷ logins) t =
    insert_all item role as_of wanted logins
      (insert_one item role as_of login (account_of login wanted) t)

unfoldable pub unmatched : Matches → List Text
unmatched [] = []
unmatched ((login, none) ∷ rest) = login ∷ unmatched rest
unmatched ((login, some r) ∷ rest) = unmatched rest

-- What is left to rename, and the names that the kept rows hold.
unfoldable pub to_rename : List (Text × Assignment) → Renames
to_rename mine = keep (λ m. not (text_eq m.1.github_username m.0)) mine

unfoldable pub held_names : List (Text × Assignment) → List Text
held_names mine = map (λ m. m.1.github_username) mine

-- What `replace` comes to: where the database refuses a name, the transaction is rolled back.
pub data Replaced : Type 0 where
  replaced : Assignments → Replaced
  refused never_ends : Replaced

-- The insert behind the rename, which comes last.
unfoldable pub after_rename :
    ℕ → ActorRole → Option ℕ → People → Matches → Assignments → Renamed → Replaced
unfolding insert_all unmatched sort_by
after_rename item role as_of wanted mine t (names_written after) = replaced (
    insert_all item role as_of wanted (sort_by (λ n. n) (unmatched mine))
      (record t { rows = after }))
after_rename item role as_of wanted mine t name_taken = refused
after_rename item role as_of wanted mine t still_going = never_ends

-- The table when the deletion is done and the accounts are learnt.
unfoldable pub before_rename :
    ℕ → ActorRole → Option ℕ → People → Matches → List Assignment → List Assignment
unfolding removed_names without_names learnt is_for ids_of matched_rows
before_rename item role as_of wanted mine rows =
    let gone = removed_names as_of (ids_of mine) (keep (is_for item role) rows) in
    map (learnt wanted (matched_rows mine)) (without_names item role gone rows)

unfoldable pub replace : ℕ → ActorRole → List Actor → Option ℕ → Assignments → Replaced
unfolding wanted_from match_rows matched_rows before_rename renamed after_rename is_for to_rename
    held_names
replace item role actors as_of t =
    let wanted = wanted_from [] actors in
    let mine = match_rows wanted (keep (is_for item role) t.rows) in
    let kept = matched_rows mine in
    after_rename item role as_of wanted mine t (
      renamed item role (to_rename kept) (held_names kept)
        (before_rename item role as_of wanted mine t.rows))
