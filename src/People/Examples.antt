-- ===== src/People/Examples.antt =====
-- The assignment ledger and its notifier at concrete inputs.
use shannon_bot.Base.{
  All, In, List, Option, String, [], arith, at_head, false, keep, none, refl, some, true, ℕ, ◌∷◌,
  ◌≡◌, ◌≢◌,
}
use shannon_bot.Domain.Text.{codes, lower, text_eq}
use shannon_bot.People.Ledger.{
  Assignment, Assignments, answered, asked_before, asked_by, claim_notifications, folded,
  is_answered_by, is_asked_again, is_for, is_named, is_owed, mark_fulfilled, or_now, owed_rows,
  person_of, reopen_request, reopened_where, role_eq, same_id, same_person,
}
use shannon_bot.People.Matching.{
  by_account, by_name, entry_put, ids_of, is_disputed, last_where, match_rows, matched_by_account,
  matched_by_name, matched_rows, unclaimed_row, wanted_from,
}
use shannon_bot.People.Notifier.{Reception, Telling, logins_in, notify, post_line, tell}
use shannon_bot.People.Once.{claim-once, mark_fulfilled-quiet, reopen_request-replayed}
use shannon_bot.People.Pings.{IsFolded}
use shannon_bot.People.Rename.{
  digits_before, discard, hand_on, insert_by, is_taken, named_round, number, parked_entry,
  parked_name, parked_round, rename_rounds, renamed, round, sort_by, text_leb, write_names, written,
}
use shannon_bot.People.Renaming.{IsLogin}
use shannon_bot.People.Replace.{
  Replaced, account_of, after_rename, already_told_and_newer, before_rename, held_names, insert_all,
  learnt, never_ends, refused, removed_names, replace, replaced, to_rename, unmatched,
  without_names,
}
use shannon_bot.People.Replacing.{replace-ends}
use shannon_bot.People.Steps.{IsKeyed, answers, at_start, claims, then_step}
use shannon_bot.People.Telling.{notify-owed}
use shannon_bot.Sync.Policies.{Actor, reviewer_role}

abbrev person : String → ℕ → Actor
person login account = record { login = codes login; github_user_id = some account }

abbrev row : ℕ → String → ℕ → Option ℕ → Assignment
row i login account notified = record {
  id = i;
  tracked_item_id = 4;
  github_username = codes login;
  github_user_id = some account;
  role_type = reviewer_role;
  notified_at = notified;
  requested_at = some 20;
  fulfilled_at = none;
}

abbrev ledger_of : List Assignment → Assignments
ledger_of rows = record { rows = rows; next_id = 9 }

-- Two people who have traded names keep their rows and their stamps.
abbrev traded : Replaced
traded =
    replace 4 reviewer_role (person "ann" 2 ∷ person "bob" 1 ∷ []) (some 30)
      (ledger_of (row 1 "ann" 1 (some 25) ∷ row 2 "bob" 2 none ∷ []))

trade : traded ≡ replaced (ledger_of (row 1 "bob" 1 (some 25) ∷ row 2 "ann" 2 none ∷ []))
unfolding replace wanted_from entry_put match_rows matched_by_account matched_by_name by_account
    by_name last_where unclaimed_row is_disputed ids_of matched_rows before_rename removed_names
    without_names already_told_and_newer learnt account_of to_rename held_names renamed
    rename_rounds round named_round parked_round parked_entry parked_name number digits_before
    hand_on discard write_names is_taken written after_rename insert_all unmatched sort_by insert_by
    text_leb is_for is_named role_eq same_id text_eq lower
trade = refl

-- A row that outlives a payload no newer than its request may hold a name that a kept row is to take: the
-- loop takes the name for free, and the constraint refuses it.
overtaken :
    replace 4 reviewer_role
      (person "ann" 2 ∷ [])
      (some 20)
      (ledger_of (row 1 "ann" 1 (some 25) ∷ row 2 "bob" 2 (some 25) ∷ []))
    ≡ refused
unfolding replace wanted_from entry_put match_rows matched_by_account matched_by_name by_account
    by_name last_where unclaimed_row is_disputed ids_of matched_rows before_rename removed_names
    without_names already_told_and_newer learnt account_of to_rename held_names renamed
    rename_rounds round named_round parked_round parked_entry parked_name number digits_before
    hand_on discard write_names is_taken written after_rename insert_all unmatched sort_by insert_by
    text_leb is_for is_named role_eq same_id text_eq lower
overtaken = refl

ann_and_bob : All (λ (a : Actor). IsLogin (lower a.login)) (person "ann" 2 ∷ person "bob" 1 ∷ [])
unfolding lower
ann_and_bob = ((λ e. ground arith), ((λ e. ground arith), tt))

replace-ends_example :
    replace 4 reviewer_role
      (person "ann" 2 ∷ person "bob" 1 ∷ [])
      (some 30)
      (ledger_of (row 1 "ann" 1 (some 25) ∷ row 2 "bob" 2 none ∷ []))
    ≢ never_ends
replace-ends_example =
    replace-ends 4 reviewer_role (person "ann" 2 ∷ person "bob" 1 ∷ []) (some 30)
      (ledger_of (row 1 "ann" 1 (some 25) ∷ row 2 "bob" 2 none ∷ [])) ann_and_bob

abbrev asked_row : Assignment
asked_row = row 1 "ann" 1 none

abbrev one_asked : Assignments
one_asked = ledger_of (asked_row ∷ [])

one_asked-IsKeyed : IsKeyed one_asked
one_asked-IsKeyed = record { keyed = (tt, tt); below = (omega arith, tt) }

asked_row-owed : In asked_row (owed_rows 4 reviewer_role one_asked)
unfolding owed_rows is_owed is_for role_eq
asked_row-owed = at_head

-- Another worker claims, and a review is taken down, in between.
claim-once_example :
    All
      (λ s. s.id ≢ 1)
      (owed_rows 4 reviewer_role
        (mark_fulfilled 40 4 reviewer_role
          (codes "ann")
          none
          (some 1)
          (claim_notifications 35 4 reviewer_role
            (claim_notifications 30 4 reviewer_role one_asked).0).0).0)
claim-once_example =
    claim-once 30 4 4 reviewer_role reviewer_role one_asked
      (mark_fulfilled 40 4 reviewer_role (codes "ann") none (some 1)
        (claim_notifications 35 4 reviewer_role
          (claim_notifications 30 4 reviewer_role one_asked).0).0).0
      asked_row one_asked-IsKeyed asked_row-owed
      (then_step (then_step at_start (claims 35 4 reviewer_role))
        (answers 40 4 reviewer_role (codes "ann") none (some 1)))

asked_row-answered : In asked_row (
    keep
      (is_answered_by 4 reviewer_role (codes "ann") (some 1) (or_now (some 40) 50))
      one_asked.rows)
unfolding is_answered_by is_for role_eq same_person same_id asked_by or_now
asked_row-answered = at_head

mark_fulfilled-quiet_example :
    All
      (λ s. s.id ≢ 1)
      (owed_rows 4 reviewer_role
        (mark_fulfilled 50 4 reviewer_role (codes "ann") (some 40) (some 1) one_asked).0)
mark_fulfilled-quiet_example =
    mark_fulfilled-quiet 50 4 4 reviewer_role reviewer_role (codes "ann") (some 40) (some 1)
      one_asked (mark_fulfilled 50 4 reviewer_role (codes "ann") (some 40) (some 1) one_asked).0
      asked_row one_asked-IsKeyed asked_row-answered at_start

abbrev told_row : Assignment
told_row = row 1 "ann" 1 (some 25)

abbrev one_told : Assignments
one_told = ledger_of (told_row ∷ [])

told_row-asked_again :
    In told_row (keep (is_asked_again 4 reviewer_role (codes "ann" ∷ []) 30) one_told.rows)
unfolding is_asked_again is_for role_eq is_named folded lower text_eq asked_before
told_row-asked_again = at_head

-- The payload is replayed after the ping went out again.
reopen_request-replayed_example :
    All
      (λ s. s.id ≢ 1)
      (keep
        (is_asked_again 4 reviewer_role (codes "ann" ∷ []) 30)
        (claim_notifications 35 4 reviewer_role
          (reopen_request 4 reviewer_role (codes "ann" ∷ []) (some 30) one_told).0).0.rows)
reopen_request-replayed_example =
    reopen_request-replayed 4 4 reviewer_role reviewer_role (codes "ann" ∷ []) (codes "ann" ∷ []) 30
      30 one_told
      (claim_notifications 35 4 reviewer_role
        (reopen_request 4 reviewer_role (codes "ann" ∷ []) (some 30) one_told).0).0
      told_row (record { keyed = (tt, tt); below = (omega arith, tt) }) told_row-asked_again
      (then_step at_start (claims 35 4 reviewer_role)) (omega arith)

-- A payload from before the review reopens the request that the review answered.
resurrected :
    (reopen_request 4 reviewer_role
      (codes "ann" ∷ [])
      (some 30)
      (mark_fulfilled 50 4 reviewer_role (codes "ann") (some 40) (some 1) one_told).0).1
    ≡ codes "ann" ∷ []
unfolding reopen_request reopened_where is_asked_again is_for role_eq is_named folded lower text_eq
    asked_before mark_fulfilled is_answered_by same_person same_id asked_by or_now answered
resurrected = refl

abbrev in_thread : Telling
in_thread = record {
  the_block_pinged = false;
  the_thread_wants_them = true;
  the_block_pings_them = true;
}

abbrev refused_post : Reception
refused_post = record { post_fails = true; release_fails = false }

abbrev fine : Reception
fine = record { post_fails = false; release_fails = false }

asked_row-IsFolded : IsFolded asked_row
unfolding lower
asked_row-IsFolded = refl

notify-owed_example :
    ((notify 30 4 reviewer_role in_thread refused_post one_asked).answer ≡ none)
    × ((notify 30 4 reviewer_role in_thread refused_post one_asked).posted ≡ none)
    × In asked_row (
        owed_rows 4 reviewer_role
          (notify 30 4 reviewer_role in_thread refused_post one_asked).ledger)
notify-owed_example =
    notify-owed 30 4 reviewer_role in_thread refused_post one_asked asked_row refl refl refl refl
      asked_row-owed asked_row-IsFolded

notify_names : (notify 30 4 reviewer_role in_thread fine one_asked).answer ≡ some (codes "ann" ∷ [])
unfolding notify tell post_line logins_in sort_by insert_by claim_notifications owed_rows is_owed
    is_for role_eq person_of
notify_names = refl
