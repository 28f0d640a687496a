-- ===== src/Items/Examples.antt =====
-- The sync of an item at concrete inputs.
use shannon_bot.Base.{List, String, [], any, arith, false, none, refl, some, true, ℕ, ◌∷◌, ◌≡◌}
use shannon_bot.Domain.Enums.{done, not_reviewed, pr}
use shannon_bot.Domain.Text.{codes}
use shannon_bot.Items.Arriving.{IsStamped, decide_comm, facts_of}
use shannon_bot.Items.Exclusive.{LockReach-exclusive}
use shannon_bot.Items.Holding.{
  LockReach, Locks, and_step, at_rest, enter, enter_again, enters, folded_id, held, is_of, lock_key,
  negsuc, nobody_waits, shifted,
}
use shannon_bot.Items.Locked.{SaysShut, settle_a_lock_still_owed-SaysShut}
use shannon_bot.Items.Recording.{
  Delivered, Mirror, actors_of, adopt, applied_to, decide, greatest, is_late, keep_stored, or_kept,
  raised_mark, reopened_role, store_people, work_of,
}
use shannon_bot.Items.Saying.{
  Day, Job, after_write, asked_for, is_choice, lock_last, say_it, settle_a_lock_still_owed,
  shut_by_the_row, shut_thread, target_of, unlock_first, went_through,
}
use shannon_bot.People.Ledger.{Assignments}
use shannon_bot.People.Matching.{
  match_rows, matched_by_account, matched_by_name, matched_rows, wanted_from,
}
use shannon_bot.People.Rename.{rename_rounds, renamed, write_names}
use shannon_bot.People.Replace.{
  after_rename, before_rename, held_names, insert_all, replace, to_rename, unmatched,
}
use shannon_bot.Sync.Policies.{
  an_issue, asked_again, assignments, is_done, lock_lives_in_the_row, shut_for_state,
}
use shannon_bot.Sync.Staleness.{arrived_earlier, is_superseded}
use shannon_bot.Threads.Binding.{
  as_write, attach_or_take_back, claim, claim_unowned, create_and_claim, opened, rewrite, settled,
  thread_not_found, write,
}
use shannon_bot.Threads.Pointers.{
  TrackedItem, claim_thread, ids_now, is_claimable, is_not_distinct, is_value, repointed,
}

abbrev row : TrackedItem
row = record {
  id = 4;
  title = codes "Fix it";
  github_state = codes "open";
  status = not_reviewed;
  github_updated_at = some 10;
  last_delivery_id = some 1;
  discord_thread_id = some 71;
  discord_message_id = none;
  discord_thread_locked = none;
  discord_channel_id = some 30;
  shown_labels = none;
}

-- An issue that was edited and closed in one second, as the deliveries tell it.
abbrev told : String → String → ℕ → Delivered
told title shown arrival = record {
  snapshot =
      an_issue (record { title = codes title; state = codes shown; author = none; assignees = [] });
  updated_at = some 20;
  arrival = some arrival;
}

abbrev nobody : Assignments
nobody = record { rows = []; next_id = 1 }

abbrev edited : Delivered
edited = told "Fix them" "open" 2

abbrev shut_too : Delivered
shut_too = told "Fix them" "closed" 3

abbrev with_row : TrackedItem → Mirror
with_row r = record { item = some r; ledger = nobody }

edited-IsStamped : IsStamped edited 20 2
edited-IsStamped = record { is_stamped = refl; is_numbered = refl }

shut_too-IsStamped : IsStamped shut_too 20 3
shut_too-IsStamped = record { is_stamped = refl; is_numbered = refl }

-- The later of the two is handled first, and the earlier is turned away.
decide_comm_example :
    facts_of (applied_to shut_too (applied_to edited row)) ≡ facts_of (applied_to shut_too row)
unfolding decide is_late is_superseded arrived_earlier adopt keep_stored store_people assignments
    asked_again reopened_role actors_of replace wanted_from match_rows matched_by_account
    matched_by_name matched_rows to_rename held_names before_rename renamed rename_rounds
    write_names after_rename insert_all unmatched applied_to raised_mark or_kept greatest work_of
decide_comm_example =
    decide_comm 8 30 edited shut_too 20 20 2 3 row nobody (with_row (applied_to edited row))
      (with_row (applied_to shut_too (applied_to edited row))) (with_row (applied_to shut_too row))
      (with_row (applied_to shut_too row)) _ _ _ _ edited-IsStamped shut_too-IsStamped
      (λ e. ground arith) refl refl refl refl

-- A pull request that is done, whose thread is gone and is opened again.
abbrev done_row : TrackedItem
done_row = record row { status = done; discord_thread_locked = some true }

abbrev job : Job
job = record {
  kind = pr;
  updated_at = some 20;
  row = record done_row { discord_thread_locked = none };
  channel_id = 30;
  wants_shut = none;
  shut_from_the_row = false;
  settles_the_lock = true;
  relocates = false;
  labels = [];
}

abbrev day : Day
day = record {
  unlock = went_through;
  binding = record {
    creation = opened (record { thread_id = 72; message_id = some 9 });
    update = thread_not_found;
    swap_fails = false;
    delete_fails = false;
    meddling_before = λ t. t;
    meddling_between = λ t. t;
  };
  notifier_fails = false;
  row_since = none;
  lock = went_through;
  is_in_server = true;
}

abbrev mirrored : List TrackedItem
mirrored = record done_row { discord_thread_locked = none } ∷ []

replacement_is_shut : (say_it job day mirrored).shut_refused ≡ some false
unfolding say_it unlock_first write rewrite create_and_claim attach_or_take_back claim claim_unowned
    claim_thread settled as_write after_write lock_last shut_thread target_of is_choice asked_for
    shut_by_the_row lock_lives_in_the_row is_done is_claimable is_not_distinct is_value repointed
    ids_now
replacement_is_shut = refl

done_row-is_owed : shut_for_state pr done_row.status done_row.github_state ≡ true
unfolding shut_for_state is_done
done_row-is_owed = refl

settle_a_lock_still_owed-SaysShut_example :
    SaysShut 4 71
      (settle_a_lock_still_owed pr
        (some 71)
        (some (record done_row { discord_thread_locked = none }))
        went_through
        true
        mirrored).0
settle_a_lock_still_owed-SaysShut_example =
    settle_a_lock_still_owed-SaysShut pr 71 (record done_row { discord_thread_locked = none }) true
      mirrored ((λ e. refl), tt) done_row-is_owed

key_of_big : lock_key 4294967297 ≡ negsuc 2147483646
unfolding lock_key shifted folded_id
key_of_big = refl

-- Task 1 is in the blocks of items 7 and 8, and in that of 7 again; task 2 in that of item 9.
abbrev two_tasks : Locks
two_tasks = enter 2 9 (enter_again 1 7 (enter 1 8 (enter 1 7 nobody_waits)))

two_tasks-reached : LockReach two_tasks
unfolding held enter enter_again folded_id
two_tasks-reached =
    and_step
      (and_step (and_step (and_step at_rest (enters 1 7 refl)) (enters 1 8 refl)) (enters 1 7 refl))
      (enters 2 9 refl)

there : any (is_of 7) (two_tasks.blocks 1) ≡ true
unfolding enter enter_again is_of
there = refl

-- Another task has to wait.
waits : held 2 7 two_tasks ≡ none
unfolding held enter enter_again folded_id
waits = refl

LockReach-exclusive_example : ◌≡◌ {A = ℕ} 1 1
LockReach-exclusive_example = LockReach-exclusive two_tasks-reached 1 1 7 7 refl there there
