-- ===== src/Items/Saying.antt =====
-- The Discord half of ItemSyncService in shannon/services/sync/items.py: `_say_it`, `_shut`,
-- `_still_current` and `_settle_a_lock_still_owed`. The notifier's answer, the archive of a quiet thread
-- and what is rendered are left out; a call that is refused or fails is an answer of the world.
use shannon_bot.Base.{
  Bool, List, Option, false, if◌then◌else◌, none, not, some, true, ℕ, ◌&&◌, ◌||◌,
}
use shannon_bot.Domain.Enums.{ObjectType}
use shannon_bot.Domain.Text.{Text}
use shannon_bot.Sync.Policies.{is_done, lock_lives_in_the_row, shut_for_state}
use shannon_bot.Sync.Staleness.{is_superseded}
use shannon_bot.Threads.Binding.{ThreadTarget, ThreadWorld, ThreadWrite, write}
use shannon_bot.Threads.Pointers.{TrackedItem, note_shown_labels, note_the_lock}

-- What `set_shut` of the Discord gateway comes to.
pub data Reply : Type 0 where
  went_through thread_gone no_permission bad_moment : Reply

-- What a sync is told by Discord and by the other transactions.
pub record Day : Type 0 where
  pub unlock : Reply
  pub binding : ThreadWorld
  pub notifier_fails : Bool
  pub row_since : Option TrackedItem
  pub lock : Reply
  pub is_in_server : Bool

-- The result of a sync: none where it raised, or whether a permission refused the lock.
pub record Said : Type 0 where
  pub table : List TrackedItem
  pub thread_id : Option ℕ
  pub shut_refused : Option Bool

-- The work that `_record` hands over, with the way this caller settles the lock.
pub record Job : Type 0 where
  pub kind : ObjectType
  pub updated_at : Option ℕ
  pub row : TrackedItem
  pub channel_id : ℕ
  pub wants_shut : Option Bool
  pub shut_from_the_row : Bool
  pub settles_the_lock : Bool
  pub relocates : Bool
  pub labels : List Text

unfoldable pub target_of : Job → ThreadTarget
target_of j = record {
  tracked_item_id = j.row.id;
  channel_id = j.channel_id;
  thread_id = j.row.discord_thread_id;
  message_id = j.row.discord_message_id;
  thread_channel_id = j.row.discord_channel_id;
}

unfoldable pub is_choice : Option Bool → Bool → Bool
is_choice none b = false
is_choice (some true) b = b
is_choice (some false) b = not b

-- The step that gives a thread back, or none where it raises.
unfoldable pub given_back : Job → Reply → List TrackedItem → ℕ → Option (List TrackedItem)
unfolding note_the_lock
given_back j went_through t thread_id = some (note_the_lock j.row.id thread_id false t)
given_back j thread_gone t thread_id = some t
given_back j no_permission t thread_id = some t
given_back j bad_moment t thread_id = none

unfoldable pub unlock_first : Job → Reply → List TrackedItem → Option (List TrackedItem)
unfolding given_back is_choice
unlock_first j reply t = elim j.row.discord_thread_id [
  | none ↦ some t
  | some thread_id ↦
      if j.settles_the_lock && is_choice j.wants_shut false
      then given_back j reply t thread_id
      else some t
]

-- `_still_current`: the mark of the row as another sync may have left it.
unfoldable pub still_current : Option ℕ → Option TrackedItem → Bool
unfolding is_superseded
still_current updated_at none = not (is_superseded updated_at none none none)
still_current updated_at (some r) = not (is_superseded updated_at r.github_updated_at none none)

unfoldable pub asked_for : Job → Day → Bool
unfolding is_choice still_current
asked_for j w =
    is_choice j.wants_shut true && (j.shut_from_the_row || still_current j.updated_at w.row_since)

unfoldable pub shut_by_the_row : Job → Bool → Bool
unfolding lock_lives_in_the_row is_done is_choice
shut_by_the_row j is_created =
    j.settles_the_lock
    && (lock_lives_in_the_row j.kind
        && (is_done j.row.status
            && (is_created || not (is_choice j.row.discord_thread_locked true))))

-- `_shut`: the table, and whether a permission refused, or none where it raises.
unfoldable pub shut_thread :
    ℕ → ℕ → Reply → Bool → List TrackedItem → List TrackedItem × Option Bool
unfolding note_the_lock
shut_thread item thread_id went_through is_in t = (note_the_lock item thread_id true t, some false)
shut_thread item thread_id no_permission is_in t = (t, if is_in then some true else none)
shut_thread item thread_id thread_gone is_in t = (t, none)
shut_thread item thread_id bad_moment is_in t = (t, none)

-- The last step, with the lock.
unfoldable pub lock_last : Job → Day → ThreadWrite → List TrackedItem → Said
unfolding asked_for shut_by_the_row shut_thread
lock_last j w wrote t =
    let thread_id = wrote.handle.thread_id in
    if asked_for j w || shut_by_the_row j wrote.is_created
    then record {
      table = (shut_thread j.row.id thread_id w.lock w.is_in_server t).0;
      thread_id = some thread_id;
      shut_refused = (shut_thread j.row.id thread_id w.lock w.is_in_server t).1;
    }
    else record { table = t; thread_id = some thread_id; shut_refused = some false }

-- The block that was posted is noted, and the people are told.
unfoldable pub after_write : Job → Day → ThreadWrite → List TrackedItem → Said
unfolding lock_last note_shown_labels
after_write j w wrote t =
    let noted =
      if wrote.is_created
      then note_shown_labels j.row.id wrote.handle.thread_id j.labels t
      else t in
    let ending = lock_last j w wrote noted in
    if w.notifier_fails
    then record { table = noted; thread_id = none; shut_refused = none }
    else ending

-- `_say_it`
unfoldable pub say_it : Job → Day → List TrackedItem → Said
unfolding unlock_first write after_write target_of
say_it j w t = elim (unlock_first j w.unlock t) [
  | none ↦ record { table = t; thread_id = none; shut_refused = none }
  | some freed ↦
      let done_writing = write j.relocates (target_of j) w.binding freed in
      elim done_writing.answer [
        | none ↦ record { table = done_writing.table; thread_id = none; shut_refused = none }
        | some wrote ↦ after_write j w wrote done_writing.table
      ]
]

-- `_settle_a_lock_still_owed`, on the row as it is read again.
unfoldable pub lock_is_owed : ObjectType → TrackedItem → Bool
unfolding shut_for_state is_choice
lock_is_owed kind r =
    not (is_choice r.discord_thread_locked true) && shut_for_state kind r.status r.github_state

unfoldable pub settle_a_lock_still_owed :
    ObjectType
    → Option ℕ
    → Option TrackedItem
    → Reply
    → Bool
    → List TrackedItem
    → List TrackedItem × Option Bool
unfolding lock_is_owed shut_thread
settle_a_lock_still_owed kind none found reply is_in t = (t, some false)
settle_a_lock_still_owed kind (some thread_id) none reply is_in t = (t, some false)
settle_a_lock_still_owed kind (some thread_id) (some r) reply is_in t =
    if lock_is_owed kind r then shut_thread r.id thread_id reply is_in t else (t, some false)
