-- ===== src/Items/Recording.antt =====
-- The database half of ItemSyncService in shannon/services/sync/items.py: `_resolve`, `_write`, `_apply`
-- and `_store_people`, on the row of the item and the rows of the people on it. A row's key is unique,
-- so the table is the row, if there is one. What is rendered is left out.
use shannon_bot.Base.{
  Bool, List, Option, [], false, if◌then◌else◌, is_none, ltb, map, none, some, true, ℕ, ◌∷◌,
}
use shannon_bot.Domain.Enums.{ObjectType, not_reviewed}
use shannon_bot.Domain.Text.{Text}
use shannon_bot.People.Ledger.{Assignments, reopen_if_newer, reopen_request, role_eq}
use shannon_bot.People.Replace.{never_ends, refused, replace, replaced}
use shannon_bot.Sync.Policies.{
  Actor, ActorRole, Item, Roles, Snapshot, a_ticket, an_issue, asked_again, assignments,
  channel_fallback, display_state, item_of, kind_of, pull_request, shut, status_for,
}
use shannon_bot.Sync.Staleness.{is_superseded}
use shannon_bot.Threads.Pointers.{TrackedItem}

-- A snapshot with the two stamps that place it: GitHub's, and the queue's.
pub record Delivered : Type 0 where
  pub snapshot : Snapshot
  pub updated_at : Option ℕ
  pub arrival : Option ℕ

-- What the other stores answer: the server of the repository, if it is registered, and the channels
-- that are mapped.
pub record Lookups : Type 0 where
  pub guild_id : Option ℕ
  pub channel_of : ObjectType → Option ℕ

pub record Mirror : Type 0 where
  pub item : Option TrackedItem
  pub ledger : Assignments

unfoldable pub or_else : Option ℕ → Option ℕ → Option ℕ
or_else none fallback = fallback
or_else (some channel_id) fallback = some channel_id

unfoldable pub fallback_channel : Lookups → ObjectType → Option ℕ
unfolding channel_fallback
fallback_channel found kind = elim (channel_fallback kind) [
  | none ↦ none
  | some other ↦ found.channel_of other
]

-- The channel of `_resolve`.
unfoldable pub channel_for : Lookups → ObjectType → Option ℕ
unfolding or_else fallback_channel
channel_for found kind = or_else (found.channel_of kind) (fallback_channel found kind)

-- `is_superseded` asked of a row.
unfoldable pub is_late : Delivered → TrackedItem → Bool
unfolding is_superseded
is_late d r = is_superseded d.updated_at r.github_updated_at d.arrival r.last_delivery_id

-- GREATEST, which ignores nulls.
unfoldable pub greatest : Option ℕ → ℕ → ℕ
greatest none incoming = incoming
greatest (some stored) incoming = if ltb stored incoming then incoming else stored

-- `raise_updated_at`, where the snapshot has a stamp.
unfoldable pub raised_mark : Option ℕ → Option ℕ → Option ℕ
unfolding greatest
raised_mark stored none = stored
raised_mark stored (some incoming) = some (greatest stored incoming)

unfoldable pub or_kept : Option ℕ → Option ℕ → Option ℕ
or_kept none kept = kept
or_kept (some arrival) kept = some arrival

-- `_apply`, and the number of the delivery behind it.
unfoldable pub applied_to : Delivered → TrackedItem → TrackedItem
unfolding display_state status_for raised_mark or_kept item_of
applied_to d r = record r {
  title = (item_of d.snapshot).title;
  github_state = display_state d.snapshot;
  status = status_for d.snapshot r.status;
  github_updated_at = raised_mark r.github_updated_at d.updated_at;
  last_delivery_id = or_kept d.arrival r.last_delivery_id;
}

-- The row that the insert of `get_or_create` makes.
unfoldable pub new_item : ℕ → Delivered → TrackedItem
unfolding display_state item_of
new_item tracked_item_id d = record {
  id = tracked_item_id;
  title = (item_of d.snapshot).title;
  github_state = display_state d.snapshot;
  status = not_reviewed;
  github_updated_at = d.updated_at;
  last_delivery_id = none;
  discord_thread_id = none;
  discord_message_id = none;
  discord_thread_locked = none;
  discord_channel_id = none;
  shown_labels = none;
}

-- `asked.get(role, ())`
unfoldable pub actors_of : ActorRole → Roles → List Actor
unfolding role_eq
actors_of role [] = []
actors_of role (e ∷ roles) =
    let later = actors_of role roles in if role_eq e.0 role then e.1 else later

abbrev logins_of_actors : List Actor → List Text
logins_of_actors actors = map (λ a. a.login) actors

-- One role of `_store_people`, behind its `replace`.
unfoldable pub reopened_role :
    ℕ → ActorRole → List Actor → Roles → Option ℕ → Assignments → Assignments
unfolding reopen_if_newer reopen_request actors_of
reopened_role item role actors asked as_of t =
    (reopen_request item role (logins_of_actors (actors_of role asked)) as_of
      (reopen_if_newer item role (logins_of_actors actors) as_of t).0).0

-- `_store_people`: none where the database refuses, which rolls the whole transaction back.
unfoldable pub store_people : ℕ → Roles → Roles → Option ℕ → Assignments → Option Assignments
unfolding replace reopened_role
store_people item [] asked as_of t = some t
store_people item (e ∷ roles) asked as_of t = elim (replace item e.0 e.1 as_of t) [
  | replaced after ↦
      store_people item roles asked as_of (reopened_role item e.0 e.1 asked as_of after)
  | refused ↦ none
  | never_ends ↦ none
]

-- What `_write` hands to the Discord half: the row, and whether its lock is read from the row.
pub record Work : Type 0 where
  pub guild_id : ℕ
  pub channel_id : ℕ
  pub item : TrackedItem
  pub wants_shut : Option Bool
  pub shut_from_the_row : Bool

pub data Decision : Type 0 where
  not_tracked : Decision
  stale : TrackedItem → Decision
  work : Work → Decision

-- The snapshot that is shown: a superseded one takes from the row what the row holds.
unfoldable pub corrected_item : TrackedItem → Item → Item
corrected_item r i = record i { title = r.title; state = r.github_state }

unfoldable pub corrected : TrackedItem → Snapshot → Snapshot
unfolding corrected_item
corrected r (pull_request i a) = pull_request (corrected_item r i) a
corrected r (an_issue i) = an_issue (corrected_item r i)
corrected r (a_ticket i column) = a_ticket (corrected_item r i) column

unfoldable pub work_of : ℕ → ℕ → Bool → Snapshot → TrackedItem → Work
unfolding corrected shut
work_of guild_id channel_id late s r = record {
  guild_id = guild_id;
  channel_id = channel_id;
  item = r;
  wants_shut = shut (if late then corrected r s else s) r.status;
  shut_from_the_row = late;
}

-- `_write` for a snapshot that is current: the row, and the people; none where the database refuses.
unfoldable pub adopt : ℕ → ℕ → Delivered → TrackedItem → Assignments → Option (Mirror × Decision)
unfolding applied_to store_people assignments asked_again work_of
adopt guild_id channel_id d r t =
    elim (store_people r.id (assignments d.snapshot) (asked_again d.snapshot) d.updated_at t) [
      | none ↦ none
      | some people_now ↦ some (
        record { item = some (applied_to d r); ledger = people_now },
        work (work_of guild_id channel_id false d.snapshot (applied_to d r)),
      )
    ]

-- `_write` for a snapshot that is superseded: what is stored is kept.
unfoldable pub keep_stored : ℕ → ℕ → Delivered → TrackedItem → Assignments → Mirror × Decision
unfolding work_of
keep_stored guild_id channel_id d r t = (
  record { item = some r; ledger = t },
  if is_none r.discord_thread_id
      then work (work_of guild_id channel_id true d.snapshot r)
      else stale r,
)

-- `_resolve` and `_write` behind the row that is there, held for the transaction.
unfoldable pub decide : ℕ → ℕ → Delivered → TrackedItem → Assignments → Option (Mirror × Decision)
unfolding adopt keep_stored is_late
decide guild_id channel_id d r t =
    if is_late d r
    then some (keep_stored guild_id channel_id d r t)
    else adopt guild_id channel_id d r t

-- The row that `get_or_create` comes back with: its own, or the one another sync committed first.
unfoldable pub got_or_created : ℕ → Delivered → Option TrackedItem → TrackedItem
unfolding new_item
got_or_created next_id d (some r) = r
got_or_created next_id d none = new_item next_id d

-- The row that the read of `_resolve` finds, or the one of the insert behind it, which another sync
-- may have won in between.
unfoldable pub found_row : ℕ → Option TrackedItem → Delivered → Option TrackedItem → TrackedItem
unfolding got_or_created
found_row next_id rival d (some r) = r
found_row next_id rival d none = got_or_created next_id d rival

-- `_record`: one transaction, or none where the database refuses it.
unfoldable pub record_delivery :
    Lookups → ℕ → Option TrackedItem → Delivered → Mirror → Option (Mirror × Decision)
unfolding channel_for decide found_row kind_of
record_delivery found next_id rival d m = elim found.guild_id [
  | none ↦ some (m, not_tracked)
  | some guild_id ↦ elim (channel_for found (kind_of d.snapshot)) [
    | none ↦ some (m, not_tracked)
    | some channel_id ↦ decide guild_id channel_id d (found_row next_id rival d m.item) m.ledger
  ]
]

-- `_reopen_new_requests`, of a delivery that was turned away.
unfoldable pub reopen_new_requests : ℕ → Roles → Option ℕ → Assignments → Assignments
unfolding reopen_request
reopen_new_requests item [] as_of t = t
reopen_new_requests item (e ∷ asked) as_of t =
    reopen_new_requests item asked as_of (reopen_request item e.0 (logins_of_actors e.1) as_of t).0
