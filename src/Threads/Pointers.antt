-- ===== src/Threads/Pointers.antt =====
-- shannon/db/stores/thread_pointers.py: the item's thread and message ids, written only against what
-- they currently are. A statement is a function of the table `tracked_items`.
use shannon_bot.Base.{
  Bool, List, Option, [], any, false, if◌then◌else◌, keep, map, none, not, some, true, ℕ, ◌&&◌,
  ◌++◌, ◌==◌, ◌∷◌,
}
use shannon_bot.Domain.Enums.{Status}
use shannon_bot.Domain.Text.{Text, text_eq}

-- The columns that the pointers and the sync of an item read and write.
pub record TrackedItem : Type 0 where
  pub id : ℕ
  pub title : Text
  pub github_state : Text
  pub status : Status
  pub github_updated_at : Option ℕ
  pub last_delivery_id : Option ℕ
  pub discord_thread_id : Option ℕ
  pub discord_message_id : Option ℕ
  pub discord_thread_locked : Option Bool
  pub discord_channel_id : Option ℕ
  pub shown_labels : Option (List Text)

abbrev pub update_items :
    (TrackedItem → Bool) → (TrackedItem → TrackedItem) → List TrackedItem → List TrackedItem
update_items found change t = map (λ r. if found r then change r else r) t

-- `column == value`, and `column IS NOT DISTINCT FROM value`.
unfoldable pub is_value : Option ℕ → ℕ → Bool
is_value none n = false
is_value (some m) n = m == n

unfoldable pub is_not_distinct : Option ℕ → Option ℕ → Bool
unfolding is_value
is_not_distinct none none = true
is_not_distinct (some m) none = false
is_not_distinct o (some n) = is_value o n

-- `_guarded`
unfoldable pub guarded : ℕ → ℕ → TrackedItem → Bool
unfolding is_value
guarded tracked_item_id thread_id r =
    r.id == tracked_item_id && is_value r.discord_thread_id thread_id

-- The lock and the shown set go with the pointer.
unfoldable pub let_go : TrackedItem → TrackedItem
let_go r = record r {
  discord_thread_id = none;
  discord_message_id = none;
  discord_thread_locked = none;
  discord_channel_id = none;
  shown_labels = none;
}

unfoldable pub forget_thread : ℕ → ℕ → List TrackedItem → List TrackedItem × Bool
unfolding guarded let_go
forget_thread tracked_item_id dead_thread_id t = (
  update_items (guarded tracked_item_id dead_thread_id) let_go t,
  any (guarded tracked_item_id dead_thread_id) t,
)

unfoldable pub is_in_channel : ℕ → TrackedItem → Bool
unfolding is_value
is_in_channel channel_id r = is_value r.discord_channel_id channel_id

-- `forget_channel`: the table, and the ids of the rows that let go.
unfoldable pub forget_channel : ℕ → List TrackedItem → List TrackedItem × List ℕ
unfolding is_in_channel let_go
forget_channel channel_id t = (
  update_items (is_in_channel channel_id) let_go t,
  map (λ r. r.id) (keep (is_in_channel channel_id) t),
)

unfoldable pub note_the_lock : ℕ → ℕ → Bool → List TrackedItem → List TrackedItem
unfolding guarded
note_the_lock tracked_item_id thread_id locked t =
    update_items (guarded tracked_item_id thread_id)
      (λ r. record r { discord_thread_locked = some locked }) t

unfoldable pub remember_channel : ℕ → ℕ → ℕ → List TrackedItem → List TrackedItem
unfolding guarded
remember_channel tracked_item_id thread_id channel_id t =
    update_items (guarded tracked_item_id thread_id)
      (λ r. record r { discord_channel_id = some channel_id }) t

unfoldable pub note_shown_labels : ℕ → ℕ → List Text → List TrackedItem → List TrackedItem
unfolding guarded
note_shown_labels tracked_item_id thread_id shown t =
    update_items (guarded tracked_item_id thread_id) (λ r. record r { shown_labels = some shown }) t

-- `array_remove(coalesce(shown_labels, '{}'), name)`
unfoldable pub without_label : Text → Option (List Text) → List Text
without_label name none = []
without_label name (some shown) = keep (λ n. not (text_eq n name)) shown

unfoldable pub label_announced : Text → Bool → Option (List Text) → List Text
unfolding without_label
label_announced name true shown = without_label name shown ++ name ∷ []
label_announced name false shown = without_label name shown

unfoldable pub note_label_announced : ℕ → ℕ → Text → Bool → List TrackedItem → List TrackedItem
unfolding guarded label_announced
note_label_announced tracked_item_id thread_id name on_it t =
    update_items (guarded tracked_item_id thread_id)
      (λ r. record r { shown_labels = some (label_announced name on_it r.shown_labels) }) t

-- What `claim_thread` writes to a row that still points where the caller thinks.
unfoldable pub moved_channel : Option ℕ → TrackedItem → TrackedItem
moved_channel none r = r
moved_channel (some channel_id) r = record r { discord_channel_id = some channel_id }

unfoldable pub repointed : ℕ → Option ℕ → Option ℕ → Option ℕ → TrackedItem → TrackedItem
unfolding moved_channel is_value
repointed thread_id message_id replacing channel_id r =
    let placed = moved_channel channel_id r in
    if is_value replacing thread_id
    then record placed { discord_thread_id = some thread_id; discord_message_id = message_id }
    else record placed {
      discord_thread_id = some thread_id;
      discord_message_id = message_id;
      discord_thread_locked = none;
      shown_labels = none;
    }

-- The ids of the row, or none where it is not there.
unfoldable pub ids_now : ℕ → List TrackedItem → Option ℕ × Option ℕ
ids_now tracked_item_id [] = (none, none)
ids_now tracked_item_id (r ∷ t) =
    let later = ids_now tracked_item_id t in
    if r.id == tracked_item_id then (r.discord_thread_id, r.discord_message_id) else later

unfoldable pub is_claimable : ℕ → Option ℕ → TrackedItem → Bool
unfolding is_not_distinct
is_claimable tracked_item_id replacing r =
    r.id == tracked_item_id && is_not_distinct r.discord_thread_id replacing

-- `claim_thread`: the table, and the ids that the item ended up with.
unfoldable pub claim_thread :
    ℕ
    → ℕ
    → Option ℕ
    → Option ℕ
    → Option ℕ
    → List TrackedItem
    → List TrackedItem × (Option ℕ × Option ℕ)
unfolding is_claimable repointed ids_now
claim_thread tracked_item_id thread_id message_id replacing channel_id t =
    let after =
      update_items (is_claimable tracked_item_id replacing)
        (repointed thread_id message_id replacing channel_id) t in
    (after, ids_now tracked_item_id after)
