-- ===== src/Threads/Binding.antt =====
-- shannon/services/sync/threads.py: keeping one item pointed at one thread, whatever Discord does in
-- between. What Discord, the database and other workers do is a record; rendering is left out.
use shannon_bot.Base.{
  Bool, List, Option, [], false, if◌then◌else◌, is_none, none, not, some, true, ℕ, ◌&&◌, ◌==◌, ◌∷◌,
}
use shannon_bot.Threads.Pointers.{TrackedItem, claim_thread, is_value}

pub record ThreadTarget : Type 0 where
  pub tracked_item_id : ℕ
  pub channel_id : ℕ
  pub thread_id : Option ℕ
  pub message_id : Option ℕ
  pub thread_channel_id : Option ℕ

unfoldable pub is_stranded : ThreadTarget → Bool
unfolding is_value
is_stranded target =
    not (is_none target.thread_channel_id)
    && not (is_value target.thread_channel_id target.channel_id)

pub record ThreadHandle : Type 0 where
  pub thread_id : ℕ
  pub message_id : Option ℕ

pub record ThreadWrite : Type 0 where
  pub handle : ThreadHandle
  pub is_created : Bool
  pub displaced : Option ℕ

-- What `create` and `update` of the Discord gateway come to.
pub data Creation : Type 0 where
  opened : ThreadHandle → Creation
  started_empty : ℕ → Creation
  not_opened : Creation

pub data Update : Type 0 where
  updated : ThreadHandle → Update
  thread_not_found not_updated : Update

-- `meddling` is what other transactions do to the table before the first swap and between the two.
pub record ThreadWorld : Type 0 where
  pub creation : Creation
  pub update : Update
  pub swap_fails : Bool
  pub delete_fails : Bool
  pub meddling_before : List TrackedItem → List TrackedItem
  pub meddling_between : List TrackedItem → List TrackedItem

-- What a call left: the table, the threads that it asked Discord to delete, and what it returned, or
-- none where it raised.
pub record Done (A : Type 0) : Type 0 where
  pub table : List TrackedItem
  pub deleted : List ℕ
  pub answer : Option A

-- The thread that lost, or that has no item, is deleted; where Discord does not, the claim raises.
unfoldable pub discarded : ℕ → Bool → Option ThreadHandle → List TrackedItem → Done ThreadHandle
discarded thread_id true answer t = record { table = t; deleted = []; answer = none }
discarded thread_id false answer t = record { table = t; deleted = thread_id ∷ []; answer = answer }

unfoldable pub settled : ℕ → Bool → List TrackedItem → Option ℕ × Option ℕ → Done ThreadHandle
unfolding discarded
settled thread_id delete_fails t (none, message) = discarded thread_id delete_fails none t
settled thread_id delete_fails t (some attached, message) =
    if attached == thread_id
    then record {
      table = t;
      deleted = [];
      answer = some (record { thread_id = thread_id; message_id = message });
    }
    else discarded thread_id delete_fails
        (some (record { thread_id = attached; message_id = message })) t

-- The second swap of `_claim`, for an item that nobody owns.
unfoldable pub claim_unowned :
    ThreadTarget
    → ℕ
    → Option ℕ
    → ThreadWorld
    → List TrackedItem × (Option ℕ × Option ℕ)
    → List TrackedItem × (Option ℕ × Option ℕ)
unfolding claim_thread
claim_unowned target thread_id message_id w (t, (some attached, message)) =
    (t, (some attached, message))
claim_unowned target thread_id message_id w (t, (none, message)) =
    claim_thread target.tracked_item_id thread_id message_id none (some target.channel_id)
      (w.meddling_between t)

-- `_claim`
unfoldable pub claim :
    ThreadTarget → ℕ → Option ℕ → ThreadWorld → List TrackedItem → Done ThreadHandle
unfolding claim_unowned claim_thread settled
claim target thread_id message_id w t =
    let first =
      claim_thread target.tracked_item_id thread_id message_id target.thread_id
        (some target.channel_id) (w.meddling_before t) in
    let last = claim_unowned target thread_id message_id w first in
    settled thread_id w.delete_fails last.0 last.1

-- `_attach_or_take_back`: a swap that could not be written takes the thread back, if Discord lets it.
unfoldable pub attach_or_take_back :
    ThreadTarget → ℕ → Option ℕ → ThreadWorld → List TrackedItem → Done ThreadHandle
unfolding claim
attach_or_take_back target thread_id message_id w t =
    if w.swap_fails
    then record {
      table = t;
      deleted = if w.delete_fails then [] else thread_id ∷ [];
      answer = none;
    }
    else claim target thread_id message_id w t

-- `_create_and_claim`
unfoldable pub create_and_claim : ThreadTarget → ThreadWorld → List TrackedItem → Done ThreadHandle
unfolding attach_or_take_back
create_and_claim target w t = elim w.creation [
  | opened handle ↦ attach_or_take_back target handle.thread_id handle.message_id w t
  | started_empty thread_id ↦ record (attach_or_take_back target thread_id none w t) {
    answer = none;
  }
  | not_opened ↦ record { table = t; deleted = []; answer = none }
]

unfoldable pub as_write : Bool → Option ℕ → Done ThreadHandle → Done ThreadWrite
as_write is_created displaced d = record {
  table = d.table;
  deleted = d.deleted;
  answer = elim d.answer [
    | none ↦ none
    | some handle ↦
        some (record { handle = handle; is_created = is_created; displaced = displaced })
  ];
}

-- `_remember`, after an update.
unfoldable pub remember :
    ThreadTarget → ThreadHandle → ThreadWorld → List TrackedItem → List TrackedItem
unfolding claim_thread
remember target handle w t =
    (claim_thread target.tracked_item_id handle.thread_id handle.message_id (some handle.thread_id)
      none (w.meddling_before t)).0

-- `write`
unfoldable pub rewrite : ThreadTarget → ThreadWorld → List TrackedItem → Done ThreadWrite
unfolding create_and_claim as_write remember
rewrite target w t = elim w.update [
  | updated handle ↦ record {
    table = remember target handle w t;
    deleted = [];
    answer = some (record { handle = handle; is_created = false; displaced = none });
  }
  | thread_not_found ↦ as_write true none (create_and_claim target w t)
  | not_updated ↦ record { table = t; deleted = []; answer = none }
]

unfoldable pub write : Bool → ThreadTarget → ThreadWorld → List TrackedItem → Done ThreadWrite
unfolding create_and_claim as_write rewrite is_stranded
write relocates target w t = elim target.thread_id [
  | none ↦ as_write true none (create_and_claim target w t)
  | some thread_id ↦
      if relocates && is_stranded target
      then as_write true (some thread_id) (create_and_claim target w t)
      else rewrite target w t
]
