-- ===== src/Threads/Attached.antt =====
-- What the swaps of an item's thread promise, whoever else writes to its row.
use mathlib.Core.Option.{some-injective}
use shannon_bot.Base.{
  ==_iff, All, All-In, All-imp, All-map, Bool, Bool-cases, List, Option, ap, arith, contains, false,
  if◌then◌else◌, inl, inr, map-same, none, refl, some, subst, true, ℕ, ◌==◌, ◌∙◌, ◌≡◌, ◌⊎◌,
}
use shannon_bot.Delivery.Worker.{handle}
use shannon_bot.Threads.Binding.{
  Creation, Done, ThreadTarget, ThreadWorld, attach_or_take_back, claim, claim_unowned,
  create_and_claim, discarded, not_opened, opened, settled, started_empty,
}
use shannon_bot.Threads.Pointers.{
  TrackedItem, claim_thread, ids_now, is_claimable, is_not_distinct, is_value, moved_channel,
  repointed, update_items,
}

-- A row that a claim has been at points elsewhere than where the claim started from.
is_claimable-repointed :
    (item a : ℕ) (message replacing channel : Option ℕ) (r : TrackedItem)
    → is_value replacing a ≡ false
    → is_claimable item replacing
        (if is_claimable item replacing r then repointed a message replacing channel r else r)
      ≡ false
unfolding is_claimable repointed moved_channel is_not_distinct is_value
is_claimable-repointed item a message none none r h = elim (Bool-cases (is_claimable item none r)) [
  | inl e ↦ rw e (ground arith)
  | inr e ↦ rw e e
]
is_claimable-repointed item a message none (some c) r h =
    elim (Bool-cases (is_claimable item none r)) [ inl e ↦ rw e (ground arith) | inr e ↦ rw e e ]
is_claimable-repointed item a message (some b) none r h =
    elim (Bool-cases (is_claimable item (some b) r)) [
      | inl e ↦ rw e (ground arith)
      | inr e ↦ rw e e
    ]
is_claimable-repointed item a message (some b) (some c) r h =
    elim (Bool-cases (is_claimable item (some b) r)) [
      | inl e ↦ rw e (ground arith)
      | inr e ↦ rw e e
    ]

update_items-none :
    (found : TrackedItem → Bool) (change : TrackedItem → TrackedItem) (t : List TrackedItem)
    → All (λ r. found r ≡ false) t
    → update_items found change t ≡ t
update_items-none found change t h =
    map-same (λ r. if found r then change r else r) t
      (All-imp (λ r. found r ≡ false) (λ r. (if found r then change r else r) ≡ r) t
        (λ r e. rw e refl) h)

-- Of the claims that start from one pointer only the first is written, where the thread that it brings
-- is not the one it starts from: the row, and the answer, stay as it left them, whatever thread a later
-- claim brings.
pub claim_thread-exclusive :
    (item a b : ℕ) (message message' replacing channel channel' : Option ℕ) (t : List TrackedItem)
    → is_value replacing a ≡ false
    → claim_thread item b message' replacing channel'
        (claim_thread item a message replacing channel t).0
      ≡ claim_thread item a message replacing channel t
unfolding claim_thread
claim_thread-exclusive item a b message message' replacing channel channel' t h =
    let after =
      update_items (is_claimable item replacing) (repointed a message replacing channel) t in
    let same : update_items (is_claimable item replacing) (repointed b message' replacing channel')
          after
        ≡ after =
      update_items-none (is_claimable item replacing) (repointed b message' replacing channel')
        after
        (All-map (λ r. is_claimable item replacing r ≡ false)
          (λ r.
            if is_claimable item replacing r then repointed a message replacing channel r else r)
          t
          (All-In
            (λ r.
              is_claimable item replacing (
                if is_claimable item replacing r
                then repointed a message replacing channel r
                else r)
              ≡ false)
            t (λ r m. is_claimable-repointed item a message replacing channel r h))) in
    ap (λ l. (l, ids_now item l)) same

-- The thread that was to be attached is, or it was deleted.
abbrev pub IsPlaced : ℕ → ℕ → {A : Type 0} → Done A → Type 0
IsPlaced item thread_id d =
    (contains thread_id d.deleted ≡ true) ⊎ ((ids_now item d.table).0 ≡ some thread_id)

settled-IsPlaced :
    (item thread_id : ℕ) (t : List TrackedItem) (pair : Option ℕ × Option ℕ)
    → ids_now item t ≡ pair
    → IsPlaced item thread_id (settled thread_id false t pair)
unfolding settled discarded
settled-IsPlaced item thread_id t (none, message) e = inl (ground arith)
settled-IsPlaced item thread_id t (some attached, message) e =
    elim (Bool-cases (attached == thread_id)) [
      | inl same ↦
          let one : attached ≡ thread_id = (==_iff attached thread_id).0 same in
          rw same (inr (ap (λ (p : Option ℕ × Option ℕ). p.0) e ∙ ap some one))
      | inr other ↦ rw other (inl (ground arith))
    ]

-- What a swap answers with is what the row says.
pub claim_unowned-pair :
    (target : ThreadTarget) (thread_id : ℕ) (message : Option ℕ) (w : ThreadWorld)
    (first : List TrackedItem × (Option ℕ × Option ℕ))
    → ids_now target.tracked_item_id first.0 ≡ first.1
    → ids_now target.tracked_item_id (claim_unowned target thread_id message w first).0
      ≡ (claim_unowned target thread_id message w first).1
unfolding claim_unowned claim_thread
claim_unowned-pair target thread_id message w (t, (none, posted_as)) e = refl
claim_unowned-pair target thread_id message w (t, (some attached, posted_as)) e = e

claim-IsPlaced :
    (target : ThreadTarget) (thread_id : ℕ) (message : Option ℕ) (w : ThreadWorld)
    (t : List TrackedItem)
    → w.delete_fails ≡ false
    → IsPlaced target.tracked_item_id thread_id (claim target thread_id message w t)
unfolding claim claim_thread
claim-IsPlaced target thread_id message w t e =
    let first =
      claim_thread target.tracked_item_id thread_id message target.thread_id
        (some target.channel_id) (w.meddling_before t) in
    let last = claim_unowned target thread_id message w first in
    rw e (
      settled-IsPlaced target.tracked_item_id thread_id last.0 last.1
        (claim_unowned-pair target thread_id message w first refl))

attach_or_take_back-IsPlaced :
    (target : ThreadTarget) (thread_id : ℕ) (message : Option ℕ) (w : ThreadWorld)
    (t : List TrackedItem)
    → w.delete_fails ≡ false
    → IsPlaced target.tracked_item_id thread_id (attach_or_take_back target thread_id message w t)
unfolding attach_or_take_back
attach_or_take_back-IsPlaced target thread_id message w t e = elim (Bool-cases w.swap_fails) [
  | inl f ↦ rw (f, e) (inl (ground arith))
  | inr f ↦ rw f (claim-IsPlaced target thread_id message w t e)
]

-- The thread that Discord opened, if it did.
abbrev pub opened_thread : Creation → Option ℕ
opened_thread (opened handle) = some handle.thread_id
opened_thread (started_empty thread_id) = some thread_id
opened_thread not_opened = none

-- Where Discord deletes what it is asked to: a thread that was opened for an item is the one that its
-- row points at, or it was deleted, whatever other transactions did to the row in between, whether the
-- claim could be written or not, and even where its first message never landed.
pub create_and_claim-IsPlaced :
    (target : ThreadTarget) (w : ThreadWorld) (t : List TrackedItem) (thread_id : ℕ)
    → w.delete_fails ≡ false
    → opened_thread w.creation ≡ some thread_id
    → IsPlaced target.tracked_item_id thread_id (create_and_claim target w t)
unfolding create_and_claim
create_and_claim-IsPlaced target w t thread_id e f = go w.creation refl f
  where
    go :
        (c : Creation)
        → w.creation ≡ c
        → opened_thread c ≡ some thread_id
        → IsPlaced target.tracked_item_id thread_id (create_and_claim target w t)
    go (opened h) k f =
        let same : h.thread_id ≡ thread_id = some-injective _ _ f in
        rw (create_and_claim, k)
          (subst
            (λ i.
              IsPlaced target.tracked_item_id i
                (attach_or_take_back target h.thread_id h.message_id w t))
            same (attach_or_take_back-IsPlaced target h.thread_id h.message_id w t e))
    go (started_empty i) k f =
        let same : i ≡ thread_id = some-injective _ _ f in
        rw (create_and_claim, k)
          (subst (λ j. IsPlaced target.tracked_item_id j (attach_or_take_back target i none w t))
            same (attach_or_take_back-IsPlaced target i none w t e))
    go not_opened k f = cc
