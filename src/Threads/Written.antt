-- ===== src/Threads/Written.antt =====
-- Where an item points when a write that opened a thread comes back.
use shannon_bot.Base.{
  ==_iff, Bool, Bool-cases, List, Option, ap, arith, false, inl, inr, none, refl, some, true, ℕ,
  ◌&&◌, ◌==◌, ◌∙◌, ◌≡◌,
}
use shannon_bot.Threads.Attached.{claim_unowned-pair}
use shannon_bot.Threads.Binding.{
  Creation, Done, ThreadHandle, ThreadTarget, ThreadWorld, ThreadWrite, Update, as_write,
  attach_or_take_back, claim, claim_unowned, create_and_claim, discarded, is_stranded, not_opened,
  not_updated, opened, rewrite, settled, started_empty, thread_not_found, updated, write,
}
use shannon_bot.Threads.Pointers.{TrackedItem, claim_thread, ids_now}

-- The pointer is the thread that an answer names.
abbrev Names : Option ℕ → Option ThreadHandle → Type 0
Names pointer none = Unit
Names pointer (some h) = pointer ≡ some h.thread_id

abbrev PointsAt : ℕ → Done ThreadHandle → Type 0
PointsAt item d = Names (ids_now item d.table).0 d.answer

settled-PointsAt :
    (item thread_id : ℕ) (delete_fails : Bool) (t : List TrackedItem) (pair : Option ℕ × Option ℕ)
    → ids_now item t ≡ pair
    → PointsAt item (settled thread_id delete_fails t pair)
unfolding settled discarded
settled-PointsAt item thread_id true t (none, posted_as) e = tt
settled-PointsAt item thread_id false t (none, posted_as) e = tt
settled-PointsAt item thread_id true t (some attached, posted_as) e =
    elim (Bool-cases (attached == thread_id)) [
      | inl same ↦
          rw same
            (ap (λ (p : Option ℕ × Option ℕ). p.0) e ∙ ap some ((==_iff attached thread_id).0 same))
      | inr other ↦ rw other tt
    ]
settled-PointsAt item thread_id false t (some attached, posted_as) e =
    elim (Bool-cases (attached == thread_id)) [
      | inl same ↦
          rw same
            (ap (λ (p : Option ℕ × Option ℕ). p.0) e ∙ ap some ((==_iff attached thread_id).0 same))
      | inr other ↦ rw other (ap (λ (p : Option ℕ × Option ℕ). p.0) e)
    ]

claim-PointsAt :
    (target : ThreadTarget) (thread_id : ℕ) (message : Option ℕ) (w : ThreadWorld)
    (t : List TrackedItem)
    → PointsAt target.tracked_item_id (claim target thread_id message w t)
unfolding claim claim_thread
claim-PointsAt target thread_id message w t =
    let first =
      claim_thread target.tracked_item_id thread_id message target.thread_id
        (some target.channel_id) (w.meddling_before t) in
    let last = claim_unowned target thread_id message w first in
    settled-PointsAt target.tracked_item_id thread_id w.delete_fails last.0 last.1
      (claim_unowned-pair target thread_id message w first refl)

create_and_claim-PointsAt :
    (target : ThreadTarget) (w : ThreadWorld) (t : List TrackedItem)
    → PointsAt target.tracked_item_id (create_and_claim target w t)
unfolding create_and_claim attach_or_take_back
create_and_claim-PointsAt target w t = go w.creation refl
  where
    go :
        (c : Creation)
        → w.creation ≡ c
        → PointsAt target.tracked_item_id (create_and_claim target w t)
    go (opened h) k = elim (Bool-cases w.swap_fails) [
      | inl f ↦ rw (create_and_claim, k, attach_or_take_back, f) tt
      | inr f ↦
          rw (create_and_claim, k, attach_or_take_back, f)
            (claim-PointsAt target h.thread_id h.message_id w t)
    ]
    go (started_empty i) k = rw (create_and_claim, k) tt
    go not_opened k = rw (create_and_claim, k) tt

-- The pointer is the thread of a write that opened one.
abbrev pub NamesCreated : Option ℕ → Option ThreadWrite → Type 0
NamesCreated pointer none = Unit
NamesCreated pointer (some r) = r.is_created ≡ true → pointer ≡ some r.handle.thread_id

as_write-NamesCreated :
    (item : ℕ) (displaced : Option ℕ) (d : Done ThreadHandle)
    → PointsAt item d
    → NamesCreated
        (ids_now item (as_write true displaced d).table).0
        (as_write true displaced d).answer
unfolding as_write
as_write-NamesCreated item displaced d h = go d.answer refl
  where
    go :
        (a : Option ThreadHandle)
        → d.answer ≡ a
        → NamesCreated (ids_now item d.table).0 (as_write true displaced d).answer
    go none k = rw (as_write, k) tt
    go (some a) k =
        let h' : (ids_now item d.table).0 ≡ some a.thread_id = rw k at h in
        rw (as_write, k) (λ created. h')

-- Whatever other transactions do to the row in between, and whichever of two syncs opened its thread
-- first: a write that comes back having opened a thread names the one that the row points at, a lost
-- race included.
pub write-NamesCreated :
    (relocates : Bool) (target : ThreadTarget) (w : ThreadWorld) (t : List TrackedItem)
    → NamesCreated
        (ids_now target.tracked_item_id (write relocates target w t).table).0
        (write relocates target w t).answer
unfolding write rewrite
write-NamesCreated relocates target w t = go target.thread_id refl
  where
    made :
        (displaced : Option ℕ)
        → NamesCreated
            (ids_now target.tracked_item_id
              (as_write true displaced (create_and_claim target w t)).table).0
            (as_write true displaced (create_and_claim target w t)).answer
    made displaced =
        as_write-NamesCreated target.tracked_item_id displaced (create_and_claim target w t)
          (create_and_claim-PointsAt target w t)

    again :
        (u : Update)
        → w.update ≡ u
        → NamesCreated
            (ids_now target.tracked_item_id (rewrite target w t).table).0
            (rewrite target w t).answer
    again (updated h) k = rw (rewrite, k) (λ no. ground arith)
    again thread_not_found k = rw (rewrite, k) (made none)
    again not_updated k = rw (rewrite, k) tt

    go :
        (pointer : Option ℕ)
        → target.thread_id ≡ pointer
        → NamesCreated
            (ids_now target.tracked_item_id (write relocates target w t).table).0
            (write relocates target w t).answer
    go none k = rw (write, k) (made none)
    go (some i) k = elim (Bool-cases (relocates && is_stranded target)) [
      | inl f ↦ rw (write, k, f) (made (some i))
      | inr f ↦ rw (write, k, f) (again w.update refl)
    ]
