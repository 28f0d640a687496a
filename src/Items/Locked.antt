-- ===== src/Items/Locked.antt =====
-- A thread that belongs shut is shut, or it is known not to be, and then the next delivery shuts it.
use shannon_bot.Base.{
  All, All-In, All-imp, All-map, Bool, Bool-cases, List, Option, ap, arith, false, if◌then◌else◌,
  inl, inr, none, refl, some, true, ℕ, ◌∙◌, ◌≡◌,
}
use shannon_bot.Domain.Enums.{ObjectType}
use shannon_bot.Items.Saying.{
  Said, is_choice, lock_is_owed, settle_a_lock_still_owed, shut_thread, went_through,
}
use shannon_bot.Sync.Policies.{shut_for_state}
use shannon_bot.Threads.Pointers.{TrackedItem, guarded, note_the_lock}

-- The row that points at the thread says that it is shut.
abbrev pub SaysShut : ℕ → ℕ → List TrackedItem → Type 0
SaysShut item thread_id t =
    All (λ r. guarded item thread_id r ≡ true → r.discord_thread_locked ≡ some true) t

note_the_lock-SaysShut :
    (item thread_id : ℕ) (t : List TrackedItem)
    → SaysShut item thread_id (note_the_lock item thread_id true t)
unfolding note_the_lock
note_the_lock-SaysShut item thread_id t =
    All-map (λ r. guarded item thread_id r ≡ true → r.discord_thread_locked ≡ some true)
      (λ r. if guarded item thread_id r then record r { discord_thread_locked = some true } else r)
      t
      (All-In
        (λ r.
          guarded item thread_id (
              if guarded item thread_id r
              then record r { discord_thread_locked = some true }
              else r)
            ≡ true
          → (if guarded item thread_id r
              then record r { discord_thread_locked = some true }
              else r).discord_thread_locked
            ≡ some true)
        t (λ r m. one r))
  where
    one :
        (r : TrackedItem)
        → guarded item thread_id
            (if guarded item thread_id r then record r { discord_thread_locked = some true } else r)
          ≡ true
        → (if guarded item thread_id r
            then record r { discord_thread_locked = some true }
            else r).discord_thread_locked
          ≡ some true
    one r = elim (Bool-cases (guarded item thread_id r)) [
      | inl e ↦ rw e (λ h. refl)
      | inr e ↦ rw e (λ h. cc)
    ]

-- A sync that came back, with the thread that it wrote to, has its lock written down.
abbrev pub IsSettled : ℕ → Said → Type 0
IsSettled item s =
    (thread_id : ℕ)
    → s.thread_id ≡ some thread_id
    → s.shut_refused ≡ some false
    → SaysShut item thread_id s.table

guarded-id : (item thread_id : ℕ) (s : TrackedItem) → guarded item thread_id s ≡ true → s.id ≡ item
unfolding guarded
guarded-id item thread_id s e = ground arith

is_choice-true : (o : Option Bool) → is_choice o true ≡ true → o ≡ some true
unfolding is_choice
is_choice-true none e = cc
is_choice-true (some true) e = refl
is_choice-true (some false) e = ground arith

lock_is_owed-locked :
    (kind : ObjectType) (r : TrackedItem)
    → lock_is_owed kind r ≡ false
    → shut_for_state kind r.status r.github_state ≡ true
    → r.discord_thread_locked ≡ some true
unfolding lock_is_owed
lock_is_owed-locked kind r f e = is_choice-true r.discord_thread_locked (ground arith)

-- Where the row that is read again is the only one with its id, and its status and state call for a
-- thread that is shut: a delivery that is turned away as late has the thread shut, unless Discord
-- refuses or fails again, whatever became of the lock before.
pub settle_a_lock_still_owed-SaysShut :
    (kind : ObjectType) (thread_id : ℕ) (r : TrackedItem) (is_in : Bool) (t : List TrackedItem)
    → All (λ s. s.id ≡ r.id → s ≡ r) t
    → shut_for_state kind r.status r.github_state ≡ true
    → SaysShut r.id thread_id
        (settle_a_lock_still_owed kind (some thread_id) (some r) went_through is_in t).0
unfolding settle_a_lock_still_owed lock_is_owed shut_thread
settle_a_lock_still_owed-SaysShut kind thread_id r is_in t alone e =
    elim (Bool-cases (lock_is_owed kind r)) [
      | inl f ↦ rw f (note_the_lock-SaysShut r.id thread_id t)
      | inr f ↦
          let locked = lock_is_owed-locked kind r f e in
          rw f (
            All-imp (λ s. s.id ≡ r.id → s ≡ r)
              (λ s. guarded r.id thread_id s ≡ true → s.discord_thread_locked ≡ some true) t
              (λ s same g.
                ap (λ (x : TrackedItem). x.discord_thread_locked)
                  (same (guarded-id r.id thread_id s g))
                ∙ locked)
              alone)
    ]
