-- ===== src/Reminders/Claims.antt =====
-- Which reminder is taken, and that a run of the sender takes each one once.
use mathlib.Core.Option.{some-injective}
use shannon_bot.Base.{
  All, All-imp, Bool, Bool-cases, In, In-keep, List, Option, [], ap, arith, at_head, false, in_tail,
  inl, inr, keep, none, not, refl, some, subst, sym, true, ℕ, ◌&&◌, ◌<◌, ◌∙◌, ◌∷◌, ◌≡◌, ◌≤◌, ◌⊎◌,
}
use shannon_bot.Reminders.Store.{
  Reminder, Reminders, claim_next, is_due, next_due, sooner, sooner_of, soonest, stamped,
}

-- `r` falls due before `s`, or at the same time with a smaller id, or is `s`.
abbrev pub IsNoLater : Reminder → Reminder → Type 0
IsNoLater r s = (r.due_at < s.due_at) ⊎ ((r.due_at ≡ s.due_at) × (r.id ≤ s.id))

sooner-cases :
    (r s : Reminder) → (sooner r s ≡ true → IsNoLater r s) × (sooner r s ≡ false → IsNoLater s r)
unfolding sooner
sooner-cases r s = (λ e. grind arith, λ e. grind arith)

IsNoLater-trans : (r s u : Reminder) → IsNoLater r s → IsNoLater s u → IsNoLater r u
IsNoLater-trans r s u h k = grind arith

soonest-none : (l : List Reminder) → soonest l ≡ none → l ≡ []
unfolding soonest
soonest-none [] e = refl
soonest-none (x ∷ l) e = cc

soonest-In : {r : Reminder} (l : List Reminder) → soonest l ≡ some r → In r l
unfolding soonest sooner_of
soonest-In [] e = cc
soonest-In {r} (x ∷ l) e = go (soonest l) refl (soonest-In l) (some-injective _ _ e)
  where
    go :
        (o : Option Reminder)
        → soonest l ≡ o
        → (soonest l ≡ some r → In r l)
        → sooner_of x (soonest l) ≡ r
        → In r (x ∷ l)
    go none k rest h =
        let same : x ≡ r = rw (k, sooner_of) at h in subst (λ y. In y (x ∷ l)) same at_head
    go (some s) k rest h = elim (Bool-cases (sooner x s)) [
      | inl before ↦
          let same : x ≡ r = rw (k, sooner_of, before) at h in
          subst (λ y. In y (x ∷ l)) same at_head
      | inr after ↦
          let same : s ≡ r = rw (k, sooner_of, after) at h in in_tail (rest (rw k (ap some same)))
    ]

-- The reminder found falls due no later than any other.
soonest-first : (r : Reminder) (l : List Reminder) → soonest l ≡ some r → All (IsNoLater r) l
unfolding soonest sooner_of
soonest-first r [] e = tt
soonest-first r (x ∷ l) e = go (soonest l) refl (λ s. soonest-first s l) (some-injective _ _ e)
  where
    go :
        (o : Option Reminder)
        → soonest l ≡ o
        → ((s : Reminder) → soonest l ≡ some s → All (IsNoLater s) l)
        → sooner_of x (soonest l) ≡ r
        → All (IsNoLater r) (x ∷ l)
    go none k rest h =
        let same : x ≡ r = rw (k, sooner_of) at h in
        subst (λ y. All (IsNoLater y) (x ∷ l)) same
          (inr (refl, omega arith), rw (soonest-none l k) tt)
    go (some s) k rest h = elim (Bool-cases (sooner x s)) [
      | inl before ↦
          let same : x ≡ r = rw (k, sooner_of, before) at h in
          subst (λ y. All (IsNoLater y) (x ∷ l)) same
            (
              inr (refl, omega arith),
              All-imp (IsNoLater s) (IsNoLater x) l
                  (λ u. IsNoLater-trans x s u ((sooner-cases x s).0 before)) (rest s k),
            )
      | inr after ↦
          let same : s ≡ r = rw (k, sooner_of, after) at h in
          subst (λ y. All (IsNoLater y) (x ∷ l)) same ((sooner-cases x s).1 after, rest s k)
    ]

pub stamped_self :
    (now : ℕ) (r : Reminder) → stamped r.id now r ≡ record r { claimed_at = some now }
unfolding stamped
stamped_self now r = ground arith

-- Nothing due and free, or the row that a claim takes.
pub next_due-cases :
    (held : ℕ → Bool) (now stale_before : ℕ) (t : Reminders) (r : Reminder)
    → next_due held now stale_before t ≡ some r
    → In r t.rows
      × (is_due now stale_before r ≡ true)
      × (held r.id ≡ false)
      × All (IsNoLater r) (keep (λ s. is_due now stale_before s && not (held s.id)) t.rows)
unfolding next_due
next_due-cases held now stale_before t r e =
    let free = keep (λ s. is_due now stale_before s && not (held s.id)) t.rows in
    let (place, passed) =
      In-keep (λ s. is_due now stale_before s && not (held s.id)) t.rows (soonest-In free e) in
    (place, ground arith, ground arith, soonest-first r free e)

-- A claim takes a reminder of the table that is due, that no other sender holds or has claimed in
-- the window, and that falls due no later than any other such; it answers with that row, stamped.
pub claim_next-takes_first :
    (held : ℕ → Bool) (now stale_before : ℕ) (t : Reminders) (got : Reminder)
    → (claim_next held now stale_before t).1 ≡ some got
    → (r : Reminder) × In r t.rows
      × (got ≡ record r { claimed_at = some now })
      × (is_due now stale_before r ≡ true)
      × (held r.id ≡ false)
      × All (IsNoLater r) (keep (λ s. is_due now stale_before s && not (held s.id)) t.rows)
unfolding claim_next
claim_next-takes_first held now stale_before t got e = go (next_due held now stale_before t) refl
  where
    go :
        (o : Option Reminder)
        → next_due held now stale_before t ≡ o
        → (r : Reminder) × In r t.rows
          × (got ≡ record r { claimed_at = some now })
          × (is_due now stale_before r ≡ true)
          × (held r.id ≡ false)
          × All (IsNoLater r) (keep (λ s. is_due now stale_before s && not (held s.id)) t.rows)
    go none k = let e' : none ≡ some got = rw (k, claim_next) at e in cc e'
    go (some r) k =
        let (place, ready, free, before) = next_due-cases held now stale_before t r k in
        let e' : some (stamped r.id now r) ≡ some got = rw (k, claim_next) at e in
        (r, place, sym (some-injective _ _ e') ∙ stamped_self now r, ready, free, before)
