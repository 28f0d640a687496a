-- ===== src/People/Telling.antt =====
-- What a run of the notifier leaves: a post that fails gives its pings back, and after a run that came
-- back nothing is left to post.
use shannon_bot.Base.{
  Bool-cases, In, In-map, Option, [], ap, arith, false, inl, inr, map, none, refl, subst, sym, true,
  ℕ, ◌&&◌, ◌∙◌, ◌∷◌, ◌≡◌, ◌≢◌,
}
use shannon_bot.Domain.Text.{Text}
use shannon_bot.People.Ledger.{
  Assignment, Assignments, People, claim_notifications, folded, owed_rows, person_of,
  release_notifications,
}
use shannon_bot.People.Notifier.{
  Notified, Reception, Telling, handed_back, notify, post_line, spent, tell,
}
use shannon_bot.People.Pings.{IsFolded, owed_rows-claim_notifications, release-claim_owed}
use shannon_bot.Sync.Policies.{ActorRole}

tell-failing :
    (item : ℕ) (role : ActorRole) (how : Telling) (w : Reception) (t : Assignments) (got : People)
    {p : Text × Option ℕ}
    → In p got
    → how.the_block_pinged && how.the_block_pings_them ≡ false
    → how.the_thread_wants_them ≡ true
    → w.post_fails ≡ true
    → w.release_fails ≡ false
    → tell item role how w (t, got)
      ≡ record { ledger = release_notifications item role got t; posted = none; answer = none }
unfolding tell post_line handed_back
tell-failing item role how w t [] m named wanted fails kept = elim m [ ]
tell-failing item role how w t (p ∷ got) m named wanted fails kept =
    rw (named, wanted, fails, kept) refl

tell-ledger :
    (item : ℕ) (role : ActorRole) (how : Telling) (w : Reception) (t : Assignments) (got : People)
    → (tell item role how w (t, got)).answer ≢ none
    → (tell item role how w (t, got)).ledger ≡ t
unfolding tell spent post_line
tell-ledger item role how w t [] h = refl
tell-ledger item role how w t (p ∷ got) h =
    elim (Bool-cases (how.the_block_pinged && how.the_block_pings_them)) [
      | inl e ↦ rw e refl
      | inr e ↦ elim (Bool-cases how.the_thread_wants_them) [
        | inl f ↦ elim (Bool-cases w.post_fails) [
          | inl g ↦ elim (h (rw (tell, post_line, e, f, g) refl)) [ ]
          | inr g ↦ rw (e, f, g) refl
        ]
        | inr f ↦ rw (e, f) refl
      ]
    ]

tell-nobody :
    (item : ℕ) (role : ActorRole) (how : Telling) (w : Reception) (t : Assignments) (got : People)
    → got ≡ []
    → tell item role how w (t, got) ≡ spent t
unfolding tell
tell-nobody item role how w t [] e = refl
tell-nobody item role how w t (p ∷ got) e = ground arith

-- Where the logins are stored folded and the line is one that the thread is told: a post that fails,
-- and whose pings are handed back, raises, says nothing and leaves every ping that was owed owed.
pub notify-owed :
    (now item : ℕ) (role : ActorRole) (how : Telling) (w : Reception) (t : Assignments)
    (r : Assignment)
    → how.the_block_pinged && how.the_block_pings_them ≡ false
    → how.the_thread_wants_them ≡ true
    → w.post_fails ≡ true
    → w.release_fails ≡ false
    → In r (owed_rows item role t)
    → IsFolded r
    → ((notify now item role how w t).answer ≡ none)
      × ((notify now item role how w t).posted ≡ none)
      × In r (owed_rows item role (notify now item role how w t).ledger)
unfolding notify claim_notifications
notify-owed now item role how w t r named wanted fails kept m folded =
    let t' = (claim_notifications now item role t).0 in
    let got = (claim_notifications now item role t).1 in
    let outcome =
      tell-failing item role how w t' got (In-map person_of (owed_rows item role t) m) named wanted
        fails kept in
    (
      ap (λ (n : Notified). n.answer) outcome,
      ap (λ (n : Notified). n.posted) outcome,
      subst (λ (n : Notified). In r (owed_rows item role n.ledger)) (sym outcome)
          (release-claim_owed now item role t r m folded),
    )

-- Once a run for a role has come back, the next posts nothing, whatever the thread is told.
pub notify-quiet :
    (now now' item : ℕ) (role : ActorRole) (how how' : Telling) (w w' : Reception) (t : Assignments)
    → (notify now item role how w t).answer ≢ none
    → notify now' item role how' w' (notify now item role how w t).ledger
      ≡ spent (claim_notifications now' item role (notify now item role how w t).ledger).0
unfolding notify claim_notifications
notify-quiet now now' item role how how' w w' t h =
    let t' = (claim_notifications now item role t).0 in
    let ledger = tell-ledger item role how w t' (claim_notifications now item role t).1 h in
    let left = (notify now item role how w t).ledger in
    let nobody : owed_rows item role left ≡ [] =
      ap (owed_rows item role) ledger ∙ owed_rows-claim_notifications now item role t in
    tell-nobody item role how' w' (claim_notifications now' item role left).0
      (claim_notifications now' item role left).1 (ap (map person_of) nobody)
