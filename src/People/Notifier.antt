-- ===== src/People/Notifier.antt =====
-- `ActorNotifier.notify` of shannon/services/sync/notifications.py: the people of one role are pinged
-- once each. Who is mentioned and what is rendered does not change what is claimed, and is left out.
use shannon_bot.Base.{
  Bool, List, Option, [], false, if◌then◌else◌, map, none, not, some, true, ℕ, ◌&&◌, ◌∷◌,
}
use shannon_bot.Delivery.Store.{claimed}
use shannon_bot.Domain.Text.{Text}
use shannon_bot.People.Ledger.{Assignments, People, claim_notifications, release_notifications}
use shannon_bot.People.Rename.{sort_by}
use shannon_bot.Sync.Policies.{ActorRole}

-- What Discord and the database answer to one run.
pub record Reception : Type 0 where
  pub post_fails : Bool
  pub release_fails : Bool

-- The table, the people named in the message if there was one, and what `notify` returned, or none if
-- it raised.
pub record Notified : Type 0 where
  pub ledger : Assignments
  pub posted : Option (List Text)
  pub answer : Option (List Text)

-- What a run is told about the thread.
pub record Telling : Type 0 where
  pub the_block_pinged : Bool
  pub the_thread_wants_them : Bool
  pub the_block_pings_them : Bool

-- `tuple(sorted(claimed))`
unfoldable pub logins_in : People → List Text
unfolding sort_by
logins_in claimed = sort_by (λ n. n) (map (λ p. p.0) claimed)

unfoldable pub spent : Assignments → Notified
spent t = record { ledger = t; posted = none; answer = some [] }

-- The hand-back of a failed post; its own failure is suppressed.
unfoldable pub handed_back : ℕ → ActorRole → People → Bool → Assignments → Assignments
unfolding release_notifications
handed_back item role claimed true t = t
handed_back item role claimed false t = release_notifications item role claimed t

unfoldable pub post_line : ℕ → ActorRole → People → Reception → Assignments → Notified
unfolding logins_in handed_back
post_line item role claimed w t =
    if w.post_fails
    then record {
      ledger = handed_back item role claimed w.release_fails t;
      posted = none;
      answer = none;
    }
    else record { ledger = t; posted = some (logins_in claimed); answer = some (logins_in claimed) }

-- What follows the claim.
unfoldable pub tell : ℕ → ActorRole → Telling → Reception → Assignments × People → Notified
unfolding spent post_line
tell item role how w (t, []) = spent t
tell item role how w (t, (p ∷ claimed)) =
    if how.the_block_pinged && how.the_block_pings_them
    then spent t
    else if not how.the_thread_wants_them
    then spent t
    else post_line item role (p ∷ claimed) w t

unfoldable pub notify : ℕ → ℕ → ActorRole → Telling → Reception → Assignments → Notified
unfolding claim_notifications tell
notify now item role how w t = tell item role how w (claim_notifications now item role t)
