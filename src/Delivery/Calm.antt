-- ===== src/Delivery/Calm.antt =====
-- A row that nobody is processing stays so under the writes of the worker.
use shannon_bot.Base.{
  All, All-of, Bool, List, String, arith, contains, false, refl, true, ℕ, ◌&&◌, ◌≡◌,
}
use shannon_bot.Delivery.Rows.{All-update_where}
use shannon_bot.Delivery.Store.{
  Table, WebhookEvent, finished, given_up, release, released, sent_round, still_held, update_where,
}
use shannon_bot.Delivery.Worker.{WebhookOutcome, outcome_status}
use shannon_bot.Domain.Enums.{is_processing}

-- Nobody is processing the row with id `i`.
abbrev pub IsCalm : ℕ → WebhookEvent → Type 0
IsCalm i r = r.id ≡ i → is_processing r.status ≡ false

abbrev pub Calms : (WebhookEvent → WebhookEvent) → Type 0
Calms values =
    (r : WebhookEvent) → ((values r).id ≡ r.id) × (is_processing (values r).status ≡ false)

module _ (i : ℕ) (values : WebhookEvent → WebhookEvent) (calms : Calms values) (t : Table) where
  pub update-IsCalm :
      (test : WebhookEvent → Bool)
      → All (IsCalm i) t.rows
      → All (IsCalm i) (update_where test values t).rows
  unfolding update_where
  update-IsCalm test =
      All-update_where test values (IsCalm i) (IsCalm i) t.rows (λ r h. ground (arith, calms r))

  pub update-settles :
      (test : WebhookEvent → Bool)
      → ((r : WebhookEvent) → r.id ≡ i → test r ≡ is_processing r.status)
      → All (IsCalm i) (update_where test values t).rows
  unfolding update_where
  update-settles test hits =
      All-update_where test values (λ r. Unit {0}) (IsCalm i) t.rows
        (λ r h. ground (arith, calms r, hits r)) (All-of (λ r. Unit {0}) (λ r. tt) t.rows)

pub finished-Calms : (now : ℕ) (o : WebhookOutcome) → Calms (finished now (outcome_status o))
unfolding finished is_processing outcome_status
finished-Calms now WebhookOutcome.processed r = (refl, refl)
finished-Calms now _ r = (refl, refl)

pub sent_round-Calms : (at : ℕ) (error : String) → Calms (sent_round at error)
unfolding sent_round is_processing
sent_round-Calms at error r = (refl, refl)

pub given_up-Calms : (now : ℕ) (error : String) → Calms (given_up now error)
unfolding given_up is_processing
given_up-Calms now error r = (refl, refl)

pub released-Calms : Calms released
unfolding released is_processing
released-Calms r = (refl, refl)

pub still_held-hits :
    (i : ℕ) (r : WebhookEvent) → r.id ≡ i → still_held i r ≡ is_processing r.status
unfolding still_held
still_held-hits i r e = ground arith

module _ (i : ℕ) (event_ids : List ℕ) (t : Table) where
  pub release-IsCalm : All (IsCalm i) t.rows → All (IsCalm i) (release event_ids t).rows
  unfolding release
  release-IsCalm =
      update-IsCalm i released released-Calms t
        (λ r. contains r.id event_ids && is_processing r.status)

  pub release-settles : contains i event_ids ≡ true → All (IsCalm i) (release event_ids t).rows
  unfolding release
  release-settles c =
      update-settles i released released-Calms t
        (λ r. contains r.id event_ids && is_processing r.status) (λ r e. rw (e, c))
