-- ===== src/Delivery/Rows.antt =====
-- What an UPDATE of `webhook_events` does to its rows, one at a time.
use shannon_bot.Base.{
  All, All-keep, Bool, List, String, [], arith, if◌then◌else◌, is_none, keep, map, not, refl, true,
  ℕ, ◌∷◌, ◌≡◌, ◌≢◌,
}
use shannon_bot.Delivery.Store.{
  WebhookEvent, claimed, finished, given_up, released, revived, sent_round,
}
use shannon_bot.Domain.Enums.{DeliveryStatus, is_processing, is_terminal}
use shannon_bot.Domain.Json.{JsonObject}

-- A lock is held on exactly the rows that are being processed.
abbrev pub IsLocked : WebhookEvent → Type 0
IsLocked r = is_none r.locked_until ≡ not (is_processing r.status)

abbrev pub DiffersFrom : WebhookEvent → WebhookEvent → Type 0
DiffersFrom r s = (r.id ≢ s.id) × (r.github_delivery_id ≢ s.github_delivery_id)

abbrev pub IsKeyed : List WebhookEvent → Type 0
IsKeyed [] = Unit
IsKeyed (r ∷ rest) = All (DiffersFrom r) rest × IsKeyed rest

-- An update that leaves both keys alone and puts locks right.
abbrev pub Fits : (WebhookEvent → WebhookEvent) → Type 0
Fits values =
    (r : WebhookEvent)
    → ((values r).id ≡ r.id)
      × ((values r).github_delivery_id ≡ r.github_delivery_id)
      × IsLocked (values r)

module _ (test : WebhookEvent → Bool) (values : WebhookEvent → WebhookEvent) where
  abbrev pub step_row : WebhookEvent → WebhookEvent
  step_row r = if test r then values r else r

  pub All-update_where :
      (P Q : WebhookEvent → Type 0) (l : List WebhookEvent)
      → ((r : WebhookEvent) → P r → Q (step_row r))
      → All P l
      → All Q (map step_row l)
  All-update_where P Q [] f h = tt
  All-update_where P Q (r ∷ l) f h = (f r h.0, All-update_where P Q l f h.1)

  module _ (fits : Fits values) where
    DiffersFrom-step :
        (r s : WebhookEvent) → DiffersFrom r s → DiffersFrom (step_row r) (step_row s)
    DiffersFrom-step r s d = ground (arith, fits r, fits s)

    pub IsKeyed-map : (l : List WebhookEvent) → IsKeyed l → IsKeyed (map step_row l)
    IsKeyed-map [] h = tt
    IsKeyed-map (r ∷ l) h = (
      All-update_where (DiffersFrom r) (DiffersFrom (step_row r)) l (DiffersFrom-step r) h.0,
      IsKeyed-map l h.1,
    )

pub keep-IsKeyed :
    (p : WebhookEvent → Bool) (l : List WebhookEvent) → IsKeyed l → IsKeyed (keep p l)
keep-IsKeyed p [] h = tt
keep-IsKeyed p (r ∷ l) h = ground (arith, keep-IsKeyed p l h.1, All-keep (DiffersFrom r) p l h.0)

pub revived-Fits : (payload : JsonObject) → Fits (revived payload)
unfolding revived is_processing
revived-Fits payload r = (refl, refl, refl)

pub claimed-Fits : (until : ℕ) → Fits (claimed until)
unfolding claimed is_processing
claimed-Fits until r = (refl, refl, refl)

pub released-Fits : Fits released
unfolding released is_processing
released-Fits r = (refl, refl, refl)

pub sent_round-Fits : (at : ℕ) (error : String) → Fits (sent_round at error)
unfolding sent_round is_processing
sent_round-Fits at error r = (refl, refl, refl)

pub given_up-Fits : (now : ℕ) (error : String) → Fits (given_up now error)
unfolding given_up is_processing
given_up-Fits now error r = (refl, refl, refl)

pub finished-Fits : (now : ℕ) (s : DeliveryStatus) → is_terminal s ≡ true → Fits (finished now s)
unfolding finished is_processing is_terminal
finished-Fits now s h r = (refl, refl, ground arith)
