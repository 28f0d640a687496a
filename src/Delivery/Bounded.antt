-- ===== src/Delivery/Bounded.antt =====
-- The bound on attempts, and that the store's own calls keep it.
use shannon_bot.Base.{
  All, All-In, All-append, All-at, All-map, Bool, Bool-cases, In, List, String, [], arith, contains,
  if◌then◌else◌, inl, inr, true, ℕ, ◌&&◌, ◌+◌, ◌<◌, ◌∷◌, ◌≡◌, ◌≤◌,
}
use shannon_bot.Delivery.Chosen.{chosen-eligible}
use shannon_bot.Delivery.Rows.{All-update_where, IsKeyed}
use shannon_bot.Delivery.Store.{
  Table, WebhookEvent, chosen, claimed, eligible, enqueue, fresh_event, given_up_on, lease, release,
  released, revived, update_where,
}
use shannon_bot.Domain.Enums.{is_live, is_pending, is_processing}
use shannon_bot.Domain.Json.{JsonObject}

-- A row that is still going has attempts left, and none has had more than `m`.
abbrev pub IsBounded : ℕ → WebhookEvent → Type 0
IsBounded m r = (r.attempts ≤ m) × (is_live r.status ≡ true → r.attempts < m)

module _ (m : ℕ) where
  abbrev pub Bounds : (WebhookEvent → Bool) → (WebhookEvent → WebhookEvent) → Type 0
  Bounds test values = (r : WebhookEvent) → IsBounded m r → test r ≡ true → IsBounded m (values r)

  pub update-IsBounded :
      (test : WebhookEvent → Bool) (values : WebhookEvent → WebhookEvent) (t : Table)
      → Bounds test values
      → All (IsBounded m) t.rows
      → All (IsBounded m) (update_where test values t).rows
  unfolding update_where
  update-IsBounded test values t ok =
      All-update_where test values (IsBounded m) (IsBounded m) t.rows
        (λ r h. ground (arith, ok r h))

  pub enqueue-IsBounded :
      (now : ℕ) (delivery_id event_type payload_hash : String) (payload : JsonObject) (t : Table)
      → 0 < m
      → All (IsBounded m) t.rows
      → All (IsBounded m) (enqueue now delivery_id event_type payload_hash payload t).0.rows
  unfolding enqueue revived
  enqueue-IsBounded now d e p payload t pos h = ground (
    arith,
    update-IsBounded (given_up_on d) (revived payload) (record t { next_id = t.next_id + 1 })
        (λ r b hit. (omega arith, λ x. pos)) h,
    All-append (IsBounded m) t.rows (fresh_event now t.next_id d e p payload ∷ []) h
        ((omega arith, λ x. pos), tt),
  )

  eligible-live : (now : ℕ) (r : WebhookEvent) → eligible now r ≡ true → is_live r.status ≡ true
  unfolding eligible is_live is_pending is_processing
  eligible-live now r e = ground arith

  pub lease-IsBounded :
      (held : ℕ → Bool) (limit lease_for now : ℕ) (t : Table)
      → IsKeyed t.rows
      → All (IsBounded m) t.rows
      → All (IsBounded m) (lease held limit lease_for now t).0.rows
  unfolding lease update_where
  lease-IsBounded held limit lease_for now t k h =
      All-map (IsBounded m)
        (λ r. if contains r.id (chosen held limit now t) then claimed (now + lease_for) r else r)
        t.rows (All-In _ t.rows λ r place. leased r place (All-at (IsBounded m) place h))
    where
      leased :
          (r : WebhookEvent)
          → In r t.rows
          → IsBounded m r
          → IsBounded m
              (if contains r.id (chosen held limit now t) then claimed (now + lease_for) r else r)
      leased r place b = elim (Bool-cases (contains r.id (chosen held limit now t))) [
        | inl c ↦
            rw c
              (b.0, λ x. b.1 (eligible-live now r (chosen-eligible held limit now t r k place c)))
        | inr c ↦ rw c b
      ]

  pub release-IsBounded :
      (event_ids : List ℕ) (t : Table)
      → All (IsBounded m) t.rows
      → All (IsBounded m) (release event_ids t).rows
  unfolding release released is_live is_processing
  release-IsBounded event_ids t h =
      update-IsBounded (λ r. contains r.id event_ids && is_processing r.status) released t
        (λ r b hit. ground arith) h
