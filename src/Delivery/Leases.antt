-- ===== src/Delivery/Leases.antt =====
-- Which rows a lease takes, and that no other worker takes them while it runs.
use shannon_bot.Base.{
  All, All-append, All-imp, All-keep, All-keep_if, All-of, Bool, Bool-cases, List, String, [], any,
  arith, contains, contains-All, contains-All-ne, false, inl, inr, keep, not, refl, some, str_eq,
  true, ℕ, ◌&&◌, ◌+◌, ◌<◌, ◌∷◌, ◌≡◌, ◌≢◌,
}
use shannon_bot.Delivery.Chosen.{chosen-All}
use shannon_bot.Delivery.Invariant.{IsWellFormed}
use shannon_bot.Delivery.Order.{All-ids, All-sort_by_id}
use shannon_bot.Delivery.Rows.{All-update_where}
use shannon_bot.Delivery.Store.{
  Table, WebhookEvent, chosen, claimed, eligible, enqueue, finish, finished, fresh_event, give_up,
  given_up, given_up_on, ids, is_prunable, lease, prune, release, released, retry_later, revived,
  sent_round, still_held, update_where,
}
use shannon_bot.Domain.Enums.{DeliveryStatus, is_failed, is_pending, is_processing}
use shannon_bot.Domain.Json.{JsonObject}

-- As long as nobody has settled row `i` since it was leased.
abbrev pub IsHeld : ℕ → ℕ → WebhookEvent → Type 0
IsHeld i until r = r.id ≡ i → (is_processing r.status ≡ true) × (r.locked_until ≡ some until)

-- Every call of the store, by anybody, but a settling or release of row `i`; a lease is made before the
-- end of that row's.
pub data Elsewhere (i until : ℕ) : Table → Table → Type 0 where
  enqueues :
      (now : ℕ) (delivery_id event_type payload_hash : String) (payload : JsonObject) (t : Table)
      → Elsewhere i until t (enqueue now delivery_id event_type payload_hash payload t).0
  leases :
      (held : ℕ → Bool) (limit lease_for now : ℕ) (t : Table)
      → now < until
      → Elsewhere i until t (lease held limit lease_for now t).0
  releases :
      (event_ids : List ℕ) (t : Table)
      → contains i event_ids ≡ false
      → Elsewhere i until t (release event_ids t)
  finishes :
      (now event_id : ℕ) (status : DeliveryStatus) (t : Table)
      → event_id ≢ i
      → Elsewhere i until t (finish now event_id status t)
  retries :
      (now event_id : ℕ) (error : String) (delay : ℕ) (t : Table)
      → event_id ≢ i
      → Elsewhere i until t (retry_later now event_id error delay t)
  gives_up :
      (now event_id : ℕ) (error : String) (t : Table)
      → event_id ≢ i
      → Elsewhere i until t (give_up now event_id error t)
  prunes : (now keep_for : ℕ) (t : Table) → Elsewhere i until t (prune now keep_for t).0

pub data Meanwhile (i until : ℕ) (s : Table) : Table → Type 0 where
  here : Meanwhile i until s s
  next : {t u : Table} → Meanwhile i until s t → Elsewhere i until t u → Meanwhile i until s u

-- A row that is held and whose lease runs is in no later choice.
IsHeld-not_eligible :
    (i until now : ℕ) (r : WebhookEvent)
    → now < until
    → IsHeld i until r
    → (eligible now r ≡ true → r.id ≢ i)
unfolding eligible is_processing is_pending
IsHeld-not_eligible i until now r h k e same = ground (arith, k same)

module _ (i until : ℕ) where
  pub chosen-not_held :
      (held : ℕ → Bool) (limit now : ℕ) (t : Table)
      → now < until
      → All (IsHeld i until) t.rows
      → contains i (chosen held limit now t) ≡ false
  chosen-not_held held limit now t h k = contains-All-ne i (chosen held limit now t) (
      chosen-All (λ j. j ≢ i) held limit now t
        (All-imp (IsHeld i until) (λ r. eligible now r ≡ true → r.id ≢ i) t.rows
          (λ r. IsHeld-not_eligible i until now r h) k))

  -- The row is held, and the sequence has passed its id.
  abbrev IsGuarded : Table → Type 0
  IsGuarded t = All (IsHeld i until) t.rows × (i < t.next_id)

  update-IsGuarded :
      (test : WebhookEvent → Bool) (values : WebhookEvent → WebhookEvent) (t : Table)
      → ((r : WebhookEvent) → (values r).id ≡ r.id)
      → ((r : WebhookEvent) → IsHeld i until r → r.id ≡ i → test r ≡ false)
      → IsGuarded t
      → IsGuarded (update_where test values t)
  unfolding update_where
  update-IsGuarded test values t same spared (h, b) = (
    All-update_where test values (IsHeld i until) (IsHeld i until) t.rows
        (λ r k. ground (arith, same r, spared r k)) h,
    b,
  )

  spared-still_held : (j : ℕ) → j ≢ i → (r : WebhookEvent) → r.id ≡ i → still_held j r ≡ false
  unfolding still_held
  spared-still_held j ne r e = ground arith

  spared-given_up :
      (d : String) (r : WebhookEvent) → IsHeld i until r → r.id ≡ i → given_up_on d r ≡ false
  unfolding given_up_on is_processing is_failed
  spared-given_up d r k e = ground (arith, k e)

  Elsewhere-IsGuarded : {t u : Table} → Elsewhere i until t u → IsGuarded t → IsGuarded u
  unfolding enqueue lease release finish retry_later give_up prune
  Elsewhere-IsGuarded (enqueues now d e p payload t) (h, b) =
      elim (Bool-cases (any (λ r. str_eq r.github_delivery_id d) t.rows)) [
        | inl old ↦ rw old (
            update-IsGuarded (given_up_on d) (revived payload)
              (record t { next_id = t.next_id + 1 }) (λ r. refl) (spared-given_up d)
              (h, omega arith))
        | inr new ↦ rw new (
          All-append (IsHeld i until) t.rows (fresh_event now t.next_id d e p payload ∷ []) h
              ((λ same. absurd (omega arith)), tt),
          omega arith,
        )
      ]
  Elsewhere-IsGuarded (leases held limit lease_for now t b) g =
      update-IsGuarded (λ r. contains r.id (chosen held limit now t)) (claimed (now + lease_for)) t
        (λ r. refl) (λ r k e. rw e (chosen-not_held held limit now t b g.0)) g
  Elsewhere-IsGuarded (releases event_ids t b) g =
      update-IsGuarded (λ r. contains r.id event_ids && is_processing r.status) released t
        (λ r. refl) (λ r k e. rw (e, b)) g
  Elsewhere-IsGuarded (finishes now event_id status t b) g =
      update-IsGuarded (still_held event_id) (finished now status) t (λ r. refl)
        (λ r k. spared-still_held event_id b r) g
  Elsewhere-IsGuarded (retries now event_id error delay t b) g =
      update-IsGuarded (still_held event_id) (sent_round (now + delay) error) t (λ r. refl)
        (λ r k. spared-still_held event_id b r) g
  Elsewhere-IsGuarded (gives_up now event_id error t b) g =
      update-IsGuarded (still_held event_id) (given_up now error) t (λ r. refl)
        (λ r k. spared-still_held event_id b r) g
  Elsewhere-IsGuarded (prunes now keep_for t) (h, b) =
      (All-keep (IsHeld i until) (λ r. not (is_prunable now keep_for r)) t.rows h, b)

  Meanwhile-IsGuarded : {t u : Table} → Meanwhile i until t u → IsGuarded t → IsGuarded u
  Meanwhile-IsGuarded here g = g
  Meanwhile-IsGuarded (next m e) g = Elsewhere-IsGuarded e (Meanwhile-IsGuarded m g)

module _ (held : ℕ → Bool) (limit lease_for now : ℕ) (t : Table) where
  -- Right after the lease every leased row is held until the lease's end.
  leased-IsHeld :
      (i : ℕ)
      → contains i (chosen held limit now t) ≡ true
      → All (IsHeld i (now + lease_for)) (lease held limit lease_for now t).0.rows
  unfolding lease update_where claimed is_processing
  leased-IsHeld i c =
      All-update_where (λ r. contains r.id (chosen held limit now t)) (claimed (now + lease_for))
        (λ r. Unit {0}) (IsHeld i (now + lease_for)) t.rows (λ r h e. ground (arith, e, c))
        (All-of (λ r. Unit {0}) (λ r. tt) t.rows)

  -- What holds of the chosen rows of the table holds of the rows that the worker gets.
  pub leased-All :
      (P : WebhookEvent → Type 0)
      → All
          (λ r. contains r.id (chosen held limit now t) ≡ true → P r)
          (lease held limit lease_for now t).0.rows
      → All P (lease held limit lease_for now t).1
  unfolding lease
  leased-All P h =
      let after = (lease held limit lease_for now t).0 in
      All-sort_by_id P (keep (λ r. contains r.id (chosen held limit now t)) after.rows)
        (All-keep_if P (λ r. contains r.id (chosen held limit now t)) after.rows h)

  leased_id-chosen :
      (i : ℕ)
      → contains i (ids (lease held limit lease_for now t).1) ≡ true
      → contains i (chosen held limit now t) ≡ true
  leased_id-chosen i =
      contains-All (λ j. contains j (chosen held limit now t) ≡ true) i
        (ids (lease held limit lease_for now t).1)
        (All-ids (λ j. contains j (chosen held limit now t) ≡ true)
          (lease held limit lease_for now t).1
          (leased-All (λ r. contains r.id (chosen held limit now t) ≡ true)
            (All-of
              (λ r.
                contains r.id (chosen held limit now t) ≡ true
                → contains r.id (chosen held limit now t) ≡ true)
              (λ r h. h) (lease held limit lease_for now t).0.rows)))

  not_chosen-leased :
      (i : ℕ)
      → contains i (chosen held limit now t) ≡ false
      → contains i (ids (lease held limit lease_for now t).1) ≡ false
  not_chosen-leased i h =
      elim (Bool-cases (contains i (ids (lease held limit lease_for now t).1))) [
        | inl c ↦ cc (leased_id-chosen i c)
        | inr c ↦ c
      ]

  -- A chosen row exists: its id is below the sequence.
  chosen-below :
      (i : ℕ) → IsWellFormed t → contains i (chosen held limit now t) ≡ true → i < t.next_id
  chosen-below i w =
      contains-All (λ j. j < t.next_id) i (chosen held limit now t)
        (chosen-All (λ j. j < t.next_id) held limit now t
          (All-imp (λ r. r.id < t.next_id) (λ r. eligible now r ≡ true → r.id < t.next_id) t.rows
            (λ r b e. b) w.below))

-- From a well-formed table: until a lease ends, no other hands out a delivery that it handed out, as
-- long as nobody settles that delivery or hands it back, be it the holder or a worker whose own lease of
-- it has run out: whatever is leased, enqueued, pruned, or settled of other deliveries meanwhile.
pub lease-exclusive :
    (held held' : ℕ → Bool) (limit limit' lease_for lease_for' now now' i : ℕ) (t u : Table)
    → IsWellFormed t
    → contains i (ids (lease held limit lease_for now t).1) ≡ true
    → Meanwhile i (now + lease_for) (lease held limit lease_for now t).0 u
    → now' < now + lease_for
    → contains i (ids (lease held' limit' lease_for' now' u).1) ≡ false
unfolding lease
lease-exclusive held held' limit limit' lease_for lease_for' now now' i t u w c m early =
    let picked = leased_id-chosen held limit lease_for now t i c in
    not_chosen-leased held' limit' lease_for' now' u i (
      chosen-not_held i (now + lease_for) held' limit' now' u early
        (Meanwhile-IsGuarded i (now + lease_for) m (
          leased-IsHeld held limit lease_for now t i picked,
          chosen-below held limit lease_for now t i w picked,
        )).0)
