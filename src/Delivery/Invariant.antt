-- ===== src/Delivery/Invariant.antt =====
-- What holds of `webhook_events` after any calls of the store, by whichever worker.
use shannon_bot.Base.{
  All, All-append, All-imp, All-keep, Bool, Bool-cases, List, String, [], any, arith, contains,
  eq_iff, false, inl, inr, not, refl, str_eq, true, ℕ, ◌&&◌, ◌++◌, ◌+◌, ◌<◌, ◌∷◌, ◌≡◌,
}
use shannon_bot.Delivery.Rows.{
  All-update_where, DiffersFrom, Fits, IsKeyed, IsKeyed-map, IsLocked, claimed-Fits, finished-Fits,
  given_up-Fits, keep-IsKeyed, released-Fits, revived-Fits, sent_round-Fits,
}
use shannon_bot.Delivery.Store.{
  Table, WebhookEvent, chosen, claimed, enqueue, finish, finished, fresh_event, give_up, given_up,
  given_up_on, is_prunable, lease, prune, release, released, retry_later, revived, sent_round,
  still_held, update_where,
}
use shannon_bot.Domain.Enums.{DeliveryStatus, is_processing, is_terminal}
use shannon_bot.Domain.Json.{JsonObject}

-- Ids and GitHub's delivery ids are unique, the sequence is ahead of every id, locks fit states.
pub record IsWellFormed (t : Table) : Type 0 where
  pub keyed : IsKeyed t.rows
  pub below : All (λ r. r.id < t.next_id) t.rows
  pub locks : All IsLocked t.rows

-- One call of the store, committed.
pub data Step : Table → Table → Type 0 where
  enqueues :
      (now : ℕ) (delivery_id event_type payload_hash : String) (payload : JsonObject) (t : Table)
      → Step t (enqueue now delivery_id event_type payload_hash payload t).0
  leases :
      (held : ℕ → Bool) (limit lease_for now : ℕ) (t : Table)
      → Step t (lease held limit lease_for now t).0
  releases : (event_ids : List ℕ) (t : Table) → Step t (release event_ids t)
  -- The worker finishes a delivery with PROCESSED or IGNORED only.
  finishes :
      (now event_id : ℕ) (status : DeliveryStatus) (t : Table)
      → is_terminal status ≡ true
      → Step t (finish now event_id status t)
  retries :
      (now event_id : ℕ) (error : String) (delay : ℕ) (t : Table)
      → Step t (retry_later now event_id error delay t)
  gives_up : (now event_id : ℕ) (error : String) (t : Table) → Step t (give_up now event_id error t)
  prunes : (now keep_for : ℕ) (t : Table) → Step t (prune now keep_for t).0

pub data Reach (s : Table) : Table → Type 0 where
  here : Reach s s
  next : {t u : Table} → Reach s t → Step t u → Reach s u

abbrev pub empty_table : Table
empty_table = record { rows = []; next_id = 1 }

module _ (test : WebhookEvent → Bool) (values : WebhookEvent → WebhookEvent)
    (fits : Fits values) where
  update_where-IsWellFormed :
      (t : Table) → IsWellFormed t → IsWellFormed (update_where test values t)
  unfolding update_where
  update_where-IsWellFormed t w = record {
    keyed = IsKeyed-map test values fits t.rows w.keyed;
    below =
        All-update_where test values (λ r. r.id < t.next_id) (λ r. r.id < t.next_id) t.rows
          (λ r h. ground (arith, fits r)) w.below;
    locks =
        All-update_where test values IsLocked IsLocked t.rows (λ r h. ground (arith, fits r))
          w.locks;
  }

-- No row has the delivery id, so a new one differs from all of them.
fresh-DiffersFrom :
    (delivery_id : String) (n : ℕ) (e : WebhookEvent) (l : List WebhookEvent)
    → e.id ≡ n
    → e.github_delivery_id ≡ delivery_id
    → any (λ r. str_eq r.github_delivery_id delivery_id) l ≡ false
    → All (λ r. r.id < n) l
    → All (λ r. DiffersFrom r e) l
fresh-DiffersFrom delivery_id n e [] i d a h = tt
fresh-DiffersFrom delivery_id n e (r ∷ l) i d a h =
    ground (arith, eq_iff r.github_delivery_id delivery_id, fresh-DiffersFrom delivery_id n e l i d)

IsKeyed-append :
    (l : List WebhookEvent) (e : WebhookEvent)
    → IsKeyed l
    → All (λ r. DiffersFrom r e) l
    → IsKeyed (l ++ e ∷ [])
IsKeyed-append [] e h k = (tt, tt)
IsKeyed-append (r ∷ l) e h k =
    (All-append (DiffersFrom r) l (e ∷ []) h.0 (k.0, tt), IsKeyed-append l e h.1 k.1)

drawn-IsWellFormed :
    (t : Table) → IsWellFormed t → IsWellFormed (record t { next_id = t.next_id + 1 })
drawn-IsWellFormed t w = record {
  keyed = w.keyed;
  below =
      All-imp (λ r. r.id < t.next_id) (λ r. r.id < t.next_id + 1) t.rows (λ r h. omega arith)
        w.below;
  locks = w.locks;
}

enqueue-IsWellFormed :
    (now : ℕ) (delivery_id event_type payload_hash : String) (payload : JsonObject) (t : Table)
    → IsWellFormed t
    → IsWellFormed (enqueue now delivery_id event_type payload_hash payload t).0
unfolding enqueue is_processing
enqueue-IsWellFormed now delivery_id event_type payload_hash payload t w =
    let e = fresh_event now t.next_id delivery_id event_type payload_hash payload in
    elim (Bool-cases (any (λ r. str_eq r.github_delivery_id delivery_id) t.rows)) [
      | inl old ↦ rw old (
          update_where-IsWellFormed (given_up_on delivery_id) (revived payload)
            (revived-Fits payload) (record t { next_id = t.next_id + 1 }) (drawn-IsWellFormed t w))
      | inr new ↦ rw new (record {
        keyed =
            IsKeyed-append t.rows e w.keyed
              (fresh-DiffersFrom delivery_id t.next_id e t.rows refl refl new w.below);
        below =
            All-append (λ r. r.id < t.next_id + 1) t.rows (e ∷ []) (drawn-IsWellFormed t w).below
              (omega arith, tt);
        locks = All-append IsLocked t.rows (e ∷ []) w.locks (refl, tt);
      })
    ]

-- Every call of the store keeps the table well formed.
pub Step-IsWellFormed : {t u : Table} → Step t u → IsWellFormed t → IsWellFormed u
unfolding lease release finish retry_later give_up prune
Step-IsWellFormed (enqueues now delivery_id event_type payload_hash payload t) w =
    enqueue-IsWellFormed now delivery_id event_type payload_hash payload t w
Step-IsWellFormed (leases held limit lease_for now t) w =
    update_where-IsWellFormed (λ r. contains r.id (chosen held limit now t))
      (claimed (now + lease_for)) (claimed-Fits (now + lease_for)) t w
Step-IsWellFormed (releases event_ids t) w =
    update_where-IsWellFormed (λ r. contains r.id event_ids && is_processing r.status) released
      released-Fits t w
Step-IsWellFormed (finishes now event_id status t h) w =
    update_where-IsWellFormed (still_held event_id) (finished now status)
      (finished-Fits now status h) t w
Step-IsWellFormed (retries now event_id error delay t) w =
    update_where-IsWellFormed (still_held event_id) (sent_round (now + delay) error)
      (sent_round-Fits (now + delay) error) t w
Step-IsWellFormed (gives_up now event_id error t) w =
    update_where-IsWellFormed (still_held event_id) (given_up now error) (given_up-Fits now error) t
      w
Step-IsWellFormed (prunes now keep_for t) w = record {
  keyed = keep-IsKeyed (λ r. not (is_prunable now keep_for r)) t.rows w.keyed;
  below = All-keep (λ r. r.id < t.next_id) (λ r. not (is_prunable now keep_for r)) t.rows w.below;
  locks = All-keep IsLocked (λ r. not (is_prunable now keep_for r)) t.rows w.locks;
}

-- From the empty table, any calls in any order leave one row at most for a delivery id, one for
-- an id, and a lock on exactly the rows that are being processed.
pub Reach-IsWellFormed : {t : Table} → Reach empty_table t → IsWellFormed t
Reach-IsWellFormed here = record { keyed = tt; below = tt; locks = tt }
Reach-IsWellFormed (next r st) = Step-IsWellFormed st (Reach-IsWellFormed r)
