-- ===== src/Delivery/Batches.antt =====
-- The batch that a lease makes: distinct deliveries that agree with their rows.
use shannon_bot.Base.{
  All, All-In, All-imp, All-map, Bool, List, [], ap, arith, contains, keep, map, sym, true, ℕ, ◌∷◌,
  ◌≡◌, ◌≢◌,
}
use shannon_bot.Delivery.Chosen.{IsKeyed-unique}
use shannon_bot.Delivery.Leases.{leased-All}
use shannon_bot.Delivery.Order.{All-insert_by_id, All-sort_by_id}
use shannon_bot.Delivery.Rows.{DiffersFrom, IsKeyed, keep-IsKeyed}
use shannon_bot.Delivery.Store.{Table, WebhookEvent, chosen, insert_by_id, lease, sort_by_id}
use shannon_bot.Delivery.Worker.{Delivery, delivery_of}

-- The copy that the worker holds agrees with the row on how often it was tried.
abbrev pub Agrees : Delivery → WebhookEvent → Type 0
Agrees d r = r.id ≡ d.id → r.attempts ≡ d.attempts

-- Every row with this id is in `rows` at most once, as far as the batch goes.
abbrev pub IsApart : ℕ → List Delivery → Type 0
IsApart i ds = All (λ d. d.id ≢ i) ds

abbrev pub HasDistinctIds : List Delivery → Type 0
HasDistinctIds [] = Unit
HasDistinctIds (d ∷ ds) = IsApart d.id ds × HasDistinctIds ds

-- Sorting and filtering keep the keys distinct.
insert_by_id-IsKeyed :
    (r : WebhookEvent) (l : List WebhookEvent)
    → All (DiffersFrom r) l
    → IsKeyed l
    → IsKeyed (insert_by_id r l)
unfolding insert_by_id
insert_by_id-IsKeyed r [] h k = (tt, tt)
insert_by_id-IsKeyed r (x ∷ l) h k = ground (
  arith,
  All-insert_by_id (DiffersFrom x) r l ((λ e. h.0.0 (sym e)), (λ e. h.0.1 (sym e))) k.0,
  insert_by_id-IsKeyed r l h.1 k.1,
)

sort_by_id-IsKeyed : (l : List WebhookEvent) → IsKeyed l → IsKeyed (sort_by_id l)
unfolding sort_by_id
sort_by_id-IsKeyed [] k = tt
sort_by_id-IsKeyed (r ∷ l) k =
    insert_by_id-IsKeyed r (sort_by_id l) (All-sort_by_id (DiffersFrom r) l k.0)
      (sort_by_id-IsKeyed l k.1)

IsKeyed-HasDistinctIds : (l : List WebhookEvent) → IsKeyed l → HasDistinctIds (map delivery_of l)
unfolding delivery_of
IsKeyed-HasDistinctIds [] k = tt
IsKeyed-HasDistinctIds (r ∷ l) k = (
  All-map (λ d. d.id ≢ r.id) delivery_of l
      (All-imp (DiffersFrom r) (λ x. x.id ≢ r.id) l (λ x d e. d.0 (sym e)) k.0),
  IsKeyed-HasDistinctIds l k.1,
)

-- The copies that a lease makes agree with the table that it leaves.
pub leased-agree :
    (held : ℕ → Bool) (limit lease_for now : ℕ) (t : Table)
    → IsKeyed (lease held limit lease_for now t).0.rows
    → All
        (λ d. All (Agrees d) (lease held limit lease_for now t).0.rows)
        (map delivery_of (lease held limit lease_for now t).1)
unfolding delivery_of
leased-agree held limit lease_for now t k =
    let after = (lease held limit lease_for now t).0.rows in
    All-map (λ d. All (Agrees d) after) delivery_of (lease held limit lease_for now t).1
      (leased-All held limit lease_for now t (λ r. All (Agrees (delivery_of r)) after)
        (All-In
          (λ r. contains r.id (chosen held limit now t) ≡ true → All (Agrees (delivery_of r)) after)
          after
          (λ r m c.
            All-In (Agrees (delivery_of r)) after
              (λ x n e. ap (λ (y : WebhookEvent). y.attempts) (IsKeyed-unique k n m e)))))

pub leased-HasDistinctIds :
    (held : ℕ → Bool) (limit lease_for now : ℕ) (t : Table)
    → IsKeyed (lease held limit lease_for now t).0.rows
    → HasDistinctIds (map delivery_of (lease held limit lease_for now t).1)
unfolding lease
leased-HasDistinctIds held limit lease_for now t k =
    let after = (lease held limit lease_for now t).0.rows in
    IsKeyed-HasDistinctIds (lease held limit lease_for now t).1 (
      sort_by_id-IsKeyed (keep (λ r. contains r.id (chosen held limit now t)) after)
        (keep-IsKeyed (λ r. contains r.id (chosen held limit now t)) after k))
