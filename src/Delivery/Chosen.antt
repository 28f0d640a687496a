-- ===== src/Delivery/Chosen.antt =====
-- Which rows a lease chooses.
use shannon_bot.Base.{
  All, All-In, All-at, All-take, Bool, In, List, [], arith, at_head, contains, contains-All,
  in_tail, keep, not, refl, subst, sym, take, true, ℕ, ◌&&◌, ◌∷◌, ◌≡◌,
}
use shannon_bot.Delivery.Order.{All-ids, All-sort_by_id}
use shannon_bot.Delivery.Rows.{IsKeyed}
use shannon_bot.Delivery.Store.{Table, WebhookEvent, chosen, eligible, sort_by_id}

-- The ids that `lease` chooses satisfy whatever every eligible row's id does.
pub chosen-All :
    (P : ℕ → Type 0) (held : ℕ → Bool) (limit now : ℕ) (t : Table)
    → All (λ r. eligible now r ≡ true → P r.id) t.rows
    → All P (chosen held limit now t)
unfolding chosen
chosen-All P held limit now t h =
    let free = keep (λ r. eligible now r && not (held r.id)) t.rows in
    All-ids P (take limit (sort_by_id free)) (
      All-take (λ r. P r.id) limit (sort_by_id free)
        (All-sort_by_id (λ r. P r.id) free (All-kept t.rows h)))
  where
    All-kept :
        (l : List WebhookEvent)
        → All (λ r. eligible now r ≡ true → P r.id) l
        → All (λ r. P r.id) (keep (λ r. eligible now r && not (held r.id)) l)
    All-kept [] h = tt
    All-kept (r ∷ l) h = ground (arith, All-kept l h.1)

-- In a keyed table an id names one row.
pub IsKeyed-unique :
    {r s : WebhookEvent} {l : List WebhookEvent} → IsKeyed l → In r l → In s l → r.id ≡ s.id → r ≡ s
IsKeyed-unique k at_head at_head e = refl
IsKeyed-unique k at_head (in_tail n) e = absurd ((All-at _ n k.0).0 e)
IsKeyed-unique k (in_tail m) at_head e = absurd ((All-at _ m k.0).0 (sym e))
IsKeyed-unique k (in_tail m) (in_tail n) e = IsKeyed-unique k.1 m n e

-- So the rows that bear a chosen id are eligible.
pub chosen-eligible :
    (held : ℕ → Bool) (limit now : ℕ) (t : Table) (r : WebhookEvent)
    → IsKeyed t.rows
    → In r t.rows
    → contains r.id (chosen held limit now t) ≡ true
    → eligible now r ≡ true
chosen-eligible held limit now t r k m c =
    contains-All (λ j. j ≡ r.id → eligible now r ≡ true) r.id (chosen held limit now t)
      (chosen-All (λ j. j ≡ r.id → eligible now r ≡ true) held limit now t
        (All-In (λ s. eligible now s ≡ true → s.id ≡ r.id → eligible now r ≡ true) t.rows
          (λ s n e same. subst (λ x. eligible now x ≡ true) (IsKeyed-unique k n m same) e)))
      c refl
