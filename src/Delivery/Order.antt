-- ===== src/Delivery/Order.antt =====
-- The order in which `lease` hands deliveries out.
use shannon_bot.Base.{
  All, All-at, All-of, Bool, In, List, [], arith, contains, false, inl, inr, keep, length, not,
  refl, suc, take, true, zero, ℕ, ◌&&◌, ◌+◌, ◌∷◌, ◌≡◌, ◌≤◌, ◌⊎◌,
}
use shannon_bot.Delivery.Store.{
  Table, WebhookEvent, chosen, claimed, eligible, ids, insert_by_id, lease, sort_by_id,
  update_where,
}

abbrev pub IsAscending : List WebhookEvent → Type 0
IsAscending [] = Unit
IsAscending (r ∷ rest) = All (λ s. r.id ≤ s.id) rest × IsAscending rest

module _ (P : WebhookEvent → Type 0) where
  pub All-insert_by_id :
      (r : WebhookEvent) (l : List WebhookEvent) → P r → All P l → All P (insert_by_id r l)
  unfolding insert_by_id
  All-insert_by_id r [] p h = (p, tt)
  All-insert_by_id r (s ∷ l) p h = ground (arith, All-insert_by_id r l p h.1)

  pub All-sort_by_id : (l : List WebhookEvent) → All P l → All P (sort_by_id l)
  unfolding sort_by_id
  All-sort_by_id [] h = tt
  All-sort_by_id (r ∷ l) h = All-insert_by_id r (sort_by_id l) h.0 (All-sort_by_id l h.1)

  insert_by_id-All :
      (r : WebhookEvent) (l : List WebhookEvent) → All P (insert_by_id r l) → P r × All P l
  unfolding insert_by_id
  insert_by_id-All r [] h = (h.0, tt)
  insert_by_id-All r (s ∷ l) h = ground (arith, insert_by_id-All r l)

  pub sort_by_id-All : (l : List WebhookEvent) → All P (sort_by_id l) → All P l
  unfolding sort_by_id
  sort_by_id-All [] h = tt
  sort_by_id-All (r ∷ l) h =
      let (p, q) = insert_by_id-All r (sort_by_id l) h in (p, sort_by_id-All l q)

  -- The other way round for `keep`: whoever passes the test is in what was kept.
  keep-All :
      (p : WebhookEvent → Bool) (l : List WebhookEvent)
      → All P (keep p l)
      → All (λ r. p r ≡ true → P r) l
  keep-All p [] h = tt
  keep-All p (r ∷ l) h = ground (arith, keep-All p l)

module _ (P : ℕ → Type 0) where
  pub All-ids : (l : List WebhookEvent) → All (λ r. P r.id) l → All P (ids l)
  All-ids [] h = tt
  All-ids (r ∷ l) h = (h.0, All-ids l h.1)

le-All : (a b : ℕ) (l : List WebhookEvent) → a ≤ b → All (λ s. b ≤ s.id) l → All (λ s. a ≤ s.id) l
le-All a b [] h k = tt
le-All a b (s ∷ l) h k = (omega arith, le-All a b l h k.1)

insert_by_id-IsAscending :
    (r : WebhookEvent) (l : List WebhookEvent) → IsAscending l → IsAscending (insert_by_id r l)
unfolding insert_by_id
insert_by_id-IsAscending r [] h = (tt, tt)
insert_by_id-IsAscending r (s ∷ l) h = ground (
  arith,
  le-All r.id s.id l,
  All-insert_by_id (λ x. s.id ≤ x.id) r l,
  insert_by_id-IsAscending r l h.1,
)

sort_by_id-IsAscending : (l : List WebhookEvent) → IsAscending (sort_by_id l)
unfolding sort_by_id
sort_by_id-IsAscending [] = tt
sort_by_id-IsAscending (r ∷ l) =
    insert_by_id-IsAscending r (sort_by_id l) (sort_by_id-IsAscending l)

-- What `lease` hands to the worker is in the order of arrival, however the table lies on disk and
-- whatever order RETURNING has.
pub lease-IsAscending :
    (held : ℕ → Bool) (limit lease_for now : ℕ) (t : Table)
    → IsAscending (lease held limit lease_for now t).1
unfolding lease
lease-IsAscending held limit lease_for now t =
    let after =
      update_where (λ r. contains r.id (chosen held limit now t)) (claimed (now + lease_for)) t in
    sort_by_id-IsAscending (keep (λ r. contains r.id (chosen held limit now t)) after.rows)

-- Of an ascending list, what `take` leaves behind comes after all that it takes.
abbrev Waits : ℕ → List WebhookEvent → WebhookEvent → Type 0
Waits n l r =
    (contains r.id (ids (take n l)) ≡ true)
    ⊎ (All (λ i. i ≤ r.id) (ids (take n l)) × (length (ids (take n l)) ≡ n))

Waits-cons :
    (n : ℕ) (s r : WebhookEvent) (l : List WebhookEvent)
    → s.id ≤ r.id
    → Waits n l r
    → Waits (suc n) (s ∷ l) r
Waits-cons n s r l h (inl taken) = inl (ground arith)
Waits-cons n s r l h (inr (before, full)) = inr ((h, before), omega arith)

All-Waits-cons :
    (n : ℕ) (s : WebhookEvent) (l rest : List WebhookEvent)
    → All (λ r. s.id ≤ r.id) rest
    → All (Waits n l) rest
    → All (Waits (suc n) (s ∷ l)) rest
All-Waits-cons n s l [] h k = tt
All-Waits-cons n s l (r ∷ rest) h k =
    (Waits-cons n s r l h.0 k.0, All-Waits-cons n s l rest h.1 k.1)

All-Waits : (n : ℕ) (l : List WebhookEvent) → IsAscending l → All (Waits n l) l
All-Waits n [] h = tt
All-Waits zero (s ∷ l) h = All-of (Waits zero (s ∷ l)) (λ r. inr (tt, refl)) (s ∷ l)
All-Waits (suc n) (s ∷ l) h = (inl (ground arith), All-Waits-cons n s l l h.0 (All-Waits n l h.1))

-- First come, first served: a row that could have been taken and was not comes after every row
-- that was taken, and the batch was full.
pub lease-first_come :
    (held : ℕ → Bool) (limit now : ℕ) (t : Table) (r : WebhookEvent)
    → In r t.rows
    → eligible now r ≡ true
    → held r.id ≡ false
    → (contains r.id (chosen held limit now t) ≡ true)
      ⊎ (All (λ i. i ≤ r.id) (chosen held limit now t) × (length (chosen held limit now t) ≡ limit))
unfolding chosen
lease-first_come held limit now t r m e h =
    let free = keep (λ r. eligible now r && not (held r.id)) t.rows in
    All-at (λ r. (eligible now r && not (held r.id)) ≡ true → Waits limit (sort_by_id free) r) m
      (keep-All (Waits limit (sort_by_id free)) (λ r. eligible now r && not (held r.id)) t.rows
        (sort_by_id-All (Waits limit (sort_by_id free)) free
          (All-Waits limit (sort_by_id free) (sort_by_id-IsAscending free))))
      (rw (e, h))
