-- ===== src/Items/Arriving.antt =====
-- What the database half leaves of the row, whatever order deliveries come in.
use mathlib.Core.Option.{some-injective}
use shannon_bot.Base.{
  Bool-cases, Option, ap, arith, false, if◌then◌else◌, inl, inr, none, refl, some, sym, true, ℕ,
  ◌∙◌, ◌≡◌, ◌≢◌,
}
use shannon_bot.Domain.Text.{Text}
use shannon_bot.Items.Recording.{
  Decision, Delivered, Mirror, adopt, applied_to, decide, greatest, is_late, keep_stored, or_kept,
  raised_mark, store_people, work, work_of,
}
use shannon_bot.People.Ledger.{Assignments}
use shannon_bot.Sync.Policies.{asked_again, assignments, display_state, item_of}
use shannon_bot.Sync.Staleness.{arrived_earlier, is_superseded}
use shannon_bot.Threads.Pointers.{TrackedItem}

-- The row behind a delivery.
abbrev pub judged : Delivered → TrackedItem → TrackedItem
judged d r = if is_late d r then r else applied_to d r

-- What a row says of GitHub's object, and of the delivery it came from.
pub record Facts : Type 0 where
  pub title : Text
  pub github_state : Text
  pub mark : Option ℕ
  pub number : Option ℕ

abbrev pub facts_of : TrackedItem → Facts
facts_of r = record {
  title = r.title;
  github_state = r.github_state;
  mark = r.github_updated_at;
  number = r.last_delivery_id;
}

-- The facts of a delivery that is stamped and numbered.
abbrev told_by : Text → Text → ℕ → ℕ → Facts
told_by title shown at arrival = record {
  title = title;
  github_state = shown;
  mark = some at;
  number = some arrival;
}

-- The later of the two keeps.
newer : Facts → Facts → Facts
unfolding is_superseded
newer f g = if is_superseded g.mark f.mark g.number f.number then f else g

newer_comm :
    (f : Facts) (title title' shown shown' : Text) (at at' n n' : ℕ)
    → n ≢ n'
    → newer (newer f (told_by title shown at n)) (told_by title' shown' at' n')
      ≡ newer (newer f (told_by title' shown' at' n')) (told_by title shown at n)
unfolding newer is_superseded arrived_earlier
newer_comm f title title' shown shown' at at' n n' ne = go f.mark f.number refl refl
  where
    go :
        (m k : Option ℕ)
        → f.mark ≡ m
        → f.number ≡ k
        → newer (newer f (told_by title shown at n)) (told_by title' shown' at' n')
          ≡ newer (newer f (told_by title' shown' at' n')) (told_by title shown at n)
    go none k e e' = rw (newer, e) (ground arith)
    go (some m) none e e' = rw (newer, e, e') (ground arith)
    go (some m) (some k) e e' = rw (newer, e, e') (ground arith)

-- A delivery that is stamped and numbered.
pub record IsStamped (d : Delivered) (at arrival : ℕ) : Type 0 where
  pub is_stamped : d.updated_at ≡ some at
  pub is_numbered : d.arrival ≡ some arrival

raised_mark-current :
    (at : ℕ) (stored arrival number : Option ℕ)
    → is_superseded (some at) stored arrival number ≡ false
    → raised_mark stored (some at) ≡ some at
unfolding is_superseded raised_mark greatest
raised_mark-current at none arrival number e = refl
raised_mark-current at (some m) arrival number e = ground arith

facts_of-judged :
    (d : Delivered) (at arrival : ℕ) (r : TrackedItem)
    → IsStamped d at arrival
    → facts_of (judged d r)
      ≡ newer
          (facts_of r)
          (told_by (item_of d.snapshot).title (display_state d.snapshot) at arrival)
unfolding newer applied_to is_late
facts_of-judged d at arrival r s = elim (Bool-cases (is_late d r)) [
  | inl late ↦
      let late' : is_superseded (some at) r.github_updated_at (some arrival) r.last_delivery_id
          ≡ true =
        rw (is_late, s.is_stamped, s.is_numbered) at late in
      rw (late, newer, late') refl
  | inr current ↦
      let current' : is_superseded (some at) r.github_updated_at (some arrival) r.last_delivery_id
          ≡ false =
        rw (is_late, s.is_stamped, s.is_numbered) at current in
      let mark : raised_mark r.github_updated_at d.updated_at ≡ some at =
        rw s.is_stamped
          (raised_mark-current at r.github_updated_at (some arrival) r.last_delivery_id current') in
      rw (current, newer, current', applied_to, mark, or_kept, s.is_numbered) refl
]

-- The row of the item behind a transaction.
abbrev pub row_in : Mirror → TrackedItem → TrackedItem
row_in m r = elim m.item [ none ↦ r | some after ↦ after ]

none-some : {A : Type 0} {a : A} → ◌≡◌ {A = Option A} none (some a) → ⊥
none-some e = cc

decide-judged :
    (guild_id channel_id : ℕ) (d : Delivered) (r : TrackedItem) (t : Assignments) (m : Mirror)
    (x : Decision)
    → decide guild_id channel_id d r t ≡ some (m, x)
    → row_in m r ≡ judged d r
unfolding decide keep_stored adopt
decide-judged guild_id channel_id d r t m x e = elim (Bool-cases (is_late d r)) [
  | inl late ↦
      let e' : some (keep_stored guild_id channel_id d r t) ≡ some (m, x) =
        rw (decide, late) at e in
      let same = ap (λ (p : Mirror × Decision). row_in p.0 r) (some-injective _ _ e') in
      rw late (sym same)
  | inr current ↦
      let e' : adopt guild_id channel_id d r t ≡ some (m, x) = rw (decide, current) at e in
      rw current (
        go (store_people r.id (assignments d.snapshot) (asked_again d.snapshot) d.updated_at t) refl
          e')
]
  where
    go :
        (o : Option Assignments)
        → store_people r.id (assignments d.snapshot) (asked_again d.snapshot) d.updated_at t ≡ o
        → adopt guild_id channel_id d r t ≡ some (m, x)
        → row_in m r ≡ applied_to d r
    go none k e = elim (none-some (rw (adopt, k) at e)) [ ]
    go (some people_now) k e =
        let e' : some (
          record { item = some (applied_to d r); ledger = people_now },
          work (work_of guild_id channel_id false d.snapshot (applied_to d r)),
        )
            ≡ some (m, x) =
          rw (adopt, k) at e in
        sym (ap (λ (p : Mirror × Decision). row_in p.0 r) (some-injective _ _ e'))

-- The facts behind two deliveries.
facts_of-two :
    (guild_id channel_id : ℕ) (d d' : Delivered) (at at' n n' : ℕ) (r : TrackedItem)
    (t : Assignments) (m m' : Mirror) (x x' : Decision)
    → IsStamped d at n
    → IsStamped d' at' n'
    → decide guild_id channel_id d r t ≡ some (m, x)
    → decide guild_id channel_id d' (row_in m r) m.ledger ≡ some (m', x')
    → facts_of (row_in m' (row_in m r))
      ≡ newer
          (newer (facts_of r) (told_by (item_of d.snapshot).title (display_state d.snapshot) at n))
          (told_by (item_of d'.snapshot).title (display_state d'.snapshot) at' n')
facts_of-two guild_id channel_id d d' at at' n n' r t m m' x x' s s' one two =
    let told' = told_by (item_of d'.snapshot).title (display_state d'.snapshot) at' n' in
    let first : row_in m r ≡ judged d r = decide-judged guild_id channel_id d r t m x one in
    ap facts_of (decide-judged guild_id channel_id d' (row_in m r) m.ledger m' x' two)
    ∙ facts_of-judged d' at' n' (row_in m r) s'
    ∙ ap (λ z. newer (facts_of z) told') first
    ∙ ap (λ f. newer f told') (facts_of-judged d at n r s)

-- Where two deliveries are stamped, and numbered apart, and the database refuses neither: in either
-- order they leave the item with the same title, state, mark and delivery number.
pub decide_comm :
    (guild_id channel_id : ℕ) (d d' : Delivered) (at at' n n' : ℕ) (r : TrackedItem)
    (t : Assignments) (m m' k k' : Mirror) (x x' y y' : Decision)
    → IsStamped d at n
    → IsStamped d' at' n'
    → n ≢ n'
    → decide guild_id channel_id d r t ≡ some (m, x)
    → decide guild_id channel_id d' (row_in m r) m.ledger ≡ some (m', x')
    → decide guild_id channel_id d' r t ≡ some (k, y)
    → decide guild_id channel_id d (row_in k r) k.ledger ≡ some (k', y')
    → facts_of (row_in m' (row_in m r)) ≡ facts_of (row_in k' (row_in k r))
decide_comm guild_id channel_id d d' at at' n n' r t m m' k k' x x' y y' s s' ne one two three
      four =
    facts_of-two guild_id channel_id d d' at at' n n' r t m m' x x' s s' one two
    ∙ newer_comm (facts_of r) (item_of d.snapshot).title (item_of d'.snapshot).title
        (display_state d.snapshot) (display_state d'.snapshot) at at' n n' ne
    ∙ sym (facts_of-two guild_id channel_id d' d at' at n' n r t k k' y y' s' s three four)
