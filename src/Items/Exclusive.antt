-- ===== src/Items/Exclusive.antt =====
-- Two tasks are never in the block for one item.
use mathlib.Core.Option.{some-injective}
use shannon_bot.Base.{
  ==_iff, All, All-at, All-both, All-imp, Bool-cases, In, List, Option, Option-cases, [], any, ap,
  arith, at_head, contains, in_tail, inl, inr, none, refl, some, subst, sym, true, ℕ, ◌==◌, ◌∙◌,
  ◌∷◌, ◌≡◌, ◌≢◌,
}
use shannon_bot.Items.Holding.{
  Block, LockReach, Locks, again, and_step, at_rest, enter, enter_again, enters, folded_id,
  gives_up, held, is_of, leave, leaves, set_at, takes,
}

-- No two items of a task share a lock.
abbrev AreApart : List ℕ → Type 0
AreApart [] = Unit
AreApart (i ∷ items) = All (λ j. folded_id j ≢ folded_id i) items × AreApart items

abbrev Owns : Locks → ℕ → ℕ → Type 0
Owns l task item = l.owner (folded_id item) ≡ some task

-- The locks of a task's items are its own, and one for each.
record IsHeld (l : Locks) : Type 0 where
  owned : (task : ℕ) → All (Owns l task) (l.ours task)
  apart : (task : ℕ) → AreApart (l.ours task)

set_at_same {ℓ} : {A : Type ℓ} (i : ℕ) (a : A) (f : ℕ → A) → set_at i a f i ≡ a
set_at_same i a f = ground arith

set_at_other {ℓ} : {A : Type ℓ} (i j : ℕ) (a : A) (f : ℕ → A) → i ≢ j → set_at i a f j ≡ f j
set_at_other i j a f ne = ground arith

differs : (f : ℕ → Option ℕ) (a b task : ℕ) → f a ≡ none → f b ≡ some task → a ≢ b
differs f a b task free owned e = let no : none ≡ some task = sym free ∙ ap f e ∙ owned in cc

-- A lock that an item does not share stays whose it is.
Owns-set_at :
    (l : Locks) (task key item : ℕ) (o : Option ℕ)
    → key ≢ folded_id item
    → Owns l task item
    → set_at key o l.owner (folded_id item) ≡ some task
Owns-set_at l task key item o ne e = set_at_other key (folded_id item) o l.owner ne ∙ e

enter-IsHeld :
    (l : Locks) (task item : ℕ)
    → l.owner (folded_id item) ≡ none
    → IsHeld l
    → IsHeld (enter task item l)
unfolding enter
enter-IsHeld l task item free h = record { owned = owned; apart = apart }
  where
    key : ℕ
    key = folded_id item

    others :
        (other : ℕ)
        → All (λ j. set_at key (some task) l.owner (folded_id j) ≡ some other) (l.ours other)
    others other =
        All-imp (Owns l other) (λ j. set_at key (some task) l.owner (folded_id j) ≡ some other)
          (l.ours other)
          (λ j e.
            Owns-set_at l other key j (some task) (differs l.owner key (folded_id j) other free e)
              e)
          (h.owned other)

    mine : All (λ j. folded_id j ≢ key) (l.ours task)
    mine =
        All-imp (Owns l task) (λ j. folded_id j ≢ key) (l.ours task)
          (λ j e same. differs l.owner key (folded_id j) task free e (sym same)) (h.owned task)

    owned :
        (other : ℕ)
        → All
            (λ j. set_at key (some task) l.owner (folded_id j) ≡ some other)
            (set_at task (item ∷ l.ours task) l.ours other)
    owned other = elim (Bool-cases (task == other)) [
      | inl same ↦
          let one : task ≡ other = (==_iff task other).0 same in
          subst
            (λ o.
              All (λ j. set_at key (some task) l.owner (folded_id j) ≡ some o)
                (set_at task (item ∷ l.ours task) l.ours o))
            one
            (rw (set_at_same task (item ∷ l.ours task) l.ours)
              (set_at_same key (some task) l.owner, others task))
      | inr differ ↦ rw differ (others other)
    ]

    apart : (other : ℕ) → AreApart (set_at task (item ∷ l.ours task) l.ours other)
    apart other = elim (Bool-cases (task == other)) [
      | inl same ↦ rw same (mine, h.apart task)
      | inr differ ↦ rw differ (h.apart other)
    ]

leave-IsHeld :
    (l : Locks) (task item : ℕ) (outer : List ℕ) (rest_of : List Block)
    → l.ours task ≡ item ∷ outer
    → IsHeld l
    → IsHeld (leave task (takes item outer) rest_of l)
unfolding leave
leave-IsHeld l task item outer rest_of e h = record { owned = owned; apart = apart }
  where
    key : ℕ
    key = folded_id item

    all_owned : All (Owns l task) (item ∷ outer)
    all_owned = subst (All (Owns l task)) e (h.owned task)

    all_apart : AreApart (item ∷ outer)
    all_apart = subst AreApart e (h.apart task)

    rest : All (λ j. set_at key none l.owner (folded_id j) ≡ some task) outer
    rest =
        All-imp (λ j. (folded_id j ≢ key) × Owns l task j)
          (λ j. set_at key none l.owner (folded_id j) ≡ some task) outer
          (λ j p. Owns-set_at l task key j none (λ same. p.0 (sym same)) p.1)
          (All-both (λ j. folded_id j ≢ key) (Owns l task) outer all_apart.0 all_owned.1)

    other_task :
        (other : ℕ)
        → task ≢ other
        → All (λ j. set_at key none l.owner (folded_id j) ≡ some other) (l.ours other)
    other_task other differ =
        All-imp (Owns l other) (λ j. set_at key none l.owner (folded_id j) ≡ some other)
          (l.ours other)
          (λ j k.
            Owns-set_at l other key j none
              (λ same. differ (some-injective _ _ (sym all_owned.0 ∙ ap l.owner same ∙ k))) k)
          (h.owned other)

    owned :
        (other : ℕ)
        → All
            (λ j. set_at key none l.owner (folded_id j) ≡ some other)
            (set_at task outer l.ours other)
    owned other = elim (Bool-cases (task == other)) [
      | inl same ↦
          subst
            (λ o.
              All (λ j. set_at key none l.owner (folded_id j) ≡ some o)
                (set_at task outer l.ours o))
            ((==_iff task other).0 same) (rw (set_at_same task outer l.ours) rest)
      | inr differ ↦ rw differ (other_task other (λ same. ground arith))
    ]

    apart : (other : ℕ) → AreApart (set_at task outer l.ours other)
    apart other = elim (Bool-cases (task == other)) [
      | inl same ↦ rw same all_apart.1
      | inr differ ↦ rw differ (h.apart other)
    ]

-- The blocks of a task agree with `_ours`: a block that took the lock has put its item there, and a
-- block inside it found it there.
abbrev IsStack : List Block → List ℕ → Type 0
IsStack [] items = items ≡ []
IsStack (takes item before ∷ outer) items = (items ≡ item ∷ before) × IsStack outer before
IsStack (again item ∷ outer) items = (contains item items ≡ true) × IsStack outer items

record IsKept (l : Locks) : Type 0 where
  locked : IsHeld l
  stacked : (task : ℕ) → IsStack (l.blocks task) (l.ours task)

-- An item whose block a task is in is in `_ours`.
inside-ours :
    (item : ℕ) (blocks : List Block) (items : List ℕ)
    → IsStack blocks items
    → any (is_of item) blocks ≡ true
    → contains item items ≡ true
unfolding is_of
inside-ours item [] items h e = cc
inside-ours item (takes i before ∷ outer) items (same, h) e = elim (Bool-cases (i == item)) [
  | inl one ↦ rw same (ground arith)
  | inr other ↦
      let deeper = inside-ours item outer before h (ground arith) in rw same (ground arith)
]
inside-ours item (again i ∷ outer) items (m, h) e = elim (Bool-cases (i == item)) [
  | inl one ↦ subst (λ (k : ℕ). contains k items ≡ true) ((==_iff i item).0 one) m
  | inr other ↦ inside-ours item outer items h (ground arith)
]

-- One task's blocks and `_ours` change together.
IsStack-set_at :
    (task : ℕ) (blocks : List Block) (items : List ℕ) (f : ℕ → List Block) (g : ℕ → List ℕ)
    → IsStack blocks items
    → ((other : ℕ) → IsStack (f other) (g other))
    → ((other : ℕ) → IsStack (set_at task blocks f other) (set_at task items g other))
IsStack-set_at task blocks items f g h k other = elim (Bool-cases (task == other)) [
  | inl same ↦ rw same h
  | inr differ ↦ rw differ (k other)
]

IsStack-set_blocks :
    (task : ℕ) (blocks : List Block) (f : ℕ → List Block) (g : ℕ → List ℕ)
    → IsStack blocks (g task)
    → ((other : ℕ) → IsStack (f other) (g other))
    → ((other : ℕ) → IsStack (set_at task blocks f other) (g other))
IsStack-set_blocks task blocks f g h k other = elim (Bool-cases (task == other)) [
  | inl same ↦ rw same (subst (λ (i : ℕ). IsStack blocks (g i)) ((==_iff task other).0 same) h)
  | inr differ ↦ rw differ (k other)
]

enter-IsKept :
    (l : Locks) (task item : ℕ)
    → l.owner (folded_id item) ≡ none
    → IsKept l
    → IsKept (enter task item l)
unfolding enter
enter-IsKept l task item free h = record {
  locked = enter-IsHeld l task item free h.locked;
  stacked =
      IsStack-set_at task (takes item (l.ours task) ∷ l.blocks task) (item ∷ l.ours task) l.blocks
        l.ours (refl, h.stacked task) h.stacked;
}

enter_again-IsKept :
    (l : Locks) (task item : ℕ)
    → contains item (l.ours task) ≡ true
    → IsKept l
    → IsKept (enter_again task item l)
unfolding enter_again
enter_again-IsKept l task item mine h = record {
  locked = record { owned = h.locked.owned; apart = h.locked.apart };
  stacked =
      IsStack-set_blocks task (again item ∷ l.blocks task) l.blocks l.ours (mine, h.stacked task)
        h.stacked;
}

held-IsKept : (l m : Locks) (task item : ℕ) → held task item l ≡ some m → IsKept l → IsKept m
unfolding held
held-IsKept l m task item e h = elim (Bool-cases (contains item (l.ours task))) [
  | inl mine ↦
      let same : some (enter_again task item l) ≡ some m = rw (held, mine) at e in
      subst IsKept (some-injective _ _ same) (enter_again-IsKept l task item mine h)
  | inr new ↦ elim (Option-cases (l.owner (folded_id item))) [
    | inl free ↦
        let same : some (enter task item l) ≡ some m = rw (held, new, free) at e in
        subst IsKept (some-injective _ _ same) (enter-IsKept l task item free h)
    | inr (other, busy) ↦
        let out : ◌≡◌ {A = Option Locks} none (some m) = rw (held, new, busy) at e in cc
  ]
]

leave-IsKept :
    (l : Locks) (task : ℕ) (block : Block) (outer : List Block)
    → l.blocks task ≡ block ∷ outer
    → IsKept l
    → IsKept (leave task block outer l)
unfolding leave
leave-IsKept l task (takes item before) outer e h =
    let (same, rest) = subst (λ (bs : List Block). IsStack bs (l.ours task)) e (h.stacked task) in
    record {
      locked = leave-IsHeld l task item before outer same h.locked;
      stacked = IsStack-set_at task outer before l.blocks l.ours rest h.stacked;
    }
leave-IsKept l task (again item) outer e h =
    let (mine, rest) = subst (λ (bs : List Block). IsStack bs (l.ours task)) e (h.stacked task) in
    record {
      locked = record { owned = h.locked.owned; apart = h.locked.apart };
      stacked = IsStack-set_blocks task outer l.blocks l.ours rest h.stacked;
    }

LockReach-IsKept : {l : Locks} → LockReach l → IsKept l
LockReach-IsKept at_rest = record {
  locked = record { owned = λ task. tt; apart = λ task. tt };
  stacked = λ task. refl;
}
LockReach-IsKept (and_step {l} {m} before (enters task item e)) =
    held-IsKept l m task item e (LockReach-IsKept before)
LockReach-IsKept (and_step {l} before (leaves task block outer e)) =
    leave-IsKept l task block outer e (LockReach-IsKept before)
LockReach-IsKept (and_step before (gives_up task item e)) = LockReach-IsKept before

contains-In : (i : ℕ) (items : List ℕ) → contains i items ≡ true → In i items
contains-In i [] e = cc
contains-In i (j ∷ items) e = elim (Bool-cases (i == j)) [
  | inl same ↦ subst (λ k. In i (k ∷ items)) ((==_iff i j).0 same) at_head
  | inr other ↦ in_tail (contains-In i items (ground arith))
]

-- However tasks enter blocks, again or inside others, leave them and give up waiting, in whatever
-- order, none of them started from inside a block: two tasks that are in the block for an item are one,
-- and for two items whose ids fold together as well.
pub LockReach-exclusive :
    {l : Locks}
    → LockReach l
    → (task task' item item' : ℕ) → folded_id item ≡ folded_id item'
    → any (is_of item) (l.blocks task) ≡ true
    → any (is_of item') (l.blocks task') ≡ true
    → task ≡ task'
LockReach-exclusive {l} run task task' item item' one there there' =
    let h = LockReach-IsKept run in
    let in_ours = inside-ours item (l.blocks task) (l.ours task) (h.stacked task) there in
    let in_theirs = inside-ours item' (l.blocks task') (l.ours task') (h.stacked task') there' in
    let mine : l.owner (folded_id item) ≡ some task =
      All-at (Owns l task) (contains-In item (l.ours task) in_ours) (h.locked.owned task) in
    let theirs : l.owner (folded_id item') ≡ some task' =
      All-at (Owns l task') (contains-In item' (l.ours task') in_theirs) (h.locked.owned task') in
    some-injective _ _ (sym mine ∙ ap l.owner one ∙ theirs)
