-- ===== src/Items/Holding.antt =====
-- shannon/services/sync/one_at_a_time.py: one writer at a time per item, Discord calls included.
use shannon_bot.Base.{
  Bool, Bool-cases, List, Option, [], ap, arith, contains, if◌then◌else◌, inl, inr, leb, leb→le,
  none, some, sym, ℕ, ◌%◌, ◌+◌, ◌-◌, ◌<◌, ◌==◌, ◌^◌, ◌↔◌, ◌∙◌, ◌∷◌, ◌≡◌,
}

-- Python's integers, on the native numbers.
pub data ℤ : Type 0 where
  pos negsuc : ℕ → ℤ

-- The part of `_lock_key` that two items may share.
unfoldable pub folded_id : ℕ → ℕ
folded_id github_object_id = github_object_id % 2 ^ 32

-- `m - 2**31`
unfoldable pub shifted : ℕ → ℤ
shifted m = if leb 2147483648 m then pos (m - 2147483648) else negsuc (2147483647 - m)

unfoldable pub lock_key : ℕ → ℤ
unfolding folded_id shifted
lock_key github_object_id = shifted (folded_id github_object_id)

-- The range of a 32-bit integer with a sign.
abbrev pub FitsInt32 : ℤ → Type 0
FitsInt32 (pos n) = n < 2147483648
FitsInt32 (negsuc n) = n < 2147483648

unfoldable pub unshifted : ℤ → ℕ
unshifted (pos n) = n + 2147483648
unshifted (negsuc n) = 2147483647 - n

shifted-FitsInt32 : (m : ℕ) → m < 4294967296 → FitsInt32 (shifted m)
unfolding shifted
shifted-FitsInt32 m h = elim (Bool-cases (leb 2147483648 m)) [
  | inl e ↦ rw e (omega arith)
  | inr e ↦ rw e (omega arith)
]

unshifted-shifted : (m : ℕ) → m < 4294967296 → unshifted (shifted m) ≡ m
unfolding unshifted shifted
unshifted-shifted m h = elim (Bool-cases (leb 2147483648 m)) [
  | inl e ↦ rw e (let up = leb→le 2147483648 m e in omega arith)
  | inr e ↦ rw e (ground arith)
]

folded_id_lem : (i : ℕ) → folded_id i < 4294967296
unfolding folded_id
folded_id_lem i = omega arith

-- Every key is one that an advisory lock allows, and the items of one key are those whose ids agree
-- modulo 2 ** 32: two items share a key only if their ids are that far apart, or a multiple of it.
pub lock_key_lem :
    (i j : ℕ) → FitsInt32 (lock_key i) × ((lock_key i ≡ lock_key j) ↔ (i % 2 ^ 32 ≡ j % 2 ^ 32))
unfolding lock_key folded_id
lock_key_lem i j = (
  shifted-FitsInt32 (folded_id i) (folded_id_lem i),
  (
    λ e.
        sym (unshifted-shifted (folded_id i) (folded_id_lem i))
        ∙ ap unshifted e
        ∙ unshifted-shifted (folded_id j) (folded_id_lem j),
    λ e. ap shifted e,
  ),
)

-- A block that a task is in: one that took the lock, with the items of `_ours` before it, or one inside
-- a block for the same item, which yielded at once.
pub data Block : Type 0 where
  takes : ℕ → List ℕ → Block
  again : ℕ → Block

unfoldable pub is_of : ℕ → Block → Bool
is_of item (takes i before) = i == item
is_of item (again i) = i == item

-- Who has each advisory lock, by its folded id, and for each task `_ours` and the blocks that it is in,
-- the innermost first.
pub record Locks : Type 0 where
  pub owner : ℕ → Option ℕ
  pub ours : ℕ → List ℕ
  pub blocks : ℕ → List Block

abbrev pub nobody_waits : Locks
nobody_waits = record { owner = λ key. none; ours = λ task. []; blocks = λ task. [] }

abbrev pub set_at {ℓ} : {A : Type ℓ} → ℕ → A → (ℕ → A) → ℕ → A
set_at i a f j = if i == j then a else f j

-- The lock is taken for the task.
unfoldable pub enter : ℕ → ℕ → Locks → Locks
unfolding folded_id
enter task item l = record {
  owner = set_at (folded_id item) (some task) l.owner;
  ours = set_at task (item ∷ l.ours task) l.ours;
  blocks = set_at task (takes item (l.ours task) ∷ l.blocks task) l.blocks;
}

unfoldable pub enter_again : ℕ → ℕ → Locks → Locks
enter_again task item l = record l { blocks = set_at task (again item ∷ l.blocks task) l.blocks }

-- The start of `held`: an item of `_ours` is entered at once, and for another the advisory lock is
-- asked for, which Postgres gives to one transaction at a time. None is a task that has to wait.
unfoldable pub held : ℕ → ℕ → Locks → Option Locks
unfolding enter enter_again
held task item l =
    if contains item (l.ours task)
    then some (enter_again task item l)
    else elim (l.owner (folded_id item)) [ none ↦ some (enter task item l) | some other ↦ none ]

-- The end of the innermost block: where it took the lock, the context variable is reset, and the
-- transaction lets the lock go.
unfoldable pub leave : ℕ → Block → List Block → Locks → Locks
unfolding folded_id
leave task (takes item before) outer l = record {
  owner = set_at (folded_id item) none l.owner;
  ours = set_at task before l.ours;
  blocks = set_at task outer l.blocks;
}
leave task (again item) outer l = record l { blocks = set_at task outer l.blocks }

-- What the tasks do, one after another; a wait that is cut short changes nothing.
pub data LockStep (l : Locks) : Locks → Type 0 where
  enters : {m : Locks} (task item : ℕ) → held task item l ≡ some m → LockStep l m
  leaves :
      (task : ℕ) (block : Block) (outer : List Block)
      → l.blocks task ≡ block ∷ outer
      → LockStep l (leave task block outer l)
  gives_up : (task item : ℕ) → held task item l ≡ none → LockStep l l

pub data LockReach : Locks → Type 0 where
  at_rest : LockReach nobody_waits
  and_step : {l m : Locks} → LockReach l → LockStep l m → LockReach m
