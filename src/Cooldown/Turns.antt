-- ===== src/Cooldown/Turns.antt =====
-- The turns of shannon/commands/_cooldowns.py: one run at a time for each key.
use shannon_bot.Base.{
  All, Bool-cases, List, [], arith, contains, inl, inr, keep, not, refl, true, ℕ, ◌==◌, ◌∷◌, ◌≡◌,
  ◌≢◌,
}
use shannon_bot.Cooldown.{Cooldown, begin, begun, finish, under_way}

pub data Op : Type 0 where
  begins : ℕ → ℕ → Op
  finishes : ℕ → ℕ → Op

unfoldable pub apply_op : Op → Cooldown → Cooldown
unfolding begin finish
apply_op (begins now key) c = (begin now key c).0
apply_op (finishes now key) c = finish now key c

unfoldable pub apply_all : List Op → Cooldown → Cooldown
unfolding apply_op
apply_all [] c = c
apply_all (op ∷ ops) c = apply_all ops (apply_op op c)

-- The call does not finish this key.
abbrev pub FinishesAnother : ℕ → Op → Type 0
FinishesAnother key (begins now other) = Unit
FinishesAnother key (finishes now other) = other ≢ key

kept_running :
    (key other : ℕ) (xs : List ℕ)
    → other ≢ key
    → contains key xs ≡ true
    → contains key (keep (λ k. not (k == other)) xs) ≡ true
kept_running key other [] h e = e
kept_running key other (x ∷ xs) h e = elim (Bool-cases (key == x)) [
  | inl same ↦ ground arith
  | inr differs ↦ ground (arith, kept_running key other xs h)
]

keeps_running :
    (key : ℕ) (op : Op) (c : Cooldown)
    → FinishesAnother key op
    → contains key c.running ≡ true
    → contains key (apply_op op c).running ≡ true
unfolding apply_op begin finish
keeps_running key (begins now other) c h e = ground arith
keeps_running key (finishes now other) c h e = kept_running key other c.running h e

All-keeps_running :
    (key : ℕ) (ops : List Op) (c : Cooldown)
    → All (FinishesAnother key) ops
    → contains key c.running ≡ true
    → contains key (apply_all ops c).running ≡ true
unfolding apply_all
All-keeps_running key [] c h e = e
All-keeps_running key (op ∷ ops) c h e =
    All-keeps_running key ops (apply_op op c) h.1 (keeps_running key op c h.0 e)

starts :
    (now key : ℕ) (c : Cooldown)
    → (begin now key c).1 ≡ begun
    → contains key (begin now key c).0.running ≡ true
unfolding begin
starts now key c e = ground arith

refused :
    (now key : ℕ) (c : Cooldown) → contains key c.running ≡ true → (begin now key c).1 ≡ under_way
unfolding begin
refused now key c e = rw e refl

-- Once a run has begun, every other for its key is refused, until a call finishes that key.
begin_once :
    (now later key : ℕ) (ops : List Op) (c : Cooldown)
    → (begin now key c).1 ≡ begun
    → All (FinishesAnother key) ops
    → (begin later key (apply_all ops (begin now key c).0)).1 ≡ under_way
unfolding begin
begin_once now later key ops c e h =
    refused later key (apply_all ops (begin now key c).0)
      (All-keeps_running key ops (begin now key c).0 h (starts now key c e))
