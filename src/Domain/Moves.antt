-- ===== src/Domain/Moves.antt =====
-- shannon/domain/board.py: what `must_pass_through` promises.
use shannon_bot.Base.{
  Bool-cases, List, Option, [], ap, arith, false, inl, inr, leb, leb→le, ltb, ltb→lt, none, refl,
  some, subst, suc, sym, take, true, zero, ℕ, ◌+◌, ◌-◌, ◌<◌, ◌∙◌, ◌∷◌, ◌≡◌, ◌≢◌, ◌≤◌,
}
use shannon_bot.Domain.Board.{between, must_pass_through, normalise, place_from, place_of, steps}
use shannon_bot.Domain.Text.{Text, text_eq, text_eq_iff}

abbrev pub drop {ℓ} : {A : Type ℓ} → ℕ → List A → List A
drop zero xs = xs
drop (suc n) [] = []
drop (suc n) (x ∷ xs) = drop n xs

take_nil {ℓ} : {A : Type ℓ} (n : ℕ) → [] ≡ take {A = A} n []
take_nil zero = refl
take_nil (suc n) = refl

one_more : (at stop : ℕ) → at < stop → stop - at ≡ suc (stop - (at + 1))
one_more at stop lt = omega arith

take_first :
    (at stop : ℕ) (column : Text) (rest : List Text)
    → at < stop
    → take (stop - at) (column ∷ rest) ≡ column ∷ take (stop - (at + 1)) rest
take_first at stop column rest lt = ap (λ (k : ℕ). take k (column ∷ rest)) (one_more at stop lt)

started_here :
    (at start stop : ℕ) (column : Text) (rest : List Text)
    → start ≤ at
    → ltb at stop ≡ true
    → between (at + 1) start stop rest ≡ take (stop - (at + 1)) rest
    → between at start stop (column ∷ rest) ≡ take (stop - at) (column ∷ rest)
unfolding between
started_here at start stop column rest le e h =
    let first = take_first at stop column rest (ltb→lt at stop e) in
    let started : leb start at ≡ true = ground arith in rw (started, e, h) (sym first)

started_past :
    (at start stop : ℕ) (column : Text) (rest : List Text)
    → ltb at stop ≡ false
    → between (at + 1) start stop rest ≡ take (stop - (at + 1)) rest
    → between at start stop (column ∷ rest) ≡ take (stop - at) (column ∷ rest)
unfolding between
started_past at start stop column rest e h =
    let over : stop - at ≡ 0 = ground arith in
    let over' : stop - (at + 1) ≡ 0 = ground arith in
    ground
      (arith, h, ap (λ (k : ℕ). take k (column ∷ rest)) over, ap (λ (k : ℕ). take k rest) over')

between-started :
    (at start stop : ℕ) (columns : List Text)
    → start ≤ at
    → between at start stop columns ≡ take (stop - at) columns
unfolding between
between-started at start stop [] le = take_nil (stop - at)
between-started at start stop (column ∷ rest) le = elim (Bool-cases (ltb at stop)) [
  | inl e ↦
      started_here at start stop column rest le e
        (between-started (at + 1) start stop rest (omega arith))
  | inr e ↦
      started_past at start stop column rest e
        (between-started (at + 1) start stop rest (omega arith))
]

next_place : (at n : ℕ) → at + 1 + n ≡ at + suc n
next_place at n = omega arith

nothing_left : (p q : ℕ) → q ≤ p → 0 ≡ q - (p + 1)
nothing_left p q le = omega arith

moved :
    (at n stop : ℕ) (rest : List Text)
    → between (at + 1) (at + 1 + n) stop rest ≡ take (stop - (at + 1 + n)) (drop n rest)
    → between (at + 1) (at + suc n) stop rest ≡ take (stop - (at + suc n)) (drop n rest)
moved at n stop rest h =
    subst (λ (k : ℕ). between (at + 1) k stop rest ≡ take (stop - k) (drop n rest))
      (next_place at n) h

none_between :
    (p q : ℕ) (columns : List Text) → q ≤ p → [] ≡ take (q - (p + 1)) (drop (p + 1) columns)
none_between p q columns le = ap (λ (k : ℕ). take k (drop (p + 1) columns)) (nothing_left p q le)

between-drop :
    (at n stop : ℕ) (columns : List Text)
    → between at (at + n) stop columns ≡ take (stop - (at + n)) (drop n columns)
unfolding between
between-drop at zero stop columns =
    between-started at (at + 0) stop columns (omega arith)
    ∙ ap (λ (k : ℕ). take (stop - k) columns) (omega arith)
between-drop at (suc n) stop [] = take_nil (stop - (at + suc n))
between-drop at (suc n) stop (column ∷ rest) =
    ground (arith, moved at n stop rest (between-drop (at + 1) n stop rest))

from_zero : (p : ℕ) → 0 + (p + 1) ≡ p + 1
from_zero p = omega arith

ahead_between :
    (p q : ℕ) (columns : List Text)
    → between 0 (p + 1) q columns ≡ take (q - (p + 1)) (drop (p + 1) columns)
ahead_between p q columns =
    subst (λ (k : ℕ). between 0 k q columns ≡ take (q - k) (drop (p + 1) columns)) (from_zero p)
      (between-drop 0 (p + 1) q columns)

-- The first column that reads as a name in its normal form, at that number from the left.
abbrev pub IsFirst : ℕ → Text → List Text → Type 0
IsFirst p name [] = ⊥
IsFirst zero name (column ∷ rest) = normalise column ≡ name
IsFirst (suc p) name (column ∷ rest) = (normalise column ≢ name) × IsFirst p name rest

place_of-IsFirst :
    (at p : ℕ) (name : Text) (columns : List Text)
    → IsFirst p name columns
    → place_of at name columns ≡ some (at + p)
unfolding place_of
place_of-IsFirst at p name [] h = absurd h
place_of-IsFirst at zero name (column ∷ rest) h =
    rw ((text_eq_iff (normalise column) name).1 h) (ap (λ (k : ℕ). some k) (omega arith))
place_of-IsFirst at (suc p) name (column ∷ rest) h =
    elim (Bool-cases (text_eq (normalise column) name)) [
      | inl same ↦ absurd (h.0 ((text_eq_iff (normalise column) name).0 same))
      | inr other ↦
          rw other
            (place_of-IsFirst (at + 1) p name rest h.1 ∙ ap (λ (k : ℕ). some k) (next_place at p))
    ]

place_of_first :
    (p : ℕ) (name : Text) (columns : List Text)
    → IsFirst p name columns
    → place_of 0 name columns ≡ some p
place_of_first p name columns h =
    place_of-IsFirst 0 p name columns h ∙ ap (λ (k : ℕ). some k) (omega arith)

-- The column that an item is in reads as that name in its normal form, where it has one.
abbrev pub IsNamed : Option Text → Text → Type 0
IsNamed none name = ⊥
IsNamed (some []) name = ⊥
IsNamed (some (c ∷ s)) name = normalise (c ∷ s) ≡ name

place_from-IsFirst :
    (frm : Option Text) (name : Text) (p : ℕ) (columns : List Text)
    → IsNamed frm name
    → IsFirst p name columns
    → place_from frm columns ≡ some p
unfolding place_from
place_from-IsFirst none name p columns n h = absurd n
place_from-IsFirst (some []) name p columns n h = absurd n
place_from-IsFirst (some (c ∷ s)) name p columns n h =
    ap (λ (x : Text). place_of 0 x columns) n ∙ place_of_first p name columns h

-- Where both columns are on the board, each taken as the first column that reads as it in its normal
-- form: the columns between the two, in the board's order and spelling, are those an item must pass
-- through: none when it goes back, stays or goes to the next.
pub must_pass_through-between :
    (columns : List Text) (frm : Option Text) (name to : Text) (p q : ℕ)
    → IsNamed frm name
    → IsFirst p name columns
    → IsFirst q (normalise to) columns
    → must_pass_through columns frm to ≡ take (q - (p + 1)) (drop (p + 1) columns)
unfolding must_pass_through steps
must_pass_through-between columns frm name to p q named h k =
    let e = place_from-IsFirst frm name p columns named h in
    let f = place_of_first q (normalise to) columns k in
    rw (e, f)
      (elim (Bool-cases (leb q p)) [
        | inl back ↦ rw back (none_between p q columns (leb→le q p back))
        | inr ahead ↦ rw ahead (ahead_between p q columns)
      ])
