-- ===== src/Domain/Lines.antt =====
-- `lines_within` of shannon/domain/text.py: the leading whole lines that fit a budget.
use shannon_bot.Base.{
  Bool, Bool-cases, List, [], ap, arith, false, if◌then◌else◌, inl, inr, length, length-append, ltb,
  refl, true, ℕ, ◌++◌, ◌+◌, ◌<◌, ◌==◌, ◌∷◌, ◌≡◌, ◌≢◌, ◌≤◌,
}
use shannon_bot.Domain.Text.{Text, behind, join, push_code, split_at}

abbrev pub newline : ℕ
newline = 10

unfoldable pub is_newline : ℕ → Bool
is_newline c = c == newline

-- `text.split("\n")`
unfoldable pub lines : Text → List Text
unfolding split_at is_newline
lines = split_at is_newline

-- The loop, with what was used so far; `more` is whether a line was kept before.
unfoldable pub fitting : Bool → ℕ → ℕ → List Text → List Text
fitting more used budget [] = []
fitting more used budget (line ∷ rest) =
    let cost = length line + (if more then 1 else 0) in
    let kept = fitting true (used + cost) budget rest in
    if ltb budget (used + cost) then [] else line ∷ kept

unfoldable pub lines_within : Text → ℕ → List Text
unfolding lines fitting
lines_within s budget = fitting false 0 budget (lines s)

-- What a list of lines takes up when it is joined again, after something or not.
abbrev pub cost_of : Bool → List Text → ℕ
cost_of more [] = 0
cost_of more (line ∷ rest) = length line + (if more then 1 else 0) + cost_of true rest

fitting-le :
    (more : Bool) (used budget : ℕ) (l : List Text)
    → used ≤ budget
    → used + cost_of more (fitting more used budget l) ≤ budget
unfolding fitting
fitting-le more used budget [] h = omega arith
fitting-le more used budget (line ∷ rest) h =
    ground (arith, fitting-le true (used + (length line + (if more then 1 else 0))) budget rest)

length-behind : (l : List Text) → length (behind (newline ∷ []) l) ≡ cost_of true l
unfolding behind
length-behind [] = refl
length-behind (line ∷ rest) =
    omega (arith, length-append line (behind (newline ∷ []) rest), length-behind rest)

length-join : (l : List Text) → length (join (newline ∷ []) l) ≡ cost_of false l
unfolding join
length-join [] = refl
length-join (line ∷ rest) =
    omega (arith, length-append line (behind (newline ∷ []) rest), length-behind rest)

-- The lines kept, joined again, fit the budget.
pub lines_within-fits :
    (s : Text) (budget : ℕ) → length (join (newline ∷ []) (lines_within s budget)) ≤ budget
unfolding lines_within
lines_within-fits s budget =
    rw length-join (omega (arith, fitting-le false 0 budget (lines s) (omega arith)))

-- Joining the lines of a text gives the text back.
join-push_code :
    (c : ℕ) (l : List Text) → join (newline ∷ []) (push_code c l) ≡ c ∷ join (newline ∷ []) l
unfolding join push_code
join-push_code c [] = refl
join-push_code c (line ∷ rest) = refl

push_code-nonempty :
    (c : ℕ) (l : List Text) → (p : Text) × (rest : List Text) × (push_code c l ≡ p ∷ rest)
unfolding push_code
push_code-nonempty c [] = (c ∷ [], [], refl)
push_code-nonempty c (p ∷ rest) = (c ∷ p, rest, refl)

lines-nonempty : (s : Text) → (p : Text) × (rest : List Text) × (lines s ≡ p ∷ rest)
unfolding lines split_at
lines-nonempty [] = ([], [], refl)
lines-nonempty (c ∷ s) = elim (Bool-cases (is_newline c)) [
  | inl hit ↦ ([], lines s, rw hit refl)
  | inr miss ↦ rw miss (push_code-nonempty c (lines s))
]

behind-nonempty :
    (l : List Text) (p : Text) (rest : List Text)
    → l ≡ p ∷ rest
    → behind (newline ∷ []) l ≡ newline ∷ join (newline ∷ []) l
unfolding behind join
behind-nonempty l p rest e = rw e refl

is_newline-eq : (c : ℕ) → is_newline c ≡ true → c ≡ newline
unfolding is_newline
is_newline-eq c h = ground arith

-- The lines of a text, joined, are the text.
join-lines : (s : Text) → join (newline ∷ []) (lines s) ≡ s
unfolding lines split_at join
join-lines [] = unfold behind in refl
join-lines (c ∷ s) =
    let (p, rest, e) = lines-nonempty s in
    elim (Bool-cases (is_newline c)) [
      | inl hit ↦
          rw (hit, behind-nonempty (lines s) p rest e) (cc (join-lines s, is_newline-eq c hit))
      | inr miss ↦ rw (miss, join-push_code) (ap (λ x. c ∷ x) (join-lines s))
    ]

-- Of a text that is too long some line is left out.
pub lines_within-stops :
    (s : Text) (budget : ℕ) → budget < length s → lines_within s budget ≢ lines s
lines_within-stops s budget long same =
    let fits : length (join (newline ∷ []) (lines s)) ≤ budget =
      rw same at (lines_within-fits s budget) in
    let whole : length s ≤ budget = rw join-lines at fits in omega arith

abbrev pub Leaves : Bool → ℕ → ℕ → List Text → List Text → List Text → Type 0
Leaves more used budget l kept [] = l ≡ kept
Leaves more used budget l kept (line ∷ rest) =
    (l ≡ kept ++ line ∷ rest) × (budget < used + cost_of more (kept ++ line ∷ []))

fitting-longest :
    (more : Bool) (used budget : ℕ) (l : List Text)
    → (rest : List Text) × Leaves more used budget l (fitting more used budget l) rest
unfolding fitting
fitting-longest more used budget [] = ([], refl)
fitting-longest more used budget (line ∷ l) =
    let cost = length line + (if more then 1 else 0) in
    elim (Bool-cases (ltb budget (used + cost))) [
      | inl over ↦ rw over (line ∷ l, (refl, ground arith))
      | inr fits ↦
          rw fits (
            onto (fitting true (used + cost) budget l)
              (fitting-longest true (used + cost) budget l))
    ]
  where
    onto :
        (kept : List Text)
        → (rest : List Text) × Leaves true
            (used + (length line + (if more then 1 else 0)))
            budget
            l
            kept
            rest
        → (rest : List Text) × Leaves more used budget (line ∷ l) (line ∷ kept) rest
    onto kept ([], e) = ([], ap (λ x. line ∷ x) e)
    onto kept (next_line ∷ rest, e) =
        (next_line ∷ rest, (ap (λ x. line ∷ x) e.0, omega (arith, e.1)))

-- The lines kept are the leading lines, and as many as fit: with the next one they would not.
pub lines_within-longest :
    (s : Text) (budget : ℕ)
    → (rest : List Text) × Leaves false 0 budget (lines s) (lines_within s budget) rest
unfolding lines_within
lines_within-longest s budget = fitting-longest false 0 budget (lines s)
