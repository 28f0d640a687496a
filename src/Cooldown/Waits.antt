-- ===== src/Cooldown/Waits.antt =====
-- The waits of shannon/commands/_cooldowns.py: how long the next run is told to wait, and when it
-- is let in.
use shannon_bot.Base.{
  All, All-keep, Bool, Bool-cases, List, Option, [], ap, arith, contains, false, if◌then◌else◌, inl,
  inr, keep, ltb, none, not, refl, some, sym, ℕ, ◌*◌, ◌+◌, ◌-◌, ◌/◌, ◌==◌, ◌∙◌, ◌∷◌, ◌≡◌, ◌≢◌, ◌≤◌,
}
use shannon_bot.Cooldown.{
  Answer, Cooldown, Wait, begin, begun, find_wait, finish, is_waiting, wait_for, whole_seconds,
}

-- The waits have distinct keys, as a dict's do.
unfoldable pub NoWait : ℕ → List Wait → Type 0
NoWait key waits = All (λ w. w.key ≢ key) waits

unfoldable pub Distinct : List Wait → Type 0
unfolding NoWait
Distinct [] = Unit
Distinct (w ∷ rest) = NoWait w.key rest × Distinct rest

unfoldable pub IsWellFormed : Cooldown → Type 0
IsWellFormed c = Distinct c.waits

abbrev still : ℕ → ℕ → Option ℕ → Option ℕ
still now spacing none = none
still now spacing (some at) = if ltb (now - at) spacing then some at else none

NoWait-find_wait : (key : ℕ) (waits : List Wait) → NoWait key waits → find_wait key waits ≡ none
unfolding find_wait NoWait
NoWait-find_wait key [] h = refl
NoWait-find_wait key (w ∷ rest) h = ground (arith, NoWait-find_wait key rest h.1)

NoWait-keep :
    (p : Wait → Bool) (key : ℕ) (waits : List Wait) → NoWait key waits → NoWait key (keep p waits)
unfolding NoWait
NoWait-keep p key waits h = All-keep (λ w. w.key ≢ key) p waits h

keep-Distinct : (p : Wait → Bool) (waits : List Wait) → Distinct waits → Distinct (keep p waits)
unfolding Distinct
keep-Distinct p [] h = tt
keep-Distinct p (w ∷ rest) h = elim (Bool-cases (p w)) [
  | inl e ↦ rw e (NoWait-keep p w.key rest h.0, keep-Distinct p rest h.1)
  | inr e ↦ rw e (keep-Distinct p rest h.1)
]

-- A sweep forgets a wait exactly when it is up.
find_wait-keep :
    (now spacing key : ℕ) (waits : List Wait)
    → Distinct waits
    → find_wait key (keep (is_waiting now spacing) waits) ≡ still now spacing (find_wait key waits)
unfolding find_wait Distinct
find_wait-keep now spacing key [] h = refl
find_wait-keep now spacing key (w ∷ rest) h = elim (Bool-cases (w.key == key)) [
  | inl e ↦ ground (
    arith,
    NoWait-find_wait w.key rest h.0,
    NoWait-find_wait w.key (keep (is_waiting now spacing) rest)
        (NoWait-keep (is_waiting now spacing) w.key rest h.0),
  )
  | inr e ↦ ground (arith, find_wait-keep now spacing key rest h.1)
]

find_wait-at : (key : ℕ) (waits : List Wait) → NoWait key (keep (λ w. not (w.key == key)) waits)
unfolding NoWait
find_wait-at key [] = tt
find_wait-at key (w ∷ rest) = ground (arith, find_wait-at key rest)

begin-waits :
    (now key : ℕ) (c : Cooldown)
    → (begin now key c).0.waits ≡ keep (is_waiting now c.spacing) c.waits
unfolding begin
begin-waits now key c = ground arith

begin-spacing : (now key : ℕ) (c : Cooldown) → (begin now key c).0.spacing ≡ c.spacing
unfolding begin
begin-spacing now key c = ground arith

-- What `begin` answers by the wait it finds, when no run is under way.
abbrev verdict : ℕ → ℕ → Option ℕ → Answer
verdict now spacing none = begun
verdict now spacing (some at) =
    if ltb (now - at) spacing then wait_for (whole_seconds (spacing - (now - at))) else begun

verdict-still :
    (now key : ℕ) (c : Cooldown) (o : Option ℕ)
    → contains key c.running ≡ false
    → find_wait key (keep (is_waiting now c.spacing) c.waits) ≡ still now c.spacing o
    → (begin now key c).1 ≡ verdict now c.spacing o
unfolding begin
verdict-still now key c none h e = ground arith
verdict-still now key c (some at) h e = ground arith

begin-verdict :
    (now key : ℕ) (c : Cooldown)
    → IsWellFormed c
    → contains key c.running ≡ false
    → (begin now key c).1 ≡ verdict now c.spacing (find_wait key c.waits)
unfolding IsWellFormed
begin-verdict now key c h e =
    verdict-still now key c (find_wait key c.waits) e (find_wait-keep now c.spacing key c.waits h)

-- A dict's keys stay distinct, whatever begins and finishes.
pub begin-IsWellFormed :
    (now key : ℕ) (c : Cooldown) → IsWellFormed c → IsWellFormed (begin now key c).0
unfolding IsWellFormed
begin-IsWellFormed now key c h =
    rw (begin-waits now key c) (keep-Distinct (is_waiting now c.spacing) c.waits h)

pub finish-IsWellFormed :
    (now key : ℕ) (c : Cooldown) → IsWellFormed c → IsWellFormed (finish now key c)
unfolding IsWellFormed finish Distinct
finish-IsWellFormed now key c h =
    (find_wait-at key c.waits, keep-Distinct (λ w. not (w.key == key)) c.waits h)

stopped : (key : ℕ) (xs : List ℕ) → contains key (keep (λ k. not (k == key)) xs) ≡ false
stopped key [] = refl
stopped key (x ∷ xs) = ground (arith, stopped key xs)

found_now : (now key : ℕ) (c : Cooldown) → find_wait key (finish now key c).waits ≡ some now
unfolding finish find_wait
found_now now key c = ground arith

-- Where waits have distinct keys: after a run finished, the next is told to wait for what is left
-- of the spacing, in seconds rounded up, and begins once the spacing has passed.
pub begin-finish :
    (now later key : ℕ) (c : Cooldown)
    → IsWellFormed c
    → (begin later key (finish now key c)).1 ≡ (
        if ltb (later - now) c.spacing
        then wait_for (whole_seconds (c.spacing - (later - now)))
        else begun)
unfolding begin finish
begin-finish now later key c h =
    begin-verdict later key (finish now key c) (finish-IsWellFormed now key c h)
      (stopped key c.running)
    ∙ ap (verdict later c.spacing) (found_now now key c)

abbrev StillPast : ℕ → Option ℕ → Type 0
StillPast now none = Unit
StillPast now (some at) = at ≤ now

wait_for-inj : {a b : ℕ} → wait_for a ≡ wait_for b → a ≡ b
wait_for-inj e = cc e

up :
    (now later spacing seconds at : ℕ)
    → at ≤ now
    → (spacing - (now - at) + 999999) / 1000000 ≡ seconds
    → now + seconds * 1000000 ≤ later
    → (if ltb (later - at) spacing
        then wait_for (whole_seconds (spacing - (later - at)))
        else begun)
      ≡ begun
up now later spacing seconds at p e le =
    let enough : spacing ≤ later - at = omega arith in ground arith

no_longer :
    (now later spacing seconds : ℕ) (o : Option ℕ)
    → StillPast now o
    → verdict now spacing o ≡ wait_for seconds
    → now + seconds * 1000000 ≤ later
    → verdict later spacing (still now spacing o) ≡ begun
unfolding whole_seconds
no_longer now later spacing seconds none p e le = refl
no_longer now later spacing seconds (some at) p e le = elim (Bool-cases (ltb (now - at) spacing)) [
  | inl t ↦ rw t (up now later spacing seconds at p (wait_for-inj (rw t at e)) le)
  | inr f ↦ ground arith
]

-- Every finish is in the past: the clock never steps back.
unfoldable pub IsPast : ℕ → Cooldown → Type 0
IsPast now c = All (λ w. w.at ≤ now) c.waits

past-found :
    (now key : ℕ) (waits : List Wait)
    → All (λ w. w.at ≤ now) waits
    → StillPast now (find_wait key waits)
unfolding find_wait
past-found now key [] h = tt
past-found now key (w ∷ rest) h = ground (arith, past-found now key rest h.1)

not_under_way :
    (now key seconds : ℕ) (c : Cooldown)
    → (begin now key c).1 ≡ wait_for seconds
    → (contains key c.running ≡ false) × (contains key (begin now key c).0.running ≡ false)
unfolding begin
not_under_way now key seconds c e = ground arith

-- Where waits have distinct keys and no finish is in the future: who was told how many seconds to
-- wait is let in after that long, the seconds being rounded up.
pub begin-wait_for :
    (now later key seconds : ℕ) (c : Cooldown)
    → IsWellFormed c
    → IsPast now c
    → (begin now key c).1 ≡ wait_for seconds
    → now + seconds * 1000000 ≤ later
    → (begin later key (begin now key c).0).1 ≡ begun
unfolding IsPast IsWellFormed
begin-wait_for now later key seconds c h p e le =
    let (free, still_free) = not_under_way now key seconds c e in
    let o = find_wait key c.waits in
    let swept = find_wait-keep now c.spacing key c.waits h in
    begin-verdict later key (begin now key c).0 (begin-IsWellFormed now key c h) still_free
    ∙ rw (begin-spacing now key c, begin-waits now key c, swept)
        (no_longer now later c.spacing seconds o (past-found now key c.waits p)
          (sym (begin-verdict now key c h free) ∙ e) le)
