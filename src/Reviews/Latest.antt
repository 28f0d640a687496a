-- ===== src/Reviews/Latest.antt =====
-- What `latest_verdicts` holds: for each person, the verdict of their newest review with one.
-- Whom a review speaks for, if it carries a verdict.
use shannon_bot.Base.{
  All, All-In, All-at, All-imp, Bool, Bool-cases, In, List, Option, [], arith, at_head, false,
  if◌then◌else◌, in_tail, inl, inr, ltb, ltb→lt, none, refl, some, true, ◌∙◌, ◌∷◌, ◌≡◌, ◌≤◌, ◌⊎◌,
}
use shannon_bot.Domain.Text.{Text, text_eq}
use shannon_bot.People.Audience.{key_of}
use shannon_bot.People.Names.{text_eq_left, text_eq_right}
use shannon_bot.Reviews.Verdicts.{
  Review, Verdicts, by_id, counted, is_no_verdict, latest_from, latest_verdicts, place, put_verdict,
  verdict,
}
use shannon_bot.Sync.Policies.{Actor}

unfoldable pub voice_of : Option Actor → Text → Option Text
unfolding key_of is_no_verdict
voice_of none v = none
voice_of (some a) v = if is_no_verdict v then none else some (key_of a)

unfoldable pub is_voice : Text → Option Text → Bool
is_voice name none = false
is_voice name (some n) = text_eq n name

abbrev pub speaks : Text → Review → Bool
speaks name r = is_voice name (voice_of r.author (verdict r))

-- `latest.get(name)`
unfoldable pub said_by : Text → Verdicts → Option Text
said_by name [] = none
said_by name (e ∷ rest) =
    let later = said_by name rest in if text_eq e.0 name then some e.1 else later

said_by-put :
    (m name v : Text) (latest : Verdicts)
    → said_by m (put_verdict name v latest) ≡ (if text_eq name m then some v else said_by m latest)
unfolding said_by put_verdict
said_by-put m name v [] = refl
said_by-put m name v (e ∷ rest) = elim (Bool-cases (text_eq e.0 name)) [
  | inl same ↦ let moved = text_eq_left e.0 name m same in ground arith
  | inr other ↦ elim (Bool-cases (text_eq name m)) [
    | inl f ↦ let moved = text_eq_right name m e.0 f in ground (arith, said_by-put m name v rest)
    | inr f ↦ ground (arith, said_by-put m name v rest)
  ]
]

said_by-counted :
    (m : Text) (o : Option Actor) (v : Text) (latest : Verdicts)
    → said_by m (counted o v latest)
      ≡ (if is_voice m (voice_of o v) then some v else said_by m latest)
unfolding counted voice_of is_voice
said_by-counted m none v latest = refl
said_by-counted m (some a) v latest = elim (Bool-cases (is_no_verdict v)) [
  | inl e ↦ rw e refl
  | inr e ↦ rw e (said_by-put m (key_of a) v latest)
]

abbrev pub IsById : List Review → Type 0
IsById [] = Unit
IsById (r ∷ rest) = All (λ q. r.review_id ≤ q.review_id) rest × IsById rest

All-place :
    (P : Review → Type 0) (r : Review) (rest : List Review)
    → P r
    → All P rest
    → All P (place r rest)
unfolding place
All-place P r [] p h = (p, tt)
All-place P r (q ∷ rest) p h = elim (Bool-cases (ltb q.review_id r.review_id)) [
  | inl e ↦ rw e (h.0, All-place P r rest p h.1)
  | inr e ↦ rw e (p, h)
]

All-placed :
    (P : Review → Type 0) (r : Review) (rest : List Review)
    → All P (place r rest)
    → P r × All P rest
unfolding place
All-placed P r [] h = h
All-placed P r (q ∷ rest) h = elim (Bool-cases (ltb q.review_id r.review_id)) [
  | inl e ↦
      let h' : P q × All P (place r rest) = rw e at h in
      let (p, g) = All-placed P r rest h'.1 in (p, (h'.0, g))
  | inr e ↦ rw e at h
]

pub All-by_id : (P : Review → Type 0) (rs : List Review) → All P rs → All P (by_id rs)
unfolding by_id
All-by_id P [] h = tt
All-by_id P (r ∷ rs) h = All-place P r (by_id rs) h.0 (All-by_id P rs h.1)

All-of_by_id : (P : Review → Type 0) (rs : List Review) → All P (by_id rs) → All P rs
unfolding by_id
All-of_by_id P [] h = tt
All-of_by_id P (r ∷ rs) h = let (p, g) = All-placed P r (by_id rs) h in (p, All-of_by_id P rs g)

place-IsById : (r : Review) (rest : List Review) → IsById rest → IsById (place r rest)
unfolding place
place-IsById r [] h = (tt, tt)
place-IsById r (q ∷ rest) h = elim (Bool-cases (ltb q.review_id r.review_id)) [
  | inl e ↦ rw e (
    All-place (λ x. q.review_id ≤ x.review_id) r rest
        (omega (arith, ltb→lt q.review_id r.review_id e)) h.0,
    place-IsById r rest h.1,
  )
  | inr e ↦
      let le : r.review_id ≤ q.review_id = ground arith in
      rw e (
        (
          le,
          All-imp (λ x. q.review_id ≤ x.review_id) (λ x. r.review_id ≤ x.review_id) rest
              (λ x g. omega arith) h.0,
        ),
        h,
      )
]

by_id-IsById : (rs : List Review) → IsById (by_id rs)
unfolding by_id
by_id-IsById [] = tt
by_id-IsById (r ∷ rs) = place-IsById r (by_id rs) (by_id-IsById rs)

-- No review of that person with a verdict is newer.
abbrev pub IsNewest : Text → Review → List Review → Type 0
IsNewest name r rs = All (λ q. (q.review_id ≤ r.review_id) ⊎ (speaks name q ≡ false)) rs

-- The answer for one person: as before if no review speaks for them, or their newest one.
abbrev pub Answered : Text → Option Text → List Review → Option Text → Type 0
Answered name before rs answer =
    ((answer ≡ before) × All (λ q. speaks name q ≡ false) rs)
    ⊎ ((r : Review) × In r rs
        × (speaks name r ≡ true)
        × (answer ≡ some (verdict r))
        × IsNewest name r rs)

IsNewest-none :
    (name : Text) (r : Review) (rs : List Review)
    → All (λ q. speaks name q ≡ false) rs
    → IsNewest name r rs
IsNewest-none name r rs h =
    All-imp (λ q. speaks name q ≡ false)
      (λ q. (q.review_id ≤ r.review_id) ⊎ (speaks name q ≡ false)) rs (λ q e. inr e) h

latest_from-Answered :
    (name : Text) (latest : Verdicts) (rs : List Review)
    → IsById rs
    → Answered name (said_by name latest) rs (said_by name (latest_from latest rs))
unfolding latest_from
latest_from-Answered name latest [] h = inl (refl, tt)
latest_from-Answered name latest (r ∷ rs) h =
    let step = said_by-counted name r.author (verdict r) latest in
    elim (latest_from-Answered name (counted r.author (verdict r) latest) rs h.1) [
      | inl (same, silent) ↦ elim (Bool-cases (speaks name r)) [
        | inl e ↦ inr (
          r,
          at_head,
          e,
          same ∙ step ∙ rw e refl,
          (inl (omega arith), IsNewest-none name r rs silent),
        )
        | inr e ↦ inl (same ∙ step ∙ rw e refl, (e, silent))
      ]
      | inr (q, m, e, answer, newest) ↦
          inr
            (q, in_tail m, e, answer, (inl (All-at (λ x. r.review_id ≤ x.review_id) m h.0), newest))
    ]

In-of_by_id : (r : Review) (rs : List Review) → In r (by_id rs) → In r rs
In-of_by_id r rs m =
    All-at (λ q. In q rs) m (All-by_id (λ q. In q rs) rs (All-In (λ q. In q rs) rs (λ q n. n)))

-- For each person, in whatever order the reviews came: their verdict is that of a review of theirs
-- with a verdict, and no other of those is newer; or there is none, and no review of theirs has a
-- verdict.
pub latest_verdicts-newest :
    (name : Text) (reviews : List Review)
    → Answered name none reviews (said_by name (latest_verdicts reviews))
unfolding latest_verdicts said_by
latest_verdicts-newest name reviews =
    elim (latest_from-Answered name [] (by_id reviews) (by_id-IsById reviews)) [
      | inl (same, silent) ↦ inl (same, All-of_by_id (λ q. speaks name q ≡ false) reviews silent)
      | inr (r, m, e, answer, newest) ↦ inr (
        r,
        In-of_by_id r reviews m,
        e,
        answer,
        All-of_by_id (λ q. (q.review_id ≤ r.review_id) ⊎ (speaks name q ≡ false)) reviews newest,
      )
    ]
