-- ===== src/Reviews/Verdicts.antt =====
-- shannon/services/reviews.py: what each person's review of a pull request currently says. A dict
-- is the list of its entries in order of insertion.
use shannon_bot.Base.{
  Bool, List, Option, [], any, false, if◌then◌else◌, ltb, none, not, some, ℕ, ◌||◌, ◌∷◌,
}
use shannon_bot.Domain.Text.{Text, codes, lower, text_eq}
use shannon_bot.People.Audience.{key_of}
use shannon_bot.Sync.Policies.{Actor}

pub record Review : Type 0 where
  pub review_id : ℕ
  pub state : Text
  pub author : Option Actor

-- `(self.state or "").lower()`
unfoldable pub verdict : Review → Text
unfolding lower
verdict r = lower r.state

unfoldable pub is_no_verdict : Text → Bool
is_no_verdict v = text_eq v (codes "commented") || text_eq v (codes "pending")

-- `sorted(reviews, key=lambda review: review.review_id)`, which is stable.
unfoldable pub place : Review → List Review → List Review
place r [] = r ∷ []
place r (q ∷ rest) =
    let later = place r rest in if ltb q.review_id r.review_id then q ∷ later else r ∷ q ∷ rest

unfoldable pub by_id : List Review → List Review
unfolding place
by_id [] = []
by_id (r ∷ rest) = place r (by_id rest)

abbrev pub Verdicts : Type 0
Verdicts = List (Text × Text)

unfoldable pub put_verdict : Text → Text → Verdicts → Verdicts
put_verdict name v [] = (name, v) ∷ []
put_verdict name v (e ∷ rest) =
    let later = put_verdict name v rest in if text_eq e.0 name then (e.0, v) ∷ rest else e ∷ later

unfoldable pub counted : Option Actor → Text → Verdicts → Verdicts
unfolding is_no_verdict put_verdict key_of
counted none v latest = latest
counted (some a) v latest = if is_no_verdict v then latest else put_verdict (key_of a) v latest

unfoldable pub latest_from : Verdicts → List Review → Verdicts
unfolding counted verdict
latest_from latest [] = latest
latest_from latest (r ∷ rest) = latest_from (counted r.author (verdict r) latest) rest

unfoldable pub latest_verdicts : List Review → Verdicts
unfolding latest_from by_id
latest_verdicts reviews = latest_from [] (by_id reviews)

-- `not latest or any(verdict != "approved" for verdict in latest.values())`, the other way round.
unfoldable pub all_approved : Verdicts → Bool
all_approved [] = false
all_approved (e ∷ rest) = not (any (λ f. not (text_eq f.1 (codes "approved"))) (e ∷ rest))
