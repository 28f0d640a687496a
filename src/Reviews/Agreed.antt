-- ===== src/Reviews/Agreed.antt =====
-- When `_round_up` says that everyone approved.
use shannon_bot.Base.{
  All, All-In, All-at, Bool, Bool-cases, In, List, Option, Option-cases, [], any, ap, arith, false,
  inl, inr, none, not, refl, some, sym, true, ◌||◌, ◌∙◌, ◌∷◌, ◌≡◌, ◌≤◌, ◌⊎◌,
}
use shannon_bot.Domain.Text.{Text, codes, text_eq, text_eq_iff}
use shannon_bot.Domain.Tracking.{approvals, wants}
use shannon_bot.People.Names.{text_eq_refl}
use shannon_bot.Reminders.Book.{said}
use shannon_bot.Reviews.Approval.{
  Answers, ItemInThread, Located, PullRequest, came_to, count_reviews, in_thread, is_there, look_at,
  not_ready, nowhere, passed_over, round_up, round_up_in,
}
use shannon_bot.Reviews.Latest.{is_voice, latest_verdicts-newest, said_by, speaks, voice_of}
use shannon_bot.Reviews.Verdicts.{Review, Verdicts, all_approved, latest_verdicts, verdict}
use shannon_bot.Sync.Once.{Said, Thread}
use shannon_bot.Sync.Policies.{is_closed, pull_request}

pub is_voice-some : (name : Text) (o : Option Text) → is_voice name o ≡ true → o ≡ some name
unfolding is_voice
is_voice-some name none h = cc
is_voice-some name (some n) h = ap some ((text_eq_iff n name).0 h)

pub some-is_voice : (name : Text) (o : Option Text) → o ≡ some name → is_voice name o ≡ true
unfolding is_voice
some-is_voice name o h = rw h (text_eq_refl name)

abbrev pub is_dissent : Text × Text → Bool
is_dissent e = not (text_eq e.1 (codes "approved"))

said_by-approved :
    (name v : Text) (latest : Verdicts)
    → any is_dissent latest ≡ false
    → said_by name latest ≡ some v
    → v ≡ codes "approved"
unfolding said_by
said_by-approved name v [] h s = cc
said_by-approved name v (e ∷ rest) h s = elim (Bool-cases (text_eq e.0 name)) [
  | inl same ↦
      let s' : some e.1 ≡ some v = rw same at s in
      let v' : e.1 ≡ v = cc in sym v' ∙ (text_eq_iff e.1 (codes "approved")).0 (ground arith)
  | inr other ↦ said_by-approved name v rest (ground arith) (rw other at s)
]

all_approved-any : (latest : Verdicts) → all_approved latest ≡ true → any is_dissent latest ≡ false
unfolding all_approved
all_approved-any [] h = cc
all_approved-any (e ∷ rest) h = ground arith

all_approved-someone :
    (latest : Verdicts)
    → all_approved latest ≡ true
    → (name : Text) × (v : Text) × (said_by name latest ≡ some v)
unfolding all_approved said_by
all_approved-someone [] h = cc
all_approved-someone (e ∷ rest) h = (e.0, e.1, rw (text_eq_refl e.0) refl)

abbrev pub voice : Review → Option Text
voice r = voice_of r.author (verdict r)

-- A review without a verdict, or an approval of the same person that is as new.
abbrev pub IsApproved : List Review → Review → Type 0
IsApproved rs q =
    (voice q ≡ none)
    ⊎ ((r : Review) × In r rs
        × (voice r ≡ voice q)
        × (verdict r ≡ codes "approved")
        × (q.review_id ≤ r.review_id))

-- Somebody has approved, and whoever left a verdict has approved since.
abbrev pub IsAgreed : List Review → Type 0
IsAgreed rs = ((r : Review) × In r rs × (verdict r ≡ codes "approved")) × All (IsApproved rs) rs

IsApproved-since :
    (name : Text) (q : Review) (rs : List Review)
    → all_approved (latest_verdicts rs) ≡ true
    → In q rs
    → voice q ≡ some name
    → IsApproved rs q
IsApproved-since name q rs h m e = elim (latest_verdicts-newest name rs) [
  | inl (same, silent) ↦
      let quiet = All-at (λ x. speaks name x ≡ false) m silent in
      let loud = some-is_voice name (voice q) e in cc
  | inr (r, n, f, answer, newest) ↦ inr (
    r,
    n,
    is_voice-some name (voice r) f ∙ sym e,
    said_by-approved name (verdict r) (latest_verdicts rs) (all_approved-any (latest_verdicts rs) h)
        answer,
    elim (All-at (λ x. (x.review_id ≤ r.review_id) ⊎ (speaks name x ≡ false)) m newest) [
      | inl le ↦ le
      | inr quiet ↦ let loud = some-is_voice name (voice q) e in cc
    ],
  )
]

all_approved-IsAgreed : (rs : List Review) → all_approved (latest_verdicts rs) ≡ true → IsAgreed rs
all_approved-IsAgreed rs h =
    let (name, v, s) = all_approved-someone (latest_verdicts rs) h in
    let everyone : All (IsApproved rs) rs = All-In (IsApproved rs) rs (λ q m.
      elim (Option-cases (voice q)) [
        | inl e ↦ inl e
        | inr (n, e) ↦ IsApproved-since n q rs h m e
      ]) in
    elim (latest_verdicts-newest name rs) [
      | inl (same, silent) ↦ cc
      | inr (r, n, f, answer, newest) ↦ (
        (
          r,
          n,
          said_by-approved name (verdict r) (latest_verdicts rs)
              (all_approved-any (latest_verdicts rs) h) answer,
        ),
        everyone,
      )
    ]

-- What GitHub answered: an open pull request that is no draft, has a head and waits for nobody, with
-- these reviews.
abbrev pub IsRead : Answers → PullRequest → List Review → Type 0
IsRead a p rs =
    (a.pull_request_read ≡ some p)
    × (a.reviews_read ≡ some (some rs))
    × (p.draft ≡ false)
    × (is_closed (pull_request p.item p.asked) ≡ false)
    × (is_there p.head_sha ≡ true)
    × (is_there p.asked.reviewers ≡ false)
    × (is_there p.asked.reviewer_teams ≡ false)

count_reviews-came_to :
    (a : Answers) (spot : ItemInThread) (p : PullRequest) (o : Option (Option (List Review)))
    (t : Thread) (said : Said)
    → (count_reviews a spot p o t).1 ≡ came_to said
    → (rs : List Review) × (o ≡ some (some rs)) × (all_approved (latest_verdicts rs) ≡ true)
unfolding count_reviews
count_reviews-came_to a spot p none t said h = cc
count_reviews-came_to a spot p (some none) t said h = cc
count_reviews-came_to a spot p (some (some rs)) t said h =
    elim (Bool-cases (all_approved (latest_verdicts rs))) [
      | inl e ↦ (rs, refl, e)
      | inr e ↦ let out : passed_over ≡ came_to said = rw e at h in cc
    ]

look_at-came_to :
    (a : Answers) (spot : ItemInThread) (o : Option PullRequest) (t : Thread) (said : Said)
    → a.pull_request_read ≡ o
    → (look_at a spot o t).1 ≡ came_to said
    → (p : PullRequest) × (rs : List Review) × IsRead a p rs × IsAgreed rs
unfolding look_at
look_at-came_to a spot none t said read h = cc
look_at-came_to a spot (some p) t said read h =
    elim (Bool-cases (p.draft || is_closed (pull_request p.item p.asked))) [
      | inl e ↦ let out : passed_over ≡ came_to said = rw e at h in cc
      | inr open_one ↦ elim (Bool-cases (is_there p.head_sha)) [
        | inr e ↦ let out : passed_over ≡ came_to said = rw (open_one, e) at h in cc
        | inl head ↦
            elim (Bool-cases (is_there p.asked.reviewers || is_there p.asked.reviewer_teams)) [
              | inl e ↦ let out : passed_over ≡ came_to said = rw (open_one, head, e) at h in cc
              | inr nobody ↦
                  let (rs, reviews, all) =
                    count_reviews-came_to a spot p a.reviews_read t said
                      (rw (open_one, head, nobody) at h) in
                  (
                    p,
                    rs,
                    (read, reviews, ground arith, ground arith, head, ground arith, ground arith),
                    all_approved-IsAgreed rs all,
                  )
            ]
      ]
    ]

-- The thread wants to hear of approvals, and the pull request that GitHub answered with is agreed.
abbrev pub WasAgreed : Answers → Type 0
WasAgreed a =
    (spot : ItemInThread) × (p : PullRequest) × (rs : List Review) × (a.found ≡ in_thread spot)
    × (wants spot.tracking approvals ≡ true)
    × IsRead a p rs
    × IsAgreed rs

round_up_in-came_to :
    (a : Answers) (o : Located) (t : Thread) (said : Said)
    → a.found ≡ o
    → (round_up_in a o t).1 ≡ came_to said
    → WasAgreed a
unfolding round_up_in
round_up_in-came_to a nowhere t said found h = cc
round_up_in-came_to a not_ready t said found h = cc
round_up_in-came_to a (in_thread spot) t said found h =
    elim (Bool-cases (wants spot.tracking approvals)) [
      | inl e ↦
          let (p, rs, read, agreed) =
            look_at-came_to a spot a.pull_request_read t said refl (rw e at h) in
          (spot, p, rs, found, e, read, agreed)
      | inr e ↦ let out : passed_over ≡ came_to said = rw e at h in cc
    ]

-- Where a round-up comes to its line: the thread wants approvals, and GitHub answered with an open
-- pull request that is no draft, has a head and waits for nobody, and with reviews in which somebody
-- approved and whoever left a verdict approved in their newest one.
pub round_up-WasAgreed :
    (a : Answers) (t : Thread) (said : Said) → (round_up a t).1 ≡ came_to said → WasAgreed a
unfolding round_up
round_up-WasAgreed a t said h = round_up_in-came_to a a.found t said refl h
