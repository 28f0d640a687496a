-- ===== src/Reviews/Announced/Heads.antt =====
-- The approval of a head is posted once: shannon/services/reviews.py.
use shannon_bot.Base.{
  Bool, Bool-cases, List, Option, [], ap, arith, false, if◌then◌else◌, inl, inr, none, some, true,
  ℕ, ◌&&◌, ◌++◌, ◌+◌, ◌||◌, ◌∷◌, ◌≡◌, ◌≤◌,
}
use shannon_bot.Domain.Text.{Text, codes, text_eq, text_eq_iff}
use shannon_bot.Domain.Tracking.{approvals, wants}
use shannon_bot.Reminders.Book.{said}
use shannon_bot.Reviews.Announced.{
  Trigger, a_review, an_arrival, another_line, set_off, set_off_all, set_off_all-IsSaidOnce,
}
use shannon_bot.Reviews.Approval.{
  Answers, ItemInThread, Located, PullRequest, RoundedUp, after_a_review, approved_key, came_to,
  count_reviews, in_thread, is_pull_request, is_there, look_at, not_ready, nowhere, passed_over,
  raised, round_up, round_up_in, say, say_agreed,
}
use shannon_bot.Reviews.Verdicts.{Review, all_approved, latest_verdicts, verdict}
use shannon_bot.Sync.Notes.{claim}
use shannon_bot.Sync.Once.{
  IsSaidOnce, Said, Thread, Weather, already, at_most, is_line, post_raised, say_once, shut_raised,
  times, was_said,
}
use shannon_bot.Sync.Policies.{is_closed, pull_request}

-- Whether the line was posted.
unfoldable pub is_posted : Said → Bool
is_posted already = false
is_posted was_said = true
is_posted post_raised = false
is_posted shut_raised = true

-- The item and the head that a round-up is about.
unfoldable pub headed : Located → Option PullRequest → List (ℕ × Text)
headed nowhere p = []
headed not_ready p = []
headed (in_thread spot) none = []
headed (in_thread spot) (some p) = (spot.tracked_item_id, p.head_sha) ∷ []

-- The approval that a round-up posted, if it posted one.
unfoldable pub announced : Located → Option PullRequest → RoundedUp → List (ℕ × Text)
unfolding is_posted headed
announced found p passed_over = []
announced found p raised = []
announced found p (came_to said) = if is_posted said then headed found p else []

unfoldable pub approved_by : Trigger → Thread → List (ℕ × Text)
unfolding announced after_a_review say
approved_by (a_review r a) t = announced a.found a.pull_request_read (after_a_review r a t).1
approved_by (an_arrival does snapshot a) t =
    announced a.found a.pull_request_read (say does snapshot a t).1
approved_by (another_line l) t = []

-- The approvals that are posted while the triggers come, by item and head.
unfoldable pub approvals_of : List Trigger → Thread → List (ℕ × Text)
unfolding approved_by set_off
approvals_of [] t = []
approvals_of (trigger ∷ rest) t = approved_by trigger t ++ approvals_of rest (set_off trigger t)

times-append :
    (item : ℕ) (key : Text) (xs ys : List (ℕ × Text))
    → times item key (xs ++ ys) ≡ times item key xs + times item key ys
unfolding times
times-append item key [] ys = omega arith
times-append item key (x ∷ xs) ys = ground (arith, times-append item key xs ys)

same_key :
    (item item' : ℕ) (head head' : Text)
    → is_line item head (item', head') ≡ true
    → is_line item (approved_key head) (item', approved_key head') ≡ true
same_key item item' head head' e =
    let one : head' ≡ head = (text_eq_iff head' head).0 (ground arith) in
    let alike = (text_eq_iff (approved_key head') (approved_key head)).1 (ap approved_key one) in
    ground arith

module _ (item : ℕ) (head : Text) where
  -- What was said of the head is in the thread, on top of what was there.
  abbrev Grows : Located → Option PullRequest → Thread → Thread × RoundedUp → Type 0
  Grows found p t result =
      times item head (announced found p result.1) + times item (approved_key head) t.posted
      ≤ times item (approved_key head) result.0.posted

  one_more :
      (item' : ℕ) (head' : Text) (posted : List (ℕ × Text))
      → times item head ((item', head') ∷ []) + times item (approved_key head) posted
        ≤ times item (approved_key head) ((item', approved_key head') ∷ posted)
  unfolding times
  one_more item' head' posted = elim (Bool-cases (is_line item head (item', head'))) [
    | inl e ↦ rw (e, same_key item item' head head' e) (omega arith)
    | inr e ↦ rw e (ground arith)
  ]

  say_once-more :
      (w : Weather) (item' : ℕ) (key' : Text) (t : Thread)
      → times item (approved_key head) t.posted
        ≤ times item (approved_key head) (say_once w item' key' t).0.posted
  unfolding say_once times
  say_once-more w item' key' t = elim (Bool-cases (claim item' key' t.notes).1) [
    | inr e ↦ rw (say_once, e) (omega arith)
    | inl e ↦ elim (Bool-cases w.lands) [
      | inr l ↦ rw (say_once, e, l) (omega arith)
      | inl l ↦ rw (say_once, e, l) (ground arith)
    ]
  ]

  say_once-Grows :
      (w : Weather) (spot : ItemInThread) (p : PullRequest) (t : Thread)
      → Grows (in_thread spot) (some p) t (
        (say_once w spot.tracked_item_id (approved_key p.head_sha) t).0,
        came_to (say_once w spot.tracked_item_id (approved_key p.head_sha) t).1,
      )
  unfolding say_once announced is_posted headed times
  say_once-Grows w spot p t =
      elim (Bool-cases (claim spot.tracked_item_id (approved_key p.head_sha) t.notes).1) [
        | inr e ↦ rw (say_once, e) (omega arith)
        | inl e ↦ elim (Bool-cases w.lands) [
          | inr l ↦ rw (say_once, e, l) (omega arith)
          | inl l ↦ elim (Bool-cases w.shuts) [
            | inl f ↦ rw (say_once, e, l, f) (one_more spot.tracked_item_id p.head_sha t.posted)
            | inr f ↦ rw (say_once, e, l, f) (one_more spot.tracked_item_id p.head_sha t.posted)
          ]
        ]
      ]

  say_agreed-Grows :
      (a : Answers) (spot : ItemInThread) (p : PullRequest) (t : Thread)
      → Grows (in_thread spot) (some p) t (say_agreed a spot p t)
  unfolding say_agreed announced times
  say_agreed-Grows a spot p t = elim (Bool-cases a.reaches) [
    | inl e ↦ rw (say_agreed, e) (say_once-Grows a.weather spot p t)
    | inr e ↦ rw (say_agreed, e) (omega arith)
  ]

  count_reviews-Grows :
      (a : Answers) (spot : ItemInThread) (p : PullRequest) (o : Option (Option (List Review)))
      (t : Thread)
      → Grows (in_thread spot) (some p) t (count_reviews a spot p o t)
  unfolding count_reviews announced times
  count_reviews-Grows a spot p none t = omega arith
  count_reviews-Grows a spot p (some none) t = omega arith
  count_reviews-Grows a spot p (some (some rs)) t =
      elim (Bool-cases (all_approved (latest_verdicts rs))) [
        | inl e ↦ rw (count_reviews, e) (say_agreed-Grows a spot p t)
        | inr e ↦ rw (count_reviews, e) (omega arith)
      ]

  look_at-Grows :
      (a : Answers) (spot : ItemInThread) (o : Option PullRequest) (t : Thread)
      → Grows (in_thread spot) o t (look_at a spot o t)
  unfolding look_at announced times
  look_at-Grows a spot none t = omega arith
  look_at-Grows a spot (some p) t =
      elim (Bool-cases (p.draft || is_closed (pull_request p.item p.asked))) [
        | inl e ↦ rw (look_at, e) (omega arith)
        | inr open_one ↦ elim (Bool-cases (is_there p.head_sha)) [
          | inr e ↦ rw (look_at, open_one, e) (omega arith)
          | inl head_known ↦
              elim (Bool-cases (is_there p.asked.reviewers || is_there p.asked.reviewer_teams)) [
                | inl e ↦ rw (look_at, open_one, head_known, e) (omega arith)
                | inr nobody ↦
                    rw (look_at, open_one, head_known, nobody)
                      (count_reviews-Grows a spot p a.reviews_read t)
              ]
        ]
      ]

  round_up_in-Grows :
      (a : Answers) (o : Located) (t : Thread) → Grows o a.pull_request_read t (round_up_in a o t)
  unfolding round_up_in announced times
  round_up_in-Grows a nowhere t = omega arith
  round_up_in-Grows a not_ready t = omega arith
  round_up_in-Grows a (in_thread spot) t = elim (Bool-cases (wants spot.tracking approvals)) [
    | inl e ↦ rw (round_up_in, e) (look_at-Grows a spot a.pull_request_read t)
    | inr e ↦ rw (round_up_in, e) (omega arith)
  ]

  approved_by-Grows :
      (trigger : Trigger) (t : Thread)
      → times item head (approved_by trigger t) + times item (approved_key head) t.posted
        ≤ times item (approved_key head) (set_off trigger t).posted
  unfolding approved_by set_off after_a_review say round_up announced times
  approved_by-Grows (a_review r a) t = elim (Bool-cases (text_eq (verdict r) (codes "approved"))) [
    | inl e ↦ rw (set_off, after_a_review, e) (round_up_in-Grows a a.found t)
    | inr e ↦ rw (set_off, after_a_review, e) (omega arith)
  ]
  approved_by-Grows (an_arrival does snapshot a) t =
      elim (Bool-cases
        (text_eq does (codes "review_request_removed") && is_pull_request snapshot)) [
          | inl e ↦ rw (set_off, say, e) (round_up_in-Grows a a.found t)
          | inr e ↦ rw (set_off, say, e) (omega arith)
        ]
  approved_by-Grows (another_line l) t =
      let more = say_once-more l.weather l.item l.key t in omega arith

  approvals_of-Grows :
      (triggers : List Trigger) (t : Thread)
      → times item head (approvals_of triggers t) + times item (approved_key head) t.posted
        ≤ times item (approved_key head) (set_off_all triggers t).posted
  unfolding approvals_of set_off_all times
  approvals_of-Grows [] t = omega arith
  approvals_of-Grows (trigger ∷ rest) t = ground (
    arith,
    times-append item head (approved_by trigger t) (approvals_of rest (set_off trigger t)),
    approved_by-Grows trigger t,
    approvals_of-Grows rest (set_off trigger t),
  )

-- In whatever order reviews and withdrawn requests come, and whatever else is said in the thread, and
-- if posts fail: the approval of one head of a pull request is announced at most once, if its line was
-- posted at most once and only while claimed before, and not again once it was posted.
pub set_off_all-once :
    (item : ℕ) (head : Text) (triggers : List Trigger) (t : Thread)
    → IsSaidOnce item (approved_key head) t
    → times item head (approvals_of triggers t) + times item (approved_key head) t.posted ≤ 1
set_off_all-once item head triggers t h =
    let once =
      at_most item (approved_key head) (set_off_all triggers t)
        (set_off_all-IsSaidOnce item (approved_key head) triggers t h) in
    let grown = approvals_of-Grows item head triggers t in omega arith
