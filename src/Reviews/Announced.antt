-- ===== src/Reviews/Announced.antt =====
-- The triggers of shannon/services/reviews.py, and all other lines of a thread, in any order.
pub mod Heads
use shannon_bot.Base.{Bool-cases, List, Option, [], inl, inr, none, some, ℕ, ◌&&◌, ◌||◌, ◌∷◌}
use shannon_bot.Domain.Text.{Text, codes, text_eq}
use shannon_bot.Domain.Tracking.{approvals, wants}
use shannon_bot.Reviews.Approval.{
  Answers, ItemInThread, Located, PullRequest, after_a_review, approved_key, count_reviews,
  in_thread, is_pull_request, is_there, look_at, not_ready, nowhere, round_up, round_up_in, say,
  say_agreed,
}
use shannon_bot.Reviews.Verdicts.{Review, all_approved, latest_verdicts, verdict}
use shannon_bot.Sync.Once.{Attempt, IsSaidOnce, Thread, say_once, say_once-IsSaidOnce}
use shannon_bot.Sync.Policies.{Snapshot, is_closed, pull_request}

pub data Trigger : Type 0 where
  a_review : Review → Answers → Trigger
  an_arrival : Text → Snapshot → Answers → Trigger
  another_line : Attempt → Trigger

unfoldable pub set_off : Trigger → Thread → Thread
unfolding after_a_review say say_once
set_off (a_review r a) t = (after_a_review r a t).0
set_off (an_arrival does snapshot a) t = (say does snapshot a t).0
set_off (another_line l) t = (say_once l.weather l.item l.key t).0

unfoldable pub set_off_all : List Trigger → Thread → Thread
unfolding set_off
set_off_all [] t = t
set_off_all (trigger ∷ rest) t = set_off_all rest (set_off trigger t)

module _ (item : ℕ) (key : Text) where
  say_agreed-IsSaidOnce :
      (a : Answers) (spot : ItemInThread) (p : PullRequest) (t : Thread)
      → IsSaidOnce item key t
      → IsSaidOnce item key (say_agreed a spot p t).0
  unfolding say_agreed
  say_agreed-IsSaidOnce a spot p t h = elim (Bool-cases a.reaches) [
    | inl e ↦
        rw e (
          say_once-IsSaidOnce a.weather spot.tracked_item_id (approved_key p.head_sha) item key t h)
    | inr e ↦ rw e h
  ]

  count_reviews-IsSaidOnce :
      (a : Answers) (spot : ItemInThread) (p : PullRequest) (o : Option (Option (List Review)))
      (t : Thread)
      → IsSaidOnce item key t
      → IsSaidOnce item key (count_reviews a spot p o t).0
  unfolding count_reviews
  count_reviews-IsSaidOnce a spot p none t h = h
  count_reviews-IsSaidOnce a spot p (some none) t h = h
  count_reviews-IsSaidOnce a spot p (some (some rs)) t h =
      elim (Bool-cases (all_approved (latest_verdicts rs))) [
        | inl e ↦ rw e (say_agreed-IsSaidOnce a spot p t h)
        | inr e ↦ rw e h
      ]

  look_at-IsSaidOnce :
      (a : Answers) (spot : ItemInThread) (o : Option PullRequest) (t : Thread)
      → IsSaidOnce item key t
      → IsSaidOnce item key (look_at a spot o t).0
  unfolding look_at
  look_at-IsSaidOnce a spot none t h = h
  look_at-IsSaidOnce a spot (some p) t h =
      elim (Bool-cases (p.draft || is_closed (pull_request p.item p.asked))) [
        | inl e ↦ rw e h
        | inr open_one ↦ elim (Bool-cases (is_there p.head_sha)) [
          | inr e ↦ rw (open_one, e) h
          | inl head ↦
              elim (Bool-cases (is_there p.asked.reviewers || is_there p.asked.reviewer_teams)) [
                | inl e ↦ rw (open_one, head, e) h
                | inr nobody ↦
                    rw (open_one, head, nobody)
                      (count_reviews-IsSaidOnce a spot p a.reviews_read t h)
              ]
        ]
      ]

  round_up_in-IsSaidOnce :
      (a : Answers) (o : Located) (t : Thread)
      → IsSaidOnce item key t
      → IsSaidOnce item key (round_up_in a o t).0
  unfolding round_up_in
  round_up_in-IsSaidOnce a nowhere t h = h
  round_up_in-IsSaidOnce a not_ready t h = h
  round_up_in-IsSaidOnce a (in_thread spot) t h =
      elim (Bool-cases (wants spot.tracking approvals)) [
        | inl e ↦ rw e (look_at-IsSaidOnce a spot a.pull_request_read t h)
        | inr e ↦ rw e h
      ]

  set_off-IsSaidOnce :
      (trigger : Trigger) (t : Thread)
      → IsSaidOnce item key t
      → IsSaidOnce item key (set_off trigger t)
  unfolding set_off after_a_review say round_up
  set_off-IsSaidOnce (a_review r a) t h =
      elim (Bool-cases (text_eq (verdict r) (codes "approved"))) [
        | inl e ↦ rw (set_off, e) (round_up_in-IsSaidOnce a a.found t h)
        | inr e ↦ rw (set_off, e) h
      ]
  set_off-IsSaidOnce (an_arrival does snapshot a) t h =
      elim (Bool-cases
        (text_eq does (codes "review_request_removed") && is_pull_request snapshot)) [
          | inl e ↦ rw (set_off, e) (round_up_in-IsSaidOnce a a.found t h)
          | inr e ↦ rw (set_off, e) h
        ]
  set_off-IsSaidOnce (another_line l) t h = say_once-IsSaidOnce l.weather l.item l.key item key t h

  pub set_off_all-IsSaidOnce :
      (triggers : List Trigger) (t : Thread)
      → IsSaidOnce item key t
      → IsSaidOnce item key (set_off_all triggers t)
  unfolding set_off_all
  set_off_all-IsSaidOnce [] t h = h
  set_off_all-IsSaidOnce (trigger ∷ rest) t h =
      set_off_all-IsSaidOnce rest (set_off trigger t) (set_off-IsSaidOnce trigger t h)
