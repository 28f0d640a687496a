-- ===== src/Reviews/Examples.antt =====
-- Reviews and their round-up at concrete inputs.
use shannon_bot.Base.{
  List, String, [], arith, at_head, false, inl, inr, none, refl, some, true, ℕ, ◌+◌, ◌∷◌, ◌≡◌, ◌≤◌,
}
use shannon_bot.Domain.Text.{codes, lower, text_eq}
use shannon_bot.Domain.Tracking.{approvals, wants}
use shannon_bot.People.Audience.{key_of}
use shannon_bot.Reviews.Agreed.{IsRead, WasAgreed, round_up-WasAgreed}
use shannon_bot.Reviews.Announced.{Trigger, a_review, an_arrival}
use shannon_bot.Reviews.Announced.Heads.{approvals_of, set_off_all-once}
use shannon_bot.Reviews.Approval.{
  Answers, ItemInThread, ItemRow, PullRequest, approved_key, came_to, count_reviews, in_its_thread,
  in_thread, is_there, look_at, nowhere, round_up, round_up_in, say_agreed, thread_of,
}
use shannon_bot.Reviews.Latest.{Answered, latest_verdicts-newest, said_by, voice_of}
use shannon_bot.Reviews.Unanimous.{IsUnanimous, round_up-says}
use shannon_bot.Reviews.Verdicts.{
  Review, all_approved, by_id, counted, is_no_verdict, latest_from, latest_verdicts, place,
  put_verdict, verdict,
}
use shannon_bot.Sync.Notes.{claim}
use shannon_bot.Sync.Once.{IsSaidOnce, Thread, say_once, times, was_said, with_line}
use shannon_bot.Sync.Policies.{Actor, display_state, is_closed, pull_request, state_or_open}

abbrev account : String → Actor
account login = record { login = codes login; github_user_id = none }

abbrev reviewed : ℕ → String → String → Review
reviewed i login said_state = record {
  review_id = i;
  state = codes said_state;
  author = some (account login);
}

-- Bob asked for changes and approved after; Ann approved and commented after.
abbrev came_in : List Review
came_in =
    reviewed 7 "Bob" "APPROVED"
    ∷ reviewed 2 "ann" "approved"
    ∷ reviewed 5 "ann" "COMMENTED"
    ∷ reviewed 4 "bob" "changes_requested"
    ∷ []

latest :
    latest_verdicts came_in ≡ (codes "ann", codes "approved") ∷ (codes "bob", codes "approved") ∷ []
unfolding latest_verdicts by_id place latest_from counted put_verdict is_no_verdict verdict key_of
    lower text_eq
latest = refl

abbrev plain_row : ItemRow
plain_row = record { id = 4; discord_thread_id = some 70; tracking = λ event. none }

located :
    in_its_thread (some 1) (some plain_row)
    ≡ in_thread
        (record { tracked_item_id = 4; thread_id = 70; guild_id = 1; tracking = λ event. none })
unfolding in_its_thread thread_of
located = refl

not_here : in_its_thread none (some plain_row) ≡ nowhere
unfolding in_its_thread
not_here = refl

abbrev spot : ItemInThread
spot = record { tracked_item_id = 4; thread_id = 70; guild_id = 1; tracking = λ event. some true }

abbrev open_request : PullRequest
open_request = record {
  item = record { title = []; state = codes "open"; author = none; assignees = [] };
  asked = record {
    reviewers = [];
    reviewer_teams = [];
    person_asked_now = none;
    team_asked_now = none;
    is_merged = false;
  };
  head_sha = codes "abc";
  draft = false;
}

abbrev fine : Answers
fine = record {
  found = in_thread spot;
  pull_request_read = some open_request;
  reviews_read = some (some came_in);
  reaches = true;
  weather = record { lands = true; gives_back = true; shuts = true };
}

abbrev quiet_thread : Thread
quiet_thread = record { notes = []; posted = [] }

latest_verdicts-newest_example :
    Answered (codes "bob") none came_in (said_by (codes "bob") (latest_verdicts came_in))
latest_verdicts-newest_example = latest_verdicts-newest (codes "bob") came_in

says_so : (round_up fine quiet_thread).1 ≡ came_to was_said
unfolding round_up round_up_in look_at count_reviews say_agreed say_once latest_verdicts by_id place
    latest_from counted put_verdict is_no_verdict verdict key_of lower text_eq all_approved claim
    is_there wants is_closed display_state state_or_open
says_so = refl

round_up-WasAgreed_example : WasAgreed fine
round_up-WasAgreed_example = round_up-WasAgreed fine quiet_thread was_said says_so

came_in-IsUnanimous : IsUnanimous came_in
unfolding verdict lower voice_of is_no_verdict key_of text_eq
came_in-IsUnanimous = (
  (reviewed 7 "Bob" "APPROVED", codes "bob", at_head, refl),
  (
    inl (inr refl),
    (
      inl (inr refl),
      (inl (inl refl), (inr (reviewed 7 "Bob" "APPROVED", at_head, refl, omega arith), tt)),
    ),
  ),
)

open_request-IsRead : IsRead fine open_request came_in
unfolding is_closed display_state state_or_open lower text_eq is_there
open_request-IsRead = (refl, refl, refl, refl, refl, refl, refl)

spot-wants : wants spot.tracking approvals ≡ true
unfolding wants
spot-wants = refl

round_up-says_example :
    round_up fine quiet_thread
    ≡ (with_line 4 (approved_key (codes "abc")) quiet_thread, came_to was_said)
round_up-says_example =
    round_up-says fine spot open_request came_in quiet_thread refl spot-wants open_request-IsRead
      came_in-IsUnanimous refl refl refl refl

-- The approval, the same delivery once more, and a request that is withdrawn.
abbrev triggers : List Trigger
triggers =
    a_review (reviewed 7 "bob" "approved") fine
    ∷ a_review (reviewed 7 "bob" "approved") fine
    ∷ an_arrival (codes "review_request_removed")
        (pull_request open_request.item open_request.asked) fine
    ∷ []

quiet-IsSaidOnce : IsSaidOnce 4 (approved_key (codes "abc")) quiet_thread
unfolding IsSaidOnce times
quiet-IsSaidOnce = omega arith

set_off_all-once_example :
    times 4 (codes "abc") (approvals_of triggers quiet_thread)
      + times 4 (approved_key (codes "abc")) quiet_thread.posted
    ≤ 1
set_off_all-once_example = set_off_all-once 4 (codes "abc") triggers quiet_thread quiet-IsSaidOnce
