-- ===== src/Reviews/Approval.antt =====
-- shannon/services/reviews.py: the line that says that everyone approved, and where it goes, by
-- `in_its_thread` of shannon/services/locating.py. What GitHub, the stores and Discord answer is
-- given as arguments; what the panel says and whom it rings is left out.
use shannon_bot.Base.{
  Bool, List, Option, [], false, if◌then◌else◌, none, not, some, true, ℕ, ◌&&◌, ◌++◌, ◌||◌, ◌∷◌,
}
use shannon_bot.Domain.Text.{Text, codes, text_eq}
use shannon_bot.Domain.Tracking.{TrackedEvent, approvals, wants}
use shannon_bot.Reminders.Book.{said}
use shannon_bot.Reviews.Verdicts.{Review, all_approved, latest_verdicts, verdict}
use shannon_bot.Sync.Once.{Said, Thread, Weather, say_once}
use shannon_bot.Sync.Policies.{Asked, Item, Snapshot, a_ticket, an_issue, is_closed, pull_request}

pub record ItemRow : Type 0 where
  pub id : ℕ
  pub discord_thread_id : Option ℕ
  pub tracking : TrackedEvent → Option Bool

pub record ItemInThread : Type 0 where
  pub tracked_item_id : ℕ
  pub thread_id : ℕ
  pub guild_id : ℕ
  pub tracking : TrackedEvent → Option Bool

-- None, `ItemNotReadyError`, or the thread.
pub data Located : Type 0 where
  nowhere : Located
  not_ready : Located
  in_thread : ItemInThread → Located

unfoldable pub thread_of : ℕ → ItemRow → Option ℕ → Located
thread_of guild item none = not_ready
thread_of guild item (some thread) = in_thread (record {
  tracked_item_id = item.id;
  thread_id = thread;
  guild_id = guild;
  tracking = item.tracking;
})

-- The server the repository is registered to, if any, and the row of the item, if any.
unfoldable pub in_its_thread : Option ℕ → Option ItemRow → Located
unfolding thread_of
in_its_thread none item = nowhere
in_its_thread (some guild) none = nowhere
in_its_thread (some guild) (some item) = thread_of guild item item.discord_thread_id

pub record PullRequest : Type 0 where
  pub item : Item
  pub asked : Asked
  pub head_sha : Text
  pub draft : Bool

-- What a run of `_round_up` meets. A call that raises has no answer; `list_reviews` may answer None.
pub record Answers : Type 0 where
  pub found : Located
  pub pull_request_read : Option PullRequest
  pub reviews_read : Option (Option (List Review))
  pub reaches : Bool
  pub weather : Weather

pub data RoundedUp : Type 0 where
  passed_over : RoundedUp
  raised : RoundedUp
  came_to : Said → RoundedUp

unfoldable pub is_there {ℓ} : {A : Type ℓ} → List A → Bool
is_there [] = false
is_there (x ∷ xs) = true

abbrev pub approved_key : Text → Text
approved_key head = codes "approved:" ++ head

unfoldable pub say_agreed : Answers → ItemInThread → PullRequest → Thread → Thread × RoundedUp
unfolding say_once
say_agreed a spot p t =
    if a.reaches
    then (let (t', said) = say_once a.weather spot.tracked_item_id (approved_key p.head_sha) t in
        (t', came_to said))
    else (t, raised)

unfoldable pub count_reviews :
    Answers
    → ItemInThread
    → PullRequest
    → Option (Option (List Review))
    → Thread
    → Thread × RoundedUp
unfolding latest_verdicts all_approved say_agreed
count_reviews a spot p none t = (t, raised)
count_reviews a spot p (some none) t = (t, passed_over)
count_reviews a spot p (some (some reviews)) t =
    if all_approved (latest_verdicts reviews) then say_agreed a spot p t else (t, passed_over)

unfoldable pub look_at : Answers → ItemInThread → Option PullRequest → Thread → Thread × RoundedUp
unfolding is_closed is_there count_reviews
look_at a spot none t = (t, raised)
look_at a spot (some p) t =
    if p.draft || is_closed (pull_request p.item p.asked)
    then (t, passed_over)
    else if not (is_there p.head_sha)
    then (t, passed_over)
    else if is_there p.asked.reviewers || is_there p.asked.reviewer_teams
    then (t, passed_over)
    else count_reviews a spot p a.reviews_read t

unfoldable pub round_up_in : Answers → Located → Thread → Thread × RoundedUp
unfolding wants look_at
round_up_in a nowhere t = (t, passed_over)
round_up_in a not_ready t = (t, raised)
round_up_in a (in_thread spot) t =
    if wants spot.tracking approvals then look_at a spot a.pull_request_read t else (t, passed_over)

unfoldable pub round_up : Answers → Thread → Thread × RoundedUp
unfolding round_up_in
round_up a t = round_up_in a a.found t

unfoldable pub after_a_review : Review → Answers → Thread → Thread × RoundedUp
unfolding verdict round_up
after_a_review r a t =
    if text_eq (verdict r) (codes "approved") then round_up a t else (t, passed_over)

-- `isinstance(snapshot, PullRequestSnapshot)`
unfoldable pub is_pull_request : Snapshot → Bool
is_pull_request (pull_request i a) = true
is_pull_request (an_issue i) = false
is_pull_request (a_ticket i column) = false

unfoldable pub say : Text → Snapshot → Answers → Thread → Thread × RoundedUp
unfolding is_pull_request round_up
say does snapshot a t =
    if text_eq does (codes "review_request_removed") && is_pull_request snapshot
    then round_up a t
    else (t, passed_over)
