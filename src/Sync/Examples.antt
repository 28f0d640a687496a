-- ===== src/Sync/Examples.antt =====
-- What the kinds of item share, at concrete inputs.
use shannon_bot.Base.{List, [], any, false, inr, none, refl, some, true, ◌∷◌, ◌≡◌, ◌≤◌}
use shannon_bot.Domain.Enums.{backlog, closed, issue}
use shannon_bot.Domain.Text.{Text, codes, lower, text_eq}
use shannon_bot.Sync.Notes.{claim, release}
use shannon_bot.Sync.Once.{Attempt, Thread, Weather, hand_back, is_line, say_all, say_once, times}
use shannon_bot.Sync.Policies.{
  Snapshot, an_issue, display_state, is_closed, kind_of, shut, shut_for_state, state_change_of,
  state_or_open,
}
use shannon_bot.Sync.Settled.{IsIssueState, IsTwoState, shut-shut_for_state}
use shannon_bot.Sync.Staleness.{Applied, arrived_earlier, is_superseded, stamped}
use shannon_bot.Sync.StateLine.{Arrival, Row, said_of, still_said}
use shannon_bot.Sync.Together.{
  SayReach, SayReach-once, Shared, and_then, at_start, land, lands_one, start, starts,
}

abbrev closed_issue : Snapshot
closed_issue =
    an_issue
      (record { title = codes "A bug"; state = codes "Closed"; author = none; assignees = [] })

closed_state : display_state closed_issue ≡ codes "closed"
unfolding display_state state_or_open lower
closed_state = refl

issue_state : IsTwoState closed_issue
unfolding IsTwoState IsIssueState
issue_state = inr closed_state

shut-true : shut closed_issue backlog ≡ some true
unfolding shut is_closed display_state state_or_open lower text_eq
shut-true = refl

shut-shut_for_state_example : shut_for_state issue backlog (display_state closed_issue) ≡ true
unfolding kind_of
shut-shut_for_state_example = shut-shut_for_state closed_issue backlog true issue_state shut-true

abbrev row : Applied
row = stamped 100 1

tied : is_superseded (some 100) (some 100) (some 1) (some 2) ≡ true
unfolding is_superseded arrived_earlier
tied = refl

abbrev line : Text
line = codes "state:7"

abbrev quiet : Thread
quiet = record { notes = []; posted = [] }

abbrev lost : Weather
lost = record { lands = false; gives_back = true; shuts = true }

abbrev fine : Weather
fine = record { lands = true; gives_back = true; shuts = true }

abbrev twice : List Attempt
twice =
    record { weather = lost; item = 4; key = line }
    ∷ record { weather = fine; item = 4; key = line }
    ∷ record { weather = fine; item = 4; key = line }
    ∷ []

said_once : times 4 line (say_all twice quiet).posted ≡ 1
unfolding times say_all say_once claim hand_back release text_eq
said_once = refl

first_claim : (claim 4 line []).1 ≡ true
unfolding claim
first_claim = refl

abbrev arrival : Arrival
arrival = record {
  action = codes "closed";
  snapshot = closed_issue;
  tracked_item_id = 4;
  note_key = line;
  shut_refused = false;
  told = true;
}

abbrev item : Row
item = record { github_state = codes "closed"; is_shut = true }

says_closed : said_of arrival (some item) ≡ some closed
unfolding said_of still_said state_change_of display_state state_or_open lower text_eq
says_closed = refl

abbrev nothing_yet : Shared
nothing_yet = record { notes = []; posted = []; saying = [] }

abbrev both_claimed : Shared
both_claimed = start 4 line (start 4 line nothing_yet)

one_says : any (is_line 4 line) both_claimed.saying ≡ true
unfolding start claim text_eq
one_says = refl

-- Two workers try the line, and the one whose claim it was posts it.
abbrev two_workers : SayReach nothing_yet (land 4 line both_claimed)
two_workers =
    and_then
      (and_then (and_then at_start (starts 4 line nothing_yet))
        (starts 4 line (start 4 line nothing_yet)))
      (lands_one 4 line both_claimed one_says)

SayReach-once_example : times 4 line (land 4 line both_claimed).posted ≤ 1
SayReach-once_example = SayReach-once 4 line two_workers
