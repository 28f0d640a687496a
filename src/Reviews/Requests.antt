-- ===== src/Reviews/Requests.antt =====
-- shannon/services/reviews.py: the ledger that closes a review request once the review is there.
-- The server the repository is registered to, the row of the pull request, who reviewed and when.
use shannon_bot.Base.{Option, none, some, ℕ}
use shannon_bot.People.Ledger.{Assignments, mark_fulfilled}
use shannon_bot.Reviews.Approval.{ItemRow}
use shannon_bot.Sync.Policies.{Actor, reviewer_role}

unfoldable pub fulfilled :
    ℕ → Option ℕ → Option ItemRow → Option Actor → Option ℕ → Assignments → Assignments
unfolding mark_fulfilled
fulfilled now guild item none created_at t = t
fulfilled now none item (some a) created_at t = t
fulfilled now (some guild) none (some a) created_at t = t
fulfilled now (some guild) (some item) (some a) created_at t =
    (mark_fulfilled now item.id reviewer_role a.login a.github_user_id created_at t).0
