-- ===== src/Domain/Examples.antt =====
-- The shared vocabulary at concrete inputs.
use shannon_bot.Base.{List, [], refl, some, true, ◌∷◌, ◌≡◌, ◌≢◌}
use shannon_bot.Domain.Board.{must_pass_through, normalise}
use shannon_bot.Domain.Enums.{ticket}
use shannon_bot.Domain.Json.{no_entries}
use shannon_bot.Domain.Moves.{IsFirst, IsNamed, must_pass_through-between}
use shannon_bot.Domain.Text.{Text, codes, join, lower, strip, text_eq, words}
use shannon_bot.Domain.Tracking.{TrackedItem, happens_to, labels, state}

-- Two columns read as `in review`: the first counts.
abbrev board : List Text
board =
    codes "Backlog"
    ∷ codes "In progress"
    ∷ codes "In review"
    ∷ codes "Done"
    ∷ codes "in_review"
    ∷ []

here_is : IsFirst 0 (codes "backlog") board
unfolding normalise words join strip lower text_eq
here_is = refl

there_is : IsFirst 2 (normalise (codes "IN REVIEW")) board
unfolding normalise words join strip lower text_eq
there_is = ((λ e. cc e), ((λ e. cc e), refl))

backlog-IsNamed : IsNamed (some (codes "backlog")) (codes "backlog")
unfolding normalise words join strip lower text_eq
backlog-IsNamed = refl

must_pass_through-between_example :
    must_pass_through board (some (codes "backlog")) (codes "IN REVIEW") ≡ codes "In progress" ∷ []
must_pass_through-between_example =
    must_pass_through-between board (some (codes "backlog")) (codes "backlog") (codes "IN REVIEW") 0
      2 backlog-IsNamed here_is there_is

abbrev card : TrackedItem
card = record { kind = ticket; tracking = no_entries }

can_label : happens_to ticket labels ≡ true
unfolding happens_to
can_label = refl

two_kinds : labels ≢ state
two_kinds e = cc e

abbrev two_lines : Text
two_lines = 97 ∷ 10 ∷ 98 ∷ []
