-- ===== src/Github/Examples.antt =====
-- Label changes at a concrete input.
use shannon_bot.Base.{All, List, [], keep, refl, some, ◌∷◌, ◌≡◌}
use shannon_bot.Domain.Enums.{backlog}
use shannon_bot.Domain.Priority.{look_up}
use shannon_bot.Domain.Text.{Text, codes, lower, strip, text_eq}
use shannon_bot.Github.Changes.{IsOwnOrNone, applied, applied-status_change, has_no_status}
use shannon_bot.Github.Labels.{
  first_of_both, folded, same_status, status_change, status_named, status_of,
}

abbrev on_it : List Text
on_it = codes "bug" ∷ codes " Done " ∷ codes "in_review" ∷ []

two_go : (status_change on_it backlog).remove ≡ codes " Done " ∷ codes "in_review" ∷ []
unfolding status_change status_of status_named folded strip lower look_up text_eq first_of_both
    same_status
two_go = refl

applied-status_change_example :
    (status_of (applied (status_change on_it backlog) on_it) ≡ some backlog)
    × All (IsOwnOrNone backlog) (applied (status_change on_it backlog) on_it)
    × (keep has_no_status (applied (status_change on_it backlog) on_it) ≡ keep has_no_status on_it)
applied-status_change_example = applied-status_change on_it backlog
