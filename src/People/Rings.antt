-- ===== src/People/Rings.antt =====
-- Who may be pinged, and whom a CI result names, at concrete inputs.
use shannon_bot.Base.{List, String, [], contains, false, not, refl, some, true, ℕ, ◌&&◌, ◌∷◌, ◌≡◌}
use shannon_bot.Domain.Text.{codes, lower, text_eq}
use shannon_bot.People.Audience.{
  CommitRef, author_and_assignees, by_login, everyone_who_worked_on_it, key_of, people_rung,
  put_person, wrote_it,
}
use shannon_bot.People.Muted.{
  insert_id, is_member, is_muted, may_be_pinged, mute, muted_among, sorted_set, unmute,
}
use shannon_bot.People.Silence.{
  IsAscending, all_granted, be_heard, be_quiet, granted, last_wish, may_be_pinged-last_wish,
}
use shannon_bot.Sync.Policies.{Actor, Item}

abbrev person : String → ℕ → Actor
person login account = record { login = codes login; github_user_id = some account }

-- A member asks to be left alone twice, and then to be heard again.
may_be_pinged-last_wish_example :
    IsAscending (
      may_be_pinged 8
        (5 ∷ 3 ∷ 5 ∷ [])
        (all_granted (be_quiet 8 5 ∷ be_quiet 8 5 ∷ be_quiet 8 3 ∷ be_heard 8 5 ∷ []) []))
    × ((j : ℕ)
        → contains j (
            may_be_pinged 8
              (5 ∷ 3 ∷ 5 ∷ [])
              (all_granted (be_quiet 8 5 ∷ be_quiet 8 5 ∷ be_quiet 8 3 ∷ be_heard 8 5 ∷ []) []))
          ≡ (contains j (5 ∷ 3 ∷ 5 ∷ [])
              && not (
                  last_wish 8 j
                    (be_quiet 8 5 ∷ be_quiet 8 5 ∷ be_quiet 8 3 ∷ be_heard 8 5 ∷ [])
                    false)))
may_be_pinged-last_wish_example =
    may_be_pinged-last_wish (be_quiet 8 5 ∷ be_quiet 8 5 ∷ be_quiet 8 3 ∷ be_heard 8 5 ∷ []) 8
      (5 ∷ 3 ∷ 5 ∷ [])

one_may_be_pinged :
    may_be_pinged 8
      (5 ∷ 3 ∷ 5 ∷ [])
      (all_granted (be_quiet 8 5 ∷ be_quiet 8 5 ∷ be_quiet 8 3 ∷ be_heard 8 5 ∷ []) [])
    ≡ 5 ∷ []
unfolding may_be_pinged all_granted granted mute unmute is_muted is_member sorted_set insert_id
    muted_among
one_may_be_pinged = refl

abbrev pull : Item
pull = record {
  title = codes "Fix it";
  state = codes "open";
  author = some (person "Ann" 1);
  assignees = person "ann" 1 ∷ person "bob" 2 ∷ [];
}

abbrev work_on_it : List CommitRef
work_on_it =
    record { author = some (person "cy" 3); is_merge = false }
    ∷ record { author = some (person "dee" 4); is_merge = true }
    ∷ []

-- The author is named once, and whoever merged is not.
three_are_rung :
    everyone_who_worked_on_it pull work_on_it ≡ person "ann" 1 ∷ person "bob" 2 ∷ person "cy" 3 ∷ []
unfolding everyone_who_worked_on_it author_and_assignees by_login put_person key_of people_rung
    wrote_it lower text_eq
three_are_rung = refl
