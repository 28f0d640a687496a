-- ===== src/People/Audience.antt =====
-- shannon/services/audience.py: who a message names. A dict is the list of its values in order of
-- insertion, and a person's key is their login in lower case.
use shannon_bot.Base.{Bool, List, Option, [], if◌then◌else◌, take, ℕ, ◌++◌, ◌∷◌}
use shannon_bot.Domain.Text.{Text, lower, text_eq}
use shannon_bot.Sync.Policies.{Actor, Item, at_most_one}

-- What is read of a commit.
pub record CommitRef : Type 0 where
  pub author : Option Actor
  pub is_merge : Bool

unfoldable pub key_of : Actor → Text
unfolding lower
key_of a = lower a.login

-- An entry of a dict comprehension: a repeated key keeps its place and takes the later value.
unfoldable pub put_person : Actor → List Actor → List Actor
unfolding key_of
put_person a [] = a ∷ []
put_person a (b ∷ rest) =
    let later = put_person a rest in if text_eq (key_of b) (key_of a) then a ∷ rest else b ∷ later

unfoldable pub by_login : List Actor → List Actor → List Actor
unfolding put_person
by_login named [] = named
by_login named (a ∷ rest) = by_login (put_person a named) rest

unfoldable pub author_and_assignees : Item → List Actor
unfolding by_login
author_and_assignees i = by_login [] (at_most_one i.author ++ i.assignees)

unfoldable pub people_rung : ℕ
people_rung = 50

-- The accounts that wrote what is no merge.
unfoldable pub wrote_it : List CommitRef → List Actor
wrote_it [] = []
wrote_it (c ∷ brought) =
    let rest = wrote_it brought in if c.is_merge then rest else at_most_one c.author ++ rest

unfoldable pub everyone_who_worked_on_it : Item → List CommitRef → List Actor
unfolding by_login author_and_assignees people_rung wrote_it
everyone_who_worked_on_it i brought =
    take people_rung (by_login [] (author_and_assignees i ++ wrote_it brought))
