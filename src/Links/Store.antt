-- ===== src/Links/Store.antt =====
-- shannon/db/stores/user_links.py: GitHub logins and Discord members of a server. A method is one
-- transaction; the lock it takes makes it one step.
use shannon_bot.Base.{
  Bool, List, Option, [], any, contains, false, first_where, if◌then◌else◌, keep, map, none, not,
  some, true, ℕ, ◌&&◌, ◌+◌, ◌==◌, ◌||◌, ◌∷◌,
}
use shannon_bot.Domain.Text.{Text, lower, text_eq}

pub record UserLink : Type 0 where
  pub id : ℕ
  pub discord_guild_id : ℕ
  pub github_username : Text
  pub github_user_id : Option ℕ
  pub discord_user_id : ℕ

pub record UserLinks : Type 0 where
  pub rows : List UserLink
  pub next_id : ℕ

-- A dict of logins and account ids is the list of its entries.
abbrev pub AskedPeople : Type 0
AskedPeople = List (Text × Option ℕ)

unfoldable pub put_wanted : Text → Option ℕ → AskedPeople → AskedPeople
put_wanted name asked [] = (name, asked) ∷ []
put_wanted name asked (e ∷ rest) =
    let later = put_wanted name asked rest in
    if text_eq e.0 name then (e.0, asked) ∷ rest else e ∷ later

-- `{name.lower(): asked for name, asked in people.items()}`
unfoldable pub wanted_by : AskedPeople → AskedPeople → AskedPeople
unfolding put_wanted lower
wanted_by wanted [] = wanted
wanted_by wanted (e ∷ rest) = wanted_by (put_wanted (lower e.0) e.1 wanted) rest

-- What was asked for under a name, if the name is there.
unfoldable pub asked_under : Text → AskedPeople → Option (Option ℕ)
asked_under name [] = none
asked_under name (e ∷ rest) =
    let later = asked_under name rest in if text_eq e.0 name then some e.1 else later

-- Whether the account of a row is proved and is not another one than was asked for.
unfoldable pub agrees : Option ℕ → Option ℕ → Bool
agrees none asked = false
agrees (some account) none = true
agrees (some account) (some asked) = account == asked

unfoldable pub is_resolved : ℕ → AskedPeople → UserLink → Bool
unfolding asked_under agrees
is_resolved guild wanted r = elim (asked_under r.github_username wanted) [
  | none ↦ false
  | some asked ↦ r.discord_guild_id == guild && agrees r.github_user_id asked
]

unfoldable pub resolve_many : ℕ → AskedPeople → UserLinks → List (Text × ℕ)
unfolding wanted_by is_resolved
resolve_many guild asked t =
    map (λ (r : UserLink). (r.github_username, r.discord_user_id))
      (keep (is_resolved guild (wanted_by [] asked)) t.rows)

unfoldable pub is_of_member : ℕ → ℕ → UserLink → Bool
is_of_member guild member r = r.discord_guild_id == guild && r.discord_user_id == member

-- The login and the account of a member's link.
unfoldable pub account_for : ℕ → ℕ → UserLinks → Option (Text × Option ℕ)
unfolding first_where is_of_member
account_for guild member t = elim (first_where (is_of_member guild member) t.rows) [
  | none ↦ none
  | some r ↦ some (r.github_username, r.github_user_id)
]

-- The logins of those members that are linked.
unfoldable pub logins_for : ℕ → List ℕ → UserLinks → List (ℕ × Text)
logins_for guild members t =
    map (λ (r : UserLink). (r.discord_user_id, r.github_username))
      (keep (λ r. r.discord_guild_id == guild && contains r.discord_user_id members) t.rows)

unfoldable pub is_bound : ℕ → Text → ℕ → UserLink → Bool
is_bound guild name member r =
    r.discord_guild_id == guild && (text_eq r.github_username name && r.discord_user_id == member)

unfoldable pub is_in_the_way : ℕ → Text → ℕ → UserLink → Bool
is_in_the_way guild name member r =
    r.discord_guild_id == guild && (text_eq r.github_username name || r.discord_user_id == member)

unfoldable pub with_account : ℕ → Option ℕ → UserLink → UserLink
with_account i account r = if r.id == i then record r { github_user_id = account } else r

unfoldable pub inserted : ℕ → Text → Option ℕ → ℕ → UserLinks → UserLinks
unfolding is_in_the_way
inserted guild name account member t = record {
  rows =
      record {
        id = t.next_id;
        discord_guild_id = guild;
        github_username = name;
        github_user_id = account;
        discord_user_id = member;
      }
      ∷ keep (λ r. not (is_in_the_way guild name member r)) t.rows;
  next_id = t.next_id + 1;
}

unfoldable pub link : ℕ → Text → Option ℕ → ℕ → UserLinks → UserLinks
unfolding first_where is_bound with_account inserted lower
link guild login account member t =
    elim (first_where (is_bound guild (lower login) member) t.rows) [
      | some r ↦ record t { rows = map (with_account r.id account) t.rows }
      | none ↦ inserted guild (lower login) account member t
    ]

unfoldable pub same_account : Option ℕ → ℕ → Bool
same_account none account = false
same_account (some mine) account = mine == account

unfoldable pub is_followed : ℕ → ℕ → ℕ → UserLink → Bool
unfolding same_account
is_followed guild member account r =
    r.discord_guild_id == guild
    && (r.discord_user_id == member && same_account r.github_user_id account)

unfoldable pub is_holding : ℕ → Text → ℕ → UserLink → Bool
is_holding guild name i r =
    r.discord_guild_id == guild && (text_eq r.github_username name && not (r.id == i))

unfoldable pub with_name : ℕ → Text → UserLink → UserLink
with_name i name r = if r.id == i then record r { github_username = name } else r

unfoldable pub follow_rename : ℕ → ℕ → ℕ → Text → UserLinks → UserLinks
unfolding first_where is_followed is_holding with_name lower
follow_rename guild member account login t =
    elim (first_where (is_followed guild member account) t.rows) [
      | none ↦ t
      | some r ↦
          if any (is_holding guild (lower login) r.id) t.rows
          then t
          else record t { rows = map (with_name r.id (lower login)) t.rows }
    ]

-- The commands that write, in any order.
pub data LinkStep : Type 0 where
  linking : ℕ → Text → Option ℕ → ℕ → LinkStep
  following : ℕ → ℕ → ℕ → Text → LinkStep

unfoldable pub after_links : List LinkStep → UserLinks → UserLinks
unfolding link follow_rename
after_links [] t = t
after_links (linking guild login account member ∷ rest) t =
    after_links rest (link guild login account member t)
after_links (following guild member account login ∷ rest) t =
    after_links rest (follow_rename guild member account login t)
