-- ===== src/Links/Examples.antt =====
-- Links at concrete inputs.
use shannon_bot.Base.{
  In, List, [], at_head, contains, false, first_where, in_tail, inr, none, refl, some, true, ◌∷◌,
  ◌≡◌,
}
use shannon_bot.Domain.Text.{codes, lower, strip, text_eq}
use shannon_bot.Identity.RoundTrip.{bound_username, lstrip_at}
use shannon_bot.Links.Pairs.{IsOneToOne, after_links-IsOneToOne}
use shannon_bot.Links.Reach.{
  IsTheirs, TeamLink, asked_ids, is_team, link_team, put_team, reachable, reachable-rings,
  resolve_teams,
}
use shannon_bot.Links.Resolved.{link-account_for}
use shannon_bot.Links.Rings.{HasOneAccount, reachable-rings_named}
use shannon_bot.Links.Store.{
  AskedPeople, LinkStep, UserLink, UserLinks, account_for, after_links, agrees, asked_under,
  follow_rename, following, inserted, is_bound, is_followed, is_holding, is_in_the_way, is_resolved,
  link, linking, logins_for, put_wanted, resolve_many, same_account, wanted_by, with_account,
  with_name,
}
use shannon_bot.People.Muted.{
  MutedMember, insert_id, is_member, is_muted, may_be_pinged, muted_among, sorted_set,
}
use shannon_bot.Sync.Policies.{Actor}

abbrev nobody_linked : UserLinks
nobody_linked = record { rows = []; next_id = 1 }

nobody-IsOneToOne : IsOneToOne nobody_linked
nobody-IsOneToOne = (tt, tt)

-- Ann links, Bob links, Ann's account is renamed, and Bob takes the login she had.
abbrev changes : List LinkStep
changes =
    linking 1 (codes "Ann") (some 11) 101
    ∷ linking 1 (codes "bob") (some 22) 202
    ∷ following 1 101 11 (codes "Anna")
    ∷ linking 1 (codes "ANN") (some 22) 202
    ∷ []

abbrev linked : UserLinks
linked = after_links changes nobody_linked

names_now : logins_for 1 (101 ∷ 202 ∷ []) linked ≡ (202, codes "ann") ∷ (101, codes "anna") ∷ []
unfolding after_links link follow_rename first_where is_bound is_in_the_way inserted with_account
    is_followed same_account is_holding with_name lower text_eq logins_for
names_now = refl

after_links-IsOneToOne_example : IsOneToOne (after_links changes nobody_linked)
after_links-IsOneToOne_example = after_links-IsOneToOne changes nobody_linked nobody-IsOneToOne

linked-IsOneToOne : IsOneToOne linked
linked-IsOneToOne = after_links-IsOneToOne changes nobody_linked nobody-IsOneToOne

link-account_for_example :
    account_for 1 202 (link 1 (codes "Robert") (some 22) 202 linked)
    ≡ some (lower (codes "Robert"), some 22)
link-account_for_example =
    link-account_for 1 (codes "Robert") (some 22) 202 linked linked-IsOneToOne

-- A mention without an account id, and one with another id than the link's.
abbrev asked_for : AskedPeople
asked_for = (codes "Ann", none) ∷ (codes "anna", some 99) ∷ []

resolves : resolve_many 1 asked_for linked ≡ (codes "ann", 202) ∷ []
unfolding after_links link follow_rename first_where is_bound is_in_the_way inserted with_account
    is_followed same_account is_holding with_name lower text_eq resolve_many wanted_by put_wanted
    is_resolved asked_under agrees
resolves = refl

abbrev both_asked : AskedPeople
both_asked = (codes "Ann", none) ∷ (codes "anna", some 11) ∷ []

both_resolve : resolve_many 1 both_asked linked ≡ (codes "ann", 202) ∷ (codes "anna", 101) ∷ []
unfolding after_links link follow_rename first_where is_bound is_in_the_way inserted with_account
    is_followed same_account is_holding with_name lower text_eq resolve_many wanted_by put_wanted
    is_resolved asked_under agrees
both_resolve = refl

-- Anna's login with her account, Ann's login with another account than is linked, and a muted member.
abbrev mentioned : List Actor
mentioned =
    record { login = codes "Anna"; github_user_id = some 11 }
    ∷ record { login = codes "ANN"; github_user_id = some 99 }
    ∷ []

abbrev muted_third : List MutedMember
muted_third = record { discord_guild_id = 1; discord_user_id = 303 } ∷ []

abbrev roles_of_teams : List TeamLink
roles_of_teams = link_team 1 (codes " @Core") 9 (link_team 1 (codes "core") 8 [])

reaches :
    reachable 1 mentioned
      (record { login = codes "CORE"; github_user_id = none } ∷ [])
      linked
      roles_of_teams
      muted_third
    ≡ record {
      mentions = (codes "anna", 101) ∷ [];
      roles = (codes "core", 9) ∷ [];
      ringing = 101 ∷ [];
    }
unfolding after_links link follow_rename first_where is_bound is_in_the_way inserted with_account
    is_followed same_account is_holding with_name lower text_eq resolve_many wanted_by put_wanted
    is_resolved asked_under agrees reachable asked_ids may_be_pinged sorted_set insert_id
    muted_among is_muted is_member resolve_teams is_team link_team put_team bound_username strip
    lstrip_at
reaches = refl

rings_anna :
    contains 101 (reachable 1 mentioned [] linked roles_of_teams muted_third).ringing ≡ true
unfolding after_links link follow_rename first_where is_bound is_in_the_way inserted with_account
    is_followed same_account is_holding with_name lower text_eq resolve_many wanted_by put_wanted
    is_resolved asked_under agrees reachable asked_ids may_be_pinged sorted_set insert_id
    muted_among is_muted is_member
rings_anna = refl

reachable-rings_example :
    (is_muted 1 101 muted_third ≡ false)
    × ((r : UserLink) × In r linked.rows × (r.discord_user_id ≡ 101) × IsTheirs 1 mentioned r)
reachable-rings_example =
    reachable-rings 1 mentioned [] linked roles_of_teams muted_third 101 rings_anna

anna-HasOneAccount :
    HasOneAccount mentioned (record { login = codes "Anna"; github_user_id = some 11 })
unfolding lower
anna-HasOneAccount = ((λ e. refl), ((λ e. cc), tt))

abbrev annas_link : UserLink
annas_link = record {
  id = 1;
  discord_guild_id = 1;
  github_username = codes "anna";
  github_user_id = some 11;
  discord_user_id = 101;
}

annas-In : In annas_link linked.rows
unfolding after_links link follow_rename first_where is_bound is_in_the_way inserted with_account
    is_followed same_account is_holding with_name lower text_eq
annas-In = in_tail at_head

annas_lower : annas_link.github_username ≡ lower (codes "Anna")
unfolding lower
annas_lower = refl

anna_unmuted : is_muted 1 101 muted_third ≡ false
unfolding is_muted is_member
anna_unmuted = refl

reachable-rings_named_example :
    contains 101 (reachable 1 mentioned [] linked roles_of_teams muted_third).ringing ≡ true
reachable-rings_named_example =
    reachable-rings_named 1 mentioned [] linked roles_of_teams muted_third
      (record { login = codes "Anna"; github_user_id = some 11 }) annas_link 11 at_head
      anna-HasOneAccount annas-In refl annas_lower refl (inr refl) anna_unmuted
