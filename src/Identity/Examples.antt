-- ===== src/Identity/Examples.antt =====
-- One-time links at concrete inputs, with a stand-in for the HMAC.
-- A stand-in in the URL's alphabet.
use shannon_bot.Base.{
  List, Option, [], arith, change_where, first_where, if◌then◌else◌, map, none, refl, some, true, ℕ,
  ◌++◌, ◌↔◌, ◌∷◌, ◌≡◌,
}
use shannon_bot.Domain.Text.{
  Text, behind, codes, is_nonempty, join, lower, push_code, split_at, strip, text_eq,
}
use shannon_bot.Identity.Deeds.{
  Deed, Done, after_deed, after_deeds, asked_discord, binds, issued, issues, naming, nothing_done,
  or_as_it_was,
}
use shannon_bot.Identity.Linking.{link_for-finishes}
use shannon_bot.Identity.OneTime.{
  IdentityVerification, Issue, bind, board_of, bound_to, consume, fresh_link, has_state,
  is_bindable, is_bound_to, is_followable, is_pending, is_spendable, issue, number_of, owner_of,
  pending, pending_link, spent_at, spent_link, tier_of, tier_text, to_link,
}
use shannon_bot.Identity.RoundTrip.{
  Accounts, DiscordDay, GithubDay, Verified, after_spending, bound_or, bound_username, ever_proved,
  finish_with, goes_on, is_boarding, link_for, no_board, prove_member, prove_on_discord,
  prove_opened, redeem, redeem_opened, refused, start, still_holds_the_tier, unfollowable, verified,
}
use shannon_bot.Identity.Sealed.{unsealed-sealed}
use shannon_bot.Identity.Seals.{
  all_url_safe, at_github, binding_of, cut_at_last_dot, has_shape, is_url_safe, leg_message,
  leg_name, mac_of, sealed, unsealed, unsealed_parts,
}
use shannon_bot.Identity.Spent.{redeem-once}
use shannon_bot.Identity.Vouched.{IsNamedIn, redeem-vouched}
use shannon_bot.Links.Pairs.{IsOneToOne}
use shannon_bot.Links.Store.{account_for}
use shannon_bot.People.Rename.{insert_by, sort_by, text_leb}

abbrev plain_mac : Text → Text → Text
plain_mac key message = map (λ c. if is_url_safe c then c else b'_') (key ++ message)

abbrev plain_hex : Text → Text → Text
plain_hex key message = message ++ key

one_safe : (c : ℕ) → is_url_safe (if is_url_safe c then c else b'_') ≡ true
unfolding is_url_safe
one_safe c = ground arith

all_safe : (s : Text) → all_url_safe (map (λ c. if is_url_safe c then c else b'_') s) ≡ true
unfolding all_url_safe
all_safe [] = refl
all_safe (c ∷ s) = rw (all_url_safe, one_safe c, all_safe s) refl

plain_mac-safe : (key message : Text) → all_url_safe (plain_mac key message) ≡ true
plain_mac-safe key message = all_safe (key ++ message)

abbrev token : Text
token = codes "state-0123456789-state-0123456789-state-012"

abbrev browser : Text
browser = codes "browser_ABCDEFGHIJ-browser_ABCDEFGHIJ-brows"

abbrev elsewhere : Text
elsewhere = codes "other-browser_KLM-other-browser_KLM-other-b"

abbrev for_ann : Issue
for_ann = record {
  state = token;
  guild_id = 1;
  discord_user_id = 101;
  purpose = to_link;
  lifetime = 600;
  board = none;
  tier = none;
  chosen_under = none;
}

abbrev tiers : Option (List Text)
tiers = some (codes "REVIEWER" ∷ codes "ADMIN" ∷ [])

tiers_kept : tier_of (tier_text tiers) ≡ some (codes "ADMIN" ∷ codes "REVIEWER" ∷ [])
unfolding tier_of tier_text join behind sort_by insert_by text_leb split_at push_code is_nonempty
tiers_kept = refl

abbrev nobody_yet : Accounts
nobody_yet = record {
  verifications = [];
  identities = [];
  user_links = record { rows = []; next_id = 1 };
}

-- The link is handed out, and Discord names Ann in the browser.
abbrev so_far : List Deed
so_far = issues 0 for_ann ∷ binds 5 browser token 101 ∷ []

abbrev linked_up : Accounts
linked_up = record nobody_yet { verifications = after_deeds plain_mac plain_hex so_far [] }

abbrev github_says_ann : GithubDay
github_says_ann = record {
  spent_at = 9;
  holds_tier = λ names. some true;
  account = some (codes "Ann", 11);
  proved_at = 10;
  keeps_grant = true;
  assigns = λ board member chosen_under. true;
}

abbrev discord_says_ann : DiscordDay
discord_says_ann = record { read_at = 3; member = some 101; meddling = λ t. t; written_at = 4 }

abbrev seal_for : Text → Text
seal_for holder = token ++ (46 ∷ plain_mac holder (codes "github:" ++ token))

abbrev as_ann : Verified
as_ann = record {
  guild_id = 1;
  discord_user_id = 101;
  login = codes "Ann";
  github_user_id = 11;
  purpose = to_link;
  board = no_board;
}

ann_finishes :
    (redeem plain_mac plain_hex github_says_ann (seal_for browser) browser linked_up).1
    ≡ goes_on as_ann
unfolding redeem redeem_opened unsealed unsealed_parts cut_at_last_dot has_shape all_url_safe
    is_url_safe leg_name leg_message after_deeds after_deed issue or_as_it_was fresh_link has_state
    bind binding_of change_where is_bindable is_pending is_followable bound_to consume is_spendable
    is_bound_to spent_at first_where spent_link board_of tier_of after_spending still_holds_the_tier
    finish_with is_boarding verified text_eq owner_of number_of tier_text
ann_finishes = refl

refused_there :
    (redeem plain_mac plain_hex github_says_ann (seal_for elsewhere) elsewhere linked_up).1
    ≡ refused unfollowable
unfolding redeem redeem_opened unsealed unsealed_parts cut_at_last_dot has_shape all_url_safe
    is_url_safe leg_name leg_message after_deeds after_deed issue or_as_it_was fresh_link has_state
    bind binding_of change_where is_bindable is_pending is_followable bound_to consume is_spendable
    is_bound_to spent_at first_where spent_link board_of tier_of after_spending text_eq owner_of
    number_of tier_text
refused_there = refl

seal_opens : unsealed plain_mac plain_hex browser at_github (seal_for browser) ≡ some token
unfolding unsealed unsealed_parts cut_at_last_dot has_shape all_url_safe is_url_safe leg_name
    leg_message text_eq
seal_opens = refl

-- The same, with Discord's own answer.
abbrev discord_seal : Text
discord_seal = token ++ (46 ∷ plain_mac browser (codes "discord:" ++ token))

abbrev handed_out : List IdentityVerification
handed_out = after_deed plain_mac plain_hex (issues 0 for_ann) []

abbrev named : List (Text × Text × ℕ)
named = (browser, token, 101) ∷ []

discord_asked :
    Done plain_mac plain_hex [] []
      (naming plain_mac plain_hex discord_says_ann discord_seal browser ++ [])
      (prove_on_discord plain_mac plain_hex discord_says_ann discord_seal browser handed_out).0
discord_asked =
    asked_discord (issued (nothing_done [] []) 0 for_ann) discord_says_ann discord_seal browser
      (nothing_done [] handed_out)

discord_names : naming plain_mac plain_hex discord_says_ann discord_seal browser ++ [] ≡ named
unfolding after_deed issue or_as_it_was fresh_link has_state bind binding_of change_where
    is_bindable is_pending is_followable bound_to prove_on_discord prove_opened prove_member
    bound_or pending pending_link first_where unsealed unsealed_parts cut_at_last_dot has_shape
    all_url_safe is_url_safe leg_name leg_message sealed mac_of text_eq naming owner_of number_of
    tier_text
discord_names = refl

same_links :
    linked_up.verifications
    ≡ (prove_on_discord plain_mac plain_hex discord_says_ann discord_seal browser handed_out).0
unfolding after_deeds after_deed issue or_as_it_was fresh_link has_state bind binding_of
    change_where is_bindable is_pending is_followable bound_to prove_on_discord prove_opened
    prove_member bound_or pending pending_link first_where unsealed unsealed_parts cut_at_last_dot
    has_shape all_url_safe is_url_safe leg_name leg_message sealed mac_of text_eq naming owner_of
    number_of tier_text
same_links = refl

redeem-vouched_example :
    (opened : Text) × (unsealed plain_mac plain_hex browser at_github (seal_for browser)
      ≡ some opened)
    × IsNamedIn plain_mac plain_hex
        (naming plain_mac plain_hex discord_says_ann discord_seal browser ++ [])
        browser
        opened
        101
redeem-vouched_example =
    redeem-vouched plain_mac plain_hex github_says_ann (seal_for browser) browser linked_up as_ann
      discord_asked same_links ann_finishes

abbrev once_finished : Accounts
once_finished = (redeem plain_mac plain_hex github_says_ann (seal_for browser) browser linked_up).0

redeem-once_example :
    redeem plain_mac plain_hex github_says_ann (seal_for browser) browser once_finished
    ≡ (once_finished, refused unfollowable)
unfolding after_deeds
redeem-once_example =
    redeem-once plain_mac plain_hex so_far [] github_says_ann github_says_ann (seal_for browser)
      (seal_for browser) browser browser token linked_up once_finished as_ann refl seal_opens
      seal_opens ann_finishes tt refl

unsealed-sealed_example :
    (unsealed plain_mac plain_hex browser at_github (seal_for browser) ≡ some token) ↔ (
      (has_shape token ≡ true)
      × (sealed plain_mac plain_hex browser at_github token ≡ some (seal_for browser)))
unsealed-sealed_example =
    unsealed-sealed plain_mac plain_hex browser token (seal_for browser) at_github plain_mac-safe

shaped : (has_shape token ≡ true) × (has_shape browser ≡ true)
unfolding has_shape all_url_safe is_url_safe
shaped = (refl, refl)

no_links : IsOneToOne nobody_yet.user_links
no_links = (tt, tt)

link_for-finishes_example :
    (w' : Accounts) × (seal : Text) × (seal' : Text) × (v : Verified) × (link_for 0 for_ann
        nobody_yet
      ≡ some w')
    × (start plain_mac plain_hex 2 token browser w'.verifications ≡ goes_on seal)
    × ((prove_on_discord plain_mac plain_hex discord_says_ann seal browser w'.verifications).1
        ≡ goes_on (seal', to_link))
    × (let finished = redeem plain_mac plain_hex github_says_ann seal' browser (record w' {
      verifications =
          (prove_on_discord plain_mac plain_hex discord_says_ann seal browser w'.verifications).0;
    }) in
        (finished.1 ≡ goes_on v)
        × (account_for 1 101 finished.0.user_links
            ≡ some (lower (bound_username (codes "Ann")), some 11))
        × (ever_proved 1 101 finished.0
            ≡ some (record {
              discord_guild_id = 1;
              discord_user_id = 101;
              github_login = strip (codes "Ann");
              github_user_id = 11;
              verified_at = 10;
            })))
link_for-finishes_example =
    link_for-finishes plain_mac plain_hex 0 2 for_ann nobody_yet discord_says_ann github_says_ann
      browser (codes "Ann") 11 plain_mac-safe refl shaped.0 shaped.1 refl no_links (omega arith)
      (omega arith) (omega arith) (omega arith) refl (λ t. refl) refl
