-- ===== src/Identity/RoundTrip.antt =====
-- shannon/services/verification.py with shannon/services/linking.py: a one-time link, from the command
-- that hands it out through Discord and GitHub to what it finishes. What Discord and GitHub answer,
-- when each statement runs and what other transactions do in between are given as records.
use shannon_bot.Base.{
  Bool, List, Option, [], false, if◌then◌else◌, is_none, keep, none, not, some, true, ℕ, ◌*◌, ◌-◌,
  ◌==◌, ◌||◌, ◌∷◌,
}
use shannon_bot.Domain.Text.{Text, codes, lower, strip}
use shannon_bot.Identity.OneTime.{
  ChosenBoard, IdentityVerification, Issue, PendingLink, SpentLink, VerificationPurpose, bind,
  consume, issue, pending, to_board, to_link, to_register, to_unregister,
}
use shannon_bot.Identity.Proofs.{VerifiedIdentity, proved, remember}
use shannon_bot.Identity.Seals.{at_discord, at_github, binding_of, has_shape, sealed, unsealed}
use shannon_bot.Links.Store.{UserLinks, link}
use shannon_bot.People.Ledger.{is_named}
use shannon_bot.People.Notifier.{spent}

abbrev pub link_lifetime : ℕ
link_lifetime = 10 * 60 * 1000000

abbrev pub proof_lifetime : ℕ
proof_lifetime = 15 * 60 * 1000000

pub record Accounts : Type 0 where
  pub verifications : List IdentityVerification
  pub identities : List VerifiedIdentity
  pub user_links : UserLinks

pub data Refused : Type 0 where
  unfollowable not_this_browser not_yours discord_refused github_refused : Refused
  cannot_ask no_longer_allowed board_not_kept : Refused

pub data Reply (A : Type 0) : Type 0 where
  goes_on : A → Reply A
  refused : Refused → Reply A

-- `link_for`: the link's state is fresh, and `board_owner` of the repository comes with the board.
unfoldable pub link_for : ℕ → Issue → Accounts → Option Accounts
unfolding issue
link_for now i w = elim (issue now (record i { lifetime = link_lifetime }) w.verifications) [
  | none ↦ none
  | some t ↦ some (record w { verifications = t })
]

unfoldable pub command_roles : List Text
command_roles = codes "ADMIN" ∷ codes "PROJECT_MANAGER" ∷ codes "REVIEWER" ∷ codes "DEVELOPER" ∷ []

unfoldable pub known_tiers : List Text → List Text
unfolding command_roles is_named
known_tiers names = keep (λ name. is_named name command_roles) names

unfoldable pub tiers_of : Option (List Text) → List Text
tiers_of none = []
tiers_of (some names) = names

unfoldable pub lstrip_at : Text → Text
lstrip_at [] = []
lstrip_at (c ∷ s) = let rest = lstrip_at s in if c == b'@' then rest else c ∷ s

-- `login.strip().lstrip("@").lower()`
unfoldable pub bound_username : Text → Text
unfolding strip lstrip_at lower
bound_username login = lower (lstrip_at (strip login))

-- `UserLinkingService.bind`
unfoldable pub bind_account : ℕ → ℕ → Text → ℕ → UserLinks → UserLinks
unfolding bound_username link
bind_account guild member login account t =
    link guild (bound_username login) (some account) member t

pub record DiscordDay : Type 0 where
  pub read_at : ℕ
  pub member : Option ℕ
  pub meddling : List IdentityVerification → List IdentityVerification
  pub written_at : ℕ

pub record GithubDay : Type 0 where
  pub spent_at : ℕ
  pub holds_tier : List Text → Option Bool
  pub account : Option (Text × ℕ)
  pub proved_at : ℕ
  pub keeps_grant : Bool
  pub assigns : ChosenBoard → ℕ → Option Text → Bool

pub data BoardAnswer : Type 0 where
  no_board board_linked board_not_linked : BoardAnswer

pub record Verified : Type 0 where
  pub guild_id : ℕ
  pub discord_user_id : ℕ
  pub login : Text
  pub github_user_id : ℕ
  pub purpose : VerificationPurpose
  pub board : BoardAnswer

unfoldable pub is_linking : VerificationPurpose → Bool
is_linking to_link = true
is_linking to_register = false
is_linking to_unregister = false
is_linking to_board = false

unfoldable pub is_boarding : VerificationPurpose → Bool
is_boarding to_link = false
is_boarding to_register = false
is_boarding to_unregister = false
is_boarding to_board = true

-- `_still_holds_the_tier`: the refusal, if it refuses.
unfoldable pub tier_refusal : Option Bool → Option Refused
tier_refusal none = some cannot_ask
tier_refusal (some false) = some no_longer_allowed
tier_refusal (some true) = none

unfoldable pub still_holds_the_tier : GithubDay → SpentLink → Option Refused
unfolding tier_refusal known_tiers tiers_of is_boarding
still_holds_the_tier d spent =
    if is_boarding spent.purpose
    then tier_refusal (d.holds_tier (known_tiers (tiers_of spent.tier)))
    else none

unfoldable pub link_what_was_chosen : GithubDay → SpentLink → Option ChosenBoard → BoardAnswer
link_what_was_chosen d spent none = no_board
link_what_was_chosen d spent (some board) =
    if d.assigns board spent.discord_user_id spent.chosen_under
    then board_linked
    else board_not_linked

-- The proof, and for a link the link.
unfoldable pub with_proof : GithubDay → SpentLink → Text → ℕ → Accounts → Accounts
unfolding remember is_linking bind_account
with_proof d spent login account w = record {
  verifications = w.verifications;
  identities = remember spent.guild_id spent.discord_user_id login account d.proved_at w.identities;
  user_links =
      if is_linking spent.purpose
      then bind_account spent.guild_id spent.discord_user_id login account w.user_links
      else w.user_links;
}

unfoldable pub verified : GithubDay → SpentLink → Text → ℕ → BoardAnswer → Verified
verified d spent login account board = record {
  guild_id = spent.guild_id;
  discord_user_id = spent.discord_user_id;
  login = login;
  github_user_id = account;
  purpose = spent.purpose;
  board = board;
}

unfoldable pub finish_with :
    GithubDay → SpentLink → Option (Text × ℕ) → Accounts → Accounts × Reply Verified
unfolding with_proof verified is_boarding link_what_was_chosen
finish_with d spent none w = (w, refused github_refused)
finish_with d spent (some (login, account)) w =
    let w' = with_proof d spent login account w in
    if is_boarding spent.purpose
    then (if d.keeps_grant
        then (
          w',
          goes_on (verified d spent login account (link_what_was_chosen d spent spent.board)),
        )
        else (w', refused board_not_kept))
    else (w', goes_on (verified d spent login account no_board))

unfoldable pub after_spending : GithubDay → Option SpentLink → Accounts → Accounts × Reply Verified
unfolding still_holds_the_tier finish_with
after_spending d none w = (w, refused unfollowable)
after_spending d (some spent) w = elim (still_holds_the_tier d spent) [
  | some refusal ↦ (w, refused refusal)
  | none ↦ finish_with d spent d.account w
]

module _ (mac hex_mac : Text → Text → Text) where
  unfoldable pub sealed_or : Option Text → Reply Text
  sealed_or none = refused not_this_browser
  sealed_or (some seal) = goes_on seal

  -- The state that the browser is sent to Discord with. Nothing is written.
  unfoldable pub start : ℕ → Text → Text → List IdentityVerification → Reply Text
  unfolding has_shape pending sealed sealed_or
  start now token browser t =
      if not (has_shape token) || is_none (pending now token t)
      then refused unfollowable
      else sealed_or (sealed mac hex_mac browser at_discord token)

  -- The bind, with what the browser is sent to GitHub with.
  unfoldable pub bound_or :
      Text
      → Text
      → PendingLink
      → List IdentityVerification × Bool
      → List IdentityVerification × Reply (Text × VerificationPurpose)
  unfolding sealed
  bound_or browser token found (t, false) = (t, refused unfollowable)
  bound_or browser token found (t, true) = elim (sealed mac hex_mac browser at_github token) [
    | none ↦ (t, refused not_this_browser)
    | some seal ↦ (t, goes_on (seal, found.purpose))
  ]

  unfoldable pub prove_member :
      DiscordDay
      → Text
      → Text
      → PendingLink
      → Option ℕ
      → List IdentityVerification
      → List IdentityVerification × Reply (Text × VerificationPurpose)
  unfolding bind binding_of bound_or
  prove_member d browser token found none t = (d.meddling t, refused discord_refused)
  prove_member d browser token found (some member) t =
      if member == found.discord_user_id
      then bound_or browser token found
          (bind d.written_at token member (binding_of mac hex_mac browser token) (d.meddling t))
      else (d.meddling t, refused not_yours)

  unfoldable pub prove_opened :
      DiscordDay
      → Text
      → Option Text
      → List IdentityVerification
      → List IdentityVerification × Reply (Text × VerificationPurpose)
  unfolding pending prove_member
  prove_opened d browser none t = (t, refused not_this_browser)
  prove_opened d browser (some token) t = elim (pending d.read_at token t) [
    | none ↦ (t, refused unfollowable)
    | some link ↦ prove_member d browser token link d.member t
  ]

  unfoldable pub prove_on_discord :
      DiscordDay
      → Text
      → Text
      → List IdentityVerification
      → List IdentityVerification × Reply (Text × VerificationPurpose)
  unfolding unsealed prove_opened
  prove_on_discord d seal browser t =
      prove_opened d browser (unsealed mac hex_mac browser at_discord seal) t

  unfoldable pub redeem_opened :
      GithubDay → Text → Option Text → Accounts → Accounts × Reply Verified
  unfolding consume binding_of after_spending
  redeem_opened d browser none w = (w, refused unfollowable)
  redeem_opened d browser (some token) w =
      let (t, spent) =
        consume d.spent_at token (binding_of mac hex_mac browser token) w.verifications in
      after_spending d spent (record w { verifications = t })

  unfoldable pub redeem : GithubDay → Text → Text → Accounts → Accounts × Reply Verified
  unfolding unsealed redeem_opened
  redeem d seal browser w = redeem_opened d browser (unsealed mac hex_mac browser at_github seal) w

-- `proved_just_now` and `ever_proved`
unfoldable pub proved_just_now : ℕ → ℕ → ℕ → Accounts → Option VerifiedIdentity
unfolding proved
proved_just_now now guild member w = proved guild member (some (now - proof_lifetime)) w.identities

unfoldable pub ever_proved : ℕ → ℕ → Accounts → Option VerifiedIdentity
unfolding proved
ever_proved guild member w = proved guild member none w.identities
