-- ===== src/Identity/OneTime.antt =====
-- shannon/db/stores/identities.py: the one-time links, as functions of their table. A moment is the
-- database's, given to each statement.
use shannon_bot.Base.{
  Bool, List, Option, [], any, change_where, false, first_where, if◌then◌else◌, is_none, keep,
  length, ltb, none, not, some, ℕ, ◌&&◌, ◌+◌, ◌==◌, ◌∷◌,
}
use shannon_bot.Domain.Text.{Text, codes, is_nonempty, join, split_at, text_eq}
use shannon_bot.People.Rename.{sort_by}

pub data VerificationPurpose : Type 0 where
  to_link to_register to_unregister to_board : VerificationPurpose

pub record ChosenBoard : Type 0 where
  pub number : ℕ
  pub owner : Text

pub record IdentityVerification : Type 0 where
  pub state : Text
  pub discord_guild_id : ℕ
  pub discord_user_id : ℕ
  pub purpose : VerificationPurpose
  pub expires_at : ℕ
  pub board_number : Option ℕ
  pub board_owner : Option Text
  pub tier : Option Text
  pub board_chosen_under : Option Text
  pub bound_browser : Option Text
  pub consumed_at : Option ℕ

-- What `issue` is called with.
pub record Issue : Type 0 where
  pub state : Text
  pub guild_id : ℕ
  pub discord_user_id : ℕ
  pub purpose : VerificationPurpose
  pub lifetime : ℕ
  pub board : Option ChosenBoard
  pub tier : Option (List Text)
  pub chosen_under : Option Text

-- `owner or None`
unfoldable pub or_null : Text → Option Text
or_null [] = none
or_null (c ∷ s) = some (c ∷ s)

unfoldable pub owner_of : Option ChosenBoard → Option Text
unfolding or_null
owner_of none = none
owner_of (some board) = or_null board.owner

unfoldable pub number_of : Option ChosenBoard → Option ℕ
number_of none = none
number_of (some board) = some board.number

unfoldable pub tier_text : Option (List Text) → Option Text
unfolding join sort_by
tier_text none = none
tier_text (some names) = some (join (codes ",") (sort_by (λ name. name) names))

unfoldable pub fresh_link : ℕ → Issue → IdentityVerification
unfolding owner_of number_of tier_text
fresh_link now i = record {
  state = i.state;
  discord_guild_id = i.guild_id;
  discord_user_id = i.discord_user_id;
  purpose = i.purpose;
  expires_at = now + i.lifetime;
  board_number = number_of i.board;
  board_owner = owner_of i.board;
  tier = tier_text i.tier;
  board_chosen_under = i.chosen_under;
  bound_browser = none;
  consumed_at = none;
}

unfoldable pub has_state : Text → IdentityVerification → Bool
has_state state r = text_eq r.state state

-- None where the state is there already: the unique constraint refuses the row.
unfoldable pub issue : ℕ → Issue → List IdentityVerification → Option (List IdentityVerification)
unfolding fresh_link has_state
issue now i t = if any (has_state i.state) t then none else some (fresh_link now i ∷ t)

-- `consumed_at IS NULL AND expires_at > now()`
unfoldable pub is_followable : ℕ → IdentityVerification → Bool
is_followable now r = is_none r.consumed_at && ltb now r.expires_at

unfoldable pub is_pending : ℕ → Text → IdentityVerification → Bool
unfolding has_state is_followable
is_pending now state r = has_state state r && is_followable now r

pub record PendingLink : Type 0 where
  pub guild_id : ℕ
  pub discord_user_id : ℕ
  pub purpose : VerificationPurpose

unfoldable pub pending_link : Option IdentityVerification → Option PendingLink
pending_link none = none
pending_link (some r) = some (record {
  guild_id = r.discord_guild_id;
  discord_user_id = r.discord_user_id;
  purpose = r.purpose;
})

unfoldable pub pending : ℕ → Text → List IdentityVerification → Option PendingLink
unfolding first_where is_pending pending_link
pending now state t = pending_link (first_where (is_pending now state) t)

unfoldable pub is_bindable : ℕ → Text → ℕ → IdentityVerification → Bool
unfolding is_pending
is_bindable now state member r = is_pending now state r && r.discord_user_id == member

unfoldable pub bound_to : Text → IdentityVerification → IdentityVerification
bound_to binding r = record r { bound_browser = some binding }

-- The table, and whether exactly one row was changed.
unfoldable pub bind :
    ℕ → Text → ℕ → Text → List IdentityVerification → List IdentityVerification × Bool
unfolding is_bindable change_where bound_to
bind now state member binding t = (
  change_where (is_bindable now state member) (bound_to binding) t,
  length (keep (is_bindable now state member) t) == 1,
)

unfoldable pub is_bound_to : Text → Option Text → Bool
is_bound_to binding none = false
is_bound_to binding (some held) = text_eq held binding

unfoldable pub is_spendable : ℕ → Text → Text → IdentityVerification → Bool
unfolding is_pending is_bound_to
is_spendable now state binding r = is_pending now state r && is_bound_to binding r.bound_browser

unfoldable pub spent_at : ℕ → IdentityVerification → IdentityVerification
spent_at now r = record r { consumed_at = some now }

pub record SpentLink : Type 0 where
  pub guild_id : ℕ
  pub discord_user_id : ℕ
  pub purpose : VerificationPurpose
  pub board : Option ChosenBoard
  pub tier : Option (List Text)
  pub chosen_under : Option Text

unfoldable pub board_of : Option ℕ → Option Text → Option ChosenBoard
board_of none owner = none
board_of (some number) none = some (record { number = number; owner = [] })
board_of (some number) (some owner) = some (record { number = number; owner = owner })

-- `frozenset(name for name in tier.split(",") if name)`
unfoldable pub tier_of : Option Text → Option (List Text)
unfolding split_at is_nonempty
tier_of none = none
tier_of (some tier) = some (keep is_nonempty (split_at (λ c. c == b',') tier))

unfoldable pub spent_link : Option IdentityVerification → Option SpentLink
unfolding board_of tier_of
spent_link none = none
spent_link (some r) = some (record {
  guild_id = r.discord_guild_id;
  discord_user_id = r.discord_user_id;
  purpose = r.purpose;
  board = board_of r.board_number r.board_owner;
  tier = tier_of r.tier;
  chosen_under = r.board_chosen_under;
})

-- Filter, stamp and answer in one statement.
unfoldable pub consume :
    ℕ → Text → Text → List IdentityVerification → List IdentityVerification × Option SpentLink
unfolding is_spendable change_where spent_at first_where spent_link
consume now state binding t = (
  change_where (is_spendable now state binding) (spent_at now) t,
  spent_link (first_where (is_spendable now state binding) t),
)

-- `expires_at < now() - keep_for`
unfoldable pub prune_links : ℕ → ℕ → List IdentityVerification → List IdentityVerification
prune_links now keep_for t = keep (λ r. not (ltb (r.expires_at + keep_for) now)) t
