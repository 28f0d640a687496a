-- ===== src/Identity/Seals.antt =====
-- shannon/services/verification.py: states sealed to a browser. The HMAC is a parameter, once with
-- the digest in unpadded base64url and once in hexadecimal.
use shannon_bot.Base.{
  Bool, Option, [], if◌then◌else◌, leb, length, none, some, true, ℕ, ◌&&◌, ◌++◌, ◌==◌, ◌||◌, ◌∷◌,
}
use shannon_bot.Domain.Text.{Text, codes, text_eq}

unfoldable pub is_url_safe : ℕ → Bool
is_url_safe c =
    (leb b'A' c && leb c b'Z')
    || ((leb b'a' c && leb c b'z') || ((leb b'0' c && leb c b'9') || (c == b'_' || c == b'-')))

unfoldable pub all_url_safe : Text → Bool
unfolding is_url_safe
all_url_safe [] = true
all_url_safe (c ∷ s) = is_url_safe c && all_url_safe s

-- `[A-Za-z0-9_-]{43}` of the whole text: STATE_SHAPE and BROWSER_SHAPE.
unfoldable pub has_shape : Text → Bool
unfolding all_url_safe
has_shape s = length s == 43 && all_url_safe s

-- `s.rpartition(".")`, where there is a dot.
unfoldable pub cut_at_last_dot : Text → Option (Text × Text)
cut_at_last_dot [] = none
cut_at_last_dot (c ∷ s) = elim (cut_at_last_dot s) [
  | some (before, after) ↦ some (c ∷ before, after)
  | none ↦ if c == b'.' then some ([], s) else none
]

-- The two legs of a round trip.
pub data Leg : Type 0 where
  at_discord at_github : Leg

unfoldable pub leg_name : Leg → Text
leg_name at_discord = codes "discord"
leg_name at_github = codes "github"

unfoldable pub leg_message : Text → Text → Text
leg_message leg token = leg ++ (codes ":" ++ token)

module _ (mac hex_mac : Text → Text → Text) where
  -- None where `_mac` raises.
  unfoldable pub mac_of : Text → Leg → Text → Option Text
  unfolding has_shape leg_name leg_message
  mac_of browser leg token =
      if has_shape browser then some (mac browser (leg_message (leg_name leg) token)) else none

  unfoldable pub sealed : Text → Leg → Text → Option Text
  unfolding mac_of
  sealed browser leg token = elim (mac_of browser leg token) [
    | none ↦ none
    | some m ↦ some (token ++ (codes "." ++ m))
  ]

  unfoldable pub unsealed_parts : Text → Leg → Option (Text × Text) → Option Text
  unfolding has_shape leg_name leg_message
  unsealed_parts browser leg none = none
  unsealed_parts browser leg (some (token, m)) =
      if has_shape token && text_eq m (mac browser (leg_message (leg_name leg) token))
      then some token
      else none

  unfoldable pub unsealed : Text → Leg → Text → Option Text
  unfolding has_shape cut_at_last_dot unsealed_parts
  unsealed browser leg seal =
      if has_shape browser then unsealed_parts browser leg (cut_at_last_dot seal) else none

  unfoldable pub binding_of : Text → Text → Text
  unfolding leg_message
  binding_of browser token = hex_mac browser (leg_message (codes "bound") token)
