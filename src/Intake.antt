-- ===== src/Intake.antt =====
-- shannon/api/routes/webhooks.py and shannon/github/webhooks: what is read, checked and answered
-- before a delivery is written down. The HMAC (`sign`) and `json.loads` are parameters.
pub mod Reading
pub mod Signing
use shannon_bot.Base.{
  Bool, List, Option, [], any, false, if◌then◌else◌, keep, length, ltb, map, none, not, some, true,
  ℕ, ◌&&◌, ◌*◌, ◌++◌, ◌+◌, ◌==◌, ◌∷◌,
}
use shannon_bot.Domain.Text.{Text, codes, is_nonempty, text_eq}

pub data SignatureResult : Type 0 where
  valid missing malformed invalid : SignatureResult

unfoldable pub is_valid : SignatureResult → Bool
is_valid valid = true
is_valid _ = false

-- The constant prefix `sha256=`, in code points.
abbrev pub signature_prefix : Text
signature_prefix = codes "sha256="

unfoldable pub starts_with : Text → Text → Bool
starts_with [] s = true
starts_with (c ∷ p) [] = false
starts_with (c ∷ p) (d ∷ s) = c == d && starts_with p s

unfoldable pub is_ascii : Text → Bool
is_ascii [] = true
is_ascii (c ∷ s) = ltb c 128 && is_ascii s

-- `hmac.compare_digest`: None where it raises, on a header that is not ASCII. The signature is.
unfoldable pub compare_digest : Text → Text → Option Bool
unfolding text_eq is_ascii
compare_digest signature header = if is_ascii header then some (text_eq signature header) else none

-- The end of `verify_any`: MISSING without a result, else VALID among them, else the first.
unfoldable pub valid_or_first : List SignatureResult → SignatureResult
unfolding is_valid
valid_or_first [] = missing
valid_or_first (first ∷ rest) = if any is_valid (first ∷ rest) then valid else first

module _ (sign : Text → Text → Text) where
  unfoldable pub verify : Text → Text → Option Text → SignatureResult
  unfolding starts_with compare_digest
  verify body secret none = missing
  verify body secret (some []) = missing
  verify body secret (some (c ∷ h)) =
      if not (starts_with signature_prefix (c ∷ h))
      then malformed
      else elim (compare_digest (sign body secret) (c ∷ h)) [
        | none ↦ malformed
        | some matched ↦ if matched then valid else invalid
      ]

  -- The results for the usable secrets, in order: empty secrets are dropped.
  unfoldable pub results : Text → List Text → Option Text → List SignatureResult
  unfolding is_nonempty verify
  results body secrets header = map (λ s. verify body s header) (keep is_nonempty secrets)

  unfoldable pub verify_any : Text → List Text → Option Text → SignatureResult
  unfolding results valid_or_first
  verify_any body secrets header = valid_or_first (results body secrets header)

-- The status codes of the refusals.
pub data Refusal : Type 0 where
  bad_request : Refusal
  unauthorized : SignatureResult → Refusal
  too_large : Refusal
  no_secret : Refusal
  no_connection : Refusal

module _ (sign : Text → Text → Text) where
  -- None is a delivery that goes on.
  unfoldable pub require_valid_signature : Text → List Text → Option Text → Option Refusal
  unfolding verify_any is_valid is_nonempty
  require_valid_signature body secrets header =
      if is_valid (verify_any sign body secrets header)
      then none
      else if not (any is_nonempty secrets)
      then some no_secret
      else some (unauthorized (verify_any sign body secrets header))

abbrev pub max_body_bytes : ℕ
max_body_bytes = 25 * 1024 * 1024

-- The loop over `request.stream()`, with the size and the bytes so far, or None past the limit.
unfoldable pub read_chunks : ℕ → Text → List Text → Option Text
read_chunks size so_far [] = some so_far
read_chunks size so_far (chunk ∷ rest) =
    let total = size + length chunk in
    let read = read_chunks total (so_far ++ chunk) rest in
    if ltb max_body_bytes total then none else read

-- The declared length, where the header is one that reads as a number.
unfoldable pub read_within_limit : Option ℕ → List Text → Option Text
unfolding read_chunks
read_within_limit none chunks = read_chunks 0 [] chunks
read_within_limit (some declared) chunks =
    if ltb max_body_bytes declared then none else read_chunks 0 [] chunks
