-- ===== src/Intake/Signing.antt =====
-- Which deliveries `_require_valid_signature` of shannon/api/routes/webhooks.py lets through.
use shannon_bot.Base.{
  Bool, Bool-cases, In, List, Option, [], any, any-none, ap, arith, at_head, false, in_tail, inl,
  inr, is_none, keep-none, none, refl, some, sym, true, ◌&&◌, ◌∙◌, ◌∷◌, ◌≡◌, ◌≢◌,
}
use shannon_bot.Domain.Text.{Text, is_nonempty, text_eq, text_eq_iff}
use shannon_bot.Intake.{
  SignatureResult, compare_digest, invalid, is_ascii, is_valid, malformed, missing, no_secret,
  require_valid_signature, results, signature_prefix, starts_with, valid, valid_or_first, verify,
  verify_any,
}

valid_or_first-valid : (rs : List SignatureResult) → is_valid (valid_or_first rs) ≡ any is_valid rs
unfolding valid_or_first is_valid
valid_or_first-valid [] = refl
valid_or_first-valid (valid ∷ rest) = refl
valid_or_first-valid (missing ∷ rest) = ground arith
valid_or_first-valid (malformed ∷ rest) = ground arith
valid_or_first-valid (invalid ∷ rest) = ground arith

nonempty-some : (s : Text) → is_nonempty s ≡ true → s ≢ []
unfolding is_nonempty
nonempty-some [] e f = cc e
nonempty-some (c ∷ s) e f = cc f

module _ (sign : Text → Text → Text) where
  -- What makes a secret's signature good for a header.
  abbrev pub is_signed : Text → Text → Text → Bool
  is_signed body header secret =
      text_eq (sign body secret) header && starts_with signature_prefix header && is_ascii header

  verify-is_signed :
      (body secret header : Text)
      → is_valid (verify sign body secret (some header)) ≡ is_signed body header secret
  unfolding verify is_valid compare_digest starts_with
  verify-is_signed body secret [] = ground arith
  verify-is_signed body secret (c ∷ h) = ground arith

  any-results :
      (body header : Text) (secrets : List Text)
      → any is_valid (results sign body secrets (some header))
        ≡ any (λ s. is_nonempty s && is_signed body header s) secrets
  unfolding results
  any-results body header [] = refl
  any-results body header (s ∷ secrets) = elim (Bool-cases (is_nonempty s)) [
    | inl e ↦ ground (arith, verify-is_signed body s header, any-results body header secrets)
    | inr e ↦ ground (arith, any-results body header secrets)
  ]

  verify_any-results :
      (body : Text) (secrets : List Text) (header : Option Text)
      → is_valid (verify_any sign body secrets header)
        ≡ any is_valid (results sign body secrets header)
  unfolding verify_any
  verify_any-results body secrets header = valid_or_first-valid (results sign body secrets header)

  -- With a header, a delivery goes on exactly when the header is the signature of its body under
  -- one of the secrets that are set, with the prefix and in ASCII.
  pub require_valid_signature-goes_on :
      (body : Text) (secrets : List Text) (header : Text)
      → is_none (require_valid_signature sign body secrets (some header))
        ≡ any (λ s. is_nonempty s && is_signed body header s) secrets
  unfolding require_valid_signature
  require_valid_signature-goes_on body secrets header =
      ground (arith, verify_any-results body secrets (some header), any-results body header secrets)

  -- With no secret set, no header lets a delivery go on: it is refused as unconfigured.
  pub require_valid_signature-closed :
      (body : Text) (secrets : List Text) (header : Option Text)
      → any is_nonempty secrets ≡ false
      → require_valid_signature sign body secrets header ≡ some no_secret
  unfolding require_valid_signature verify_any results valid_or_first is_valid
  require_valid_signature-closed body secrets header none_set =
      rw (keep-none is_nonempty secrets (any-none is_nonempty secrets none_set), none_set) refl

  -- A header that is the signature of the body under a secret that is set.
  pub IsSigned : Text → List Text → Option Text → Type 0
  IsSigned body secrets none = ⊥
  IsSigned body secrets (some header) =
      (secret : Text) × In secret secrets
      × (secret ≢ [])
      × (header ≡ sign body secret)
      × (starts_with signature_prefix header ≡ true)

  any-IsSigned :
      (body : Text) (secrets : List Text) (header : Text)
      → any (λ s. is_nonempty s && is_signed body header s) secrets ≡ true
      → IsSigned body secrets (some header)
  unfolding IsSigned is_nonempty
  any-IsSigned body [] header e = cc
  any-IsSigned body (secret ∷ secrets) header e =
      elim (Bool-cases (is_nonempty secret && is_signed body header secret)) [
        | inl f ↦ (
          secret,
          at_head,
          nonempty-some secret (ground arith),
          sym ((text_eq_iff (sign body secret) header).0 (ground arith)),
          ground arith,
        )
        | inr f ↦
            let (found, m, set, same, marked) = any-IsSigned body secrets header (ground arith) in
            (found, in_tail m, set, same, marked)
      ]

  no_header-invalid :
      (body : Text) (secrets : List Text) → any is_valid (results sign body secrets none) ≡ false
  unfolding results verify is_valid
  no_header-invalid body [] = refl
  no_header-invalid body (s ∷ secrets) = elim (Bool-cases (is_nonempty s)) [
    | inl e ↦ rw e (no_header-invalid body secrets)
    | inr e ↦ rw e (no_header-invalid body secrets)
  ]

  unsigned-refused :
      (body : Text) (secrets : List Text)
      → is_none (require_valid_signature sign body secrets none) ≡ false
  unfolding require_valid_signature
  unsigned-refused body secrets =
      ground (arith, verify_any-results body secrets none, no_header-invalid body secrets)

  pub require_valid_signature-IsSigned :
      (body : Text) (secrets : List Text) (header : Option Text)
      → require_valid_signature sign body secrets header ≡ none
      → IsSigned body secrets header
  require_valid_signature-IsSigned body secrets none e =
      cc (ap is_none e, unsigned-refused body secrets)
  require_valid_signature-IsSigned body secrets (some header) e =
      any-IsSigned body secrets header
        (sym (require_valid_signature-goes_on body secrets header) ∙ ap is_none e)
