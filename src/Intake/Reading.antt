-- ===== src/Intake/Reading.antt =====
-- What `_read_within_limit` of shannon/api/routes/webhooks.py reads.
use shannon_bot.Base.{
  Bool-cases, List, Option, [], ap, arith, if◌then◌else◌, inl, inr, leb, leb→le, length,
  length-append, ltb, none, refl, some, sym, ℕ, ◌++◌, ◌+◌, ◌∙◌, ◌∷◌, ◌≡◌, ◌≤◌, ◌⊎◌,
}
use shannon_bot.Domain.Text.{Text}
use shannon_bot.Intake.{max_body_bytes, read_chunks, read_within_limit}

-- The whole body, and what is read of it is the same, up to the limit.
abbrev pub whole : List Text → Text
whole [] = []
whole (chunk ∷ rest) = chunk ++ whole rest

++-assoc : (xs ys zs : Text) → (xs ++ ys) ++ zs ≡ xs ++ (ys ++ zs)
++-assoc [] ys zs = refl
++-assoc (x ∷ xs) ys zs = ap (λ (t : Text). x ∷ t) (++-assoc xs ys zs)

++-nil : (xs : Text) → xs ++ [] ≡ xs
++-nil [] = refl
++-nil (x ∷ xs) = ap (λ (t : Text). x ∷ t) (++-nil xs)

-- The body, if it is within the limit.
abbrev within : Text → Option Text
within body = if leb (length body) max_body_bytes then some body else none

read_chunks-exact :
    (size : ℕ) (so_far : Text) (chunks : List Text)
    → size ≡ length so_far
    → size ≤ max_body_bytes
    → read_chunks size so_far chunks ≡ within (so_far ++ whole chunks)
unfolding read_chunks
read_chunks-exact size so_far [] same le = rw (++-nil so_far) (ground (arith, same))
read_chunks-exact size so_far (chunk ∷ rest) same le =
    elim (Bool-cases (ltb max_body_bytes (size + length chunk))) [
      | inl over ↦ rw over (
          ground
            (arith, length-append so_far (chunk ++ whole rest), length-append chunk (whole rest)))
      | inr fits ↦ rw fits (
          read_chunks-exact (size + length chunk) (so_far ++ chunk) rest
            (omega (arith, length-append so_far chunk)) (ground arith)
          ∙ ap within (++-assoc so_far chunk (whole rest)))
    ]

-- A body is read whole when it is within the limit, and refused when it is not, however it is cut
-- into chunks; a declared length is the body's.
pub read_within_limit-exact :
    (declared : Option ℕ) (chunks : List Text)
    → (declared ≡ none) ⊎ (declared ≡ some (length (whole chunks)))
    → read_within_limit declared chunks
      ≡ (if leb (length (whole chunks)) max_body_bytes then some (whole chunks) else none)
unfolding read_within_limit
read_within_limit-exact none chunks h = read_chunks-exact 0 [] chunks refl (omega arith)
read_within_limit-exact (some declared) chunks h =
    ground (arith, read_chunks-exact 0 [] chunks refl (omega arith))

within-some :
    (body read : Text) → within body ≡ some read → (read ≡ body) × (length body ≤ max_body_bytes)
within-some body read e = elim (Bool-cases (leb (length body) max_body_bytes)) [
  | inr f ↦ let out : ◌≡◌ {A = Option Text} none (some read) = rw f at e in cc
  | inl f ↦
      let same : some body ≡ some read = rw f at e in (cc, leb→le (length body) max_body_bytes f)
]

-- What is read is the body, and is within the limit, whatever length was declared.
pub read_within_limit-some :
    (declared : Option ℕ) (chunks : List Text) (read : Text)
    → read_within_limit declared chunks ≡ some read
    → (read ≡ whole chunks) × (length (whole chunks) ≤ max_body_bytes)
unfolding read_within_limit
read_within_limit-some none chunks read e =
    within-some (whole chunks) read (sym (read_chunks-exact 0 [] chunks refl (omega arith)) ∙ e)
read_within_limit-some (some declared) chunks read e =
    elim (Bool-cases (ltb max_body_bytes declared)) [
      | inl f ↦
          let out : ◌≡◌ {A = Option Text} none (some read) = rw (read_within_limit, f) at e in cc
      | inr f ↦ within-some (whole chunks) read (
          sym (read_chunks-exact 0 [] chunks refl (omega arith)) ∙ (rw (read_within_limit, f) at e))
    ]
