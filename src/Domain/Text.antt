-- ===== src/Domain/Text.antt =====
-- Text as the list of its code points, and the str methods that the program reads names with.
-- Case and whitespace are ASCII's: `lower` and `casefold` agree there.
use Prim.Native.Char.{code}
use shannon_bot.Base.{
  Bool, List, String, [], arith, false, if◌then◌else◌, keep, leb, refl, true, ℕ, ◌&&◌, ◌++◌, ◌+◌,
  ◌==◌, ◌||◌, ◌↔◌, ◌∷◌, ◌≡◌,
}

abbrev pub Text : Type 0
Text = List ℕ

abbrev pub codes : String → Text
codes String.[] = []
codes (String.◌∷◌ c s) = code c ∷ codes s

unfoldable pub is_blank : ℕ → Bool
is_blank c = (leb 9 c && leb c 13) || (leb 28 c && leb c 32)

unfoldable pub lower : Text → Text
lower [] = []
lower (c ∷ s) = (if leb 65 c && leb c 90 then c + 32 else c) ∷ lower s

unfoldable pub lstrip : Text → Text
unfolding is_blank
lstrip [] = []
lstrip (c ∷ s) = let rest = lstrip s in if is_blank c then rest else c ∷ s

-- A character stays if it is no space or something stays after it.
unfoldable pub trimmed : ℕ → Text → Text
unfolding is_blank
trimmed c [] = if is_blank c then [] else c ∷ []
trimmed c (d ∷ rest) = c ∷ d ∷ rest

unfoldable pub rstrip : Text → Text
unfolding trimmed
rstrip [] = []
rstrip (c ∷ s) = trimmed c (rstrip s)

unfoldable pub strip : Text → Text
unfolding lstrip rstrip
strip s = rstrip (lstrip s)

unfoldable pub text_eq : Text → Text → Bool
text_eq [] [] = true
text_eq [] (d ∷ t) = false
text_eq (c ∷ s) [] = false
text_eq (c ∷ s) (d ∷ t) = c == d && text_eq s t

pub text_eq_iff : (s t : Text) → (text_eq s t ≡ true) ↔ (s ≡ t)
unfolding text_eq
text_eq_iff [] [] = (λ e. refl, λ e. refl)
text_eq_iff [] (d ∷ t) = (λ e. cc, λ e. cc)
text_eq_iff (c ∷ s) [] = (λ e. cc, λ e. cc)
text_eq_iff (c ∷ s) (d ∷ t) = ground (arith, text_eq_iff s t)

-- `[\s_\-:/]`, the separators of shannon/domain/priority.py and shannon/domain/board.py
unfoldable pub is_separator : ℕ → Bool
unfolding is_blank
is_separator c = is_blank c || (c == b'_' || (c == b'-' || (c == b':' || c == b'/')))

-- The first piece of a text and the pieces after it.
unfoldable pub push_code : ℕ → List Text → List Text
push_code c [] = (c ∷ []) ∷ []
push_code c (piece ∷ rest) = (c ∷ piece) ∷ rest

-- Splits at every character that passes the test, empty pieces included.
unfoldable pub split_at : (ℕ → Bool) → Text → List Text
unfolding push_code
split_at test [] = [] ∷ []
split_at test (c ∷ s) =
    let pieces = split_at test s in if test c then [] ∷ pieces else push_code c pieces

unfoldable pub is_nonempty : Text → Bool
is_nonempty [] = false
is_nonempty (c ∷ s) = true

-- `[part for part in _SEPARATORS.split(text) if part]`
unfoldable pub words : Text → List Text
unfolding split_at is_separator is_nonempty
words s = keep is_nonempty (split_at is_separator s)

-- Each piece behind a separator.
unfoldable pub behind : Text → List Text → Text
behind separator [] = []
behind separator (piece ∷ rest) = separator ++ (piece ++ behind separator rest)

-- `separator.join(pieces)`
unfoldable pub join : Text → List Text → Text
unfolding behind
join separator [] = []
join separator (piece ∷ rest) = piece ++ behind separator rest
