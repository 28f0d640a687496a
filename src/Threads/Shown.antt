-- ===== src/Threads/Shown.antt =====
-- The labels that a reader of a thread has been shown, by `note_label_announced`.
use shannon_bot.Base.{
  Bool, Bool-cases, List, Option, [], any, any-append, ap, arith, false, if◌then◌else◌, inl, inr,
  keep, none, not, refl, some, true, ◌&&◌, ◌||◌, ◌∙◌, ◌∷◌, ◌≡◌,
}
use shannon_bot.Domain.Text.{Text, text_eq}
use shannon_bot.People.Names.{text_eq_left}
use shannon_bot.Threads.Pointers.{label_announced, without_label}

-- Whether a label is among those shown.
abbrev pub is_shown : Text → Option (List Text) → Bool
is_shown name none = false
is_shown name (some shown) = any (text_eq name) shown

any-without :
    (n name : Text) (shown : List Text)
    → any (text_eq n) (keep (λ m. not (text_eq m name)) shown)
      ≡ (any (text_eq n) shown && not (text_eq n name))
any-without n name [] = refl
any-without n name (m ∷ shown) = elim (Bool-cases (text_eq n m)) [
  | inl e ↦ let same = text_eq_left n m name e in ground (arith, any-without n name shown)
  | inr e ↦ ground (arith, any-without n name shown)
]

-- After a line about a label, the label has been shown exactly if it was put on, whatever was shown
-- before, and of every other label as much as before.
pub label_announced_lem :
    (name n : Text) (on_it : Bool) (shown : Option (List Text))
    → is_shown n (some (label_announced name on_it shown))
      ≡ (if text_eq n name then on_it else is_shown n shown)
unfolding label_announced without_label
label_announced_lem name n true none = ground arith
label_announced_lem name n false none = ground arith
label_announced_lem name n false (some shown) = any-without n name shown ∙ ground arith
label_announced_lem name n true (some shown) =
    any-append (text_eq n) (keep (λ m. not (text_eq m name)) shown) (name ∷ [])
    ∙ ap (λ b. b || (text_eq n name || false)) (any-without n name shown)
    ∙ ground arith
