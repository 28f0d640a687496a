-- ===== src/Github/Single.antt =====
-- What one label put on or taken off leaves on an item.
use shannon_bot.Base.{
  Bool, Bool-cases, List, [], any, ap, arith, false, inl, inr, keep, not, refl, true, ◌++◌, ◌||◌,
  ◌∙◌, ◌∷◌, ◌≡◌,
}
use shannon_bot.Domain.Text.{Text}
use shannon_bot.Github.Changes.{applied, matches, matches_refl}
use shannon_bot.Github.Labels.{label_change}

-- A held name and a name are the same but for case and outer spaces.
abbrev pub is_named : Text → Text → Bool
is_named name held = matches held name

any-keep_every : (p : Text → Bool) (xs : List Text) → any p (keep (λ n. true) xs) ≡ any p xs
any-keep_every p [] = refl
any-keep_every p (x ∷ xs) = ap (λ b. p x || b) (any-keep_every p xs)

any-last : (p : Text → Bool) (xs : List Text) (x : Text) → p x ≡ true → any p (xs ++ x ∷ []) ≡ true
any-last p [] x e = ground arith
any-last p (y ∷ xs) x e = ground (arith, any-last p xs x e)

any-keep_others :
    (name : Text) (xs : List Text)
    → any (is_named name) (keep (λ n. not (matches n name || false)) xs) ≡ false
any-keep_others name [] = refl
any-keep_others name (x ∷ xs) = ground (arith, any-keep_others name xs)

-- Once the change of one label is applied, the item has the label exactly when it was to be put on,
-- whatever it had before and however the label is spelled there.
pub applied-label_change :
    (current : List Text) (name : Text) (adding : Bool)
    → any (is_named name) (applied (label_change current name adding) current) ≡ adding
unfolding applied label_change
applied-label_change current name true = elim (Bool-cases (any (is_named name) current)) [
  | inl e ↦ rw (e, label_change) (any-keep_every (is_named name) current ∙ e)
  | inr e ↦
      rw (e, label_change)
        (any-last (is_named name) (keep (λ n. true) current) name (matches_refl name))
]
applied-label_change current name false = elim (Bool-cases (any (is_named name) current)) [
  | inl e ↦ rw (e, label_change) (any-keep_others name current)
  | inr e ↦ rw (e, label_change) (any-keep_every (is_named name) current ∙ e)
]
