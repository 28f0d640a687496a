-- ===== src/People/Renaming.antt =====
-- The loop of `_rename` ends: whenever no name is free, the row that is parked frees one that is wanted.
use shannon_bot.Base.{
  Bool, Bool-cases, List, [], ap, arith, false, inl, inr, keep, map, not, refl, sym, true, ◌||◌,
  ◌∙◌, ◌∷◌, ◌≡◌, ◌≢◌, ◌⊎◌,
}
use shannon_bot.Domain.Text.{Text, text_eq, text_eq_iff}
use shannon_bot.People.Ledger.{Assignment, is_named}
use shannon_bot.People.Names.{is_named-discard, text_eq_comm}
use shannon_bot.People.Rename.{Renames, discard, hand_on, insert_by, sort_by}

abbrev pub logins_of : Renames → List Text
logins_of w = map (λ e. e.0) w

abbrev pub names_held : Renames → List Text
names_held w = map (λ e. e.1.github_username) w

-- A held name that is wanted is the name of a row that waits.
abbrev pub IsCovered : Renames → List Text → Type 0
IsCovered w held =
    (n : Text)
    → is_named n held ≡ true
    → is_named n (logins_of w) ≡ true
    → is_named n (names_held w) ≡ true

-- GitHub issues no login that begins with a hyphen.
abbrev pub IsLogin : Text → Type 0
IsLogin [] = Unit
IsLogin (c ∷ s) = c ≢ b'-'

module _ (f : Text × Assignment → Text) where
  is_named-insert_by :
      (n : Text) (key : Text × Assignment → Text) (e : Text × Assignment) (w : Renames)
      → is_named n (map f (insert_by key e w)) ≡ is_named n (map f (e ∷ w))
  unfolding is_named insert_by
  is_named-insert_by n key e [] = refl
  is_named-insert_by n key e (x ∷ w) = ground (arith, is_named-insert_by n key e w)

  pub is_named-sort_by :
      (n : Text) (key : Text × Assignment → Text) (w : Renames)
      → is_named n (map f (sort_by key w)) ≡ is_named n (map f w)
  unfolding is_named sort_by
  is_named-sort_by n key [] = refl
  is_named-sort_by n key (x ∷ w) =
      is_named-insert_by n key x (sort_by key w)
      ∙ ap (λ b. text_eq n (f x) || b) (is_named-sort_by n key w)

  -- What is named is named by the entries that pass a test or by the others.
  pub is_named-parts :
      (n : Text) (p : Text × Assignment → Bool) (w : Renames)
      → is_named n (map f w) ≡ true
      → is_named n (map f (keep (λ e. not (p e)) w)) ≡ false
      → is_named n (map f (keep p w)) ≡ true
  unfolding is_named
  is_named-parts n p [] h k = cc
  is_named-parts n p (x ∷ w) h k = ground (arith, is_named-parts n p w)

  pub is_named-keep :
      (n : Text) (p : Text × Assignment → Bool) (w : Renames)
      → is_named n (map f (keep p w)) ≡ true
      → is_named n (map f w) ≡ true
  unfolding is_named
  is_named-keep n p [] h = h
  is_named-keep n p (x ∷ w) h = ground (arith, is_named-keep n p w)

-- A login among the entries that are kept passes the test on logins.
pub is_named-passed :
    (n : Text) (q : Text → Bool) (w : Renames)
    → is_named n (logins_of (keep (λ e. q e.0) w)) ≡ true
    → q n ≡ true
unfolding is_named
is_named-passed n q [] h = cc
is_named-passed n q (x ∷ w) h = elim (Bool-cases (q x.0)) [
  | inl e ↦ elim (Bool-cases (text_eq n x.0)) [
    | inl same ↦ ap q ((text_eq_iff n x.0).0 same) ∙ e
    | inr other ↦ is_named-passed n q w (ground arith)
  ]
  | inr e ↦ is_named-passed n q w (ground arith)
]

-- A name that is held after names were handed on was handed on, or was held and not given up.
hand_on-held :
    (n : Text) (ready : Renames) (held : List Text)
    → is_named n (hand_on ready held) ≡ true
    → (is_named n (logins_of ready) ≡ true)
      ⊎ ((is_named n held ≡ true) × (is_named n (names_held ready) ≡ false))
unfolding hand_on is_named
hand_on-held n [] held h = inr (h, refl)
hand_on-held n (e ∷ ready) held h =
    elim (hand_on-held n ready (e.0 ∷ discard e.1.github_username held) h) [
      | inl k ↦ inl (ground arith)
      | inr k ↦ elim (Bool-cases (text_eq n e.0)) [
        | inl same ↦ inl (ground arith)
        | inr other ↦
            let left = is_named-discard e.1.github_username n held in
            let turned = text_eq_comm e.1.github_username n in inr (ground arith)
      ]
    ]

pub IsCovered-hand_on :
    (w : Renames) (held : List Text)
    → IsCovered w held
    → IsCovered
        (keep (λ e. is_named e.0 held) w)
        (hand_on (sort_by (λ e. e.0) (keep (λ e. not (is_named e.0 held)) w)) held)
IsCovered-hand_on w held c n h k =
    let free = keep (λ e. not (is_named e.0 held)) w in
    let ready = sort_by (λ e. e.0) free in
    let was_held : is_named n held ≡ true = is_named-passed n (λ m. is_named m held) w k in
    elim (hand_on-held n ready held h) [
      | inl m ↦
          let m' = sym (is_named-sort_by (λ e. e.0) n (λ e. e.0) free) ∙ m in
          let no = is_named-passed n (λ x. not (is_named x held)) w m' in ground arith
      | inr m ↦
          is_named-parts (λ e. e.1.github_username) n (λ e. is_named e.0 held) w
            (c n was_held (is_named-keep (λ e. e.0) n (λ e. is_named e.0 held) w k))
            (sym (is_named-sort_by (λ e. e.1.github_username) n (λ e. e.0) free) ∙ m.1)
    ]
