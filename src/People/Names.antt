-- ===== src/People/Names.antt =====
-- Names in lists of names, for the loop of `_rename`.
use shannon_bot.Base.{
  All, All-In, All-at, Bool, Bool-cases, In, In-cons, List, [], ap, arith, false, inl, inr, keep,
  length, not, refl, subst, sym, true, ◌&&◌, ◌<◌, ◌∙◌, ◌∷◌, ◌≡◌, ◌≤◌, ◌⊎◌,
}
use shannon_bot.Domain.Text.{Text, text_eq, text_eq_iff}
use shannon_bot.People.Ledger.{is_named}
use shannon_bot.People.Rename.{discard}

pub text_eq_refl : (s : Text) → text_eq s s ≡ true
text_eq_refl s = (text_eq_iff s s).1 refl

pub text_eq_comm : (s t : Text) → text_eq s t ≡ text_eq t s
text_eq_comm s t = elim (Bool-cases (text_eq s t)) [
  | inl e ↦
      ap (λ x. text_eq x t) ((text_eq_iff s t).0 e)
      ∙ ap (λ x. text_eq t x) (sym ((text_eq_iff s t).0 e))
  | inr e ↦ elim (Bool-cases (text_eq t s)) [
    | inl f ↦
        ap (λ x. text_eq x t) (sym ((text_eq_iff t s).0 f))
        ∙ ap (λ x. text_eq t x) ((text_eq_iff t s).0 f)
    | inr f ↦ cc
  ]
]

pub text_eq_left : (s t u : Text) → text_eq s t ≡ true → text_eq s u ≡ text_eq t u
text_eq_left s t u e = ap (λ x. text_eq x u) ((text_eq_iff s t).0 e)

pub text_eq_right : (s t u : Text) → text_eq s t ≡ true → text_eq u s ≡ text_eq u t
text_eq_right s t u e = ap (λ x. text_eq u x) ((text_eq_iff s t).0 e)

-- One name is as good as another that is equal to it.
pub is_named_same :
    (s t : Text) (names : List Text) → text_eq s t ≡ true → is_named s names ≡ is_named t names
is_named_same s t names e = ap (λ x. is_named x names) ((text_eq_iff s t).0 e)

-- No name is there twice.
abbrev pub AreDistinct : List Text → Type 0
AreDistinct [] = Unit
AreDistinct (n ∷ names) = (is_named n names ≡ false) × AreDistinct names

pub length-keep : {A : Type 0} (p : A → Bool) (xs : List A) → length (keep p xs) ≤ length xs
length-keep p [] = omega arith
length-keep p (x ∷ xs) = ground (arith, length-keep p xs)

pub length-discard :
    (x : Text) (ys : List Text) → is_named x ys ≡ true → length (discard x ys) < length ys
unfolding is_named discard
length-discard x [] e = cc
length-discard x (y ∷ ys) e = elim (Bool-cases (text_eq x y)) [
  | inl same ↦ rw same (omega (arith, length-keep (λ n. not (text_eq x n)) ys))
  | inr other ↦ ground (arith, length-discard x ys)
]

pub is_named-discard :
    (x z : Text) (ys : List Text) → is_named z (discard x ys) ≡ (is_named z ys && not (text_eq x z))
unfolding is_named discard
is_named-discard x z [] = refl
is_named-discard x z (y ∷ ys) = elim (Bool-cases (text_eq x y)) [
  | inl same ↦
      let ih = is_named-discard x z ys in
      let moved = text_eq_right x y z same in
      let swapped = text_eq_comm x z in
      elim (Bool-cases (text_eq x z)) [ inl f ↦ ground arith | inr f ↦ ground arith ]
  | inr other ↦
      let ih = is_named-discard x z ys in
      elim (Bool-cases (text_eq z y)) [
        | inl f ↦ let moved = text_eq_right z y x f in ground arith
        | inr f ↦ ground arith
      ]
]

pub is_named-In : {x : Text} (xs : List Text) → In x xs → is_named x xs ≡ true
unfolding is_named
is_named-In [] m = elim m [ ]
is_named-In {x} (y ∷ xs) m = elim (In-cons m) [
  | inl same ↦ subst (λ z. is_named z (y ∷ xs) ≡ true) same (ground (arith, text_eq_refl y))
  | inr n ↦ ground (arith, is_named-In xs n)
]

-- Distinct names among no more names: every one of these is one of them.
pub distinct-is_named :
    (xs ys : List Text)
    → AreDistinct xs
    → All (λ x. is_named x ys ≡ true) xs
    → length ys ≤ length xs
    → (y : Text) → is_named y ys ≡ true
    → is_named y xs ≡ true
unfolding is_named
distinct-is_named [] [] d h l y e = cc
distinct-is_named [] (z ∷ ys) d h l y e = ground arith
distinct-is_named (x ∷ xs) ys d h l y e = elim (Bool-cases (text_eq y x)) [
  | inl same ↦ ground arith
  | inr other ↦
      let apart = text_eq_comm y x in
      let others : All (λ z. is_named z (discard x ys) ≡ true) xs =
        All-In (λ z. is_named z (discard x ys) ≡ true) xs
          (λ z m. go z m (Bool-cases (text_eq x z))) in
      let shorter : length (discard x ys) ≤ length xs = omega (arith, length-discard x ys h.0) in
      let still : is_named y (discard x ys) ≡ true =
        is_named-discard x y ys ∙ rw (e, sym apart ∙ other) refl in
      ground (arith, distinct-is_named xs (discard x ys) d.1 others shorter y still)
]
  where
    go :
        (z : Text)
        → In z xs
        → (text_eq x z ≡ true) ⊎ (text_eq x z ≡ false)
        → is_named z (discard x ys) ≡ true
    go z m (inl same) =
        let k = is_named-In xs m in let l = is_named_same x z xs same in let no_x = d.0 in cc
    go z m (inr f) = is_named-discard x z ys ∙ rw (All-at (λ z. is_named z ys ≡ true) m h.1, f) refl
