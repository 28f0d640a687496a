-- ===== src/People/Rounds.antt =====
-- What a round of `_rename` keeps: sorting loses no entry, names stay distinct, and the name that parking
-- frees is wanted.
use shannon_bot.Base.{
  All, Bool, Bool-cases, In, In-cons, List, [], ap, arith, at_head, false, in_tail, inl, inr, keep,
  length, map, not, refl, subst, sym, true, ℕ, ◌+◌, ◌∷◌, ◌≡◌, ◌≢◌,
}
use shannon_bot.Domain.Text.{Text, text_eq, text_eq_iff}
use shannon_bot.People.Ledger.{Assignment, is_named}
use shannon_bot.People.Names.{AreDistinct, is_named-discard, text_eq_refl}
use shannon_bot.People.Parking.{IsCovered-parked, IsRenaming, is_named-stuck, logins_of-parked}
use shannon_bot.People.Rename.{
  Renames, discard, hand_on, insert_by, parked_entry, parked_name, sort_by, text_leb,
}
use shannon_bot.People.Renaming.{
  IsCovered-hand_on, IsLogin, is_named-keep, is_named-parts, is_named-passed, logins_of,
}

insert_by-some :
    (key : Text × Assignment → Text) (e : Text × Assignment) (w : Renames) → insert_by key e w ≢ []
unfolding insert_by
insert_by-some key e [] h = cc
insert_by-some key e (x ∷ w) h = ground arith

pub sort_by-none : (key : Text × Assignment → Text) (w : Renames) → sort_by key w ≡ [] → w ≡ []
unfolding sort_by
sort_by-none key [] h = refl
sort_by-none key (x ∷ w) h = elim (insert_by-some key x (sort_by key w) h) [ ]

insert_by-In :
    {e : Text × Assignment} (key : Text × Assignment → Text) (x : Text × Assignment) (w : Renames)
    → In e (insert_by key x w)
    → In e (x ∷ w)
unfolding insert_by
insert_by-In key x [] m = m
insert_by-In {e} key x (y ∷ w) m = elim (Bool-cases (text_leb (key x) (key y))) [
  | inl first ↦ rw first at m
  | inr later ↦
      let m' : In e (y ∷ insert_by key x w) = rw later at m in
      elim (In-cons m') [
        | inl same ↦ in_tail (subst (λ z. In z (y ∷ w)) same at_head)
        | inr n ↦ elim (In-cons (insert_by-In key x w n)) [
          | inl same ↦ subst (λ z. In z (x ∷ y ∷ w)) same at_head
          | inr deep ↦ in_tail (in_tail deep)
        ]
      ]
]

pub sort_by-In :
    {e : Text × Assignment} (key : Text × Assignment → Text) (w : Renames)
    → In e (sort_by key w)
    → In e w
unfolding sort_by
sort_by-In key [] m = m
sort_by-In {e} key (x ∷ w) m = elim (In-cons (insert_by-In key x (sort_by key w) m)) [
  | inl same ↦ subst (λ z. In z (x ∷ w)) same at_head
  | inr n ↦ in_tail (sort_by-In key w n)
]

pub AreDistinct-keep :
    (p : Text × Assignment → Bool) (w : Renames)
    → AreDistinct (logins_of w)
    → AreDistinct (logins_of (keep p w))
AreDistinct-keep p [] d = tt
AreDistinct-keep p (x ∷ w) d = elim (Bool-cases (p x)) [
  | inl e ↦ rw e (
    elim (Bool-cases (is_named x.0 (logins_of (keep p w)))) [
      | inl h ↦ let k = is_named-keep (λ y. y.0) x.0 p w h in let no = d.0 in cc
      | inr h ↦ h
    ],
    AreDistinct-keep p w d.1,
  )
  | inr e ↦ rw e (AreDistinct-keep p w d.1)
]

pub IsLogin-keep :
    (p : Text × Assignment → Bool) (w : Renames)
    → All IsLogin (logins_of w)
    → All IsLogin (logins_of (keep p w))
IsLogin-keep p [] h = tt
IsLogin-keep p (x ∷ w) h = elim (Bool-cases (p x)) [
  | inl e ↦ rw e (h.0, IsLogin-keep p w h.1)
  | inr e ↦ rw e (IsLogin-keep p w h.1)
]

pub length-parts :
    (p : Text × Assignment → Bool) (w : Renames)
    → length (keep p w) + length (keep (λ e. not (p e)) w) ≡ length w
length-parts p [] = refl
length-parts p (x ∷ w) = ground (arith, length-parts p w)

-- The entries whose login nobody holds.
abbrev pub free_of : Renames → List Text → Renames
free_of w held = keep (λ e. not (is_named e.0 held)) w

pub IsRenaming-named :
    (w : Renames) (held : List Text)
    → IsRenaming w held
    → IsRenaming
        (keep (λ e. is_named e.0 held) w)
        (hand_on (sort_by (λ e. e.0) (free_of w held)) held)
IsRenaming-named w held i = record {
  distinct = AreDistinct-keep (λ e. is_named e.0 held) w i.distinct;
  are_logins = IsLogin-keep (λ e. is_named e.0 held) w i.are_logins;
  covered = IsCovered-hand_on w held i.covered;
}

pub IsRenaming-parked :
    (e : Text × Assignment) (w : Renames) (held : List Text)
    → In e w
    → IsRenaming w held
    → IsRenaming
        (map (parked_entry e.0 (parked_name e.1.id)) w)
        (parked_name e.1.id ∷ discard e.1.github_username held)
IsRenaming-parked e w held m i = record {
  distinct = rw (logins_of-parked e.0 (parked_name e.1.id) w) i.distinct;
  are_logins = rw (logins_of-parked e.0 (parked_name e.1.id) w) i.are_logins;
  covered = IsCovered-parked e w held m i.distinct i.covered;
}

IsLogin-named : (n : Text) (l : List Text) → All IsLogin l → is_named n l ≡ true → IsLogin n
unfolding is_named
IsLogin-named n [] h k = cc
IsLogin-named n (x ∷ l) h k = elim (Bool-cases (text_eq n x)) [
  | inl same ↦ subst IsLogin (sym ((text_eq_iff n x).0 same)) h.0
  | inr other ↦ IsLogin-named n l h.1 (ground arith)
]

text_eq-parked_name : (s : Text) (i : ℕ) → IsLogin s → text_eq s (parked_name i) ≡ false
unfolding parked_name text_eq
text_eq-parked_name [] i h = refl
text_eq-parked_name (c ∷ s) i h = ground arith

-- The name that parking frees is wanted, so the next round has a name to give.
pub free_of-parked :
    (e : Text × Assignment) (w : Renames) (held : List Text)
    → In e w
    → IsRenaming w held
    → free_of w held ≡ []
    → free_of
        (map (parked_entry e.0 (parked_name e.1.id)) w)
        (parked_name e.1.id ∷ discard e.1.github_username held)
      ≢ []
unfolding is_named
free_of-parked e w held m i stuck none_free =
    let old = e.1.github_username in
    let parked = parked_name e.1.id in
    let w' = map (parked_entry e.0 parked) w in
    let held' = parked ∷ discard old held in
    let wanted = is_named-stuck w held i stuck m in
    let wanted' : is_named old (logins_of w') ≡ true = rw (logins_of-parked e.0 parked w) wanted in
    let fresh =
      text_eq-parked_name old e.1.id (IsLogin-named old (logins_of w) i.are_logins wanted) in
    let gone = is_named-discard old old held in
    let itself = text_eq_refl old in
    let kept =
      is_named-parts (λ y. y.0) old (λ y. is_named y.0 held') w' wanted'
        (ap (λ l. is_named old (logins_of l)) none_free) in
    let still : is_named old held' ≡ true = is_named-passed old (λ n. is_named n held') w' kept in
    ground arith
