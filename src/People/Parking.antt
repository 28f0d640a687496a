-- ===== src/People/Parking.antt =====
-- The rounds of `_rename` in which no name is free, and the end of its loop.
use shannon_bot.Base.{
  All, All-In, All-map, Bool, Bool-cases, In, List, [], ap, arith, at_head, false, in_tail, inl,
  inr, keep, length, map, not, refl, suc, sym, true, ◌||◌, ◌∙◌, ◌∷◌, ◌≡◌,
}
use shannon_bot.Domain.Text.{Text, text_eq}
use shannon_bot.People.Ledger.{Assignment, is_named}
use shannon_bot.People.Names.{
  AreDistinct, distinct-is_named, is_named-discard, is_named_same, text_eq_comm, text_eq_refl,
}
use shannon_bot.People.Rename.{Renames, discard, parked_entry, parked_name}
use shannon_bot.People.Renaming.{IsCovered, IsLogin, logins_of, names_held}

-- What the loop keeps: its logins are distinct and GitHub's, and what they want and is held is held by a
-- row that waits.
pub record IsRenaming (w : Renames) (held : List Text) : Type 0 where
  pub distinct : AreDistinct (logins_of w)
  pub are_logins : All IsLogin (logins_of w)
  pub covered : IsCovered w held

pub logins_of-parked :
    (login name : Text) (w : Renames) → logins_of (map (parked_entry login name) w) ≡ logins_of w
unfolding parked_entry
logins_of-parked login name [] = refl
logins_of-parked login name (x ∷ w) = elim (Bool-cases (text_eq login x.0)) [
  | inl e ↦ rw e (ap (λ l. x.0 ∷ l) (logins_of-parked login name w))
  | inr e ↦ rw e (ap (λ l. x.0 ∷ l) (logins_of-parked login name w))
]

-- Other logins' entries are as they were.
parked-others :
    (login name : Text) (w : Renames)
    → is_named login (logins_of w) ≡ false
    → map (parked_entry login name) w ≡ w
unfolding parked_entry is_named
parked-others login name [] h = refl
parked-others login name (x ∷ w) h = elim (Bool-cases (text_eq login x.0)) [
  | inl e ↦ ground arith
  | inr e ↦ rw e (ap (λ l. x ∷ l) (parked-others login name w (ground arith)))
]

pub is_named-login :
    {e : Text × Assignment} {w : Renames} → In e w → is_named e.0 (logins_of w) ≡ true
unfolding is_named
is_named-login {e} at_head = ground (arith, text_eq_refl e.0)
is_named-login (in_tail m) = ground (arith, is_named-login m)

is_named-holder :
    {e : Text × Assignment} {w : Renames}
    → In e w
    → is_named e.1.github_username (names_held w) ≡ true
unfolding is_named
is_named-holder {e} at_head = ground (arith, text_eq_refl e.1.github_username)
is_named-holder (in_tail m) = ground (arith, is_named-holder m)

login_apart :
    {e : Text × Assignment} (x : Text) {w : Renames}
    → In e w
    → is_named x (logins_of w) ≡ false
    → text_eq e.0 x ≡ false
login_apart {e} x {w} m h = elim (Bool-cases (text_eq e.0 x)) [
  | inl same ↦ let k = is_named-login m in let l = is_named_same e.0 x (logins_of w) same in cc
  | inr other ↦ other
]

-- The entry itself, parked.
parked_self :
    (name : Text) (e : Text × Assignment)
    → parked_entry e.0 name e ≡ (e.0, record e.1 { github_username = name })
unfolding parked_entry
parked_self name e = rw (text_eq_refl e.0) refl

-- A name that a row held keeps a holder when another row is parked.
names_held-parked :
    (name n : Text) {e : Text × Assignment} {w : Renames}
    → In e w
    → AreDistinct (logins_of w)
    → is_named n (names_held w) ≡ true
    → text_eq n e.1.github_username ≡ false
    → is_named n (names_held (map (parked_entry e.0 name) w)) ≡ true
unfolding is_named parked_entry
names_held-parked name n {e} (at_head {xs = w}) d h k =
    rw (parked-others e.0 name w d.0) (ground arith)
names_held-parked name n {e} (in_tail {x} {xs = w} m) d h k =
    let apart : text_eq e.0 x.0 ≡ false = login_apart x.0 m d.0 in
    let same : parked_entry e.0 name x ≡ x = rw (parked_entry, apart) refl in
    let before : (text_eq n x.1.github_username || is_named n (names_held w)) ≡ true = h in
    rw same (ground (arith, names_held-parked name n m d.1))

-- The parked row holds the name that it was parked on.
parked-names_held :
    (name : Text) {e : Text × Assignment} {w : Renames}
    → In e w
    → is_named name (names_held (map (parked_entry e.0 name) w)) ≡ true
unfolding is_named
parked-names_held name {e} (at_head {xs = w}) = rw (parked_self name e, text_eq_refl name) refl
parked-names_held name {e} (in_tail {x} {xs = w} m) = ground (arith, parked-names_held name m)

pub IsCovered-parked :
    (e : Text × Assignment) (w : Renames) (held : List Text)
    → In e w
    → AreDistinct (logins_of w)
    → IsCovered w held
    → IsCovered
        (map (parked_entry e.0 (parked_name e.1.id)) w)
        (parked_name e.1.id ∷ discard e.1.github_username held)
unfolding is_named
IsCovered-parked e w held m d c n h k =
    let name = parked_name e.1.id in
    let wanted : is_named n (logins_of w) ≡ true = rw (sym (logins_of-parked e.0 name w)) k in
    elim (Bool-cases (text_eq n name)) [
      | inl same ↦
          is_named_same n name (names_held (map (parked_entry e.0 name) w)) same
          ∙ parked-names_held name m
      | inr other ↦
          let left = is_named-discard e.1.github_username n held in
          let turned = text_eq_comm e.1.github_username n in
          names_held-parked name n m d (c n (ground arith) wanted) (ground arith)
    ]

-- Where no entry fails a test, each passes it.
passes :
    (p : Text × Assignment → Bool) {e : Text × Assignment} {w : Renames}
    → In e w
    → keep (λ x. not (p x)) w ≡ []
    → p e ≡ true
passes p {e} at_head h = ground arith
passes p {e} (in_tail m) h = ground (arith, passes p m)

pub length-map : {A B : Type 0} (f : A → B) (xs : List A) → length (map f xs) ≡ length xs
length-map f [] = refl
length-map f (x ∷ xs) = ap suc (length-map f xs)

-- Where no name is free, each row that waits holds a name that is wanted.
pub is_named-stuck :
    (w : Renames) (held : List Text)
    → IsRenaming w held
    → keep (λ e. not (is_named e.0 held)) w ≡ []
    → {e : Text × Assignment} → In e w
    → is_named e.1.github_username (logins_of w) ≡ true
is_named-stuck w held i stuck {e} m =
    distinct-is_named (logins_of w) (names_held w) i.distinct
      (All-map (λ n. is_named n (names_held w) ≡ true) (λ x. x.0) w
        (All-In (λ x. is_named x.0 (names_held w) ≡ true) w
          (λ x n. i.covered x.0 (passes (λ y. is_named y.0 held) n stuck) (is_named-login n))))
      (omega (arith, length-map (λ x. x.1.github_username) w, length-map (λ x. x.0) w))
      e.1.github_username (is_named-holder m)
