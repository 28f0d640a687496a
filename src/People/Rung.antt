-- ===== src/People/Rung.antt =====
-- Who a CI result rings: each account once, at most fifty, and nobody it does not concern.
use shannon_bot.Base.{
  Bool-cases, List, [], ap, arith, false, inl, inr, length, map, refl, suc, sym, take, true, zero,
  ℕ, ◌++◌, ◌||◌, ◌∙◌, ◌∷◌, ◌≡◌, ◌≤◌,
}
use shannon_bot.Domain.Text.{Text, text_eq, text_eq_iff}
use shannon_bot.People.Audience.{
  CommitRef, author_and_assignees, by_login, everyone_who_worked_on_it, key_of, people_rung,
  put_person, wrote_it,
}
use shannon_bot.People.Ledger.{is_named}
use shannon_bot.People.Names.{AreDistinct, text_eq_right}
use shannon_bot.Sync.Policies.{Actor, Item, at_most_one}

-- The keys of the dict.
abbrev pub keys_of : List Actor → List Text
keys_of named = map key_of named

put_person-named :
    (n : Text) (a : Actor) (named : List Actor)
    → is_named n (keys_of (put_person a named))
      ≡ (is_named n (keys_of named) || text_eq n (key_of a))
unfolding put_person is_named
put_person-named n a [] = ground arith
put_person-named n a (b ∷ named) = elim (Bool-cases (text_eq (key_of b) (key_of a))) [
  | inl same ↦ let moved = text_eq_right (key_of b) (key_of a) n same in ground arith
  | inr other ↦ ground (arith, put_person-named n a named)
]

AreDistinct-put_person :
    (a : Actor) (named : List Actor)
    → AreDistinct (keys_of named)
    → AreDistinct (keys_of (put_person a named))
unfolding put_person is_named
AreDistinct-put_person a [] d = (refl, tt)
AreDistinct-put_person a (b ∷ named) d = elim (Bool-cases (text_eq (key_of b) (key_of a))) [
  | inl same ↦ rw same (
    ap (λ n. is_named n (keys_of named)) (sym ((text_eq_iff (key_of b) (key_of a)).0 same)) ∙ d.0,
    d.1,
  )
  | inr other ↦ rw other (
    put_person-named (key_of b) a named ∙ rw (d.0, other) refl,
    AreDistinct-put_person a named d.1,
  )
]

AreDistinct-by_login :
    (named actors : List Actor)
    → AreDistinct (keys_of named)
    → AreDistinct (keys_of (by_login named actors))
unfolding by_login
AreDistinct-by_login named [] d = d
AreDistinct-by_login named (a ∷ actors) d =
    AreDistinct-by_login (put_person a named) actors (AreDistinct-put_person a named d)

by_login-named :
    (n : Text) (named actors : List Actor)
    → is_named n (keys_of (by_login named actors))
      ≡ (is_named n (keys_of named) || is_named n (keys_of actors))
unfolding by_login is_named
by_login-named n named [] = ground arith
by_login-named n named (a ∷ actors) =
    by_login-named n (put_person a named) actors
    ∙ ap (λ b. b || is_named n (keys_of actors)) (put_person-named n a named)
    ∙ ground arith

named-take :
    (n : Text) (k : ℕ) (named : List Actor)
    → is_named n (keys_of (take k named)) ≡ true
    → is_named n (keys_of named) ≡ true
unfolding is_named
named-take n zero named h = cc
named-take n (suc k) [] h = h
named-take n (suc k) (a ∷ named) h = ground (arith, named-take n k named)

not_named-take :
    (n : Text) (k : ℕ) (named : List Actor)
    → is_named n (keys_of named) ≡ false
    → is_named n (keys_of (take k named)) ≡ false
not_named-take n k named h = elim (Bool-cases (is_named n (keys_of (take k named)))) [
  | inl e ↦ let there = named-take n k named e in cc
  | inr e ↦ e
]

AreDistinct-take :
    (n : ℕ) (named : List Actor)
    → AreDistinct (keys_of named)
    → AreDistinct (keys_of (take n named))
AreDistinct-take zero named d = tt
AreDistinct-take (suc n) [] d = tt
AreDistinct-take (suc n) (a ∷ named) d =
    (not_named-take (key_of a) n named d.0, AreDistinct-take n named d.1)

length-take_le : {A : Type 0} (n : ℕ) (xs : List A) → length (take n xs) ≤ n
length-take_le zero xs = omega arith
length-take_le (suc n) [] = omega arith
length-take_le (suc n) (x ∷ xs) = omega (arith, length-take_le n xs)

take-all : {A : Type 0} (n : ℕ) (xs : List A) → length xs ≤ n → take n xs ≡ xs
take-all zero [] h = refl
take-all zero (x ∷ xs) h = ground arith
take-all (suc n) [] h = refl
take-all (suc n) (x ∷ xs) h = ap (λ l. x ∷ l) (take-all n xs (omega (arith, h)))

-- The accounts that a CI result concerns, by their logins: the author, the assignees and whoever wrote
-- a commit that is no merge.
abbrev pub concerned : Item → List CommitRef → List Text
concerned i brought = keys_of ((at_most_one i.author ++ i.assignees) ++ wrote_it brought)

keys_append :
    (n : Text) (xs ys : List Actor)
    → is_named n (keys_of (xs ++ ys)) ≡ (is_named n (keys_of xs) || is_named n (keys_of ys))
unfolding is_named
keys_append n [] ys = refl
keys_append n (x ∷ xs) ys = ground (arith, keys_append n xs ys)

is_named-everyone :
    (n : Text) (i : Item) (brought : List CommitRef)
    → is_named n (keys_of (by_login [] (author_and_assignees i ++ wrote_it brought)))
      ≡ is_named n (concerned i brought)
unfolding author_and_assignees is_named
is_named-everyone n i brought =
    by_login-named n [] (author_and_assignees i ++ wrote_it brought)
    ∙ keys_append n (author_and_assignees i) (wrote_it brought)
    ∙ ap (λ b. b || is_named n (keys_of (wrote_it brought)))
        (by_login-named n [] (at_most_one i.author ++ i.assignees))
    ∙ sym (keys_append n (at_most_one i.author ++ i.assignees) (wrote_it brought))

-- A CI result names each account once, fifty at most and only accounts that it concerns; and all of
-- them, unless they are more than fifty.
pub everyone_who_worked_on_it_lem :
    (i : Item) (brought : List CommitRef)
    → AreDistinct (keys_of (everyone_who_worked_on_it i brought))
      × (length (everyone_who_worked_on_it i brought) ≤ 50)
      × ((n : Text)
          → is_named n (keys_of (everyone_who_worked_on_it i brought)) ≡ true
          → is_named n (concerned i brought) ≡ true)
      × (length (by_login [] (author_and_assignees i ++ wrote_it brought)) ≤ 50
          → (n : Text) → is_named n (concerned i brought) ≡ true
          → is_named n (keys_of (everyone_who_worked_on_it i brought)) ≡ true)
unfolding everyone_who_worked_on_it people_rung
everyone_who_worked_on_it_lem i brought =
    let all = by_login [] (author_and_assignees i ++ wrote_it brought) in
    (
      AreDistinct-take 50 all
          (AreDistinct-by_login [] (author_and_assignees i ++ wrote_it brought) tt),
      length-take_le 50 all,
      (λ n h. sym (is_named-everyone n i brought) ∙ named-take n 50 all h),
      (λ few n h.
          ap (λ l. is_named n (keys_of l)) (take-all 50 all few)
          ∙ is_named-everyone n i brought
          ∙ h),
    )
