-- ===== src/People/Keys.antt =====
-- The keys of the dicts that `_match` builds: each login once, and only logins of the payload.
use shannon_bot.Base.{
  All, Bool-cases, List, Option, Option-cases, [], any, ap, arith, false, inl, inr, map, refl, sym,
  ℕ, ◌++◌, ◌||◌, ◌∙◌, ◌∷◌, ◌≡◌,
}
use shannon_bot.Domain.Text.{Text, lower, text_eq}
use shannon_bot.People.Ledger.{Assignment, People, is_named}
use shannon_bot.People.Matching.{
  Matches, by_account, by_name, entry_put, ids_of, match_rows, matched_by_account, matched_by_name,
  unclaimed_row, wanted_from,
}
use shannon_bot.People.Names.{AreDistinct, text_eq_comm, text_eq_right}
use shannon_bot.People.Renaming.{IsLogin}
use shannon_bot.Sync.Policies.{Actor}

-- The keys of a dict.
abbrev pub keys {ℓ} : {A : Type ℓ} → List (Text × A) → List Text
keys entries = map (λ e. e.0) entries

entry_put-named :
    (n login : Text) (account : Option ℕ) (entries : People)
    → is_named n (keys (entry_put login account entries))
      ≡ (is_named n (keys entries) || text_eq n login)
unfolding entry_put is_named
entry_put-named n login account [] = ground arith
entry_put-named n login account (p ∷ rest) = elim (Bool-cases (text_eq p.0 login)) [
  | inl same ↦ let moved = text_eq_right p.0 login n same in ground arith
  | inr other ↦ ground (arith, entry_put-named n login account rest)
]

AreDistinct-entry_put :
    (login : Text) (account : Option ℕ) (entries : People)
    → AreDistinct (keys entries)
    → AreDistinct (keys (entry_put login account entries))
unfolding entry_put is_named
AreDistinct-entry_put login account [] d = (refl, tt)
AreDistinct-entry_put login account (p ∷ rest) d = elim (Bool-cases (text_eq p.0 login)) [
  | inl same ↦ rw same d
  | inr other ↦ rw other (
    entry_put-named p.0 login account rest ∙ rw (d.0, other) refl,
    AreDistinct-entry_put login account rest d.1,
  )
]

IsLogin-entry_put :
    (login : Text) (account : Option ℕ) (entries : People)
    → IsLogin login
    → All IsLogin (keys entries)
    → All IsLogin (keys (entry_put login account entries))
unfolding entry_put
IsLogin-entry_put login account [] l h = (l, tt)
IsLogin-entry_put login account (p ∷ rest) l h = elim (Bool-cases (text_eq p.0 login)) [
  | inl same ↦ rw same h
  | inr other ↦ rw other (h.0, IsLogin-entry_put login account rest l h.1)
]

-- The payload names each login once.
pub wanted_from-IsWanted :
    (entries : People) (actors : List Actor)
    → All (λ a. IsLogin (lower a.login)) actors
    → AreDistinct (keys entries) × All IsLogin (keys entries)
    → AreDistinct (keys (wanted_from entries actors))
      × All IsLogin (keys (wanted_from entries actors))
unfolding wanted_from
wanted_from-IsWanted entries [] l h = h
wanted_from-IsWanted entries (a ∷ actors) l h =
    wanted_from-IsWanted (entry_put (lower a.login) a.github_user_id entries) actors l.1 (
      AreDistinct-entry_put (lower a.login) a.github_user_id entries h.0,
      IsLogin-entry_put (lower a.login) a.github_user_id entries l.0 h.1,
    )

-- What the first pass matches is wanted.
matched_by_account-named :
    (n : Text) (wanted : People) (rows : List Assignment)
    → is_named n (keys wanted) ≡ false
    → is_named n (keys (matched_by_account wanted rows)) ≡ false
unfolding matched_by_account is_named
matched_by_account-named n [] rows h = refl
matched_by_account-named n (p ∷ wanted) rows h = elim (Option-cases (by_account p.1 rows)) [
  | inl e ↦ rw (matched_by_account, e) (matched_by_account-named n wanted rows (ground arith))
  | inr (r, e) ↦
      let rest = matched_by_account-named n wanted rows (ground arith) in
      rw (matched_by_account, e) (ground arith)
]

AreDistinct-matched_by_account :
    (wanted : People) (rows : List Assignment)
    → AreDistinct (keys wanted)
    → AreDistinct (keys (matched_by_account wanted rows))
unfolding matched_by_account
AreDistinct-matched_by_account [] rows d = tt
AreDistinct-matched_by_account (p ∷ wanted) rows d = elim (Option-cases (by_account p.1 rows)) [
  | inl e ↦ rw (matched_by_account, e) (AreDistinct-matched_by_account wanted rows d.1)
  | inr (r, e) ↦
      rw (matched_by_account, e)
        (
          matched_by_account-named p.0 wanted rows d.0,
          AreDistinct-matched_by_account wanted rows d.1,
        )
]

IsLogin-matched_by_account :
    (wanted : People) (rows : List Assignment)
    → All IsLogin (keys wanted)
    → All IsLogin (keys (matched_by_account wanted rows))
unfolding matched_by_account
IsLogin-matched_by_account [] rows l = tt
IsLogin-matched_by_account (p ∷ wanted) rows l = elim (Option-cases (by_account p.1 rows)) [
  | inl e ↦ rw (matched_by_account, e) (IsLogin-matched_by_account wanted rows l.1)
  | inr (r, e) ↦ rw (matched_by_account, e) (l.0, IsLogin-matched_by_account wanted rows l.1)
]

is_named-end :
    {A : Type 0} (n m : Text) (a : A) (entries : List (Text × A))
    → is_named n (keys (entries ++ (m, a) ∷ [])) ≡ (is_named n (keys entries) || text_eq n m)
unfolding is_named
is_named-end n m a [] = ground arith
is_named-end n m a (e ∷ entries) = ground (arith, is_named-end n m a entries)

AreDistinct-end :
    {A : Type 0} (m : Text) (a : A) (entries : List (Text × A))
    → AreDistinct (keys entries)
    → is_named m (keys entries) ≡ false
    → AreDistinct (keys (entries ++ (m, a) ∷ []))
unfolding is_named
AreDistinct-end m a [] d h = (refl, tt)
AreDistinct-end m a (e ∷ entries) d h =
    let turned = text_eq_comm e.0 m in
    let last = is_named-end e.0 m a entries in
    (ground arith, AreDistinct-end m a entries d.1 (ground arith))

IsLogin-end :
    {A : Type 0} (m : Text) (a : A) (entries : List (Text × A))
    → All IsLogin (keys entries)
    → IsLogin m
    → All IsLogin (keys (entries ++ (m, a) ∷ []))
IsLogin-end m a [] h l = (l, tt)
IsLogin-end m a (e ∷ entries) h l = (h.0, IsLogin-end m a entries h.1 l)

any-named :
    {A : Type 0} (n : Text) (entries : List (Text × A))
    → any (λ e. text_eq n e.0) entries ≡ is_named n (keys entries)
unfolding is_named
any-named n [] = refl
any-named n (e ∷ entries) = ap (λ b. text_eq n e.0 || b) (any-named n entries)

pub matched_by_name-IsMatched :
    (wanted : People) (rows : List Assignment) (mine : Matches)
    → All IsLogin (keys wanted)
    → AreDistinct (keys mine) × All IsLogin (keys mine)
    → AreDistinct (keys (matched_by_name wanted rows mine))
      × All IsLogin (keys (matched_by_name wanted rows mine))
unfolding matched_by_name
matched_by_name-IsMatched [] rows mine l h = h
matched_by_name-IsMatched (p ∷ wanted) rows mine l h =
    elim (Bool-cases (any (λ m. text_eq p.0 m.0) mine)) [
      | inl e ↦ rw e (matched_by_name-IsMatched wanted rows mine l.1 h)
      | inr e ↦
          let row = unclaimed_row p.1 (ids_of mine) (by_name p.0 rows) in
          rw e (
            matched_by_name-IsMatched wanted rows (mine ++ (p.0, row) ∷ []) l.1 (
              AreDistinct-end p.0 row mine h.0 (sym (any-named p.0 mine) ∙ e),
              IsLogin-end p.0 row mine h.1 l.0,
            ))
    ]

-- The matches of a payload: each login once, and GitHub's.
pub match_rows-IsMatched :
    (wanted : People) (rows : List Assignment)
    → AreDistinct (keys wanted) × All IsLogin (keys wanted)
    → AreDistinct (keys (match_rows wanted rows)) × All IsLogin (keys (match_rows wanted rows))
unfolding match_rows
match_rows-IsMatched wanted rows h =
    matched_by_name-IsMatched wanted rows (matched_by_account wanted rows) h.1
      (AreDistinct-matched_by_account wanted rows h.0, IsLogin-matched_by_account wanted rows h.1)
