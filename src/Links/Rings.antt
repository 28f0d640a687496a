-- ===== src/Links/Rings.antt =====
-- Somebody whom a message is to name is rung: `reachable` of shannon/services/audience.py.
use shannon_bot.Base.{
  ==_iff, All, All-at, Bool-cases, In, In-cons, In-kept, In-map, List, Option, [], ap, arith,
  at_head, contains, false, in_tail, inl, inr, keep, map, none, refl, some, subst, sym, true, ℕ,
  ◌∙◌, ◌∷◌, ◌≡◌, ◌⊎◌,
}
use shannon_bot.Delivery.Store.{ids}
use shannon_bot.Domain.Text.{Text, lower, text_eq, text_eq_iff}
use shannon_bot.Links.Reach.{TeamLink, asked_ids, asked_under-Comes, reachable, wanted_by-named}
use shannon_bot.Links.Store.{
  AskedPeople, UserLink, UserLinks, agrees, asked_under, is_resolved, put_wanted, resolve_many,
  wanted_by,
}
use shannon_bot.People.Muted.{MutedMember, is_muted}
use shannon_bot.People.Silence.{contains-may_be_pinged}
use shannon_bot.Sync.Policies.{Actor}

-- The names that are asked for.
abbrev names_of : AskedPeople → List Text
names_of asked = map (λ (e : Text × Option ℕ). e.0) asked

put_wanted-own :
    (name : Text) (asked : Option ℕ) (wanted : AskedPeople)
    → In name (names_of (put_wanted name asked wanted))
unfolding put_wanted
put_wanted-own name asked [] = at_head
put_wanted-own name asked (e ∷ wanted) = elim (Bool-cases (text_eq e.0 name)) [
  | inl same ↦
      let key : e.0 ≡ name = (text_eq_iff e.0 name).0 same in
      rw (put_wanted, same) (subst (λ n. In n (e.0 ∷ names_of wanted)) key at_head)
  | inr other ↦ rw (put_wanted, other) (in_tail (put_wanted-own name asked wanted))
]

put_wanted-others :
    (name : Text) (asked : Option ℕ) (wanted : AskedPeople) (n : Text)
    → In n (names_of wanted)
    → In n (names_of (put_wanted name asked wanted))
unfolding put_wanted
put_wanted-others name asked [] n m = elim m [ ]
put_wanted-others name asked (e ∷ wanted) n m = elim (Bool-cases (text_eq e.0 name)) [
  | inl same ↦ rw (put_wanted, same) m
  | inr other ↦ elim (In-cons m) [
    | inl first ↦
        rw (put_wanted, other)
          (subst (λ x. In x (e.0 ∷ names_of (put_wanted name asked wanted))) first at_head)
    | inr k ↦ rw (put_wanted, other) (in_tail (put_wanted-others name asked wanted n k))
  ]
]

asked_ids-others :
    (named : List Actor) (asked : AskedPeople) (n : Text)
    → In n (names_of asked)
    → In n (names_of (asked_ids asked named))
unfolding asked_ids
asked_ids-others [] asked n m = m
asked_ids-others (a ∷ named) asked n m =
    asked_ids-others named (put_wanted a.login a.github_user_id asked) n
      (put_wanted-others a.login a.github_user_id asked n m)

asked_ids-named :
    (named : List Actor) (asked : AskedPeople) (a : Actor)
    → In a named
    → In a.login (names_of (asked_ids asked named))
unfolding asked_ids
asked_ids-named [] asked a m = elim m [ ]
asked_ids-named (b ∷ named) asked a m =
    let later = put_wanted b.login b.github_user_id asked in
    elim (In-cons m) [
      | inl same ↦
          subst (λ (x : Actor). In x.login (names_of (asked_ids later named))) same
            (asked_ids-others named later b.login (put_wanted-own b.login b.github_user_id asked))
      | inr k ↦ asked_ids-named named later a k
    ]

wanted_by-others :
    (wanted asked : AskedPeople) (n : Text)
    → In n (names_of wanted)
    → In n (names_of (wanted_by wanted asked))
unfolding wanted_by
wanted_by-others wanted [] n m = m
wanted_by-others wanted (e ∷ asked) n m =
    wanted_by-others (put_wanted (lower e.0) e.1 wanted) asked n
      (put_wanted-others (lower e.0) e.1 wanted n m)

wanted_by-asked :
    (wanted asked : AskedPeople) (n : Text)
    → In n (names_of asked)
    → In (lower n) (names_of (wanted_by wanted asked))
unfolding wanted_by
wanted_by-asked wanted [] n m = elim m [ ]
wanted_by-asked wanted (e ∷ asked) n m =
    let later = put_wanted (lower e.0) e.1 wanted in
    elim (In-cons m) [
      | inl same ↦
          subst (λ x. In (lower x) (names_of (wanted_by later asked))) same
            (wanted_by-others later asked (lower e.0) (put_wanted-own (lower e.0) e.1 wanted))
      | inr k ↦ wanted_by-asked later asked n k
    ]

asked_under-some :
    (n : Text) (wanted : AskedPeople)
    → In n (names_of wanted)
    → (o : Option ℕ) × (asked_under n wanted ≡ some o)
unfolding asked_under
asked_under-some n [] m = elim m [ ]
asked_under-some n (e ∷ wanted) m = elim (Bool-cases (text_eq e.0 n)) [
  | inl same ↦ (e.1, rw (asked_under, same) refl)
  | inr other ↦ elim (In-cons m) [
    | inl first ↦ let out : text_eq e.0 n ≡ true = (text_eq_iff e.0 n).1 first in cc
    | inr k ↦ let (o, f) = asked_under-some n wanted k in (o, rw (asked_under, other) f)
  ]
]

-- Nobody else who is named under the same login has another account.
abbrev pub HasOneAccount : List Actor → Actor → Type 0
HasOneAccount named a =
    All (λ (b : Actor). lower b.login ≡ lower a.login → b.github_user_id ≡ a.github_user_id) named

asked_under-named :
    (named : List Actor) (a : Actor)
    → In a named
    → HasOneAccount named a
    → asked_under (lower a.login) (wanted_by [] (asked_ids [] named)) ≡ some a.github_user_id
asked_under-named named a m h =
    let asked = asked_ids [] named in
    let (o, f) =
      asked_under-some (lower a.login) (wanted_by [] asked)
        (wanted_by-asked [] asked a.login (asked_ids-named named [] a m)) in
    let (b, k, g, e) =
      asked_under-Comes named (lower a.login) o (wanted_by [] asked) (wanted_by-named named) f in
    f
    ∙ ap some (
        sym e
        ∙ All-at
            (λ (b : Actor). lower b.login ≡ lower a.login → b.github_user_id ≡ a.github_user_id) k h
            g)

some-agrees :
    (linked asked : Option ℕ) (account : ℕ)
    → linked ≡ some account
    → (asked ≡ none) ⊎ (asked ≡ some account)
    → agrees linked asked ≡ true
unfolding agrees
some-agrees linked asked account e (inl f) = rw (e, f) refl
some-agrees linked asked account e (inr f) = rw (e, f) ((==_iff account account).1 refl)

named-is_resolved :
    (guild : ℕ) (named : List Actor) (a : Actor) (r : UserLink) (account : ℕ)
    → In a named
    → HasOneAccount named a
    → r.discord_guild_id ≡ guild
    → r.github_username ≡ lower a.login
    → r.github_user_id ≡ some account
    → (a.github_user_id ≡ none) ⊎ (a.github_user_id ≡ some account)
    → is_resolved guild (wanted_by [] (asked_ids [] named)) r ≡ true
unfolding is_resolved
named-is_resolved guild named a r account m h g e f k =
    let wanted = wanted_by [] (asked_ids [] named) in
    let under : asked_under r.github_username wanted ≡ some a.github_user_id =
      ap (λ n. asked_under n wanted) e ∙ asked_under-named named a m h in
    let agreed = some-agrees r.github_user_id a.github_user_id account f k in
    rw (is_resolved, under) (ground (arith, agreed))

In-resolve_many :
    (guild : ℕ) (named : List Actor) (links : UserLinks) (r : UserLink)
    → In r links.rows
    → is_resolved guild (wanted_by [] (asked_ids [] named)) r ≡ true
    → In (r.github_username, r.discord_user_id) (resolve_many guild (asked_ids [] named) links)
unfolding resolve_many
In-resolve_many guild named links r i e =
    In-map (λ (r : UserLink). (r.github_username, r.discord_user_id))
      (keep (is_resolved guild (wanted_by [] (asked_ids [] named))) links.rows)
      (In-kept (is_resolved guild (wanted_by [] (asked_ids [] named))) links.rows i e)

In-contains : (j : ℕ) (ids : List ℕ) → In j ids → contains j ids ≡ true
In-contains j [] m = elim m [ ]
In-contains j (i ∷ ids) m = elim (In-cons m) [
  | inl same ↦ ground arith
  | inr k ↦ let later = In-contains j ids k in ground arith
]

-- Somebody a message is to name, where nobody else is named under their login with another account:
-- if a link in that server is of their login in lower case, with a proved account, which is theirs
-- where theirs is known, then the message rings its member, unless they are muted there.
pub reachable-rings_named :
    (guild : ℕ) (named teams : List Actor) (links : UserLinks) (team_links : List TeamLink)
    (muted : List MutedMember) (a : Actor) (r : UserLink) (account : ℕ)
    → In a named
    → HasOneAccount named a
    → In r links.rows
    → r.discord_guild_id ≡ guild
    → r.github_username ≡ lower a.login
    → r.github_user_id ≡ some account
    → (a.github_user_id ≡ none) ⊎ (a.github_user_id ≡ some account)
    → is_muted guild r.discord_user_id muted ≡ false
    → contains r.discord_user_id (reachable guild named teams links team_links muted).ringing ≡ true
unfolding reachable
reachable-rings_named guild named teams links team_links muted a r account m h i g e f k quiet =
    let mentions = resolve_many guild (asked_ids [] named) links in
    let rings =
      contains-may_be_pinged guild r.discord_user_id (map (λ (x : Text × ℕ). x.1) mentions) muted in
    let there : contains r.discord_user_id (map (λ (x : Text × ℕ). x.1) mentions) ≡ true =
      In-contains r.discord_user_id (map (λ (x : Text × ℕ). x.1) mentions) (
        In-map (λ (x : Text × ℕ). x.1) mentions
          (In-resolve_many guild named links r i
            (named-is_resolved guild named a r account m h g e f k))) in
    rings ∙ ground arith
