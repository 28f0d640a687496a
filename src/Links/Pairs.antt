-- ===== src/Links/Pairs.antt =====
-- A server's links pair logins and members one to one: the statements of
-- shannon/db/stores/user_links.py keep both unique constraints.
-- Two rows that break no constraint.
use shannon_bot.Base.{
  ==_iff, All, All-In, All-at, All-imp, All-keep, All-of, Bool, Bool-cases, In, In-cons, List,
  Option, Option-cases, [], any, any-none, arith, false, first_where, first_where-In, inl, inr,
  keep, map, not, refl, subst, sym, true, ℕ, ◌&&◌, ◌+◌, ◌<◌, ◌==◌, ◌||◌, ◌∙◌, ◌∷◌, ◌≡◌,
}
use shannon_bot.Domain.Text.{Text, lower, text_eq}
use shannon_bot.Links.Store.{
  LinkStep, UserLink, UserLinks, after_links, follow_rename, following, inserted, is_bound,
  is_followed, is_holding, is_in_the_way, link, linking, with_account, with_name,
}
use shannon_bot.People.Names.{text_eq_comm}

unfoldable pub is_apart : UserLink → UserLink → Bool
is_apart r q =
    not (r.id == q.id)
    && not (
        r.discord_guild_id == q.discord_guild_id
        && (text_eq r.github_username q.github_username || r.discord_user_id == q.discord_user_id))

abbrev pub AreApart : List UserLink → Type 0
AreApart [] = Unit
AreApart (r ∷ rest) = All (λ q. is_apart r q ≡ true) rest × AreApart rest

-- The ids that the sequence has given are those below the next.
abbrev pub IsOneToOne : UserLinks → Type 0
IsOneToOne t = AreApart t.rows × All (λ r. r.id < t.next_id) t.rows

AreApart-keep : (p : UserLink → Bool) (rs : List UserLink) → AreApart rs → AreApart (keep p rs)
AreApart-keep p [] h = tt
AreApart-keep p (r ∷ rs) h = elim (Bool-cases (p r)) [
  | inl e ↦ rw e (All-keep (λ q. is_apart r q ≡ true) p rs h.0, AreApart-keep p rs h.1)
  | inr e ↦ rw e (AreApart-keep p rs h.1)
]

-- A map of the rows that keeps each apart from those it was apart from.
module _ (f : UserLink → UserLink) (Good : UserLink → Type 0)
    (keeps : (r q : UserLink)
      → Good r
      → Good q
      → is_apart r q ≡ true
      → is_apart (f r) (f q) ≡ true) where
  All-apart_map :
      (r : UserLink) (rs : List UserLink)
      → Good r
      → All Good rs
      → All (λ q. is_apart r q ≡ true) rs
      → All (λ q. is_apart (f r) q ≡ true) (map f rs)
  All-apart_map r [] g gs h = tt
  All-apart_map r (q ∷ rs) g gs h = (keeps r q g gs.0 h.0, All-apart_map r rs g gs.1 h.1)

  AreApart-map : (rs : List UserLink) → All Good rs → AreApart rs → AreApart (map f rs)
  AreApart-map [] gs h = tt
  AreApart-map (r ∷ rs) gs h = (All-apart_map r rs gs.0 gs.1 h.0, AreApart-map rs gs.1 h.1)

with_account-apart :
    (i : ℕ) (account : Option ℕ) (r q : UserLink)
    → is_apart r q ≡ true
    → is_apart (with_account i account r) (with_account i account q) ≡ true
unfolding with_account is_apart
with_account-apart i account r q h = ground arith

fresh-apart :
    (guild : ℕ) (name : Text) (account : Option ℕ) (member i : ℕ) (rs : List UserLink)
    → All (λ r. r.id < i) rs
    → All
        (λ q.
          is_apart
            (record {
              id = i;
              discord_guild_id = guild;
              github_username = name;
              github_user_id = account;
              discord_user_id = member;
            })
            q
          ≡ true)
        (keep (λ r. not (is_in_the_way guild name member r)) rs)
unfolding is_apart is_in_the_way
fresh-apart guild name account member i [] h = tt
fresh-apart guild name account member i (r ∷ rs) h =
    let same = text_eq_comm name r.github_username in
    let rest = fresh-apart guild name account member i rs h.1 in
    elim (Bool-cases (is_in_the_way guild name member r)) [
      | inl e ↦ rw e rest
      | inr e ↦ rw e (ground arith, rest)
    ]

-- The ids are as they were.
Below-map :
    (f : UserLink → UserLink) (i : ℕ) (rs : List UserLink)
    → ((r : UserLink) → (f r).id ≡ r.id)
    → All (λ r. r.id < i) rs
    → All (λ r. r.id < i) (map f rs)
Below-map f i [] same h = tt
Below-map f i (r ∷ rs) same h =
    (subst (λ (n : ℕ). n < i) (sym (same r)) h.0, Below-map f i rs same h.1)

with_account-id : (i : ℕ) (account : Option ℕ) (r : UserLink) → (with_account i account r).id ≡ r.id
unfolding with_account
with_account-id i account r = ground arith

with_name-id : (i : ℕ) (name : Text) (r : UserLink) → (with_name i name r).id ≡ r.id
unfolding with_name
with_name-id i name r = ground arith

inserted-IsOneToOne :
    (guild : ℕ) (name : Text) (account : Option ℕ) (member : ℕ) (t : UserLinks)
    → IsOneToOne t
    → IsOneToOne (inserted guild name account member t)
unfolding inserted
inserted-IsOneToOne guild name account member t h =
    let p : UserLink → Bool = (λ r. not (is_in_the_way guild name member r)) in
    (
      (fresh-apart guild name account member t.next_id t.rows h.1, AreApart-keep p t.rows h.0),
      (
        omega arith,
        All-imp (λ r. r.id < t.next_id) (λ r. r.id < t.next_id + 1) (keep p t.rows)
            (λ r e. omega (arith, e)) (All-keep (λ r. r.id < t.next_id) p t.rows h.1),
      ),
    )

pub link-IsOneToOne :
    (guild : ℕ) (login : Text) (account : Option ℕ) (member : ℕ) (t : UserLinks)
    → IsOneToOne t
    → IsOneToOne (link guild login account member t)
unfolding link
link-IsOneToOne guild login account member t h =
    elim (Option-cases (first_where (is_bound guild (lower login) member) t.rows)) [
      | inl e ↦ rw (link, e) (inserted-IsOneToOne guild (lower login) account member t h)
      | inr (r, e) ↦
          rw (link, e)
            (
              AreApart-map (with_account r.id account) (λ q. Unit)
                  (λ a b g k. with_account-apart r.id account a b) t.rows
                  (All-of (λ q. Unit) (λ q. tt) t.rows) h.0,
              Below-map (with_account r.id account) t.next_id t.rows (with_account-id r.id account)
                  h.1,
            )
    ]

-- A row that may stay beside the renamed one, or is the renamed one.
abbrev Fits : ℕ → Text → ℕ → UserLink → Type 0
Fits guild name i q =
    (is_holding guild name i q ≡ false) × ((q.id == i && not (q.discord_guild_id == guild)) ≡ false)

with_name-apart :
    (guild : ℕ) (name : Text) (i : ℕ) (r q : UserLink)
    → Fits guild name i r
    → Fits guild name i q
    → is_apart r q ≡ true
    → is_apart (with_name i name r) (with_name i name q) ≡ true
unfolding with_name is_apart is_holding
with_name-apart guild name i r q g k h =
    let same = text_eq_comm name q.github_username in
    let (g0, g1) = g in let (k0, k1) = k in ground arith

-- Rows that are not apart are one row.
pub AreApart-same :
    (rs : List UserLink) (r q : UserLink)
    → AreApart rs
    → In r rs
    → In q rs
    → is_apart r q ≡ false
    → is_apart q r ≡ false
    → q ≡ r
AreApart-same [] r q h m n e f = elim m [ ]
AreApart-same (x ∷ rs) r q h m n e f = elim (In-cons m) [
  | inl a ↦ elim (In-cons n) [
    | inl b ↦ sym b ∙ a
    | inr n' ↦
        let apart = All-at (λ y. is_apart x y ≡ true) n' h.0 in
        let apart' : is_apart r q ≡ true = rw a at apart in cc
  ]
  | inr m' ↦ elim (In-cons n) [
    | inl b ↦
        let apart = All-at (λ y. is_apart x y ≡ true) m' h.0 in
        let apart' : is_apart q r ≡ true = rw b at apart in cc
    | inr n' ↦ AreApart-same rs r q h.1 m' n' e f
  ]
]

same_id : (r q : UserLink) → q.id ≡ r.id → is_apart r q ≡ false
unfolding is_apart
same_id r q e = ground arith

is_followed-guild :
    (guild member account : ℕ) (r : UserLink)
    → is_followed guild member account r ≡ true
    → (r.discord_guild_id == guild) ≡ true
unfolding is_followed
is_followed-guild guild member account r e = ground arith

fits :
    (guild : ℕ) (name : Text) (rs : List UserLink) (r q : UserLink)
    → AreApart rs
    → In r rs
    → (r.discord_guild_id == guild) ≡ true
    → In q rs
    → is_holding guild name r.id q ≡ false
    → Fits guild name r.id q
fits guild name rs r q h m here n free = elim (Bool-cases (q.id == r.id)) [
  | inl e ↦
      let ids = (==_iff q.id r.id).0 e in
      let same = AreApart-same rs r q h m n (same_id r q ids) (same_id q r (sym ids)) in
      (free, rw (same, here) (ground arith))
  | inr e ↦ (free, rw e refl)
]

follow_rename-IsOneToOne :
    (guild member account : ℕ) (login : Text) (t : UserLinks)
    → IsOneToOne t
    → IsOneToOne (follow_rename guild member account login t)
unfolding follow_rename
follow_rename-IsOneToOne guild member account login t h =
    elim (Option-cases (first_where (is_followed guild member account) t.rows)) [
      | inl e ↦ rw (follow_rename, e) h
      | inr (r, e) ↦ elim (Bool-cases (any (is_holding guild (lower login) r.id) t.rows)) [
        | inl f ↦ rw (follow_rename, e, f) h
        | inr f ↦
            let (m, g) = first_where-In (is_followed guild member account) t.rows r e in
            let free = any-none (is_holding guild (lower login) r.id) t.rows f in
            rw (follow_rename, e, f)
              (
                AreApart-map (with_name r.id (lower login)) (Fits guild (lower login) r.id)
                    (λ a b. with_name-apart guild (lower login) r.id a b) t.rows
                    (All-In (Fits guild (lower login) r.id) t.rows (λ q n.
                      fits guild (lower login) t.rows r q h.0 m
                        (is_followed-guild guild member account r g) n
                        (All-at (λ x. is_holding guild (lower login) r.id x ≡ false) n free)))
                    h.0,
                Below-map (with_name r.id (lower login)) t.next_id t.rows
                    (with_name-id r.id (lower login)) h.1,
              )
      ]
    ]

-- From links of which no two of a server share a login or a member: after linking and following
-- renames, in any order, no two do.
pub after_links-IsOneToOne :
    (steps : List LinkStep) (t : UserLinks) → IsOneToOne t → IsOneToOne (after_links steps t)
unfolding after_links
after_links-IsOneToOne [] t h = h
after_links-IsOneToOne (linking guild login account member ∷ rest) t h =
    after_links-IsOneToOne rest (link guild login account member t)
      (link-IsOneToOne guild login account member t h)
after_links-IsOneToOne (following guild member account login ∷ rest) t h =
    after_links-IsOneToOne rest (follow_rename guild member account login t)
      (follow_rename-IsOneToOne guild member account login t h)
