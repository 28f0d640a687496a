-- ===== src/Links/Reach.antt =====
-- shannon/services/audience.py with shannon/db/stores/team_links.py: who a message names in Discord,
-- and whom of them it may ring.
use shannon_bot.Base.{
  ==_iff, All, Bool, Bool-cases, In, In-keep, In-map_back, List, Option, Option-cases, [], any, ap,
  arith, at_head, contains, false, if◌then◌else◌, in_tail, inl, inr, keep, map, none, refl, some,
  subst, sym, true, ℕ, ◌&&◌, ◌==◌, ◌∙◌, ◌∷◌, ◌≡◌, ◌⊎◌,
}
use shannon_bot.Delivery.Store.{ids}
use shannon_bot.Domain.Text.{Text, lower, text_eq, text_eq_iff}
use shannon_bot.Identity.RoundTrip.{bound_username}
use shannon_bot.Links.Store.{
  AskedPeople, UserLink, UserLinks, agrees, asked_under, is_resolved, put_wanted, resolve_many,
  wanted_by,
}
use shannon_bot.People.Muted.{MutedMember, is_muted, may_be_pinged}
use shannon_bot.People.Silence.{contains-may_be_pinged}
use shannon_bot.Sync.Policies.{Actor}

pub record TeamLink : Type 0 where
  pub discord_guild_id : ℕ
  pub github_team : Text
  pub discord_role_id : ℕ

unfoldable pub is_team : ℕ → Text → TeamLink → Bool
is_team guild slug r = r.discord_guild_id == guild && text_eq r.github_team slug

unfoldable pub resolve_teams : ℕ → List Text → List TeamLink → List (Text × ℕ)
unfolding is_team lower
resolve_teams guild names t =
    map (λ (r : TeamLink). (r.github_team, r.discord_role_id))
      (keep (λ r. any (λ name. is_team guild (lower name) r) names) t)

-- INSERT, or UPDATE of the role where the team has a row in that server.
unfoldable pub put_team : TeamLink → List TeamLink → List TeamLink
unfolding is_team
put_team l [] = l ∷ []
put_team l (r ∷ rest) =
    let later = put_team l rest in
    if is_team l.discord_guild_id l.github_team r
    then record r { discord_role_id = l.discord_role_id } ∷ rest
    else r ∷ later

unfoldable pub link_team : ℕ → Text → ℕ → List TeamLink → List TeamLink
unfolding put_team bound_username
link_team guild team role t =
    put_team
      (record {
        discord_guild_id = guild;
        github_team = bound_username team;
        discord_role_id = role;
      })
      t

pub record Audience : Type 0 where
  pub mentions : List (Text × ℕ)
  pub roles : List (Text × ℕ)
  pub ringing : List ℕ

-- `{person.login: person.github_user_id for person in people}`
unfoldable pub asked_ids : AskedPeople → List Actor → AskedPeople
unfolding put_wanted
asked_ids asked [] = asked
asked_ids asked (a ∷ rest) = asked_ids (put_wanted a.login a.github_user_id asked) rest

unfoldable pub reachable :
    ℕ → List Actor → List Actor → UserLinks → List TeamLink → List MutedMember → Audience
unfolding asked_ids resolve_many resolve_teams may_be_pinged
reachable guild named teams links team_links muted =
    let mentions = resolve_many guild (asked_ids [] named) links in
    record {
      mentions = mentions;
      roles = resolve_teams guild (map (λ (a : Actor). a.login) teams) team_links;
      ringing = may_be_pinged guild (map (λ (m : Text × ℕ). m.1) mentions) muted;
    }

-- Every entry comes from a person, under a name that `fold` makes of their login.
module _ (fold : Text → Text) (named : List Actor) where
  abbrev pub Comes : Text × Option ℕ → Type 0
  Comes e = (a : Actor) × In a named × (fold a.login ≡ e.0) × (a.github_user_id ≡ e.1)

  All-put_wanted :
      (name : Text) (asked : Option ℕ) (wanted : AskedPeople)
      → Comes (name, asked)
      → All Comes wanted
      → All Comes (put_wanted name asked wanted)
  unfolding put_wanted
  All-put_wanted name asked [] c h = (c, tt)
  All-put_wanted name asked (e ∷ wanted) c h = elim (Bool-cases (text_eq e.0 name)) [
    | inl same ↦
        let (a, m, f, g) = c in
        rw (put_wanted, same) ((a, m, f ∙ sym ((text_eq_iff e.0 name).0 same), g), h.1)
    | inr other ↦ rw (put_wanted, other) (h.0, All-put_wanted name asked wanted c h.1)
  ]

asked_ids-Comes :
    (named some_named : List Actor) (asked : AskedPeople)
    → ((a : Actor) → In a some_named → In a named)
    → All (Comes (λ n. n) named) asked
    → All (Comes (λ n. n) named) (asked_ids asked some_named)
unfolding asked_ids
asked_ids-Comes named [] asked sub h = h
asked_ids-Comes named (a ∷ rest) asked sub h =
    asked_ids-Comes named rest (put_wanted a.login a.github_user_id asked)
      (λ b m. sub b (in_tail m))
      (All-put_wanted (λ n. n) named a.login a.github_user_id asked (a, sub a at_head, refl, refl)
        h)

wanted_by-Comes :
    (named : List Actor) (wanted asked : AskedPeople)
    → All (Comes (λ n. n) named) asked
    → All (Comes lower named) wanted
    → All (Comes lower named) (wanted_by wanted asked)
unfolding wanted_by
wanted_by-Comes named wanted [] h k = k
wanted_by-Comes named wanted (e ∷ rest) h k =
    let (a, m, f, g) = h.0 in
    wanted_by-Comes named (put_wanted (lower e.0) e.1 wanted) rest h.1
      (All-put_wanted lower named (lower e.0) e.1 wanted (a, m, ap lower f, g) k)

pub wanted_by-named :
    (named : List Actor) → All (Comes lower named) (wanted_by [] (asked_ids [] named))
wanted_by-named named =
    wanted_by-Comes named [] (asked_ids [] named) (asked_ids-Comes named named [] (λ a n. n) tt) tt

pub asked_under-Comes :
    (named : List Actor) (name : Text) (asked : Option ℕ) (wanted : AskedPeople)
    → All (Comes lower named) wanted
    → asked_under name wanted ≡ some asked
    → Comes lower named (name, asked)
unfolding asked_under
asked_under-Comes named name asked [] h e = cc
asked_under-Comes named name asked (w ∷ wanted) h e = elim (Bool-cases (text_eq w.0 name)) [
  | inl same ↦
      let e' : some w.1 ≡ some asked = rw (asked_under, same) at e in
      let value : w.1 ≡ asked = cc in
      let (a, m, f, g) = h.0 in (a, m, f ∙ (text_eq_iff w.0 name).0 same, g ∙ value)
  | inr other ↦ asked_under-Comes named name asked wanted h.1 (rw (asked_under, other) at e)
]

-- A link of the server to the login of somebody who was named, whose account is proved, and is theirs
-- where theirs is known.
abbrev pub IsTheirs : ℕ → List Actor → UserLink → Type 0
IsTheirs guild named r =
    (r.discord_guild_id ≡ guild)
    × ((a : Actor) × In a named
        × (lower a.login ≡ r.github_username)
        × ((account : ℕ) × (r.github_user_id ≡ some account)
            × ((a.github_user_id ≡ none) ⊎ (a.github_user_id ≡ some account))))

agrees-some :
    (linked asked : Option ℕ)
    → agrees linked asked ≡ true
    → (account : ℕ) × (linked ≡ some account) × ((asked ≡ none) ⊎ (asked ≡ some account))
unfolding agrees
agrees-some none asked e = cc
agrees-some (some account) none e = (account, refl, inl refl)
agrees-some (some account) (some asked) e =
    (account, refl, inr (ap some (sym ((==_iff account asked).0 e))))

is_resolved-IsTheirs :
    (guild : ℕ) (named : List Actor) (wanted : AskedPeople) (r : UserLink)
    → All (Comes lower named) wanted
    → is_resolved guild wanted r ≡ true
    → IsTheirs guild named r
unfolding is_resolved
is_resolved-IsTheirs guild named wanted r h e =
    elim (Option-cases (asked_under r.github_username wanted)) [
      | inl f ↦ let out : false ≡ true = rw (is_resolved, f) at e in cc
      | inr (asked, f) ↦
          let both : (r.discord_guild_id == guild && agrees r.github_user_id asked) ≡ true =
            rw (is_resolved, f) at e in
          let (a, m, g, k) = asked_under-Comes named r.github_username asked wanted h f in
          (
            (==_iff r.discord_guild_id guild).0 (ground arith),
            (
              a,
              m,
              g,
              agrees-some r.github_user_id a.github_user_id (
                  subst (λ (o : Option ℕ). agrees r.github_user_id o ≡ true) (sym k)
                    (ground arith)),
            ),
          )
    ]

contains-In : (j : ℕ) (ids : List ℕ) → contains j ids ≡ true → In j ids
contains-In j [] e = cc
contains-In j (i ∷ ids) e = elim (Bool-cases (j == i)) [
  | inl f ↦ subst (λ (x : ℕ). In j (x ∷ ids)) ((==_iff j i).0 f) at_head
  | inr f ↦ in_tail (contains-In j ids (ground arith))
]

resolved-IsTheirs :
    (guild : ℕ) (named : List Actor) (links : UserLinks) (j : ℕ)
    → In j (map (λ (m : Text × ℕ). m.1) (resolve_many guild (asked_ids [] named) links))
    → (r : UserLink) × In r links.rows × (r.discord_user_id ≡ j) × IsTheirs guild named r
unfolding resolve_many
resolved-IsTheirs guild named links j m =
    let asked = asked_ids [] named in
    let wanted = wanted_by [] asked in
    let p = is_resolved guild wanted in
    let named_there : List (Text × ℕ) =
      map (λ (r : UserLink). (r.github_username, r.discord_user_id)) (keep p links.rows) in
    let (pair, n, e) = In-map_back (λ (x : Text × ℕ). x.1) j named_there m in
    let (r, k, f) =
      In-map_back (λ (r : UserLink). (r.github_username, r.discord_user_id)) pair
        (keep p links.rows) n in
    let (i, g) = In-keep p links.rows k in
    (
      r,
      i,
      ap (λ (x : Text × ℕ). x.1) f ∙ e,
      is_resolved-IsTheirs guild named wanted r (wanted_by-named named) g,
    )

-- Whom a message rings: only a member who is not muted in that server, and whose link there is of
-- somebody it was to name: by their login in lower case, with a proved account, which is theirs where
-- theirs is known.
pub reachable-rings :
    (guild : ℕ) (named teams : List Actor) (links : UserLinks) (team_links : List TeamLink)
    (muted : List MutedMember) (j : ℕ)
    → contains j (reachable guild named teams links team_links muted).ringing ≡ true
    → (is_muted guild j muted ≡ false)
      × ((r : UserLink) × In r links.rows × (r.discord_user_id ≡ j) × IsTheirs guild named r)
unfolding reachable
reachable-rings guild named teams links team_links muted j h =
    let asked = asked_ids [] named in
    let mentions = resolve_many guild asked links in
    let rings = contains-may_be_pinged guild j (map (λ (m : Text × ℕ). m.1) mentions) muted in
    let both = sym rings ∙ h in
    let (r, m, e, t) =
      resolved-IsTheirs guild named links j
        (contains-In j (map (λ (m : Text × ℕ). m.1) mentions) (ground arith)) in
    (ground arith, (r, m, e, t))
