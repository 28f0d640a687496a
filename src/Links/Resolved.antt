-- ===== src/Links/Resolved.antt =====
-- Whom `resolve_many` and `account_for` answer with.
use shannon_bot.Base.{
  ==_iff, In, In-keep, In-map, In-map_back, Option, Option-cases, [], ap, arith, at_head, false,
  first_where, first_where-In, first_where-some, inl, inr, keep, map, refl, some, subst, sym, true,
  ℕ, ◌&&◌, ◌==◌, ◌↔◌, ◌∙◌, ◌≡◌,
}
use shannon_bot.Domain.Text.{Text, lower, text_eq_iff}
use shannon_bot.Links.Pairs.{AreApart-same, IsOneToOne, is_apart, link-IsOneToOne}
use shannon_bot.Links.Store.{
  AskedPeople, UserLink, UserLinks, account_for, agrees, asked_under, inserted, is_bound,
  is_of_member, is_resolved, link, resolve_many, wanted_by, with_account,
}

is_resolved-guild :
    (guild : ℕ) (wanted : AskedPeople) (r : UserLink)
    → is_resolved guild wanted r ≡ true
    → r.discord_guild_id ≡ guild
unfolding is_resolved
is_resolved-guild guild wanted r h = elim (Option-cases (asked_under r.github_username wanted)) [
  | inl e ↦ let out : false ≡ true = rw (is_resolved, e) at h in cc
  | inr (asked, e) ↦
      let both : (r.discord_guild_id == guild && agrees r.github_user_id asked) ≡ true =
        rw (is_resolved, e) at h in
      (==_iff r.discord_guild_id guild).0 (ground arith)
]

resolved_row :
    (guild : ℕ) (asked : AskedPeople) (t : UserLinks) (name : Text) (member : ℕ)
    → In (name, member) (resolve_many guild asked t)
    → (r : UserLink) × In r t.rows
      × (r.discord_guild_id ≡ guild)
      × (r.github_username ≡ name)
      × (r.discord_user_id ≡ member)
unfolding resolve_many
resolved_row guild asked t name member m =
    let p = is_resolved guild (wanted_by [] asked) in
    let (r, n, e) =
      In-map_back (λ (r : UserLink). (r.github_username, r.discord_user_id)) (name, member)
        (keep p t.rows) m in
    let (n', g) = In-keep p t.rows n in
    (r, n', is_resolved-guild guild (wanted_by [] asked) r g, ap (λ x. x.0) e, ap (λ x. x.1) e)

shares_name :
    (r q : UserLink)
    → r.discord_guild_id ≡ q.discord_guild_id
    → r.github_username ≡ q.github_username
    → is_apart r q ≡ false
unfolding is_apart
shares_name r q g e =
    let same = (text_eq_iff r.github_username q.github_username).1 e in ground arith

shares_member :
    (r q : UserLink)
    → r.discord_guild_id ≡ q.discord_guild_id
    → r.discord_user_id ≡ q.discord_user_id
    → is_apart r q ≡ false
unfolding is_apart
shares_member r q g e = ground arith

-- Where the links pair one to one: what two logins resolve to is the same member exactly if they are
-- the same login.
resolve_many-exclusive :
    (guild : ℕ) (asked : AskedPeople) (t : UserLinks) (name name' : Text) (member member' : ℕ)
    → IsOneToOne t
    → In (name, member) (resolve_many guild asked t)
    → In (name', member') (resolve_many guild asked t)
    → (name ≡ name') ↔ (member ≡ member')
resolve_many-exclusive guild asked t name name' member member' h m n =
    let (r, i, g, a, b) = resolved_row guild asked t name member m in
    let (q, j, k, c, d) = resolved_row guild asked t name' member' n in
    let near : r.discord_guild_id ≡ q.discord_guild_id = g ∙ sym k in
    (
      (λ e.
          let alike : r.github_username ≡ q.github_username = a ∙ e ∙ sym c in
          let same =
            AreApart-same t.rows r q h.0 i j (shares_name r q near alike)
              (shares_name q r (sym near) (sym alike)) in
          sym b ∙ ap (λ (x : UserLink). x.discord_user_id) (sym same) ∙ d),
      (λ e.
          let alike : r.discord_user_id ≡ q.discord_user_id = b ∙ e ∙ sym d in
          let same =
            AreApart-same t.rows r q h.0 i j (shares_member r q near alike)
              (shares_member q r (sym near) (sym alike)) in
          sym a ∙ ap (λ (x : UserLink). x.github_username) (sym same) ∙ c),
    )

of_one_member :
    (guild member : ℕ) (r q : UserLink)
    → is_of_member guild member r ≡ true
    → is_of_member guild member q ≡ true
    → is_apart r q ≡ false
unfolding is_of_member is_apart
of_one_member guild member r q e f = ground arith

account_for-In :
    (guild member : ℕ) (t : UserLinks) (r : UserLink)
    → IsOneToOne t
    → In r t.rows
    → is_of_member guild member r ≡ true
    → account_for guild member t ≡ some (r.github_username, r.github_user_id)
unfolding account_for
account_for-In guild member t r h m e =
    let (q, f) = first_where-some (is_of_member guild member) t.rows r m e in
    let (n, g) = first_where-In (is_of_member guild member) t.rows q f in
    let same =
      AreApart-same t.rows r q h.0 m n (of_one_member guild member r q e g)
        (of_one_member guild member q r g e) in
    rw (account_for, f, same) refl

with_account-own :
    (account : Option ℕ) (r : UserLink)
    → with_account r.id account r ≡ record r { github_user_id = account }
unfolding with_account
with_account-own account r = rw ((==_iff r.id r.id).1 refl) refl

bound_name :
    (guild : ℕ) (name : Text) (member : ℕ) (r : UserLink)
    → is_bound guild name member r ≡ true
    → (r.github_username ≡ name) × (is_of_member guild member r ≡ true)
unfolding is_bound is_of_member
bound_name guild name member r e =
    ((text_eq_iff r.github_username name).0 (ground arith), ground arith)

newcomer :
    (guild member : ℕ) (r : UserLink)
    → r.discord_guild_id ≡ guild
    → r.discord_user_id ≡ member
    → is_of_member guild member r ≡ true
unfolding is_of_member
newcomer guild member r e f = ground arith

still_member :
    (guild member : ℕ) (account : Option ℕ) (r : UserLink)
    → is_of_member guild member r ≡ true
    → is_of_member guild member (record r { github_user_id = account }) ≡ true
unfolding is_of_member
still_member guild member account r e = e

-- Where the links pair one to one: after a member is linked, their account is that login, in lower
-- case, and the account id it was linked with, whatever either side had.
pub link-account_for :
    (guild : ℕ) (login : Text) (account : Option ℕ) (member : ℕ) (t : UserLinks)
    → IsOneToOne t
    → account_for guild member (link guild login account member t) ≡ some (lower login, account)
unfolding link inserted
link-account_for guild login account member t h =
    let paired = link-IsOneToOne guild login account member t h in
    elim (Option-cases (first_where (is_bound guild (lower login) member) t.rows)) [
      | inl e ↦
          let after : link guild login account member t
              ≡ inserted guild (lower login) account member t =
            rw (link, e) refl in
          rw after (
            account_for-In guild member (inserted guild (lower login) account member t)
              (record {
                id = t.next_id;
                discord_guild_id = guild;
                github_username = lower login;
                github_user_id = account;
                discord_user_id = member;
              })
              (rw after at paired) at_head (newcomer guild member _ refl refl))
      | inr (r, e) ↦
          let (m, g) = first_where-In (is_bound guild (lower login) member) t.rows r e in
          let (name, mine) = bound_name guild (lower login) member r g in
          let row = In-map (with_account r.id account) t.rows m in
          let after : link guild login account member t
              ≡ record t { rows = map (with_account r.id account) t.rows } =
            rw (link, e) refl in
          rw after (
            account_for-In guild member (record t { rows = map (with_account r.id account) t.rows })
              (record r { github_user_id = account }) (rw after at paired)
              (subst (λ x. In x (map (with_account r.id account) t.rows))
                (with_account-own account r) row)
              (still_member guild member account r mine)
            ∙ ap (λ (n : Text). some (n, account)) name)
    ]
