-- ===== src/People/Pings.antt =====
-- A request is pinged for once, and a ping that could not be sent is owed again.
use shannon_bot.Base.{
  All-In, All-map, Bool, Bool-cases, In, In-keep, In-kept, In-map, List, Option, Option-cases, [],
  any-In, ap, arith, false, if◌then◌else◌, inl, inr, is_none, keep-none, map, map-same, none, refl,
  some, subst, sym, true, ℕ, ◌&&◌, ◌∷◌, ◌≡◌, ◌⊎◌,
}
use shannon_bot.Domain.Text.{Text, lower, text_eq, text_eq_iff}
use shannon_bot.People.Ledger.{
  Assignment, Assignments, People, claim_notifications, folded, has_account, has_login, is_for,
  is_owed, is_released, owed_rows, person_of, release_notifications, same_id, told, untold,
  update_where,
}
use shannon_bot.Sync.Policies.{ActorRole}

told-is_owed :
    (now item : ℕ) (role : ActorRole) (r : Assignment)
    → is_owed item role (if is_owed item role r then told now r else r) ≡ false
unfolding is_owed told is_for
told-is_owed now item role r = elim (Bool-cases (is_owed item role r)) [
  | inl e ↦ rw e (ground arith)
  | inr e ↦ rw e e
]

-- After a claim nothing is owed to the role.
pub owed_rows-claim_notifications :
    (now item : ℕ) (role : ActorRole) (t : Assignments)
    → owed_rows item role (claim_notifications now item role t).0 ≡ []
unfolding owed_rows claim_notifications
owed_rows-claim_notifications now item role t =
    keep-none (is_owed item role) (update_where (is_owed item role) (told now) t.rows) (
      All-map (λ r. is_owed item role r ≡ false)
        (λ r. if is_owed item role r then told now r else r) t.rows
        (All-In (λ r. is_owed item role (if is_owed item role r then told now r else r) ≡ false)
          t.rows (λ r m. told-is_owed now item role r)))

-- Logins are stored folded.
abbrev pub IsFolded : Assignment → Type 0
IsFolded r = lower r.github_username ≡ r.github_username

is_released-nobody :
    (item : ℕ) (role : ActorRole) (r : Assignment) → is_released item role [] r ≡ false
unfolding is_released has_account has_login
is_released-nobody item role r = elim (Option-cases r.github_user_id) [
  | inl e ↦ rw e (ground arith)
  | inr (a, e) ↦ rw e (ground arith)
]

-- The hand-back as one update, whoever is in it.
release_rows :
    (item : ℕ) (role : ActorRole) (got : People) (t : Assignments)
    → (release_notifications item role got t).rows
      ≡ update_where (is_released item role got) untold t.rows
unfolding release_notifications
release_rows item role [] t = sym (
    map-same (λ r. if is_released item role [] r then untold r else r) t.rows
      (All-In (λ r. (if is_released item role [] r then untold r else r) ≡ r) t.rows
        (λ r m. rw (is_released-nobody item role r) refl)))
release_rows item role (p ∷ got) t = refl

has_account-In :
    (got : People) (account : ℕ) (login : Text)
    → In (login, some account) got
    → has_account got (some account) ≡ true
unfolding has_account same_id
has_account-In got account login m = any-In (λ p. same_id account p.1) got m (ground arith)

has_login-In :
    (got : People) (login : Text)
    → In (login, none) got
    → lower login ≡ login
    → has_login got login ≡ true
unfolding has_login
has_login-In got login m folded =
    any-In (λ p. is_none p.1 && text_eq (lower p.0) login) got m
      ((text_eq_iff (lower login) login).1 folded)

is_released-found :
    (item : ℕ) (role : ActorRole) (got : People) (r : Assignment)
    → is_for item role r ≡ true
    → (has_account got r.github_user_id ≡ true) ⊎ (has_login got r.github_username ≡ true)
    → is_released item role got r ≡ true
unfolding is_released
is_released-found item role got r h (inl e) = rw (is_released, h, e) refl
is_released-found item role got r h (inr e) = rw (is_released, h, e) (ground arith)

-- A row that was claimed is among those that the hand-back finds.
is_released-owed :
    (now item : ℕ) (role : ActorRole) (t : Assignments) (r : Assignment)
    → In r (owed_rows item role t)
    → IsFolded r
    → is_for item role r ≡ true
    → is_released item role (claim_notifications now item role t).1 (told now r) ≡ true
unfolding claim_notifications person_of told is_for
is_released-owed now item role t r m folded h =
    is_released-found item role got (told now r) h (go r.github_user_id refl)
  where
    got : People
    got = map person_of (owed_rows item role t)

    place : In (r.github_username, r.github_user_id) got
    place = In-map person_of (owed_rows item role t) m

    go :
        (account : Option ℕ)
        → r.github_user_id ≡ account
        → (has_account got r.github_user_id ≡ true) ⊎ (has_login got r.github_username ≡ true)
    go none e = inr (
        has_login-In got r.github_username (subst (λ a. In (r.github_username, a) got) e place)
          folded)
    go (some account) e = inl (
        rw e (
          has_account-In got account r.github_username
            (subst (λ a. In (r.github_username, a) got) e place)))

pub update_where-In :
    (found : Assignment → Bool) (change : Assignment → Assignment) {r : Assignment}
    (rows : List Assignment)
    → In r rows
    → found r ≡ true
    → In (change r) (update_where found change rows)
update_where-In found change {r} rows m e =
    let image : (if found r then change r else r) ≡ change r = rw e refl in
    subst (λ s. In s (update_where found change rows)) image
      (In-map (λ s. if found s then change s else s) rows m)

untold-told : (now : ℕ) (r : Assignment) → is_none r.notified_at ≡ true → untold (told now r) ≡ r
unfolding untold told
untold-told now r e = elim (Option-cases r.notified_at) [
  | inl f ↦ ap (λ at. record r { notified_at = at }) (sym f)
  | inr (at, f) ↦ let no : is_none (some at) ≡ true = rw f at e in cc
]

pub is_owed-parts :
    (item : ℕ) (role : ActorRole) (r : Assignment)
    → is_owed item role r ≡ true
    → (is_for item role r ≡ true) × (is_none r.notified_at ≡ true) × (is_none r.fulfilled_at ≡ true)
unfolding is_owed
is_owed-parts item role r e = (ground arith, ground arith, ground arith)

-- A ping that is claimed and handed back is owed as before.
pub release-claim_owed :
    (now item : ℕ) (role : ActorRole) (t : Assignments) (r : Assignment)
    → In r (owed_rows item role t)
    → IsFolded r
    → In r (
        owed_rows item role (
          release_notifications item role
            (claim_notifications now item role t).1
            (claim_notifications now item role t).0))
unfolding owed_rows claim_notifications
release-claim_owed now item role t r m folded =
    let (place, owed) = In-keep (is_owed item role) t.rows m in
    let t' = (claim_notifications now item role t).0 in
    let got = (claim_notifications now item role t).1 in
    let (its, unsaid, unanswered) = is_owed-parts item role r owed in
    let stamped_place : In (told now r) t'.rows =
      update_where-In (is_owed item role) (told now) t.rows place owed in
    let hit = is_released-owed now item role t r m folded its in
    let moved = update_where-In (is_released item role got) untold t'.rows stamped_place hit in
    let back : In r (release_notifications item role got t').rows =
      subst (In r) (sym (release_rows item role got t')) (
        subst (λ s. In s (update_where (is_released item role got) untold t'.rows))
          (untold-told now r unsaid) moved) in
    In-kept (is_owed item role) (release_notifications item role got t').rows back owed
