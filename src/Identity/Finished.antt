-- ===== src/Identity/Finished.antt =====
-- That the member a link was issued for can finish it.
use shannon_bot.Base.{
  ==_iff, All, All-imp, Bool, List, Option, [], ap, arith, change_where, change_where-none, false,
  first_where, keep, length, refl, some, true, ℕ, ◌+◌, ◌<◌, ◌==◌, ◌∙◌, ◌∷◌, ◌≡◌,
}
use shannon_bot.Domain.Text.{Text, text_eq_iff}
use shannon_bot.Identity.OneTime.{
  IdentityVerification, Issue, bind, bound_to, consume, fresh_link, has_state, is_bindable,
  is_bound_to, is_followable, is_pending, is_spendable, pending, pending_link, spent_at, spent_link,
}

pub keep-nobody :
    (p : IdentityVerification → Bool) (t : List IdentityVerification)
    → All (λ q. p q ≡ false) t
    → length (keep p t) ≡ 0
keep-nobody p [] h = refl
keep-nobody p (q ∷ t) h = ground (arith, keep-nobody p t h.1)

-- The rows of other states pass none of the tests.
pub others_not :
    (token : Text) (p : IdentityVerification → Bool) (t : List IdentityVerification)
    → ((q : IdentityVerification) → has_state token q ≡ false → p q ≡ false)
    → All (λ q. has_state token q ≡ false) t
    → All (λ q. p q ≡ false) t
others_not token p t no_state h =
    All-imp (λ q. has_state token q ≡ false) (λ q. p q ≡ false) t no_state h

pub pending-head :
    (now : ℕ) (token : Text) (r : IdentityVerification) (t : List IdentityVerification)
    → is_pending now token r ≡ true
    → pending now token (r ∷ t) ≡ pending_link (some r)
unfolding pending first_where
pending-head now token r t e = rw (pending, first_where, e) refl

not_bindable :
    (now : ℕ) (token : Text) (member : ℕ) (q : IdentityVerification)
    → has_state token q ≡ false
    → is_bindable now token member q ≡ false
unfolding is_bindable is_pending
not_bindable now token member q e = ground arith

not_spendable :
    (now : ℕ) (token binding : Text) (q : IdentityVerification)
    → has_state token q ≡ false
    → is_spendable now token binding q ≡ false
unfolding is_spendable is_pending
not_spendable now token binding q e = ground arith

update-head :
    (p : IdentityVerification → Bool) (f : IdentityVerification → IdentityVerification)
    (r : IdentityVerification) (t : List IdentityVerification)
    → p r ≡ true
    → All (λ q. p q ≡ false) t
    → change_where p f (r ∷ t) ≡ f r ∷ t
unfolding change_where
update-head p f r t e h = rw (change_where, e, change_where-none p f t h) refl

one_row :
    (p : IdentityVerification → Bool) (r : IdentityVerification) (t : List IdentityVerification)
    → p r ≡ true
    → All (λ q. p q ≡ false) t
    → (length (keep p (r ∷ t)) == 1) ≡ true
one_row p r t e h = rw e (ground (arith, keep-nobody p t h))

bindable :
    (now : ℕ) (token : Text) (r : IdentityVerification)
    → is_pending now token r ≡ true
    → is_bindable now token r.discord_user_id r ≡ true
unfolding is_bindable
bindable now token r e =
    let own = (==_iff r.discord_user_id r.discord_user_id).1 refl in ground arith

pub bind-head :
    (now : ℕ) (token binding : Text) (r : IdentityVerification) (t : List IdentityVerification)
    → is_pending now token r ≡ true
    → All (λ q. has_state token q ≡ false) t
    → bind now token r.discord_user_id binding (r ∷ t) ≡ (bound_to binding r ∷ t, true)
unfolding bind
bind-head now token binding r t e h =
    let p = is_bindable now token r.discord_user_id in
    let others = others_not token p t (not_bindable now token r.discord_user_id) h in
    let fits = bindable now token r e in
    ap (λ (l : List IdentityVerification). (l, length (keep p (r ∷ t)) == 1))
      (update-head p (bound_to binding) r t fits others)
    ∙ ap (λ (b : Bool). (bound_to binding r ∷ t, b)) (one_row p r t fits others)

spendable :
    (now : ℕ) (token binding : Text) (r : IdentityVerification)
    → is_pending now token r ≡ true
    → is_spendable now token binding (bound_to binding r) ≡ true
unfolding is_spendable is_pending has_state is_followable is_bound_to bound_to
spendable now token binding r e = let own = (text_eq_iff binding binding).1 refl in ground arith

pub consume-head :
    (now : ℕ) (token binding : Text) (r : IdentityVerification) (t : List IdentityVerification)
    → is_pending now token r ≡ true
    → All (λ q. has_state token q ≡ false) t
    → consume now token binding (bound_to binding r ∷ t)
      ≡ (spent_at now (bound_to binding r) ∷ t, spent_link (some r))
unfolding consume first_where spent_link bound_to
consume-head now token binding r t e h =
    let p = is_spendable now token binding in
    let fits = spendable now token binding r e in
    let others = others_not token p t (not_spendable now token binding) h in
    ap (λ (l : List IdentityVerification). (l, spent_link (first_where p (bound_to binding r ∷ t))))
      (update-head p (spent_at now) (bound_to binding r) t fits others)
    ∙ ap
        (λ (o : Option IdentityVerification). (spent_at now (bound_to binding r) ∷ t, spent_link o))
        (let first : first_where p (bound_to binding r ∷ t) ≡ some (bound_to binding r) =
            rw (first_where, fits) refl in
          first)

pub fresh-pending :
    (now at : ℕ) (i : Issue)
    → at < now + i.lifetime
    → is_pending at i.state (fresh_link now i) ≡ true
unfolding is_pending has_state is_followable fresh_link
fresh-pending now at i h = let own = (text_eq_iff i.state i.state).1 refl in ground arith
