-- ===== src/Identity/Unique.antt =====
-- That no two of the one-time links share a state.
-- No two rows have one state: the unique constraint.
use shannon_bot.Base.{
  All, All-change_where, All-keep, Bool, Bool-cases, List, [], any, any-none, change_where, false,
  inl, inr, keep, ltb, not, refl, subst, sym, ℕ, ◌+◌, ◌∷◌, ◌≡◌,
}
use shannon_bot.Domain.Text.{Text, text_eq}
use shannon_bot.Identity.Deeds.{Deed, after_deed, after_deeds, binds, issues, prunes, redeems}
use shannon_bot.Identity.OneTime.{
  IdentityVerification, bound_to, has_state, is_bindable, is_spendable, spent_at,
}
use shannon_bot.Identity.Seals.{binding_of}

abbrev pub AreUnique : List IdentityVerification → Type 0
AreUnique [] = Unit
AreUnique (r ∷ rest) = All (λ q. has_state r.state q ≡ false) rest × AreUnique rest

-- A change that leaves states as they are.
abbrev pub KeepsState : (IdentityVerification → IdentityVerification) → Type 0
KeepsState f = (r : IdentityVerification) → (f r).state ≡ r.state

pub All-state :
    (token : Text) (p : IdentityVerification → Bool)
    (f : IdentityVerification → IdentityVerification) (t : List IdentityVerification)
    → KeepsState f
    → All (λ q. has_state token q ≡ false) t
    → All (λ q. has_state token q ≡ false) (change_where p f t)
unfolding has_state
All-state token p f t same h =
    All-change_where (λ q. has_state token q ≡ false) p f t
      (λ r e k. subst (λ (s : Text). text_eq s token ≡ false) (sym (same r)) k) h

AreUnique-update :
    (p : IdentityVerification → Bool) (f : IdentityVerification → IdentityVerification)
    (t : List IdentityVerification)
    → KeepsState f
    → AreUnique t
    → AreUnique (change_where p f t)
unfolding change_where
AreUnique-update p f [] same u = tt
AreUnique-update p f (r ∷ t) same u = elim (Bool-cases (p r)) [
  | inl e ↦
      rw (change_where, e)
        (
          subst (λ (s : Text). All (λ q. has_state s q ≡ false) (change_where p f t)) (sym (same r))
              (All-state r.state p f t same u.0),
          AreUnique-update p f t same u.1,
        )
  | inr e ↦ rw (change_where, e) (All-state r.state p f t same u.0, AreUnique-update p f t same u.1)
]

AreUnique-keep :
    (p : IdentityVerification → Bool) (t : List IdentityVerification)
    → AreUnique t
    → AreUnique (keep p t)
AreUnique-keep p [] u = tt
AreUnique-keep p (r ∷ t) u = elim (Bool-cases (p r)) [
  | inl e ↦ rw e (All-keep (λ q. has_state r.state q ≡ false) p t u.0, AreUnique-keep p t u.1)
  | inr e ↦ rw e (AreUnique-keep p t u.1)
]

bound_to-state : (binding : Text) → KeepsState (bound_to binding)
unfolding bound_to
bound_to-state binding r = refl

pub spent_at-state : (now : ℕ) → KeepsState (spent_at now)
unfolding spent_at
spent_at-state now r = refl

module _ (mac hex_mac : Text → Text → Text) where
  after_deed-AreUnique :
      (d : Deed) (t : List IdentityVerification)
      → AreUnique t
      → AreUnique (after_deed mac hex_mac d t)
  unfolding after_deed
  after_deed-AreUnique (issues now i) t u = elim (Bool-cases (any (has_state i.state) t)) [
    | inl e ↦ rw (after_deed, e) u
    | inr e ↦ rw (after_deed, e) (any-none (has_state i.state) t e, u)
  ]
  after_deed-AreUnique (binds now browser token member) t u =
      AreUnique-update (is_bindable now token member)
        (bound_to (binding_of mac hex_mac browser token)) t
        (bound_to-state (binding_of mac hex_mac browser token)) u
  after_deed-AreUnique (redeems now browser token) t u =
      AreUnique-update (is_spendable now token (binding_of mac hex_mac browser token))
        (spent_at now) t (spent_at-state now) u
  after_deed-AreUnique (prunes now keep_for) t u =
      AreUnique-keep (λ r. not (ltb (r.expires_at + keep_for) now)) t u

  pub after_deeds-AreUnique :
      (deeds : List Deed) (t : List IdentityVerification)
      → AreUnique t
      → AreUnique (after_deeds mac hex_mac deeds t)
  unfolding after_deeds
  after_deeds-AreUnique [] t u = u
  after_deeds-AreUnique (d ∷ rest) t u =
      after_deeds-AreUnique rest (after_deed mac hex_mac d t) (after_deed-AreUnique d t u)
