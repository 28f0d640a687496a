-- ===== src/Identity/Spent.antt =====
-- That a one-time link works once.
-- A link with that state which nobody has spent.
use shannon_bot.Base.{
  All, All-at, All-change_where, All-imp, All-keep, Bool, Bool-cases, List, Option, Option-cases,
  [], any, arith, change_where, change_where-none, false, first_where, first_where-In,
  first_where-none, inl, inr, is_none, ltb, none, not, refl, some, subst, sym, true, ℕ, ◌&&◌, ◌+◌,
  ◌∷◌, ◌≡◌,
}
use shannon_bot.Domain.Text.{Text, text_eq, text_eq_iff}
use shannon_bot.Identity.Deeds.{Deed, after_deed, after_deeds, binds, issues, prunes, redeems}
use shannon_bot.Identity.OneTime.{
  IdentityVerification, Issue, SpentLink, bound_to, consume, fresh_link, has_state, is_bindable,
  is_followable, is_pending, is_spendable, spent_at, spent_link,
}
use shannon_bot.Identity.RoundTrip.{
  Accounts, GithubDay, Verified, after_spending, finish_with, goes_on, redeem, redeem_opened,
  refused, still_holds_the_tier, unfollowable, with_proof,
}
use shannon_bot.Identity.Seals.{at_github, binding_of, unsealed}
use shannon_bot.Identity.Unique.{All-state, AreUnique, after_deeds-AreUnique, spent_at-state}
use shannon_bot.Identity.Vouched.{after_spending-who, spent_link-some}
use shannon_bot.People.Notifier.{spent}

abbrev pub is_open : Text → IdentityVerification → Bool
is_open token r = has_state token r && is_none r.consumed_at

spendable-open :
    (now : ℕ) (token binding : Text) (r : IdentityVerification)
    → is_open token r ≡ false
    → is_spendable now token binding r ≡ false
unfolding is_spendable is_pending is_followable
spendable-open now token binding r h = ground arith

spendable-state :
    (now : ℕ) (token binding : Text) (r : IdentityVerification)
    → is_spendable now token binding r ≡ true
    → has_state token r ≡ true
unfolding is_spendable is_pending
spendable-state now token binding r h = ground arith

spent-closed :
    (now : ℕ) (token : Text) (r : IdentityVerification) → is_open token (spent_at now r) ≡ false
unfolding spent_at has_state
spent-closed now token r = ground arith

bound-closed :
    (binding token : Text) (r : IdentityVerification)
    → is_open token r ≡ false
    → is_open token (bound_to binding r) ≡ false
unfolding bound_to has_state
bound-closed binding token r h = h

-- Other rows do not have the state of a row.
other_state :
    (token : Text) (r : IdentityVerification) (t : List IdentityVerification)
    → has_state token r ≡ true
    → All (λ q. has_state r.state q ≡ false) t
    → All (λ q. has_state token q ≡ false) t
unfolding has_state
other_state token r t e h =
    subst (λ (s : Text). All (λ q. has_state s q ≡ false) t) ((text_eq_iff r.state token).0 e) h

not_open :
    (token : Text) (q r : IdentityVerification)
    → has_state token r ≡ true
    → has_state q.state r ≡ false
    → is_open token q ≡ false
unfolding has_state
not_open token q r e f = elim (Bool-cases (text_eq q.state token)) [
  | inr g ↦ rw g refl
  | inl g ↦
      let same : q.state ≡ token = (text_eq_iff q.state token).0 g in
      let e' : text_eq r.state q.state ≡ true =
        subst (λ (s : Text). text_eq r.state s ≡ true) (sym same) e in
      cc
]

finish_with-links :
    (d : GithubDay) (spent : SpentLink) (o : Option (Text × ℕ)) (w : Accounts)
    → (finish_with d spent o w).0.verifications ≡ w.verifications
unfolding finish_with with_proof
finish_with-links d spent none w = refl
finish_with-links d spent (some (login, account)) w = ground arith

module _ (mac hex_mac : Text → Text → Text) where
  -- A deed that issues no link with that state.
  abbrev pub IssuesOthers : Text → Deed → Type 0
  IssuesOthers token (issues now i) = text_eq i.state token ≡ false
  IssuesOthers token (binds now browser token' member) = Unit {0}
  IssuesOthers token (redeems now browser token') = Unit {0}
  IssuesOthers token (prunes now keep_for) = Unit {0}

  abbrev AreClosed : Text → List IdentityVerification → Type 0
  AreClosed token t = All (λ r. is_open token r ≡ false) t

  fresh-closed :
      (token : Text) (now : ℕ) (i : Issue)
      → text_eq i.state token ≡ false
      → is_open token (fresh_link now i) ≡ false
  unfolding fresh_link has_state
  fresh-closed token now i e = ground arith

  after_deed-closed :
      (token : Text) (d : Deed) (t : List IdentityVerification)
      → IssuesOthers token d
      → AreClosed token t
      → AreClosed token (after_deed mac hex_mac d t)
  unfolding after_deed
  after_deed-closed token (issues now i) t o h = elim (Bool-cases (any (has_state i.state) t)) [
    | inl e ↦ rw (after_deed, e) h
    | inr e ↦ rw (after_deed, e) (fresh-closed token now i o, h)
  ]
  after_deed-closed token (binds now browser token' member) t o h =
      All-change_where (λ r. is_open token r ≡ false) (is_bindable now token' member)
        (bound_to (binding_of mac hex_mac browser token')) t
        (λ r e k. bound-closed (binding_of mac hex_mac browser token') token r k) h
  after_deed-closed token (redeems now browser token') t o h =
      All-change_where (λ r. is_open token r ≡ false)
        (is_spendable now token' (binding_of mac hex_mac browser token')) (spent_at now) t
        (λ r e k. spent-closed now token r) h
  after_deed-closed token (prunes now keep_for) t o h =
      All-keep (λ r. is_open token r ≡ false) (λ r. not (ltb (r.expires_at + keep_for) now)) t h

  after_deeds-closed :
      (token : Text) (deeds : List Deed) (t : List IdentityVerification)
      → All (IssuesOthers token) deeds
      → AreClosed token t
      → AreClosed token (after_deeds mac hex_mac deeds t)
  unfolding after_deeds
  after_deeds-closed token [] t o h = h
  after_deeds-closed token (d ∷ rest) t o h =
      after_deeds-closed token rest (after_deed mac hex_mac d t) o.1
        (after_deed-closed token d t o.0 h)

  closed-of_other :
      (token : Text) (t : List IdentityVerification)
      → All (λ q. has_state token q ≡ false) t
      → AreClosed token t
  closed-of_other token t h =
      All-imp (λ q. has_state token q ≡ false) (λ q. is_open token q ≡ false) t (λ q e. rw e refl) h

  consume-closed :
      (now : ℕ) (token binding : Text) (t : List IdentityVerification) (r : IdentityVerification)
      → AreUnique t
      → first_where (is_spendable now token binding) t ≡ some r
      → AreClosed token (change_where (is_spendable now token binding) (spent_at now) t)
  unfolding change_where first_where
  consume-closed now token binding [] r u e = cc
  consume-closed now token binding (q ∷ t) r u e =
      let p = is_spendable now token binding in
      elim (Bool-cases (is_spendable now token binding q)) [
        | inl f ↦
            let others = other_state token q t (spendable-state now token binding q f) u.0 in
            rw (change_where, f)
              (
                spent-closed now token q,
                closed-of_other token (change_where p (spent_at now) t)
                    (All-state token p (spent_at now) t (spent_at-state now) others),
              )
        | inr f ↦
            let e' = first_where-In p t r (rw (first_where, f) at e) in
            let (m, g) = e' in
            let theirs = spendable-state now token binding r g in
            let apart = All-at (λ x. has_state q.state x ≡ false) m u.0 in
            rw (change_where, f)
              (
                not_open token q r theirs apart,
                consume-closed now token binding t r u.1 (rw (first_where, f) at e),
              )
      ]

  after_spending-links :
      (d : GithubDay) (o : Option SpentLink) (w : Accounts)
      → (after_spending d o w).0.verifications ≡ w.verifications
  unfolding after_spending
  after_spending-links d none w = refl
  after_spending-links d (some spent) w = elim (Option-cases (still_holds_the_tier d spent)) [
    | inl e ↦ rw (after_spending, e) (finish_with-links d spent d.account w)
    | inr (refusal, e) ↦ rw (after_spending, e) refl
  ]

  redeem_opened-closed :
      (d : GithubDay) (browser token : Text) (w : Accounts) (v : Verified)
      → AreUnique w.verifications
      → (redeem_opened mac hex_mac d browser (some token) w).1 ≡ goes_on v
      → AreClosed token (redeem_opened mac hex_mac d browser (some token) w).0.verifications
  unfolding redeem_opened consume
  redeem_opened-closed d browser token w v u e =
      let p = is_spendable d.spent_at token (binding_of mac hex_mac browser token) in
      let t' = change_where p (spent_at d.spent_at) w.verifications in
      let o = spent_link (first_where p w.verifications) in
      let (spent, f, who) = after_spending-who mac hex_mac d o _ v e in
      let (r, g, same) = spent_link-some mac hex_mac (first_where p w.verifications) spent f in
      subst (AreClosed token) (sym (after_spending-links d o (record w { verifications = t' }))) (
        consume-closed d.spent_at token (binding_of mac hex_mac browser token) w.verifications r u
          g)

  redeem_opened-again :
      (d : GithubDay) (browser token : Text) (w : Accounts)
      → AreClosed token w.verifications
      → redeem_opened mac hex_mac d browser (some token) w ≡ (w, refused unfollowable)
  unfolding redeem_opened consume spent_link after_spending
  redeem_opened-again d browser token w h =
      let binding = binding_of mac hex_mac browser token in
      let p = is_spendable d.spent_at token binding in
      let none_pass : All (λ q. p q ≡ false) w.verifications =
        All-imp (λ q. is_open token q ≡ false) (λ q. p q ≡ false) w.verifications
          (λ q e. spendable-open d.spent_at token binding q e) h in
      rw
        (
          redeem_opened,
          first_where-none p w.verifications none_pass,
          change_where-none p (spent_at d.spent_at) w.verifications none_pass,
        )
        refl

  -- Whatever was done to the links from none on: once a link was finished, and until a link with its
  -- state is issued, no browser finishes it again, and the attempt changes nothing.
  pub redeem-once :
      (before since : List Deed) (d d' : GithubDay) (seal seal' browser browser' token : Text)
      (w w' : Accounts) (v : Verified)
      → w.verifications ≡ after_deeds mac hex_mac before []
      → unsealed mac hex_mac browser at_github seal ≡ some token
      → unsealed mac hex_mac browser' at_github seal' ≡ some token
      → (redeem mac hex_mac d seal browser w).1 ≡ goes_on v
      → All (IssuesOthers token) since
      → w'.verifications
        ≡ after_deeds mac hex_mac since (redeem mac hex_mac d seal browser w).0.verifications
      → redeem mac hex_mac d' seal' browser' w' ≡ (w', refused unfollowable)
  unfolding redeem
  redeem-once before since d d' seal seal' browser browser' token w w' v reached o o' e others
        then_at =
      let unique : AreUnique w.verifications =
        subst AreUnique (sym reached) (after_deeds-AreUnique mac hex_mac before [] tt) in
      let shut = redeem_opened-closed d browser token w v unique (
        subst (λ (x : Option Text). (redeem_opened mac hex_mac d browser x w).1 ≡ goes_on v) o e) in
      let still : AreClosed token w'.verifications = subst (AreClosed token) (sym then_at) (
        after_deeds-closed token since (redeem mac hex_mac d seal browser w).0.verifications others
          (subst
            (λ (x : Option Text).
              AreClosed token (redeem_opened mac hex_mac d browser x w).0.verifications)
            (sym o) shut)) in
      subst
        (λ (x : Option Text).
          redeem_opened mac hex_mac d' browser' x w' ≡ (w', refused unfollowable))
        (sym o') (redeem_opened-again d' browser' token w' still)
