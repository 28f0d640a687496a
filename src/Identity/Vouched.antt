-- ===== src/Identity/Vouched.antt =====
-- Who can finish a link: a browser whose HMAC of it is that of one in which Discord named its member.
use shannon_bot.Base.{
  All, All-at, All-change_where, All-imp, All-keep, Bool-cases, In, List, Option, Option-cases, [],
  any, ap, arith, at_head, false, first_where, first_where-In, in_tail, inl, inr, ltb, none, not,
  refl, some, subst, sym, true, ℕ, ◌++◌, ◌+◌, ◌∙◌, ◌∷◌, ◌≡◌, ◌⊎◌,
}
use shannon_bot.Domain.Board.{between, steps}
use shannon_bot.Domain.Text.{Text, text_eq, text_eq_iff}
use shannon_bot.Identity.Deeds.{
  Deed, Done, after_deed, asked_discord, binds, issued, issues, naming, nothing_done,
  prove_on_discord-IsDeed, pruned, prunes, redeemed, redeems,
}
use shannon_bot.Identity.OneTime.{
  IdentityVerification, SpentLink, bound_to, consume, has_state, is_bindable, is_bound_to,
  is_pending, is_spendable, spent_at, spent_link,
}
use shannon_bot.Identity.RoundTrip.{
  Accounts, DiscordDay, GithubDay, Reply, Verified, after_spending, finish_with, goes_on,
  prove_on_discord, redeem, redeem_opened, refused, still_holds_the_tier, verified,
}
use shannon_bot.Identity.Seals.{at_discord, at_github, binding_of, unsealed}
use shannon_bot.People.Notifier.{spent}

module _ (mac hex_mac : Text → Text → Text) (vouches : List (Text × Text × ℕ)) where
  -- A row's browser, if any, has been vouched for.
  abbrev IsVouched : IdentityVerification → Type 0
  IsVouched r =
      (r.bound_browser ≡ none)
      ⊎ ((browser : Text) × In (browser, r.state, r.discord_user_id) vouches
          × (r.bound_browser ≡ some (binding_of mac hex_mac browser r.state)))

  abbrev IsCovered : Deed → Type 0
  IsCovered (issues now i) = Unit {0}
  IsCovered (binds now browser token member) = In (browser, token, member) vouches
  IsCovered (redeems now browser token) = Unit {0}
  IsCovered (prunes now keep_for) = Unit {0}

  bound_row :
      (now : ℕ) (browser token : Text) (member : ℕ) (r : IdentityVerification)
      → In (browser, token, member) vouches
      → is_bindable now token member r ≡ true
      → IsVouched (bound_to (binding_of mac hex_mac browser token) r)
  unfolding is_bindable is_pending has_state bound_to
  bound_row now browser token member r m e =
      let same : r.state ≡ token = (text_eq_iff r.state token).0 (ground arith) in
      let who : r.discord_user_id ≡ member = ground arith in
      inr (
        browser,
        subst (λ (x : Text). In (browser, x, r.discord_user_id) vouches) (sym same)
            (subst (λ (n : ℕ). In (browser, token, n) vouches) (sym who) m),
        ap (λ (x : Text). some (binding_of mac hex_mac browser x)) (sym same),
      )

  spent_row : (now : ℕ) (r : IdentityVerification) → IsVouched r → IsVouched (spent_at now r)
  unfolding spent_at
  spent_row now r h = h

  after_deed-IsVouched :
      (d : Deed) (t : List IdentityVerification)
      → IsCovered d
      → All IsVouched t
      → All IsVouched (after_deed mac hex_mac d t)
  unfolding after_deed
  after_deed-IsVouched (issues now i) t c h = elim (Bool-cases (any (has_state i.state) t)) [
    | inl e ↦ rw (after_deed, e) h
    | inr e ↦ rw (after_deed, e) (inl refl, h)
  ]
  after_deed-IsVouched (binds now browser token member) t c h =
      All-change_where IsVouched (is_bindable now token member)
        (bound_to (binding_of mac hex_mac browser token)) t
        (λ r e k. bound_row now browser token member r c e) h
  after_deed-IsVouched (redeems now browser token) t c h =
      All-change_where IsVouched (is_spendable now token (binding_of mac hex_mac browser token))
        (spent_at now) t (λ r e k. spent_row now r k) h
  after_deed-IsVouched (prunes now keep_for) t c h =
      All-keep IsVouched (λ r. not (ltb (r.expires_at + keep_for) now)) t h

module _ (mac hex_mac : Text → Text → Text) where
  -- A browser whose HMAC of the link is this one's, as its own is, was named the member in.
  abbrev pub IsNamedIn : List (Text × Text × ℕ) → Text → Text → ℕ → Type 0
  IsNamedIn vouches browser token member =
      (b : Text) × In (b, token, member) vouches
      × (binding_of mac hex_mac b token ≡ binding_of mac hex_mac browser token)

  spender :
      (vouches : List (Text × Text × ℕ)) (now : ℕ) (browser token : Text) (r : IdentityVerification)
      → IsVouched mac hex_mac vouches r
      → is_spendable now token (binding_of mac hex_mac browser token) r ≡ true
      → IsNamedIn vouches browser token r.discord_user_id
  unfolding is_spendable is_pending has_state is_bound_to
  spender vouches now browser token r h e =
      let same : r.state ≡ token = (text_eq_iff r.state token).0 (ground arith) in
      let bound : is_bound_to (binding_of mac hex_mac browser token) r.bound_browser ≡ true =
        ground arith in
      elim h [
        | inl nobody ↦ let out : false ≡ true = rw nobody at bound in cc
        | inr (b, m, f) ↦
            let tied : text_eq (binding_of mac hex_mac b r.state)
                  (binding_of mac hex_mac browser token)
                ≡ true =
              rw f at bound in
            (
              b,
              subst (λ (x : Text). In (b, x, r.discord_user_id) vouches) same m,
              ap (λ (x : Text). binding_of mac hex_mac b x) (sym same)
                  ∙ (text_eq_iff (binding_of mac hex_mac b r.state)
                        (binding_of mac hex_mac browser token)).0
                      tied,
            )
      ]

  pub spent_link-some :
      (o : Option IdentityVerification) (spent : SpentLink)
      → spent_link o ≡ some spent
      → (r : IdentityVerification) × (o ≡ some r) × (spent.discord_user_id ≡ r.discord_user_id)
  unfolding spent_link
  spent_link-some none spent e = cc
  spent_link-some (some r) spent e = (r, refl, ground arith)

  finish_with-who :
      (d : GithubDay) (spent : SpentLink) (o : Option (Text × ℕ)) (w : Accounts) (v : Verified)
      → (finish_with d spent o w).1 ≡ goes_on v
      → v.discord_user_id ≡ spent.discord_user_id
  unfolding finish_with verified
  finish_with-who d spent none w v e = cc
  finish_with-who d spent (some (login, account)) w v e = ground arith

  pub after_spending-who :
      (d : GithubDay) (o : Option SpentLink) (w : Accounts) (v : Verified)
      → (after_spending d o w).1 ≡ goes_on v
      → (spent : SpentLink) × (o ≡ some spent) × (v.discord_user_id ≡ spent.discord_user_id)
  unfolding after_spending
  after_spending-who d none w v e = cc
  after_spending-who d (some spent) w v e = elim (Option-cases (still_holds_the_tier d spent)) [
    | inl f ↦ (spent, refl, finish_with-who d spent d.account w v (rw (after_spending, f) at e))
    | inr (refusal, f) ↦
        let out : ◌≡◌ {A = Reply Verified} (refused refusal) (goes_on v) =
          rw (after_spending, f) at e in
        cc
  ]

  redeem_opened-vouched :
      (named : List (Text × Text × ℕ)) (d : GithubDay) (browser : Text) (found : Option Text)
      (w : Accounts) (v : Verified)
      → All (IsVouched mac hex_mac named) w.verifications
      → (redeem_opened mac hex_mac d browser found w).1 ≡ goes_on v
      → (token : Text) × (found ≡ some token) × IsNamedIn named browser token v.discord_user_id
  unfolding redeem_opened consume
  redeem_opened-vouched named d browser none w v rows e = cc
  redeem_opened-vouched named d browser (some token) w v rows e =
      let p = is_spendable d.spent_at token (binding_of mac hex_mac browser token) in
      let (spent, f, who) =
        after_spending-who d (spent_link (first_where p w.verifications)) _ v e in
      let (r, g, same) = spent_link-some (first_where p w.verifications) spent f in
      let (m, k) = first_where-In p w.verifications r g in
      let named_in =
        spender named d.spent_at browser token r (All-at (IsVouched mac hex_mac named) m rows) k in
      (token, refl, subst (λ (n : ℕ). IsNamedIn named browser token n) (sym (who ∙ same)) named_in)

  IsVouched-more :
      (more named : List (Text × Text × ℕ)) (r : IdentityVerification)
      → IsVouched mac hex_mac named r
      → IsVouched mac hex_mac (more ++ named) r
  IsVouched-more [] named r h = h
  IsVouched-more (v ∷ more) named r h = elim (IsVouched-more more named r h) [
    | inl nobody ↦ inl nobody
    | inr (b, m, f) ↦ inr (b, in_tail m, f)
  ]

  All-IsVouched-more :
      (more named : List (Text × Text × ℕ)) (t : List IdentityVerification)
      → All (IsVouched mac hex_mac named) t
      → All (IsVouched mac hex_mac (more ++ named)) t
  All-IsVouched-more more named t =
      All-imp (IsVouched mac hex_mac named) (IsVouched mac hex_mac (more ++ named)) t
        (IsVouched-more more named)

  naming-In :
      (d : DiscordDay) (seal browser token : Text) (member : ℕ) (named : List (Text × Text × ℕ))
      → unsealed mac hex_mac browser at_discord seal ≡ some token
      → d.member ≡ some member
      → In (browser, token, member) (naming mac hex_mac d seal browser ++ named)
  unfolding naming
  naming-In d seal browser token member named e f = rw (naming, e, f) at_head

  proof-IsVouched :
      (d : DiscordDay) (seal browser : Text) (named : List (Text × Text × ℕ))
      (t : List IdentityVerification)
      → All (IsVouched mac hex_mac (naming mac hex_mac d seal browser ++ named)) t
      → All (IsVouched mac hex_mac (naming mac hex_mac d seal browser ++ named)) (d.meddling t)
      → All
          (IsVouched mac hex_mac (naming mac hex_mac d seal browser ++ named))
          (prove_on_discord mac hex_mac d seal browser t).0
  proof-IsVouched d seal browser named t h k =
      let all_named = naming mac hex_mac d seal browser ++ named in
      elim (prove_on_discord-IsDeed mac hex_mac d seal browser t) [
        | inl (inl e) ↦ subst (All (IsVouched mac hex_mac all_named)) (sym e) h
        | inl (inr e) ↦ subst (All (IsVouched mac hex_mac all_named)) (sym e) k
        | inr (token, member, f, g, e) ↦ subst (All (IsVouched mac hex_mac all_named)) (sym e) (
            after_deed-IsVouched mac hex_mac all_named (binds d.written_at browser token member)
              (d.meddling t) (naming-In d seal browser token member named f g) k)
      ]

  -- Who was named stays named.
  Done-more :
      {n n' : List (Text × Text × ℕ)} {s t : List IdentityVerification} (r : IdentityVerification)
      → Done mac hex_mac n s n' t
      → IsVouched mac hex_mac n r
      → IsVouched mac hex_mac n' r
  Done-more r (nothing_done named t) h = h
  Done-more r (issued steps now i) h = Done-more r steps h
  Done-more r (redeemed steps now browser token) h = Done-more r steps h
  Done-more r (pruned steps now keep_for) h = Done-more r steps h
  Done-more r (asked_discord {n''} steps d seal browser between) h =
      IsVouched-more (naming mac hex_mac d seal browser) n'' r
        (Done-more r between (Done-more r steps h))

  Done-IsVouched :
      {n n' : List (Text × Text × ℕ)} {s t : List IdentityVerification}
      → Done mac hex_mac n s n' t
      → All (IsVouched mac hex_mac n) s
      → All (IsVouched mac hex_mac n') t
  Done-IsVouched (nothing_done named t) h = h
  Done-IsVouched (issued {n'} {t} steps now i) h =
      after_deed-IsVouched mac hex_mac n' (issues now i) t tt (Done-IsVouched steps h)
  Done-IsVouched (redeemed {n'} {t} steps now browser token) h =
      after_deed-IsVouched mac hex_mac n' (redeems now browser token) t tt (Done-IsVouched steps h)
  Done-IsVouched (pruned {n'} {t} steps now keep_for) h =
      after_deed-IsVouched mac hex_mac n' (prunes now keep_for) t tt (Done-IsVouched steps h)
  Done-IsVouched (asked_discord {n'} {n''} {t} steps d seal browser between) h =
      let named = naming mac hex_mac d seal browser in
      let first = Done-IsVouched steps h in
      proof-IsVouched d seal browser n'' t
        (All-imp (IsVouched mac hex_mac n') (IsVouched mac hex_mac (named ++ n'')) t
          (λ r k. IsVouched-more named n'' r (Done-more r between k)) first)
        (All-IsVouched-more named n'' (d.meddling t) (Done-IsVouched between first))

  -- Whatever was done to the links from none on, with other transactions between the read and the
  -- write of a round through Discord: if a browser finishes a link for a member, then Discord answered
  -- with that member, in a round that opened a seal of that link, to a browser whose HMAC of the link
  -- is this one's.
  pub redeem-vouched :
      {named : List (Text × Text × ℕ)} {t : List IdentityVerification} (d : GithubDay)
      (seal browser : Text) (w : Accounts) (v : Verified)
      → Done mac hex_mac [] [] named t
      → w.verifications ≡ t
      → (redeem mac hex_mac d seal browser w).1 ≡ goes_on v
      → (token : Text) × (unsealed mac hex_mac browser at_github seal ≡ some token)
        × IsNamedIn named browser token v.discord_user_id
  unfolding redeem
  redeem-vouched {named} {t} d seal browser w v steps same e =
      redeem_opened-vouched named d browser (unsealed mac hex_mac browser at_github seal) w v
        (subst (All (IsVouched mac hex_mac named)) (sym same) (Done-IsVouched steps tt)) e
