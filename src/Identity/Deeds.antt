-- ===== src/Identity/Deeds.antt =====
-- Everything that is done to the one-time links of shannon/db/stores/identities.py, one transaction
-- after another, whoever does it.
use shannon_bot.Base.{
  Bool, Bool-cases, List, Option, Option-cases, [], false, inl, inr, none, refl, some, true, ℕ,
  ◌++◌, ◌==◌, ◌∷◌, ◌≡◌, ◌⊎◌,
}
use shannon_bot.Domain.Text.{Text}
use shannon_bot.Identity.OneTime.{
  IdentityVerification, Issue, PendingLink, bind, consume, issue, pending, prune_links,
}
use shannon_bot.Identity.RoundTrip.{
  DiscordDay, bound_or, prove_member, prove_on_discord, prove_opened,
}
use shannon_bot.Identity.Seals.{at_discord, at_github, binding_of, sealed, unsealed}
use shannon_bot.Links.Store.{link}

pub data Deed : Type 0 where
  issues : ℕ → Issue → Deed
  -- A browser in which Discord has named a member.
  binds : ℕ → Text → Text → ℕ → Deed
  redeems : ℕ → Text → Text → Deed
  prunes : ℕ → ℕ → Deed

unfoldable pub or_as_it_was :
    Option (List IdentityVerification) → List IdentityVerification → List IdentityVerification
or_as_it_was none t = t
or_as_it_was (some t') t = t'

module _ (mac hex_mac : Text → Text → Text) where
  unfoldable pub after_deed : Deed → List IdentityVerification → List IdentityVerification
  unfolding issue or_as_it_was bind binding_of consume prune_links
  after_deed (issues now i) t = or_as_it_was (issue now i t) t
  after_deed (binds now browser token member) t =
      (bind now token member (binding_of mac hex_mac browser token) t).0
  after_deed (redeems now browser token) t =
      (consume now token (binding_of mac hex_mac browser token) t).0
  after_deed (prunes now keep_for) t = prune_links now keep_for t

  unfoldable pub after_deeds : List Deed → List IdentityVerification → List IdentityVerification
  unfolding after_deed
  after_deeds [] t = t
  after_deeds (d ∷ rest) t = after_deeds rest (after_deed d t)

  bound_or-table :
      (browser token : Text) (link : PendingLink) (p : List IdentityVerification × Bool)
      → (bound_or mac hex_mac browser token link p).0 ≡ p.0
  unfolding bound_or
  bound_or-table browser token link (t, false) = refl
  bound_or-table browser token link (t, true) =
      elim (Option-cases (sealed mac hex_mac browser at_github token)) [
        | inl e ↦ rw (bound_or, e) refl
        | inr (seal, e) ↦ rw (bound_or, e) refl
      ]

  abbrev pub IsDeed :
      DiscordDay
      → Text
      → Option Text
      → List IdentityVerification
      → List IdentityVerification
      → Type 0
  IsDeed d browser found t t' =
      ((t' ≡ t) ⊎ (t' ≡ d.meddling t))
      ⊎ ((token : Text) × (member : ℕ) × (found ≡ some token)
          × (d.member ≡ some member)
          × (t' ≡ after_deed (binds d.written_at browser token member) (d.meddling t)))

  prove_member-IsDeed :
      (d : DiscordDay) (browser token : Text) (link : PendingLink) (o : Option ℕ)
      (t : List IdentityVerification)
      → d.member ≡ o
      → IsDeed d browser (some token) t (prove_member mac hex_mac d browser token link o t).0
  unfolding prove_member after_deed
  prove_member-IsDeed d browser token link none t e = inl (inr refl)
  prove_member-IsDeed d browser token link (some member) t e =
      elim (Bool-cases (member == link.discord_user_id)) [
        | inr f ↦ inl (inr (rw (prove_member, f) refl))
        | inl f ↦ inr (
          token,
          member,
          refl,
          e,
          rw (prove_member, f)
              (bound_or-table browser token link (
                bind d.written_at token member (binding_of mac hex_mac browser token)
                  (d.meddling t))),
        )
      ]

  prove_opened-IsDeed :
      (d : DiscordDay) (browser : Text) (found : Option Text) (t : List IdentityVerification)
      → IsDeed d browser found t (prove_opened mac hex_mac d browser found t).0
  unfolding prove_opened
  prove_opened-IsDeed d browser none t = inl (inl refl)
  prove_opened-IsDeed d browser (some token) t = elim (Option-cases (pending d.read_at token t)) [
    | inl e ↦ rw (prove_opened, e) (inl (inl refl))
    | inr (link, e) ↦
        rw (prove_opened, e) (prove_member-IsDeed d browser token link d.member t refl)
  ]

  -- What the Discord half does to the links: nothing of its own, or the bind of a browser in which
  -- Discord has named a member, to the link whose seal that browser opens.
  pub prove_on_discord-IsDeed :
      (d : DiscordDay) (seal browser : Text) (t : List IdentityVerification)
      → IsDeed d browser
          (unsealed mac hex_mac browser at_discord seal)
          t
          (prove_on_discord mac hex_mac d seal browser t).0
  unfolding prove_on_discord
  prove_on_discord-IsDeed d seal browser t =
      prove_opened-IsDeed d browser (unsealed mac hex_mac browser at_discord seal) t

  -- Whom Discord named in a round: the browser, the link whose seal it opened, and the member.
  unfoldable pub naming : DiscordDay → Text → Text → List (Text × Text × ℕ)
  unfolding unsealed
  naming d seal browser = elim (unsealed mac hex_mac browser at_discord seal) [
    | none ↦ []
    | some token ↦ elim d.member [ none ↦ [] | some member ↦ (browser, token, member) ∷ [] ]
  ]

  -- What is done to the links, from a table and those whom Discord has named to a later table and
  -- those named by then. In a round through Discord others may do anything between its read and its
  -- write.
  pub data Done
      : List (Text × Text × ℕ)
        → List IdentityVerification
        → List (Text × Text × ℕ)
        → List IdentityVerification
        → Type 0 where
    nothing_done :
        (named : List (Text × Text × ℕ)) (t : List IdentityVerification) → Done named t named t
    issued :
        {n n' : List (Text × Text × ℕ)} {s t : List IdentityVerification}
        → Done n s n' t
        → (now : ℕ) (i : Issue) → Done n s n' (after_deed (issues now i) t)
    redeemed :
        {n n' : List (Text × Text × ℕ)} {s t : List IdentityVerification}
        → Done n s n' t
        → (now : ℕ) (browser token : Text) → Done n s n' (after_deed (redeems now browser token) t)
    pruned :
        {n n' : List (Text × Text × ℕ)} {s t : List IdentityVerification}
        → Done n s n' t
        → (now keep_for : ℕ) → Done n s n' (after_deed (prunes now keep_for) t)
    asked_discord :
        {n n' n'' : List (Text × Text × ℕ)} {s t : List IdentityVerification}
        → Done n s n' t
        → (d : DiscordDay) (seal browser : Text) → Done n' t n'' (d.meddling t)
        → Done n s (naming d seal browser ++ n'') (prove_on_discord mac hex_mac d seal browser t).0
