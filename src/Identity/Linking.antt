-- ===== src/Identity/Linking.antt =====
-- A `/link` from the command to the links of the server: shannon/services/verification.py,
-- shannon/services/linking.py and the two stores together.
use shannon_bot.Base.{
  ==_iff, All, Bool-cases, List, Option, [], any, any-none, ap, false, inl, inr, none, refl, some,
  true, ℕ, ◌+◌, ◌<◌, ◌∙◌, ◌∷◌, ◌≡◌,
}
use shannon_bot.Domain.Text.{Text, lower, strip}
use shannon_bot.Identity.Finished.{bind-head, consume-head, fresh-pending, pending-head}
use shannon_bot.Identity.OneTime.{
  IdentityVerification, Issue, PendingLink, SpentLink, VerificationPurpose, bind, board_of,
  bound_to, consume, fresh_link, has_state, is_pending, issue, pending_link, spent_at, spent_link,
  tier_of, to_link,
}
use shannon_bot.Identity.Proofs.{
  VerifiedIdentity, is_identity_of, is_recent, proved, remember, remember_proof,
}
use shannon_bot.Identity.RoundTrip.{
  Accounts, DiscordDay, GithubDay, Reply, Verified, after_spending, bind_account, bound_or,
  bound_username, ever_proved, finish_with, goes_on, is_boarding, link_for, link_lifetime, no_board,
  prove_member, prove_on_discord, prove_opened, redeem, redeem_opened, sealed_or, start,
  still_holds_the_tier, verified, with_proof,
}
use shannon_bot.Identity.Sealed.{seal_of, sealed-eq, unsealed-seal_of}
use shannon_bot.Identity.Seals.{
  all_url_safe, at_discord, at_github, binding_of, has_shape, leg_message, leg_name,
}
use shannon_bot.Links.Pairs.{IsOneToOne}
use shannon_bot.Links.Resolved.{link-account_for}
use shannon_bot.Links.Store.{account_for}
use shannon_bot.People.Notifier.{spent}

proved-remember :
    (p : VerifiedIdentity) (t : List VerifiedIdentity)
    → proved p.discord_guild_id p.discord_user_id none (remember_proof p t) ≡ some p
unfolding proved remember_proof is_identity_of is_recent
proved-remember p [] =
    let a = (==_iff p.discord_guild_id p.discord_guild_id).1 refl in
    let b = (==_iff p.discord_user_id p.discord_user_id).1 refl in rw (a, b) refl
proved-remember p (r ∷ t) =
    let a = (==_iff p.discord_guild_id p.discord_guild_id).1 refl in
    let b = (==_iff p.discord_user_id p.discord_user_id).1 refl in
    elim (Bool-cases (is_identity_of p.discord_guild_id p.discord_user_id r)) [
      | inl e ↦ rw (remember_proof, e, a, b) refl
      | inr e ↦ rw (remember_proof, e, proved, e) (proved-remember p t)
    ]

abbrev link_of : IdentityVerification → PendingLink
link_of r = record {
  guild_id = r.discord_guild_id;
  discord_user_id = r.discord_user_id;
  purpose = r.purpose;
}

abbrev spent_of : IdentityVerification → SpentLink
spent_of r = record {
  guild_id = r.discord_guild_id;
  discord_user_id = r.discord_user_id;
  purpose = r.purpose;
  board = board_of r.board_number r.board_owner;
  tier = tier_of r.tier;
  chosen_under = r.board_chosen_under;
}

spent_link-of : (r : IdentityVerification) → spent_link (some r) ≡ some (spent_of r)
unfolding spent_link
spent_link-of r = refl

after_linking :
    (d : GithubDay) (spent : SpentLink) (login : Text) (account : ℕ) (w : Accounts)
    → spent.purpose ≡ to_link
    → d.account ≡ some (login, account)
    → after_spending d (some spent) w
      ≡ (with_proof d spent login account w, goes_on (verified d spent login account no_board))
unfolding after_spending still_holds_the_tier finish_with is_boarding
after_linking d spent login account w purpose e =
    let no_tier : is_boarding spent.purpose ≡ false = rw purpose refl in
    rw (after_spending, still_holds_the_tier, no_tier, e, finish_with, no_tier) refl

linked_account :
    (d : GithubDay) (spent : SpentLink) (login : Text) (account : ℕ) (w : Accounts)
    → spent.purpose ≡ to_link
    → IsOneToOne w.user_links
    → account_for spent.guild_id spent.discord_user_id
        (with_proof d spent login account w).user_links
      ≡ some (lower (bound_username login), some account)
unfolding with_proof bind_account
linked_account d spent login account w purpose h =
    rw (with_proof, purpose)
      (link-account_for spent.guild_id (bound_username login) (some account) spent.discord_user_id
        w.user_links h)

proved_account :
    (d : GithubDay) (spent : SpentLink) (login : Text) (account : ℕ) (w : Accounts)
    → ever_proved spent.guild_id spent.discord_user_id (with_proof d spent login account w)
      ≡ some (record {
        discord_guild_id = spent.guild_id;
        discord_user_id = spent.discord_user_id;
        github_login = strip login;
        github_user_id = account;
        verified_at = d.proved_at;
      })
unfolding with_proof remember ever_proved
proved_account d spent login account w =
    proved-remember
      (record {
        discord_guild_id = spent.guild_id;
        discord_user_id = spent.discord_user_id;
        github_login = strip login;
        github_user_id = account;
        verified_at = d.proved_at;
      })
      w.identities

link_for-fresh :
    (now : ℕ) (i : Issue) (w : Accounts)
    → any (has_state i.state) w.verifications ≡ false
    → link_for now i w
      ≡ some (record w {
        verifications = fresh_link now (record i { lifetime = link_lifetime }) ∷ w.verifications;
      })
unfolding link_for issue
link_for-fresh now i w e = rw (link_for, issue, e) refl

module _ (mac hex_mac : Text → Text → Text) where
  start-head :
      (now : ℕ) (token browser : Text) (r : IdentityVerification) (t : List IdentityVerification)
      → has_shape token ≡ true
      → has_shape browser ≡ true
      → is_pending now token r ≡ true
      → start mac hex_mac now token browser (r ∷ t)
        ≡ goes_on (seal_of mac hex_mac browser at_discord token)
  unfolding start pending_link sealed_or
  start-head now token browser r t a b e =
      rw (start, a, pending-head now token r t e, sealed-eq mac hex_mac browser token at_discord b)
        refl

  bound-head :
      (browser token : Text) (l : PendingLink) (t : List IdentityVerification)
      → has_shape browser ≡ true
      → bound_or mac hex_mac browser token l (t, true)
        ≡ (t, goes_on (seal_of mac hex_mac browser at_github token, l.purpose))
  unfolding bound_or
  bound-head browser token l t b =
      rw (bound_or, sealed-eq mac hex_mac browser token at_github b) refl

  prove-head :
      (d : DiscordDay) (token browser : Text) (r : IdentityVerification)
      (t : List IdentityVerification)
      → has_shape token ≡ true
      → has_shape browser ≡ true
      → all_url_safe (mac browser (leg_message (leg_name at_discord) token)) ≡ true
      → is_pending d.read_at token r ≡ true
      → is_pending d.written_at token r ≡ true
      → All (λ q. has_state token q ≡ false) t
      → d.member ≡ some r.discord_user_id
      → d.meddling (r ∷ t) ≡ r ∷ t
      → prove_on_discord mac hex_mac d
          (seal_of mac hex_mac browser at_discord token)
          browser
          (r ∷ t)
        ≡ (
          bound_to (binding_of mac hex_mac browser token) r ∷ t,
          goes_on (seal_of mac hex_mac browser at_github token, r.purpose),
        )
  unfolding prove_on_discord prove_opened prove_member bound_or pending_link
  prove-head d token browser r t a b safe e e' h named calm =
      let own = (==_iff r.discord_user_id r.discord_user_id).1 refl in
      rw
        (
          unsealed-seal_of mac hex_mac browser token at_discord b a safe,
          prove_opened,
          pending-head d.read_at token r t e,
          named,
          prove_member,
          own,
        )
        (ap
            (λ (l : List IdentityVerification).
              bound_or mac hex_mac browser token (link_of r) (
                bind d.written_at token r.discord_user_id (binding_of mac hex_mac browser token) l))
            calm
          ∙ ap (bound_or mac hex_mac browser token (link_of r))
              (bind-head d.written_at token (binding_of mac hex_mac browser token) r t e' h)
          ∙ bound-head browser token (link_of r)
              (bound_to (binding_of mac hex_mac browser token) r ∷ t) b)

  redeem-head :
      (d : GithubDay) (token browser : Text) (r : IdentityVerification)
      (t : List IdentityVerification) (w : Accounts)
      → has_shape token ≡ true
      → has_shape browser ≡ true
      → all_url_safe (mac browser (leg_message (leg_name at_github) token)) ≡ true
      → is_pending d.spent_at token r ≡ true
      → All (λ q. has_state token q ≡ false) t
      → w.verifications ≡ bound_to (binding_of mac hex_mac browser token) r ∷ t
      → redeem mac hex_mac d (seal_of mac hex_mac browser at_github token) browser w
        ≡ after_spending d (spent_link (some r)) (record w {
          verifications =
              spent_at d.spent_at (bound_to (binding_of mac hex_mac browser token) r) ∷ t;
        })
  unfolding redeem redeem_opened
  redeem-head d token browser r t w a b safe e h bound =
      rw (unsealed-seal_of mac hex_mac browser token at_github b a safe) (
        ap
          (λ (l : List IdentityVerification).
            let p = consume d.spent_at token (binding_of mac hex_mac browser token) l in
            after_spending d p.1 (record w { verifications = p.0 }))
          bound
        ∙ ap
            (λ (p : List IdentityVerification × Option SpentLink).
              after_spending d p.1 (record w { verifications = p.0 }))
            (consume-head d.spent_at token (binding_of mac hex_mac browser token) r t e h))

  -- For a link of `/link` with a new state, and a browser with a cookie of the right shape, where the
  -- HMAC is written in the URL's alphabet and the links pair one to one: if within ten minutes the
  -- browser opens it, Discord names the member it was issued for while nobody else touches the links,
  -- and GitHub names an account, then every step goes on, the member's link in that server is that
  -- account's login and id, and the proof is the account's.
  pub link_for-finishes :
      (now at : ℕ) (i : Issue) (w : Accounts) (d : DiscordDay) (g : GithubDay)
      (browser login : Text) (account : ℕ)
      → ((key message : Text) → all_url_safe (mac key message) ≡ true)
      → i.purpose ≡ to_link
      → has_shape i.state ≡ true
      → has_shape browser ≡ true
      → any (has_state i.state) w.verifications ≡ false
      → IsOneToOne w.user_links
      → at < now + link_lifetime
      → d.read_at < now + link_lifetime
      → d.written_at < now + link_lifetime
      → g.spent_at < now + link_lifetime
      → d.member ≡ some i.discord_user_id
      → ((t : List IdentityVerification) → d.meddling t ≡ t)
      → g.account ≡ some (login, account)
      → (w' : Accounts) × (seal : Text) × (seal' : Text) × (v : Verified) × (link_for now i w
          ≡ some w')
        × (start mac hex_mac at i.state browser w'.verifications ≡ goes_on seal)
        × ((prove_on_discord mac hex_mac d seal browser w'.verifications).1
            ≡ goes_on (seal', to_link))
        × (let finished = redeem mac hex_mac g seal' browser (record w' {
          verifications = (prove_on_discord mac hex_mac d seal browser w'.verifications).0;
        }) in
            (finished.1 ≡ goes_on v)
            × (account_for i.guild_id i.discord_user_id finished.0.user_links
                ≡ some (lower (bound_username login), some account))
            × (ever_proved i.guild_id i.discord_user_id finished.0
                ≡ some (record {
                  discord_guild_id = i.guild_id;
                  discord_user_id = i.discord_user_id;
                  github_login = strip login;
                  github_user_id = account;
                  verified_at = g.proved_at;
                })))
  unfolding fresh_link
  link_for-finishes now at i w d g browser login account safe purpose a b new paired h0 h1 h2 h3
        named calm acc =
      let i' : Issue = record i { lifetime = link_lifetime } in
      let r = fresh_link now i' in
      let t = w.verifications in
      let others = any-none (has_state i.state) t new in
      let opens = fresh-pending now at i' h0 in
      let reads = fresh-pending now d.read_at i' h1 in
      let writes = fresh-pending now d.written_at i' h2 in
      let spends = fresh-pending now g.spent_at i' h3 in
      let seal = seal_of mac hex_mac browser at_discord i.state in
      let seal' = seal_of mac hex_mac browser at_github i.state in
      let bound = bound_to (binding_of mac hex_mac browser i.state) r in
      let w' : Accounts = record w { verifications = r ∷ t } in
      let w'' : Accounts = record w { verifications = spent_at g.spent_at bound ∷ t } in
      let spent = spent_of r in
      let proving =
        prove-head d i.state browser r t a b
          (safe browser (leg_message (leg_name at_discord) i.state)) reads writes others named
          (calm (r ∷ t)) in
      let redeeming =
        redeem-head g i.state browser r t
          (record w' {
            verifications = (prove_on_discord mac hex_mac d seal browser w'.verifications).0;
          })
          a b (safe browser (leg_message (leg_name at_github) i.state)) spends others
          (ap (λ (p : List IdentityVerification × Reply (Text × VerificationPurpose)). p.0) proving)
        ∙ ap (λ (o : Option SpentLink). after_spending g o w'') (spent_link-of r)
        ∙ after_linking g spent login account w'' purpose acc in
      (
        w',
        seal,
        seal',
        verified g spent login account no_board,
        link_for-fresh now i w new,
        start-head at i.state browser r t a b opens,
        ap (λ (p : List IdentityVerification × Reply (Text × VerificationPurpose)). p.1) proving
            ∙ ap (λ (x : VerificationPurpose). goes_on (seal', x)) purpose,
        (
          ap (λ (p : Accounts × Reply Verified). p.1) redeeming,
          ap
                (λ (p : Accounts × Reply Verified).
                  account_for i.guild_id i.discord_user_id p.0.user_links)
                redeeming
              ∙ linked_account g spent login account w'' purpose paired,
          ap (λ (p : Accounts × Reply Verified). ever_proved i.guild_id i.discord_user_id p.0)
                redeeming
              ∙ proved_account g spent login account w'',
        ),
      )
