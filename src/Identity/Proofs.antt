-- ===== src/Identity/Proofs.antt =====
-- shannon/db/stores/identities.py: who a Discord member last proved to be on GitHub.
use shannon_bot.Base.{
  Bool, List, Option, [], false, if◌then◌else◌, leb, none, some, true, ℕ, ◌&&◌, ◌==◌, ◌∷◌,
}
use shannon_bot.Domain.Text.{Text, strip}

pub record VerifiedIdentity : Type 0 where
  pub discord_guild_id : ℕ
  pub discord_user_id : ℕ
  pub github_login : Text
  pub github_user_id : ℕ
  pub verified_at : ℕ

unfoldable pub is_identity_of : ℕ → ℕ → VerifiedIdentity → Bool
is_identity_of guild member r = r.discord_guild_id == guild && r.discord_user_id == member

-- INSERT, or UPDATE where the member has a row in that server.
unfoldable pub remember_proof : VerifiedIdentity → List VerifiedIdentity → List VerifiedIdentity
unfolding is_identity_of
remember_proof p [] = p ∷ []
remember_proof p (r ∷ rest) =
    let later = remember_proof p rest in
    if is_identity_of p.discord_guild_id p.discord_user_id r then p ∷ rest else r ∷ later

unfoldable pub remember : ℕ → ℕ → Text → ℕ → ℕ → List VerifiedIdentity → List VerifiedIdentity
unfolding strip remember_proof
remember guild member login account verified_at t =
    remember_proof
      (record {
        discord_guild_id = guild;
        discord_user_id = member;
        github_login = strip login;
        github_user_id = account;
        verified_at = verified_at;
      })
      t

unfoldable pub is_recent : Option ℕ → VerifiedIdentity → Bool
is_recent none r = true
is_recent (some newer_than) r = leb newer_than r.verified_at

unfoldable pub proved : ℕ → ℕ → Option ℕ → List VerifiedIdentity → Option VerifiedIdentity
unfolding is_identity_of is_recent
proved guild member newer_than [] = none
proved guild member newer_than (r ∷ rest) =
    let later = proved guild member newer_than rest in
    if is_identity_of guild member r && is_recent newer_than r then some r else later

-- `LinkedAccount.proved_by` of shannon/db/stores/user_links.py
unfoldable pub proved_by : Option ℕ → Option VerifiedIdentity → Bool
proved_by none proof = false
proved_by (some account) none = false
proved_by (some account) (some proof) = proof.github_user_id == account
