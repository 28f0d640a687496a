-- ===== src/People/Muted.antt =====
-- shannon/db/stores/muted_members.py and the table `muted_members`: who this bot may notify.
use shannon_bot.Base.{
  Bool, List, [], any, contains, if◌then◌else◌, keep, ltb, map, not, ℕ, ◌&&◌, ◌++◌, ◌==◌, ◌∷◌,
}
use shannon_bot.Delivery.Store.{ids}

pub record MutedMember : Type 0 where
  pub discord_guild_id : ℕ
  pub discord_user_id : ℕ

unfoldable pub is_member : ℕ → ℕ → MutedMember → Bool
is_member guild_id user_id m = m.discord_guild_id == guild_id && m.discord_user_id == user_id

-- `is_muted`: whether the select finds a row.
unfoldable pub is_muted : ℕ → ℕ → List MutedMember → Bool
unfolding is_member
is_muted guild_id user_id t = any (is_member guild_id user_id) t

-- `mute`: a conflict does nothing.
unfoldable pub mute : ℕ → ℕ → List MutedMember → List MutedMember
unfolding is_muted
mute guild_id user_id t =
    if is_muted guild_id user_id t
    then t
    else t ++ record { discord_guild_id = guild_id; discord_user_id = user_id } ∷ []

unfoldable pub unmute : ℕ → ℕ → List MutedMember → List MutedMember
unfolding is_member
unmute guild_id user_id t = keep (λ m. not (is_member guild_id user_id m)) t

-- `sorted` of a set, as insertion of what is not there yet.
unfoldable pub insert_id : ℕ → List ℕ → List ℕ
insert_id i [] = i ∷ []
insert_id i (j ∷ ids) =
    let later = insert_id i ids in
    if ltb i j then i ∷ j ∷ ids else if i == j then j ∷ ids else j ∷ later

unfoldable pub sorted_set : List ℕ → List ℕ
unfolding insert_id
sorted_set [] = []
sorted_set (i ∷ ids) = insert_id i (sorted_set ids)

-- The accounts that the select of `may_be_pinged` answers with.
unfoldable pub muted_among : ℕ → List ℕ → List MutedMember → List ℕ
muted_among guild_id wanted t =
    map (λ m. m.discord_user_id)
      (keep (λ m. m.discord_guild_id == guild_id && contains m.discord_user_id wanted) t)

unfoldable pub may_be_pinged : ℕ → List ℕ → List MutedMember → List ℕ
unfolding sorted_set muted_among
may_be_pinged guild_id [] t = []
may_be_pinged guild_id (i ∷ ids) t =
    let wanted = sorted_set (i ∷ ids) in
    keep (λ j. not (contains j (muted_among guild_id wanted t))) wanted
