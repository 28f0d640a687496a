-- ===== src/People/Silence.antt =====
-- The store of muted members refines a set of members: what it promises says nothing of its rows.
use shannon_bot.Base.{
  ==_iff, All, All-imp, All-keep, Bool, Bool-cases, List, [], any-append, ap, arith, contains,
  false, inl, inr, keep, not, refl, subst, true, ℕ, ◌&&◌, ◌<◌, ◌==◌, ◌||◌, ◌∙◌, ◌∷◌, ◌≡◌, ◌⊎◌,
}
use shannon_bot.Delivery.Store.{ids}
use shannon_bot.People.Muted.{
  MutedMember, insert_id, is_member, is_muted, may_be_pinged, mute, muted_among, sorted_set, unmute,
}

-- What the members of a server ask of the store.
pub data Wish : Type 0 where
  be_quiet be_heard : (guild_id user_id : ℕ) → Wish

unfoldable pub granted : Wish → List MutedMember → List MutedMember
unfolding mute unmute
granted (be_quiet guild_id user_id) t = mute guild_id user_id t
granted (be_heard guild_id user_id) t = unmute guild_id user_id t

unfoldable pub all_granted : List Wish → List MutedMember → List MutedMember
unfolding granted
all_granted [] t = t
all_granted (w ∷ wishes) t = all_granted wishes (granted w t)

-- The set of those who asked to be left alone last: a member's last wish counts.
unfoldable pub last_wish : ℕ → ℕ → List Wish → Bool → Bool
last_wish guild_id user_id [] before = before
last_wish guild_id user_id (be_quiet g u ∷ wishes) before =
    last_wish guild_id user_id wishes ((g == guild_id && u == user_id) || before)
last_wish guild_id user_id (be_heard g u ∷ wishes) before =
    last_wish guild_id user_id wishes (not (g == guild_id && u == user_id) && before)

-- A list of numbers without repeats, in ascending order.
abbrev pub IsAscending : List ℕ → Type 0
IsAscending [] = Unit
IsAscending (i ∷ ids) = All (λ j. i < j) ids × IsAscending ids

is_muted-mute :
    (g u guild_id user_id : ℕ) (t : List MutedMember)
    → is_muted guild_id user_id (mute g u t)
      ≡ ((g == guild_id && u == user_id) || is_muted guild_id user_id t)
unfolding is_muted mute is_member
is_muted-mute g u guild_id user_id t = elim (Bool-cases (is_muted g u t)) [
  | inl e ↦ rw e (already (Bool-cases (g == guild_id && u == user_id)) e)
  | inr e ↦ rw e (any-append (is_member guild_id user_id) t (_ ∷ []) ∙ ground arith)
]
  where
    already :
        ((g == guild_id && u == user_id) ≡ true) ⊎ ((g == guild_id && u == user_id) ≡ false)
        → is_muted g u t ≡ true
        → is_muted guild_id user_id t
          ≡ ((g == guild_id && u == user_id) || is_muted guild_id user_id t)
    already (inl same) e =
        let same_guild : g ≡ guild_id = (==_iff g guild_id).0 (ground arith) in
        let same_user : u ≡ user_id = (==_iff u user_id).0 (ground arith) in
        let found : is_muted guild_id user_id t ≡ true =
          subst (λ x. is_muted guild_id x t ≡ true) same_user
            (subst (λ x. is_muted x u t ≡ true) same_guild e) in
        rw (same, found) refl
    already (inr other) e = rw other refl

is_muted-unmute :
    (g u guild_id user_id : ℕ) (t : List MutedMember)
    → is_muted guild_id user_id (unmute g u t)
      ≡ (not (g == guild_id && u == user_id) && is_muted guild_id user_id t)
unfolding is_muted unmute is_member
is_muted-unmute g u guild_id user_id [] = ground arith
is_muted-unmute g u guild_id user_id (m ∷ t) =
    ground (arith, is_muted-unmute g u guild_id user_id t)

is_muted-granted :
    (wishes : List Wish) (guild_id user_id : ℕ) (t : List MutedMember)
    → is_muted guild_id user_id (all_granted wishes t)
      ≡ last_wish guild_id user_id wishes (is_muted guild_id user_id t)
unfolding all_granted granted last_wish
is_muted-granted [] guild_id user_id t = refl
is_muted-granted (be_quiet g u ∷ wishes) guild_id user_id t =
    is_muted-granted wishes guild_id user_id (mute g u t)
    ∙ ap (last_wish guild_id user_id wishes) (is_muted-mute g u guild_id user_id t)
is_muted-granted (be_heard g u ∷ wishes) guild_id user_id t =
    is_muted-granted wishes guild_id user_id (unmute g u t)
    ∙ ap (last_wish guild_id user_id wishes) (is_muted-unmute g u guild_id user_id t)

contains-insert_id :
    (j i : ℕ) (ids : List ℕ) → contains j (insert_id i ids) ≡ (j == i || contains j ids)
unfolding insert_id
contains-insert_id j i [] = refl
contains-insert_id j i (k ∷ ids) = ground (arith, contains-insert_id j i ids)

contains-sorted_set : (j : ℕ) (ids : List ℕ) → contains j (sorted_set ids) ≡ contains j ids
unfolding sorted_set
contains-sorted_set j [] = refl
contains-sorted_set j (i ∷ ids) =
    contains-insert_id j i (sorted_set ids) ∙ ap (λ b. j == i || b) (contains-sorted_set j ids)

insert_id-above :
    (k i : ℕ) (ids : List ℕ) → k < i → All (λ j. k < j) ids → All (λ j. k < j) (insert_id i ids)
unfolding insert_id
insert_id-above k i [] l h = (l, tt)
insert_id-above k i (j ∷ ids) l h = ground (arith, insert_id-above k i ids l h.1)

insert_id-IsAscending : (i : ℕ) (ids : List ℕ) → IsAscending ids → IsAscending (insert_id i ids)
unfolding insert_id
insert_id-IsAscending i [] h = (tt, tt)
insert_id-IsAscending i (j ∷ ids) h =
    let above = λ (l : i < j). All-imp (λ k. j < k) (λ k. i < k) ids (λ k m. omega arith) h.0 in
    let before = λ (l : j < i). insert_id-above j i ids l h.0 in
    ground (arith, insert_id-IsAscending i ids h.1)

sorted_set-IsAscending : (ids : List ℕ) → IsAscending (sorted_set ids)
unfolding sorted_set
sorted_set-IsAscending [] = tt
sorted_set-IsAscending (i ∷ ids) =
    insert_id-IsAscending i (sorted_set ids) (sorted_set-IsAscending ids)

IsAscending-keep : (p : ℕ → Bool) (ids : List ℕ) → IsAscending ids → IsAscending (keep p ids)
IsAscending-keep p [] h = tt
IsAscending-keep p (i ∷ ids) h = elim (Bool-cases (p i)) [
  | inl e ↦ rw e (All-keep (λ j. i < j) p ids h.0, IsAscending-keep p ids h.1)
  | inr e ↦ rw e (IsAscending-keep p ids h.1)
]

contains-keep :
    (p : ℕ → Bool) (j : ℕ) (ids : List ℕ) → contains j (keep p ids) ≡ (contains j ids && p j)
contains-keep p j [] = refl
contains-keep p j (i ∷ ids) = elim (Bool-cases (j == i)) [
  | inl same ↦
      let moved : p j ≡ p i = ap p ((==_iff j i).0 same) in ground (arith, contains-keep p j ids)
  | inr other ↦ ground (arith, contains-keep p j ids)
]

contains-muted_among :
    (guild_id j : ℕ) (wanted : List ℕ) (t : List MutedMember)
    → contains j (muted_among guild_id wanted t) ≡ (contains j wanted && is_muted guild_id j t)
unfolding muted_among is_muted is_member
contains-muted_among guild_id j wanted [] = ground arith
contains-muted_among guild_id j wanted (m ∷ t) = elim (Bool-cases (j == m.discord_user_id)) [
  | inl same ↦
      let moved : contains j wanted ≡ contains m.discord_user_id wanted =
        ap (λ x. contains x wanted) ((==_iff j m.discord_user_id).0 same) in
      ground (arith, contains-muted_among guild_id j wanted t)
  | inr other ↦ ground (arith, contains-muted_among guild_id j wanted t)
]

pub contains-may_be_pinged :
    (guild_id j : ℕ) (ids : List ℕ) (t : List MutedMember)
    → contains j (may_be_pinged guild_id ids t) ≡ (contains j ids && not (is_muted guild_id j t))
unfolding may_be_pinged
contains-may_be_pinged guild_id j [] t = refl
contains-may_be_pinged guild_id j (i ∷ ids) t =
    let wanted = sorted_set (i ∷ ids) in
    let quiet = contains-muted_among guild_id j wanted t in
    let there = contains-sorted_set j (i ∷ ids) in
    contains-keep (λ k. not (contains k (muted_among guild_id wanted t))) j wanted ∙ ground arith

may_be_pinged-IsAscending :
    (guild_id : ℕ) (ids : List ℕ) (t : List MutedMember)
    → IsAscending (may_be_pinged guild_id ids t)
unfolding may_be_pinged
may_be_pinged-IsAscending guild_id [] t = tt
may_be_pinged-IsAscending guild_id (i ∷ ids) t =
    let wanted = sorted_set (i ∷ ids) in
    IsAscending-keep (λ k. not (contains k (muted_among guild_id wanted t))) wanted
      (sorted_set-IsAscending (i ∷ ids))

-- Whatever the members of any servers asked, in any order and however often, from an empty table: who
-- may be pinged comes in ascending order and once each, and is who was named and whose last wish was
-- not to be left alone.
pub may_be_pinged-last_wish :
    (wishes : List Wish) (guild_id : ℕ) (ids : List ℕ)
    → IsAscending (may_be_pinged guild_id ids (all_granted wishes []))
      × ((j : ℕ)
          → contains j (may_be_pinged guild_id ids (all_granted wishes []))
            ≡ (contains j ids && not (last_wish guild_id j wishes false)))
unfolding is_muted
may_be_pinged-last_wish wishes guild_id ids = (
  may_be_pinged-IsAscending guild_id ids (all_granted wishes []),
  λ j.
      contains-may_be_pinged guild_id j ids (all_granted wishes [])
      ∙ ap (λ b. contains j ids && not b) (is_muted-granted wishes guild_id j []),
)
