-- ===== src/People/Ending.antt =====
-- The loop of `_rename` ends within two rounds for each name that it has to write.
use shannon_bot.Base.{
  In, List, [], ap, arith, at_head, inl, inr, keep, length, refl, some, subst, suc, sym, zero, ℕ,
  ◌*◌, ◌++◌, ◌+◌, ◌<◌, ◌∙◌, ◌∷◌, ◌≡◌, ◌≢◌, ◌≤◌, ◌⊎◌,
}
use shannon_bot.Domain.Text.{Text}
use shannon_bot.People.Ledger.{Assignment, is_named}
use shannon_bot.People.Parking.{IsRenaming, length-map}
use shannon_bot.People.Rename.{
  Renames, Round, hand_on, named_round, parked_entry, parked_name, parked_round, rename_rounds,
  round, sort_by,
}
use shannon_bot.People.Rounds.{
  IsRenaming-named, IsRenaming-parked, free_of, free_of-parked, length-parts, sort_by-In,
  sort_by-none,
}

-- The loop has fuel left for what waits: two rounds for each name, one less when a name is free.
abbrev HasFuel : ℕ → Renames → List Text → Type 0
HasFuel fuel w held = (2 * length w ≤ fuel) ⊎ ((2 * length w ≤ fuel + 1) × (free_of w held ≢ []))

round-named :
    (x : Text × Assignment) (ready w : Renames) (held : List Text)
    → sort_by (λ e. e.0) (free_of w held) ≡ x ∷ ready
    → round w held ≡ named_round (x ∷ ready) w held
unfolding round
round-named x ready w held k = rw (round, k) refl

round-parked :
    (x : Text × Assignment) (others w : Renames) (held : List Text)
    → sort_by (λ e. e.0) (free_of w held) ≡ []
    → sort_by (λ e. e.0) w ≡ x ∷ others
    → round w held ≡ parked_round x w held
unfolding round
round-parked x others w held k l = rw (round, k, l) refl

-- What a round owes the next.
abbrev IsOn : ℕ → Round → Type 0
IsOn fuel r = IsRenaming r.waiting r.held × HasFuel fuel r.waiting r.held

named_round-IsOn :
    (fuel : ℕ) (w : Renames) (held : List Text) (x : Text × Assignment) (ready : Renames)
    → IsRenaming w held
    → 2 * length w ≤ suc fuel + 1
    → sort_by (λ e. e.0) (free_of w held) ≡ x ∷ ready
    → IsOn fuel (named_round (x ∷ ready) w held)
unfolding named_round sort_by
named_round-IsOn fuel w held x ready i enough k =
    let split = length-parts (λ e. is_named e.0 held) w in
    let some_free : 0 < length (free_of w held) = go (free_of w held) refl in
    (
      subst (λ l. IsRenaming (keep (λ e. is_named e.0 held) w) (hand_on l held)) k
          (IsRenaming-named w held i),
      inl (omega arith),
    )
  where
    go : (l : Renames) → free_of w held ≡ l → 0 < length (free_of w held)
    go [] f = let none_ready : [] ≡ x ∷ ready = sym (ap (sort_by (λ e. e.0)) f) ∙ k in cc
    go (y ∷ l) f = rw f (omega arith)

parked_round-IsOn :
    (fuel : ℕ) (w : Renames) (held : List Text) (x : Text × Assignment)
    → IsRenaming w held
    → 2 * length w ≤ suc fuel
    → free_of w held ≡ []
    → In x w
    → IsOn fuel (parked_round x w held)
unfolding parked_round
parked_round-IsOn fuel w held x i enough stuck m =
    let same = length-map (parked_entry x.0 (parked_name x.1.id)) w in
    (IsRenaming-parked x w held m i, inr (omega arith, free_of-parked x w held m i stuck))

round-IsOn :
    (fuel : ℕ) (e : Text × Assignment) (w : Renames) (held : List Text)
    → IsRenaming (e ∷ w) held
    → HasFuel (suc fuel) (e ∷ w) held
    → IsOn fuel (round (e ∷ w) held)
round-IsOn fuel e w held i h = go (sort_by (λ x. x.0) (free_of (e ∷ w) held)) refl
  where
    stuck :
        (all : Renames)
        → sort_by (λ x. x.0) (free_of (e ∷ w) held) ≡ []
        → sort_by (λ x. x.0) (e ∷ w) ≡ all
        → HasFuel (suc fuel) (e ∷ w) held
        → IsOn fuel (round (e ∷ w) held)
    stuck [] k l h = let no = sort_by-none (λ x. x.0) (e ∷ w) l in ground arith
    stuck (x ∷ others) k l (inr (enough, some_free)) =
        elim (some_free (sort_by-none (λ y. y.0) (free_of (e ∷ w) held) k)) [ ]
    stuck (x ∷ others) k l (inl enough) = rw (round-parked x others (e ∷ w) held k l) (
        parked_round-IsOn fuel (e ∷ w) held x i enough
          (sort_by-none (λ y. y.0) (free_of (e ∷ w) held) k)
          (sort_by-In (λ y. y.0) (e ∷ w) (subst (In x) (sym l) at_head)))

    go :
        (ready : Renames)
        → sort_by (λ x. x.0) (free_of (e ∷ w) held) ≡ ready
        → IsOn fuel (round (e ∷ w) held)
    go (x ∷ ready) k =
        rw (round-named x ready (e ∷ w) held k)
          (named_round-IsOn fuel (e ∷ w) held x ready i (ground arith) k)
    go [] k = stuck (sort_by (λ x. x.0) (e ∷ w)) k refl h

-- Where the logins are distinct and GitHub's, and a held name that is wanted is a waiting row's: two
-- rounds for each name that has to be written are enough for the loop to end.
pub rename_rounds-ends :
    (fuel : ℕ) (w : Renames) (held : List Text)
    → IsRenaming w held
    → HasFuel fuel w held
    → (writes : List (ℕ × Text)) × (rename_rounds fuel w held ≡ some writes)
unfolding rename_rounds
rename_rounds-ends fuel [] held i h = ([], refl)
rename_rounds-ends zero (e ∷ w) held i (inl h) = ground arith
rename_rounds-ends zero (e ∷ w) held i (inr h) = let enough = h.0 in ground arith
rename_rounds-ends (suc fuel) (e ∷ w) held i h =
    let r = round (e ∷ w) held in
    let (i', h') = round-IsOn fuel e w held i h in
    let later = rename_rounds-ends fuel r.waiting r.held i' h' in
    (r.writes ++ later.0, rw (rename_rounds, later.1) refl)
