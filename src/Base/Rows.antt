-- ===== src/Base/Rows.antt =====
-- The rows of a table: the first that a test finds, and those that an UPDATE changes.
use mathlib.Core.Path.{◌≡◌, refl, subst}
use mathlib.Core.Logic.{inl, inr}
use mathlib.Core.Bool.{Bool, true, false}
use mathlib.Core.Option.{Option, none, some}
use mathlib.Core.List.{List, [], ◌∷◌, map}
use native.Mathlib.Omega.{arith}
use shannon_bot.Base.Tests.{Bool-cases, if◌then◌else◌}
use shannon_bot.Base.Lists.{All, In, In-cons, any, at_head, in_tail}

module _ {ℓ} {A : Type ℓ} where
  unfoldable pub first_where : (A → Bool) → List A → Option A
  first_where p [] = none
  first_where p (r ∷ rest) = let later = first_where p rest in if p r then some r else later

  -- The rows that pass the test are changed, and the others stay.
  unfoldable pub change_where : (A → Bool) → (A → A) → List A → List A
  change_where p f [] = []
  change_where p f (r ∷ rest) = (if p r then f r else r) ∷ change_where p f rest

  pub first_where-In :
      (p : A → Bool) (rs : List A) (r : A) → first_where p rs ≡ some r → In r rs × (p r ≡ true)
  unfolding first_where
  first_where-In p [] r e = cc
  first_where-In p (q ∷ rs) r e = elim (Bool-cases (p q)) [
    | inl f ↦
        let e' : some q ≡ some r = rw f at e in
        let same : q ≡ r = cc in subst (λ x. In x (q ∷ rs) × (p x ≡ true)) same (at_head, f)
    | inr f ↦ let (m, g) = first_where-In p rs r (rw f at e) in (in_tail m, g)
  ]

  pub first_where-some :
      (p : A → Bool) (rs : List A) (r : A)
      → In r rs
      → p r ≡ true
      → (q : A) × (first_where p rs ≡ some q)
  unfolding first_where
  first_where-some p [] r m e = elim m [ ]
  first_where-some p (x ∷ rs) r m e = elim (Bool-cases (p x)) [
    | inl f ↦ (x, rw f refl)
    | inr f ↦ elim (In-cons m) [
      | inl same ↦ let f' : p r ≡ false = rw same at f in cc
      | inr n ↦ let (q, g) = first_where-some p rs r n e in (q, rw f g)
    ]
  ]

  pub first_where-none :
      (p : A → Bool) (rs : List A) → All (λ q. p q ≡ false) rs → first_where p rs ≡ none
  unfolding first_where
  first_where-none p [] h = refl
  first_where-none p (q ∷ rs) h = rw (first_where, h.0, first_where-none p rs h.1) refl

  pub change_where-none :
      (p : A → Bool) (f : A → A) (rs : List A)
      → All (λ q. p q ≡ false) rs
      → change_where p f rs ≡ rs
  unfolding change_where
  change_where-none p f [] h = refl
  change_where-none p f (q ∷ rs) h = rw (change_where, h.0, change_where-none p f rs h.1) refl

  pub All-change_where {κ} :
      (P : A → Type κ) (p : A → Bool) (f : A → A) (rs : List A)
      → ((r : A) → p r ≡ true → P r → P (f r))
      → All P rs
      → All P (change_where p f rs)
  unfolding change_where
  All-change_where P p f [] step h = tt
  All-change_where P p f (r ∷ rs) step h = elim (Bool-cases (p r)) [
    | inl e ↦ rw (change_where, e) (step r e h.0, All-change_where P p f rs step h.1)
    | inr e ↦ rw (change_where, e) (h.0, All-change_where P p f rs step h.1)
  ]

  pub any-none : (p : A → Bool) (rs : List A) → any p rs ≡ false → All (λ q. p q ≡ false) rs
  any-none p [] h = tt
  any-none p (q ∷ rs) h = (ground arith, any-none p rs (ground arith))

-- A mapped list's entry comes from an entry.
module _ {ℓ κ} {A : Type ℓ} {B : Type κ} (f : A → B) where
  pub In-map_back : (e : B) (rows : List A) → In e (map f rows) → (r : A) × In r rows × (f r ≡ e)
  In-map_back e [] m = elim m [ ]
  In-map_back e (r ∷ rows) m = elim (In-cons m) [
    | inl same ↦ (r, at_head, same)
    | inr n ↦ let (q, k, g) = In-map_back e rows n in (q, in_tail k, g)
  ]
