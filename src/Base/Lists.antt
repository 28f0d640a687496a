-- ===== src/Base/Lists.antt =====
-- Lists measured by native numbers, and predicates on their elements by recursion.
use Prim.Native.Nat.{ℕ, zero, suc, ◌+◌}
use mathlib.Core.Path.{◌≡◌, refl, sym, subst}
use mathlib.Core.Logic.{◌≢◌, ◌⊎◌, inl, inr}
use mathlib.Core.Bool.{Bool, true, false, ◌||◌}
use mathlib.Core.List.{List, [], ◌∷◌, ◌++◌, map}
use native.Mathlib.Omega.{arith}
use shannon_bot.Base.Tests.{◌==◌, ==_iff, Bool-cases, if◌then◌else◌}

module _ {ℓ} {A : Type ℓ} where
  abbrev pub length : List A → ℕ
  length [] = 0
  length (x ∷ xs) = suc (length xs)

  abbrev pub take : ℕ → List A → List A
  take zero xs = []
  take (suc n) [] = []
  take (suc n) (x ∷ xs) = x ∷ take n xs

  -- The elements that pass a test.
  abbrev pub keep : (A → Bool) → List A → List A
  keep p [] = []
  keep p (x ∷ xs) = let rest = keep p xs in if p x then x ∷ rest else rest

  abbrev pub any : (A → Bool) → List A → Bool
  any p [] = false
  any p (x ∷ xs) = p x || any p xs

  abbrev pub All {κ} : (A → Type κ) → List A → Type κ
  All P [] = Unit
  All P (x ∷ xs) = P x × All P xs

module _ {ℓ} {A : Type ℓ} where
  pub length-append : (xs ys : List A) → length (xs ++ ys) ≡ length xs + length ys
  length-append [] ys = omega arith
  length-append (x ∷ xs) ys = omega (arith, length-append xs ys)

-- A place in a list.
pub data In {ℓ} {A : Type ℓ} (a : A) : List A → Type ℓ where
  at_head : {xs : List A} → In a (a ∷ xs)
  in_tail : {x : A} {xs : List A} → In a xs → In a (x ∷ xs)

pub All-at {ℓ κ} : {A : Type ℓ} (P : A → Type κ) {a : A} {xs : List A} → In a xs → All P xs → P a
All-at P at_head h = h.0
All-at P (in_tail m) h = All-at P m h.1

pub All-In {ℓ κ} :
    {A : Type ℓ} (P : A → Type κ) (xs : List A) → ((x : A) → In x xs → P x) → All P xs
All-In P [] f = tt
All-In P (x ∷ xs) f = (f x at_head, All-In P xs (λ y m. f y (in_tail m)))

pub In-cons {ℓ} : {A : Type ℓ} {a x : A} {xs : List A} → In a (x ∷ xs) → (x ≡ a) ⊎ In a xs
In-cons at_head = inl refl
In-cons (in_tail m) = inr m

pub In-keep {ℓ} :
    {A : Type ℓ} {a : A} (p : A → Bool) (xs : List A) → In a (keep p xs) → In a xs × (p a ≡ true)
In-keep p [] m = elim m [ ]
In-keep {a} p (x ∷ xs) m = elim (Bool-cases (p x)) [
  | inl e ↦
      let cases : (x ≡ a) ⊎ In a (keep p xs) = In-cons (rw e at m) in
      elim cases [
        | inl same ↦ subst (λ y. In y (x ∷ xs) × (p y ≡ true)) same (at_head, e)
        | inr n ↦ let (n', q) = In-keep p xs n in (in_tail n', q)
      ]
  | inr e ↦ let (n, q) = In-keep p xs (rw e at m) in (in_tail n, q)
]

pub All-both {ℓ κ μ} :
    {A : Type ℓ} (P : A → Type κ) (Q : A → Type μ) (xs : List A)
    → All P xs
    → All Q xs
    → All (λ x. P x × Q x) xs
All-both P Q [] h k = tt
All-both P Q (x ∷ xs) h k = ((h.0, k.0), All-both P Q xs h.1 k.1)

module _ {ℓ κ} {A : Type ℓ} (P : A → Type κ) where
  pub All-imp {μ} : (Q : A → Type μ) (xs : List A) → ((x : A) → P x → Q x) → All P xs → All Q xs
  All-imp Q [] f h = tt
  All-imp Q (x ∷ xs) f h = (f x h.0, All-imp Q xs f h.1)

  pub All-append : (xs ys : List A) → All P xs → All P ys → All P (xs ++ ys)
  All-append [] ys h k = k
  All-append (x ∷ xs) ys h k = (h.0, All-append xs ys h.1 k)

  pub All-keep : (p : A → Bool) (xs : List A) → All P xs → All P (keep p xs)
  All-keep p [] h = tt
  All-keep p (x ∷ xs) h = ground (arith, All-keep p xs h.1)

  -- What was kept passed the test.
  pub All-keep_if :
      (p : A → Bool) (xs : List A) → All (λ x. p x ≡ true → P x) xs → All P (keep p xs)
  All-keep_if p [] h = tt
  All-keep_if p (x ∷ xs) h = ground (arith, All-keep_if p xs h.1)

  pub All-take : (n : ℕ) (xs : List A) → All P xs → All P (take n xs)
  All-take zero xs h = tt
  All-take (suc n) [] h = tt
  All-take (suc n) (x ∷ xs) h = (h.0, All-take n xs h.1)

  pub All-of : ((x : A) → P x) → (xs : List A) → All P xs
  All-of f [] = tt
  All-of f (x ∷ xs) = (f x, All-of f xs)

module _ {ℓ κ μ} {A : Type ℓ} {B : Type κ} (P : B → Type μ) where
  pub All-map : (f : A → B) (xs : List A) → All (λ x. P (f x)) xs → All P (map f xs)
  All-map f [] h = tt
  All-map f (x ∷ xs) h = (h.0, All-map f xs h.1)

abbrev pub contains : ℕ → List ℕ → Bool
contains a [] = false
contains a (x ∷ xs) = a == x || contains a xs

pub contains-All : (P : ℕ → Type 0) (a : ℕ) (xs : List ℕ) → All P xs → contains a xs ≡ true → P a
contains-All P a [] h m = cc
contains-All P a (x ∷ xs) h m = elim (Bool-cases (a == x)) [
  | inl e ↦ subst P (sym ((==_iff a x).0 e)) h.0
  | inr e ↦ contains-All P a xs h.1 (ground arith)
]

pub contains-All-ne : (a : ℕ) (xs : List ℕ) → All (λ x. x ≢ a) xs → contains a xs ≡ false
contains-All-ne a [] h = refl
contains-All-ne a (x ∷ xs) h = ground (arith, contains-All-ne a xs h.1)

pub In-map {ℓ κ} :
    {A : Type ℓ} {B : Type κ} {a : A} (f : A → B) (xs : List A) → In a xs → In (f a) (map f xs)
In-map f [] m = elim m [ ]
In-map f (_ ∷ xs) at_head = at_head
In-map f (x ∷ xs) (in_tail m) = in_tail (In-map f xs m)

-- What passes the test is kept.
pub In-kept {ℓ} :
    {A : Type ℓ} {a : A} (p : A → Bool) (xs : List A) → In a xs → p a ≡ true → In a (keep p xs)
In-kept p [] m e = elim m [ ]
In-kept {a} p (_ ∷ xs) at_head e = rw e at_head
In-kept p (x ∷ xs) (in_tail m) e = elim (Bool-cases (p x)) [
  | inl f ↦ rw f (in_tail (In-kept p xs m e))
  | inr f ↦ rw f (In-kept p xs m e)
]

pub keep-none {ℓ} :
    {A : Type ℓ} (p : A → Bool) (xs : List A) → All (λ x. p x ≡ false) xs → keep p xs ≡ []
keep-none p [] h = refl
keep-none p (x ∷ xs) h = ground (arith, keep-none p xs h.1)

-- A map that changes nothing.
pub map-same {ℓ} : {A : Type ℓ} (f : A → A) (xs : List A) → All (λ x. f x ≡ x) xs → map f xs ≡ xs
map-same f [] h = refl
map-same f (x ∷ xs) h = rw (h.0, map-same f xs h.1) refl

pub any-In {ℓ} :
    {A : Type ℓ} {a : A} (p : A → Bool) (xs : List A) → In a xs → p a ≡ true → any p xs ≡ true
any-In p [] m e = elim m [ ]
any-In p (_ ∷ xs) at_head e = rw e refl
any-In p (x ∷ xs) (in_tail m) e = ground (arith, any-In p xs m e)

pub any-append {ℓ} :
    {A : Type ℓ} (p : A → Bool) (xs ys : List A) → any p (xs ++ ys) ≡ (any p xs || any p ys)
any-append p [] ys = refl
any-append p (x ∷ xs) ys = ground (arith, any-append p xs ys)
