-- ===== src/Github/Changes.antt =====
-- What a label change leaves on an item.
use shannon_bot.Base.{
  All, All-In, All-append, Bool, Bool-cases, In, In-kept, List, Option, Option-cases, [], any, ap,
  arith, at_head, false, in_tail, inl, inr, is_none, keep, none, not, refl, some, true, ◌++◌, ◌∙◌,
  ◌∷◌, ◌≡◌, ◌⊎◌,
}
use shannon_bot.Domain.Enums.{Status, backlog, done, in_review, not_reviewed}
use shannon_bot.Domain.Priority.{look_up}
use shannon_bot.Domain.Text.{Text, lower, strip, text_eq, text_eq_iff}
use shannon_bot.Github.Labels.{
  LabelChange, first_of_both, folded, is_other_status, is_status, same_status, status_by_label,
  status_change, status_label, status_named, status_of,
}

-- GitHub takes the named labels off, and puts the new one on. It matches names without their case.
abbrev pub matches : Text → Text → Bool
matches a b = text_eq (folded a) (folded b)

abbrev pub removed_by : LabelChange → Text → Bool
removed_by change name = any (matches name) change.remove

abbrev pub with_added : Option Text → List Text → List Text
with_added none names = names
with_added (some name) names = names ++ name ∷ []

unfoldable pub applied : LabelChange → List Text → List Text
applied change current = with_added change.add (keep (λ name. not (removed_by change name)) current)

-- Names that match have one status.
matches-status : (a b : Text) → matches a b ≡ true → status_named a ≡ status_named b
unfolding status_named
matches-status a b e = ap (λ x. look_up x status_by_label) ((text_eq_iff (folded a) (folded b)).0 e)

pub matches_refl : (a : Text) → matches a a ≡ true
matches_refl a = (text_eq_iff (folded a) (folded a)).1 refl

-- What a status change removes are names of another status.
removed_by-other :
    (wanted : Status) (name : Text) (current : List Text)
    → any (matches name) (keep (λ x. is_other_status wanted (status_named x)) current) ≡ true
    → is_other_status wanted (status_named name) ≡ true
removed_by-other wanted name [] e = cc
removed_by-other wanted name (x ∷ current) e =
    elim (Bool-cases (is_other_status wanted (status_named x))) [
      | inl o ↦ elim (Bool-cases (matches name x)) [
        | inl m ↦ ap (is_other_status wanted) (matches-status name x m) ∙ o
        | inr m ↦ removed_by-other wanted name current (rw m at rw o at e)
      ]
      | inr o ↦ removed_by-other wanted name current (rw o at e)
    ]

same_status-eq : (s w : Status) → same_status s w ≡ true → s ≡ w
unfolding same_status
same_status-eq not_reviewed not_reviewed e = refl
same_status-eq in_review in_review e = refl
same_status-eq backlog backlog e = refl
same_status-eq done done e = refl
same_status-eq not_reviewed in_review e = cc
same_status-eq not_reviewed backlog e = cc
same_status-eq not_reviewed done e = cc
same_status-eq in_review not_reviewed e = cc
same_status-eq in_review backlog e = cc
same_status-eq in_review done e = cc
same_status-eq backlog not_reviewed e = cc
same_status-eq backlog in_review e = cc
same_status-eq backlog done e = cc
same_status-eq done not_reviewed e = cc
same_status-eq done in_review e = cc
same_status-eq done backlog e = cc

same_status_refl : (w : Status) → same_status w w ≡ true
unfolding same_status
same_status_refl not_reviewed = refl
same_status_refl in_review = refl
same_status_refl backlog = refl
same_status_refl done = refl

-- The label of a status is read as that status.
status_of-label : (w : Status) → status_of (status_label w ∷ []) ≡ some w
unfolding status_of status_named status_label folded strip lower look_up text_eq first_of_both
status_of-label not_reviewed = refl
status_of-label in_review = refl
status_of-label backlog = refl
status_of-label done = refl

first-not_other :
    (w : Status) (o r : Option Status)
    → is_other_status w o ≡ false
    → is_other_status w r ≡ false
    → is_other_status w (first_of_both o r) ≡ false
unfolding first_of_both
first-not_other w none r e f = f
first-not_other w (some s) r e f = e

first-own :
    (w : Status) (o r : Option Status) → first_of_both o r ≡ some w → is_other_status w o ≡ false
unfolding first_of_both
first-own w none r e = refl
first-own w (some s) r e = ap (is_other_status w) e ∙ ap not (same_status_refl w)

first-wanted :
    (w : Status) (o r r' : Option Status)
    → (r ≡ some w → r' ≡ some w)
    → first_of_both o r ≡ some w
    → first_of_both o r' ≡ some w
unfolding first_of_both
first-wanted w none r r' f e = f e
first-wanted w (some s) r r' f e = e

module _ (w : Status) (p : Text → Bool) where
  abbrev is_other : Text → Bool
  is_other name = is_other_status w (status_named name)

  -- The names of another status are left out.
  abbrev LeavesOthers : List Text → Type 0
  LeavesOthers names = All (λ n. is_other n ≡ true → p n ≡ false) names

  -- Every other name is kept.
  abbrev KeepsRest : Type 0
  KeepsRest = (n : Text) → is_other n ≡ false → p n ≡ true

  kept-not_other :
      (names : List Text)
      → LeavesOthers names
      → is_other_status w (status_of (keep p names)) ≡ false
  unfolding status_of first_of_both
  kept-not_other [] h = refl
  kept-not_other (x ∷ names) h = elim (Bool-cases (is_other x)) [
    | inl o ↦ rw (h.0 o) (kept-not_other names h.1)
    | inr o ↦
        let rest = kept-not_other names h.1 in
        elim (Bool-cases (p x)) [
          | inl e ↦ rw e (first-not_other w (status_named x) (status_of (keep p names)) o rest)
          | inr e ↦ rw e rest
        ]
  ]

  kept-wanted :
      KeepsRest → (names : List Text) → status_of names ≡ some w → status_of (keep p names) ≡ some w
  unfolding status_of first_of_both
  kept-wanted f [] e = e
  kept-wanted f (x ∷ names) e = rw (f x (first-own w (status_named x) (status_of names) e)) (
      first-wanted w (status_named x) (status_of names) (status_of (keep p names))
        (kept-wanted f names) e)

-- A name stands in the list that keeps it, so a name that must go matches what is removed.
any-here :
    (p : Text → Bool) (a : Text) (names : List Text) → In a names → p a ≡ true → any p names ≡ true
any-here p a [] m e = elim m [ ]
any-here p a (x ∷ names) at_head e = ground arith
any-here p a (x ∷ names) (in_tail m) e = ground (arith, any-here p a names m e)

abbrev others : Status → List Text → List Text
others w current = keep (λ x. is_other_status w (status_named x)) current

-- The names that a status change leaves.
abbrev stays : Status → List Text → Text → Bool
stays w current name = not (any (matches name) (others w current))

others_leave :
    (w : Status) (current : List Text)
    → All (λ n. is_other_status w (status_named n) ≡ true → stays w current n ≡ false) current
others_leave w current =
    All-In (λ n. is_other_status w (status_named n) ≡ true → stays w current n ≡ false) current
      (λ n m e. ap not (
        any-here (matches n) n (others w current)
          (In-kept (λ x. is_other_status w (status_named x)) current m e) (matches_refl n)))

rest_stays :
    (w : Status) (current : List Text) (n : Text)
    → is_other_status w (status_named n) ≡ false
    → stays w current n ≡ true
rest_stays w current n e = elim (Bool-cases (any (matches n) (others w current))) [
  | inl f ↦ cc (e, removed_by-other w n current f)
  | inr f ↦ ap not f
]

wanted_or_nothing :
    (w : Status) (o : Option Status) → is_other_status w o ≡ false → (o ≡ none) ⊎ (o ≡ some w)
wanted_or_nothing w none e = inl refl
wanted_or_nothing w (some s) e =
    inr (ap (λ (x : Status). some x) (same_status-eq s w (ground arith)))

is_status-some : (w : Status) (o : Option Status) → is_status w o ≡ true → o ≡ some w
is_status-some w none e = cc
is_status-some w (some s) e = ap (λ (x : Status). some x) (same_status-eq s w e)

status_of-append :
    (names more : List Text)
    → status_of (names ++ more) ≡ first_of_both (status_of names) (status_of more)
unfolding status_of first_of_both
status_of-append [] more = refl
status_of-append (x ∷ names) more = elim (Option-cases (status_named x)) [
  | inl e ↦ rw e (status_of-append names more)
  | inr (s, e) ↦ rw e refl
]

labelled :
    (w : Status) (names : List Text)
    → is_other_status w (status_of names) ≡ false
    → status_of (names ++ status_label w ∷ []) ≡ some w
unfolding first_of_both
labelled w names e =
    status_of-append names (status_label w ∷ []) ∙ elim (wanted_or_nothing w (status_of names) e) [
      | inl f ↦ rw (f, status_of-label w) refl
      | inr f ↦ rw f refl
    ]

-- A label that stands for no status, or for this one.
abbrev pub IsOwnOrNone : Status → Text → Type 0
IsOwnOrNone w name = (status_named name ≡ none) ⊎ (status_named name ≡ some w)

kept-IsOwnOrNone :
    (w : Status) (p : Text → Bool) (names : List Text)
    → LeavesOthers w p names
    → All (IsOwnOrNone w) (keep p names)
kept-IsOwnOrNone w p [] h = tt
kept-IsOwnOrNone w p (x ∷ names) h = elim (Bool-cases (p x)) [
  | inr e ↦ rw e (kept-IsOwnOrNone w p names h.1)
  | inl e ↦ elim (Bool-cases (is_other_status w (status_named x))) [
    | inl o ↦ cc (h.0 o, e)
    | inr o ↦ rw e (wanted_or_nothing w (status_named x) o, kept-IsOwnOrNone w p names h.1)
  ]
]

abbrev pub has_no_status : Text → Bool
has_no_status name = is_none (status_named name)

none-not_other : (w : Status) (o : Option Status) → is_none o ≡ true → is_other_status w o ≡ false
none-not_other w none e = refl
none-not_other w (some s) e = cc e

keep-rest :
    (w : Status) (p : Text → Bool) (names : List Text)
    → KeepsRest w p
    → keep has_no_status (keep p names) ≡ keep has_no_status names
keep-rest w p [] h = refl
keep-rest w p (x ∷ names) h = elim (Bool-cases (has_no_status x)) [
  | inl e ↦
      rw (h x (none-not_other w (status_named x) e), e)
        (ap (λ (l : List Text). x ∷ l) (keep-rest w p names h))
  | inr e ↦ elim (Bool-cases (p x)) [
    | inl f ↦ rw (f, e) (keep-rest w p names h)
    | inr f ↦ rw (f, e) (keep-rest w p names h)
  ]
]

keep-append :
    (p : Text → Bool) (names more : List Text)
    → keep p (names ++ more) ≡ keep p names ++ keep p more
keep-append p [] more = refl
keep-append p (x ∷ names) more = elim (Bool-cases (p x)) [
  | inl e ↦ rw e (ap (λ (l : List Text). x ∷ l) (keep-append p names more))
  | inr e ↦ rw e (keep-append p names more)
]

keep-label : (w : Status) → keep has_no_status (status_label w ∷ []) ≡ []
unfolding status_named status_label folded strip lower look_up text_eq
keep-label not_reviewed = refl
keep-label in_review = refl
keep-label backlog = refl
keep-label done = refl

label-IsOwnOrNone : (w : Status) → All (IsOwnOrNone w) (status_label w ∷ [])
unfolding status_named status_label folded strip lower look_up text_eq
label-IsOwnOrNone not_reviewed = (inr refl, tt)
label-IsOwnOrNone in_review = (inr refl, tt)
label-IsOwnOrNone backlog = (inr refl, tt)
label-IsOwnOrNone done = (inr refl, tt)

append_nil : (names : List Text) → names ++ [] ≡ names
append_nil [] = refl
append_nil (x ∷ names) = ap (λ (l : List Text). x ∷ l) (append_nil names)

-- Whatever labels an item has: once a status change is applied, its labels are read as the status that
-- was wanted, none of them stands for another, and those that stand for none are as they were.
pub applied-status_change :
    (current : List Text) (w : Status)
    → (status_of (applied (status_change current w) current) ≡ some w)
      × All (IsOwnOrNone w) (applied (status_change current w) current)
      × (keep has_no_status (applied (status_change current w) current)
          ≡ keep has_no_status current)
unfolding applied status_change
applied-status_change current w =
    let own = kept-IsOwnOrNone w (stays w current) current (others_leave w current) in
    let rest = keep-rest w (stays w current) current (rest_stays w current) in
    elim (Bool-cases (is_status w (status_of current))) [
      | inl e ↦ rw e (
        kept-wanted w (stays w current) (rest_stays w current) current
            (is_status-some w (status_of current) e),
        own,
        rest,
      )
      | inr e ↦ rw e (
        labelled w (keep (stays w current) current)
            (kept-not_other w (stays w current) current (others_leave w current)),
        All-append (IsOwnOrNone w) (keep (stays w current) current) (status_label w ∷ []) own
            (label-IsOwnOrNone w),
        keep-append has_no_status (keep (stays w current) current) (status_label w ∷ [])
            ∙ rw (keep-label w) (append_nil _)
            ∙ rest,
      )
    ]
