-- ===== src/Sync/Once.antt =====
-- shannon/services/sync/announcements.py and shannon/services/sync/state_lines.py: one line posted
-- into an item's thread, once. Posting, the shutting after it and the statements that may fail are
-- answers of the world, given as arguments.
use shannon_bot.Base.{
  ==_iff, Bool, Bool-cases, List, [], any, ap, arith, false, if◌then◌else◌, inl, inr, not, refl,
  suc, true, ℕ, ◌&&◌, ◌==◌, ◌∙◌, ◌∷◌, ◌≡◌, ◌≤◌, ◌⊎◌,
}
use shannon_bot.Domain.Text.{Text, text_eq, text_eq_iff}
use shannon_bot.Sync.Notes.{Note, claim, is_note, release, release-claim}

-- What one run of `say_once` meets: whether the post lands, whether the claim can be given back and
-- whether the thread can be shut again.
pub record Weather : Type 0 where
  pub lands : Bool
  pub gives_back : Bool
  pub shuts : Bool

pub data Said : Type 0 where
  already : Said
  was_said : Said
  post_raised : Said
  shut_raised : Said

pub record Thread : Type 0 where
  pub notes : List Note
  pub posted : List (ℕ × Text)

unfoldable pub hand_back : Bool → ℕ → Text → List Note → List Note
unfolding release
hand_back ok item key notes = if ok then release item key notes else notes

unfoldable pub say_once : Weather → ℕ → Text → Thread → Thread × Said
unfolding claim hand_back
say_once w item key t =
    let (notes, ours) = claim item key t.notes in
    if not ours
    then (t, already)
    else if w.lands
    then (
      record { notes = notes; posted = (item, key) ∷ t.posted },
      if w.shuts then was_said else shut_raised,
    )
    else (record { notes = hand_back w.gives_back item key notes; posted = t.posted }, post_raised)

-- Every time a delivery is handled, it may say any line.
pub record Attempt : Type 0 where
  pub weather : Weather
  pub item : ℕ
  pub key : Text

unfoldable pub say_all : List Attempt → Thread → Thread
unfolding say_once
say_all [] t = t
say_all (a ∷ rest) t = say_all rest (say_once a.weather a.item a.key t).0

abbrev pub is_line : ℕ → Text → ℕ × Text → Bool
is_line item key p = p.0 == item && text_eq p.1 key

-- How often a line was posted.
unfoldable pub times : ℕ → Text → List (ℕ × Text) → ℕ
times item key [] = 0
times item key (p ∷ rest) =
    let before = times item key rest in if is_line item key p then suc before else before

-- Posted at most once, and only while it is claimed.
unfoldable pub IsSaidOnce : ℕ → Text → Thread → Type 0
IsSaidOnce item key t = times item key t.posted ≤ (if any (is_note item key) t.notes then 1 else 0)

pub any-same :
    (item' item : ℕ) (key' key : Text) (notes : List Note)
    → is_line item key (item', key') ≡ true
    → any (is_note item' key') notes ≡ any (is_note item key) notes
any-same item' item key' key notes e =
    let same_item : item' ≡ item = (==_iff item' item).0 (ground arith) in
    let same_key : key' ≡ key = (text_eq_iff key' key).0 (ground arith) in
    ap (λ (i : ℕ). any (is_note i key') notes) same_item
    ∙ ap (λ (k : Text). any (is_note item k) notes) same_key

-- What `say_once` leaves: the thread as it was, or the line claimed, with or without its post.
abbrev pub with_line : ℕ → Text → Thread → Thread
with_line item key t = record {
  notes = (claim item key t.notes).0;
  posted = (item, key) ∷ t.posted;
}

abbrev with_claim : ℕ → Text → Thread → Thread
with_claim item key t = record { notes = (claim item key t.notes).0; posted = t.posted }

say_once-cases :
    (w : Weather) (item : ℕ) (key : Text) (t : Thread)
    → (((say_once w item key t).0 ≡ t) ⊎ ((say_once w item key t).0 ≡ with_claim item key t))
      ⊎ (((claim item key t.notes).1 ≡ true) × ((say_once w item key t).0 ≡ with_line item key t))
unfolding say_once hand_back
say_once-cases w item key t = elim (Bool-cases (claim item key t.notes).1) [
  | inr e ↦ inl (inl (rw e refl))
  | inl e ↦ elim (Bool-cases w.lands) [
    | inl l ↦ inr (e, rw (e, l) refl)
    | inr l ↦ elim (Bool-cases w.gives_back) [
      | inl g ↦ inl (
          inl (
            rw (e, l, g)
              (ap (λ ns. record { notes = ns; posted = t.posted })
                (release-claim item key t.notes e))))
      | inr g ↦ inl (inr (rw (e, l, g) refl))
    ]
  ]
]

pub any-claim_other :
    (item' item : ℕ) (key' key : Text) (notes : List Note)
    → any (is_note item key) notes ≡ true
    → any (is_note item key) (claim item' key' notes).0 ≡ true
unfolding claim
any-claim_other item' item key' key notes e = ground arith

pub claim-unknown :
    (item : ℕ) (key : Text) (notes : List Note)
    → (claim item key notes).1 ≡ true
    → any (is_note item key) notes ≡ false
unfolding claim
claim-unknown item key notes e = ground arith

pub any-claim_same :
    (item' item : ℕ) (key' key : Text) (notes : List Note)
    → (claim item' key' notes).1 ≡ true
    → is_line item key (item', key') ≡ true
    → any (is_note item key) (claim item' key' notes).0 ≡ true
unfolding claim
any-claim_same item' item key' key notes e f = ground arith

pub times-line :
    (item' item : ℕ) (key' key : Text) (posted : List (ℕ × Text))
    → times item key ((item', key') ∷ posted) ≡ (
        if is_line item key (item', key')
        then suc (times item key posted)
        else times item key posted)
unfolding times
times-line item' item key' key posted = refl

posted_line :
    (item' : ℕ) (key' : Text) (item : ℕ) (key : Text) (t : Thread)
    → (claim item' key' t.notes).1 ≡ true
    → IsSaidOnce item key t
    → IsSaidOnce item key (with_line item' key' t)
unfolding IsSaidOnce
posted_line item' key' item key t ours h =
    rw (times-line item' item key' key t.posted)
      (elim (Bool-cases (is_line item key (item', key'))) [
        | inl e ↦ ground (
          arith,
          any-same item' item key' key t.notes e,
          claim-unknown item' key' t.notes ours,
          any-claim_same item' item key' key t.notes ours e,
        )
        | inr e ↦ rw e (ground (arith, any-claim_other item' item key' key t.notes))
      ])

pub say_once-IsSaidOnce :
    (w : Weather) (item' : ℕ) (key' : Text) (item : ℕ) (key : Text) (t : Thread)
    → IsSaidOnce item key t
    → IsSaidOnce item key (say_once w item' key' t).0
unfolding IsSaidOnce
say_once-IsSaidOnce w item' key' item key t h = elim (say_once-cases w item' key' t) [
  | inl (inl e) ↦ rw e h
  | inl (inr e) ↦ rw e (ground (arith, any-claim_other item' item key' key t.notes))
  | inr (ours, e) ↦ rw e (posted_line item' key' item key t ours h)
]

pub at_most :
    (item : ℕ) (key : Text) (t : Thread) → IsSaidOnce item key t → times item key t.posted ≤ 1
unfolding IsSaidOnce
at_most item key t h = ground arith

pub claim-free :
    (item : ℕ) (key : Text) (notes : List Note)
    → any (is_note item key) notes ≡ false
    → (claim item key notes).1 ≡ true
unfolding claim
claim-free item key notes e = rw e refl

-- However often deliveries are handled, and whatever fails, a line is posted at most once, from a
-- thread where it was posted at most once and only if its note is claimed.
pub say_all-once :
    (attempts : List Attempt) (item : ℕ) (key : Text) (t : Thread)
    → IsSaidOnce item key t
    → times item key (say_all attempts t).posted ≤ 1
unfolding say_all
say_all-once [] item key t h = at_most item key t h
say_all-once (a ∷ rest) item key t h =
    say_all-once rest item key (say_once a.weather a.item a.key t).0
      (say_once-IsSaidOnce a.weather a.item a.key item key t h)

-- A line whose post fails, and whose claim is given back, is not lost: the thread is as it was, and
-- the next run of the delivery says it.
say_once-retried :
    (w again : Weather) (item : ℕ) (key : Text) (t : Thread)
    → any (is_note item key) t.notes ≡ false
    → w.lands ≡ false
    → w.gives_back ≡ true
    → again.lands ≡ true
    → (say_once again item key (say_once w item key t).0).0 ≡ with_line item key t
unfolding say_once hand_back
say_once-retried w again item key t free lost back landing =
    let ours = claim-free item key t.notes free in
    rw (ours, lost, back, release-claim item key t.notes ours, ours, landing) refl
