-- ===== src/Sync/Notes.antt =====
-- shannon/db/stores/mirrored_notes.py: which notes have been posted into an item's thread. A
-- statement is a function of the table, whose rows are distinct by item and key.
use shannon_bot.Base.{
  Bool, List, Option, [], any, arith, false, if◌then◌else◌, keep, map, none, not, refl, true, ℕ,
  ◌&&◌, ◌==◌, ◌∷◌, ◌≡◌,
}
use shannon_bot.Domain.Text.{Text, text_eq, text_eq_iff}

pub record Note : Type 0 where
  pub tracked_item_id : ℕ
  pub note_key : Text
  pub discord_message_id : Option ℕ

abbrev pub is_note : ℕ → Text → Note → Bool
is_note item key n = n.tracked_item_id == item && text_eq n.note_key key

-- The insert, and whether it was ours: a conflict does nothing.
unfoldable pub claim : ℕ → Text → List Note → List Note × Bool
unfolding text_eq
claim item key notes = if any (is_note item key) notes then (notes, false) else (
  record { tracked_item_id = item; note_key = key; discord_message_id = none } ∷ notes,
  true,
)

abbrev pub with_message : Option ℕ → Note → Note
with_message message n = record {
  tracked_item_id = n.tracked_item_id;
  note_key = n.note_key;
  discord_message_id = message;
}

unfoldable pub remember_the_message : ℕ → Text → Option ℕ → List Note → List Note
unfolding text_eq
remember_the_message item key message notes =
    map (λ n. if is_note item key n then with_message message n else n) notes

-- No row and a row without an id read the same.
unfoldable pub message_for : ℕ → Text → List Note → Option ℕ
unfolding text_eq
message_for item key [] = none
message_for item key (n ∷ rest) =
    let later = message_for item key rest in
    if is_note item key n then n.discord_message_id else later

unfoldable pub release : ℕ → Text → List Note → List Note
unfolding text_eq
release item key notes = keep (λ n. not (is_note item key n)) notes

any-keep-not :
    (item : ℕ) (key : Text) (notes : List Note)
    → any (is_note item key) (keep (λ n. not (is_note item key n)) notes) ≡ false
any-keep-not item key [] = refl
any-keep-not item key (n ∷ notes) = ground (arith, any-keep-not item key notes)

-- A claim that was handed back can be taken again.
pub claim-release :
    (item : ℕ) (key : Text) (notes : List Note) → (claim item key (release item key notes)).1 ≡ true
unfolding claim release
claim-release item key notes = rw (any-keep-not item key notes) refl

-- A claim that was just taken is known.
any-claim :
    (item : ℕ) (key : Text) (notes : List Note)
    → any (is_note item key) (claim item key notes).0 ≡ true
unfolding claim
any-claim item key notes = ground (arith, (text_eq_iff key key).1 refl)

claim-known :
    (item : ℕ) (key : Text) (notes : List Note)
    → any (is_note item key) notes ≡ true
    → claim item key notes ≡ (notes, false)
unfolding claim
claim-known item key notes e = rw e refl

-- The second claim of a note is refused, and changes nothing.
pub claim_twice :
    (item : ℕ) (key : Text) (notes : List Note)
    → claim item key (claim item key notes).0 ≡ ((claim item key notes).0, false)
claim_twice item key notes =
    claim-known item key (claim item key notes).0 (any-claim item key notes)

keep-none :
    (item : ℕ) (key : Text) (notes : List Note)
    → any (is_note item key) notes ≡ false
    → keep (λ n. not (is_note item key n)) notes ≡ notes
keep-none item key [] e = refl
keep-none item key (n ∷ notes) e = ground (arith, keep-none item key notes)

-- A claim that was ours and is handed back leaves the table as it was.
pub release-claim :
    (item : ℕ) (key : Text) (notes : List Note)
    → (claim item key notes).1 ≡ true
    → release item key (claim item key notes).0 ≡ notes
unfolding claim release
release-claim item key notes e =
    ground (arith, keep-none item key notes, (text_eq_iff key key).1 refl)

message_for-known :
    (item : ℕ) (key : Text) (message : Option ℕ) (notes : List Note)
    → any (is_note item key) notes ≡ true
    → message_for item key (remember_the_message item key message notes) ≡ message
unfolding message_for remember_the_message
message_for-known item key message [] e = cc
message_for-known item key message (n ∷ notes) e =
    ground (arith, message_for-known item key message notes)

-- A message that was written down for a claimed note is the one read back.
pub message_for-remember :
    (item : ℕ) (key : Text) (message : Option ℕ) (notes : List Note)
    → message_for item key (remember_the_message item key message (claim item key notes).0)
      ≡ message
message_for-remember item key message notes =
    message_for-known item key message (claim item key notes).0 (any-claim item key notes)
