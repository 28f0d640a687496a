-- ===== src/Sync/Together.antt =====
-- `ClaimedLine` of shannon/services/sync/announcements.py, with several workers saying lines at once:
-- each of its transactions, and the post between them, is a step of its own.
use shannon_bot.Base.{
  ==_iff, Bool, Bool-cases, List, [], any, ap, arith, false, if◌then◌else◌, inl, inr, refl, suc,
  true, ℕ, ◌+◌, ◌||◌, ◌∙◌, ◌∷◌, ◌≡◌, ◌≤◌,
}
use shannon_bot.Domain.Text.{Text, text_eq, text_eq_iff}
use shannon_bot.Sync.Notes.{Note, claim, is_note, release}
use shannon_bot.Sync.Once.{
  any-claim_other, any-claim_same, any-same, claim-unknown, hand_back, is_line, times, times-line,
}

-- `saying` are the lines that a worker has claimed and neither posted nor handed back.
pub record Shared : Type 0 where
  pub notes : List Note
  pub posted : List (ℕ × Text)
  pub saying : List (ℕ × Text)

-- Takes one occurrence of a line off.
unfoldable pub without : ℕ → Text → List (ℕ × Text) → List (ℕ × Text)
unfolding text_eq
without item key [] = []
without item key (p ∷ rest) =
    let tail = without item key rest in if is_line item key p then rest else p ∷ tail

-- `_claim`, and that the worker goes on to post when the claim was its own.
unfoldable pub start : ℕ → Text → Shared → Shared
unfolding claim
start item key s =
    let (notes, ours) = claim item key s.notes in
    if ours then record { notes = notes; posted = s.posted; saying = (item, key) ∷ s.saying } else s

-- The post lands.
unfoldable pub land : ℕ → Text → Shared → Shared
unfolding without
land item key s = record {
  notes = s.notes;
  posted = (item, key) ∷ s.posted;
  saying = without item key s.saying;
}

-- The post fails, and the claim is handed back if the database takes that.
unfoldable pub lose : Bool → ℕ → Text → Shared → Shared
unfolding without hand_back
lose gives_back item key s = record {
  notes = hand_back gives_back item key s.notes;
  posted = s.posted;
  saying = without item key s.saying;
}

pub data SayStep : Shared → Shared → Type 0 where
  starts : (item : ℕ) (key : Text) (s : Shared) → SayStep s (start item key s)
  lands_one :
      (item : ℕ) (key : Text) (s : Shared)
      → any (is_line item key) s.saying ≡ true
      → SayStep s (land item key s)
  loses_one :
      (gives_back : Bool) (item : ℕ) (key : Text) (s : Shared)
      → any (is_line item key) s.saying ≡ true
      → SayStep s (lose gives_back item key s)

pub data SayReach (s : Shared) : Shared → Type 0 where
  at_start : SayReach s s
  and_then : {t u : Shared} → SayReach s t → SayStep t u → SayReach s u

-- The posts of a line and the workers about to post it are one together, and none unclaimed.
unfoldable pub IsOneVoice : ℕ → Text → Shared → Type 0
IsOneVoice item key s =
    times item key s.posted + times item key s.saying
    ≤ (if any (is_note item key) s.notes then 1 else 0)

is_line-eq :
    (item i : ℕ) (key k : Text) (p : ℕ × Text)
    → is_line i k p ≡ true
    → is_line item key p ≡ is_line item key (i, k)
is_line-eq item i key k p e =
    let same_item : p.0 ≡ i = (==_iff p.0 i).0 (ground arith) in
    let same_key : p.1 ≡ k = (text_eq_iff p.1 k).0 (ground arith) in
    ap (λ (x : ℕ). is_line item key (x, p.1)) same_item
    ∙ ap (λ (x : Text). is_line item key (i, x)) same_key

one_more : (b : Bool) (n : ℕ) → (if b then suc n else n) ≡ n + (if b then 1 else 0)
one_more b n = ground arith

one_same :
    (b c : Bool) (n m : ℕ)
    → n ≡ m + (if c then 1 else 0)
    → (if b then suc n else n) ≡ (if b then suc m else m) + (if c then 1 else 0)
one_same b c n m e = ground (arith, e)

times-without :
    (item i : ℕ) (key k : Text) (l : List (ℕ × Text))
    → any (is_line i k) l ≡ true
    → times item key l ≡ times item key (without i k l) + (if is_line item key (i, k) then 1 else 0)
unfolding times without
times-without item i key k [] e = cc
times-without item i key k (p ∷ l) e = elim (Bool-cases (is_line i k p)) [
  | inl f ↦
      rw (f, is_line-eq item i key k p f) (one_more (is_line item key (i, k)) (times item key l))
  | inr f ↦ rw f (
      one_same (is_line item key p) (is_line item key (i, k)) (times item key l)
        (times item key (without i k l)) (times-without item i key k l (rw f at e)))
]

-- What is left of a line's claim when another line's is handed back: all of it.
any-release_other :
    (item i : ℕ) (key k : Text) (notes : List Note)
    → is_line item key (i, k) ≡ false
    → any (is_note item key) (release i k notes) ≡ any (is_note item key) notes
unfolding release
any-release_other item i key k [] e = refl
any-release_other item i key k (n ∷ notes) e = elim (Bool-cases (is_note i k n)) [
  | inl f ↦
      let other : is_note item key n ≡ false =
        is_line-eq item i key k (n.tracked_item_id, n.note_key) f ∙ e in
      rw (f, other) (any-release_other item i key k notes e)
  | inr f ↦ rw f (ap (λ b. is_note item key n || b) (any-release_other item i key k notes e))
]

start-IsOneVoice :
    (i : ℕ) (k : Text) (item : ℕ) (key : Text) (s : Shared)
    → IsOneVoice item key s
    → IsOneVoice item key (start i k s)
unfolding start IsOneVoice
start-IsOneVoice i k item key s h = elim (Bool-cases (claim i k s.notes).1) [
  | inr e ↦ rw e h
  | inl e ↦
      rw (e, times-line i item k key s.saying)
        (elim (Bool-cases (is_line item key (i, k))) [
          | inl f ↦
              rw (f, any-claim_same i item k key s.notes e f)
                (ground (arith, any-same i item k key s.notes f, claim-unknown i k s.notes e))
          | inr f ↦ rw f (ground (arith, any-claim_other i item k key s.notes))
        ])
]

land-IsOneVoice :
    (i : ℕ) (k : Text) (item : ℕ) (key : Text) (s : Shared)
    → any (is_line i k) s.saying ≡ true
    → IsOneVoice item key s
    → IsOneVoice item key (land i k s)
unfolding land IsOneVoice
land-IsOneVoice i k item key s e h =
    rw (times-line i item k key s.posted) (ground (arith, times-without item i key k s.saying e, h))

lose-IsOneVoice :
    (gives_back : Bool) (i : ℕ) (k : Text) (item : ℕ) (key : Text) (s : Shared)
    → any (is_line i k) s.saying ≡ true
    → IsOneVoice item key s
    → IsOneVoice item key (lose gives_back i k s)
unfolding lose IsOneVoice hand_back
lose-IsOneVoice false i k item key s e h = ground (arith, times-without item i key k s.saying e, h)
lose-IsOneVoice true i k item key s e h = elim (Bool-cases (is_line item key (i, k))) [
  | inl f ↦ ground (arith, times-without item i key k s.saying e, h)
  | inr f ↦
      rw (any-release_other item i key k s.notes f)
        (ground (arith, times-without item i key k s.saying e, h))
]

-- Every step, by whichever worker, keeps at most one voice for a line.
SayStep-IsOneVoice :
    (item : ℕ) (key : Text) {s t : Shared}
    → SayStep s t
    → IsOneVoice item key s
    → IsOneVoice item key t
SayStep-IsOneVoice item key (starts i k s) h = start-IsOneVoice i k item key s h
SayStep-IsOneVoice item key (lands_one i k s e) h = land-IsOneVoice i k item key s e h
SayStep-IsOneVoice item key (loses_one b i k s e) h = lose-IsOneVoice b i k item key s e h

SayReach-IsOneVoice :
    (item : ℕ) (key : Text) {s t : Shared}
    → SayReach s t
    → IsOneVoice item key s
    → IsOneVoice item key t
SayReach-IsOneVoice item key at_start h = h
SayReach-IsOneVoice item key (and_then r st) h =
    SayStep-IsOneVoice item key st (SayReach-IsOneVoice item key r h)

voice_once :
    (item : ℕ) (key : Text) (s : Shared) → IsOneVoice item key s → times item key s.posted ≤ 1
unfolding IsOneVoice
voice_once item key s h = ground (arith, h)

none_said :
    (item : ℕ) (key : Text) → IsOneVoice item key (record { notes = []; posted = []; saying = [] })
unfolding IsOneVoice times
none_said item key = omega arith

-- However many workers claim, post and hand back lines, in whatever order their steps come and
-- whichever posts fail, no line is posted twice, from a thread with nothing said or claimed.
pub SayReach-once :
    (item : ℕ) (key : Text) {t : Shared}
    → SayReach (record { notes = []; posted = []; saying = [] }) t
    → times item key t.posted ≤ 1
SayReach-once item key {t} r =
    voice_once item key t (SayReach-IsOneVoice item key r (none_said item key))
