-- ===== src/Reviews/Unanimous.antt =====
-- That `_round_up` comes to its line where everyone approved.
use shannon_bot.Base.{
  All, All-In, All-at, Bool-cases, In, List, Option, [], any, arith, at_head, false, in_tail, inl,
  inr, map, none, refl, some, true, ◌<◌, ◌||◌, ◌∙◌, ◌∷◌, ◌≡◌, ◌≤◌, ◌⊎◌,
}
use shannon_bot.Domain.Text.{Text, codes, text_eq, text_eq_iff}
use shannon_bot.Domain.Tracking.{approvals, wants}
use shannon_bot.People.Audience.{key_of}
use shannon_bot.People.Ledger.{is_named}
use shannon_bot.People.Names.{AreDistinct, is_named_same, text_eq_refl, text_eq_right}
use shannon_bot.Reviews.Agreed.{IsRead, is_dissent, is_voice-some, some-is_voice, voice}
use shannon_bot.Reviews.Approval.{
  Answers, ItemInThread, PullRequest, approved_key, came_to, count_reviews, in_thread, look_at,
  round_up, round_up_in, say_agreed,
}
use shannon_bot.Reviews.Latest.{latest_verdicts-newest, said_by, speaks}
use shannon_bot.Reviews.Verdicts.{
  Review, Verdicts, all_approved, by_id, counted, is_no_verdict, latest_from, latest_verdicts,
  put_verdict, verdict,
}
use shannon_bot.Sync.Notes.{is_note}
use shannon_bot.Sync.Once.{Thread, claim-free, say_once, was_said, with_line}
use shannon_bot.Sync.Policies.{Actor, shut}

abbrev names_in : Verdicts → List Text
names_in latest = map (λ (e : Text × Text). e.0) latest

put_verdict-named :
    (m name v : Text) (latest : Verdicts)
    → is_named m (names_in (put_verdict name v latest))
      ≡ (is_named m (names_in latest) || text_eq m name)
unfolding put_verdict is_named
put_verdict-named m name v [] = ground arith
put_verdict-named m name v (e ∷ rest) = elim (Bool-cases (text_eq e.0 name)) [
  | inl same ↦ let moved = text_eq_right e.0 name m same in ground arith
  | inr other ↦ ground (arith, put_verdict-named m name v rest)
]

AreDistinct-put_verdict :
    (name v : Text) (latest : Verdicts)
    → AreDistinct (names_in latest)
    → AreDistinct (names_in (put_verdict name v latest))
unfolding put_verdict is_named
AreDistinct-put_verdict name v [] d = (refl, tt)
AreDistinct-put_verdict name v (e ∷ rest) d = elim (Bool-cases (text_eq e.0 name)) [
  | inl same ↦ rw same d
  | inr other ↦ rw other (
    put_verdict-named e.0 name v rest ∙ rw (d.0, other) refl,
    AreDistinct-put_verdict name v rest d.1,
  )
]

AreDistinct-counted :
    (o : Option Actor) (v : Text) (latest : Verdicts)
    → AreDistinct (names_in latest)
    → AreDistinct (names_in (counted o v latest))
unfolding counted
AreDistinct-counted none v latest d = d
AreDistinct-counted (some a) v latest d = elim (Bool-cases (is_no_verdict v)) [
  | inl e ↦ rw e d
  | inr e ↦ rw e (AreDistinct-put_verdict (key_of a) v latest d)
]

AreDistinct-latest_from :
    (latest : Verdicts) (rs : List Review)
    → AreDistinct (names_in latest)
    → AreDistinct (names_in (latest_from latest rs))
unfolding latest_from
AreDistinct-latest_from latest [] d = d
AreDistinct-latest_from latest (r ∷ rs) d =
    AreDistinct-latest_from (counted r.author (verdict r) latest) rs
      (AreDistinct-counted r.author (verdict r) latest d)

AreDistinct-latest_verdicts : (rs : List Review) → AreDistinct (names_in (latest_verdicts rs))
unfolding latest_verdicts
AreDistinct-latest_verdicts rs = AreDistinct-latest_from [] (by_id rs) tt

In-named :
    (e : Text × Text) (latest : Verdicts) → In e latest → is_named e.0 (names_in latest) ≡ true
unfolding is_named
In-named e [] m = elim m [ ]
In-named e (_ ∷ rest) at_head = rw (text_eq_refl e.0) refl
In-named e (f ∷ rest) (in_tail m) = ground (arith, In-named e rest m)

In-said_by :
    (e : Text × Text) (latest : Verdicts)
    → AreDistinct (names_in latest)
    → In e latest
    → said_by e.0 latest ≡ some e.1
unfolding said_by
In-said_by e [] d m = elim m [ ]
In-said_by e (_ ∷ rest) d at_head = rw (text_eq_refl e.0) refl
In-said_by e (f ∷ rest) d (in_tail m) = elim (Bool-cases (text_eq f.0 e.0)) [
  | inl same ↦
      let there = In-named e rest m in let again = is_named_same f.0 e.0 (names_in rest) same in cc
  | inr other ↦ rw other (In-said_by e rest d.1 m)
]

-- Somebody left a verdict, and each verdict that is no approval has a later one of the same person.
abbrev pub IsUnanimous : List Review → Type 0
IsUnanimous rs =
    ((r : Review) × (name : Text) × In r rs × (voice r ≡ some name))
    × All
        (λ q.
          ((voice q ≡ none) ⊎ (verdict q ≡ codes "approved"))
          ⊎ ((r : Review) × In r rs × (voice r ≡ voice q) × (q.review_id < r.review_id)))
        rs

entry_approved :
    (rs : List Review) (e : Text × Text)
    → IsUnanimous rs
    → In e (latest_verdicts rs)
    → e.1 ≡ codes "approved"
entry_approved rs e h m =
    let there = In-said_by e (latest_verdicts rs) (AreDistinct-latest_verdicts rs) m in
    elim (latest_verdicts-newest e.0 rs) [
      | inl (same, silent) ↦ cc
      | inr (r, n, f, answer, newest) ↦
          let loud = is_voice-some e.0 (voice r) f in
          elim (All-at
            (λ q.
              ((voice q ≡ none) ⊎ (verdict q ≡ codes "approved"))
              ⊎ ((r : Review) × In r rs × (voice r ≡ voice q) × (q.review_id < r.review_id)))
            n h.1) [
              | inl (inl quiet) ↦ cc
              | inl (inr fine) ↦ let same : e.1 ≡ verdict r = cc in same ∙ fine
              | inr (r', n', also, later) ↦
                  elim (All-at (λ q. (q.review_id ≤ r.review_id) ⊎ (speaks e.0 q ≡ false)) n'
                    newest) [
                      | inl le ↦ ground arith
                      | inr quiet ↦ let heard = some-is_voice e.0 (voice r') (also ∙ loud) in cc
                    ]
            ]
    ]

no_dissent :
    (latest : Verdicts) → All (λ e. e.1 ≡ codes "approved") latest → any is_dissent latest ≡ false
no_dissent [] h = refl
no_dissent (e ∷ rest) h =
    let same = (text_eq_iff e.1 (codes "approved")).1 h.0 in rw (same, no_dissent rest h.1) refl

all_approved-nonempty :
    (name v : Text) (latest : Verdicts)
    → said_by name latest ≡ some v
    → any is_dissent latest ≡ false
    → all_approved latest ≡ true
unfolding all_approved said_by
all_approved-nonempty name v [] s h = cc
all_approved-nonempty name v (e ∷ rest) s h = rw h refl

IsUnanimous-all_approved :
    (rs : List Review) → IsUnanimous rs → all_approved (latest_verdicts rs) ≡ true
IsUnanimous-all_approved rs h =
    let (r, name, m, e) = h.0 in
    let quiet = no_dissent (latest_verdicts rs) (
      All-In (λ f. f.1 ≡ codes "approved") (latest_verdicts rs) (λ f n. entry_approved rs f h n)) in
    elim (latest_verdicts-newest name rs) [
      | inl (same, silent) ↦
          let hush = All-at (λ q. speaks name q ≡ false) m silent in
          let loud = some-is_voice name (voice r) e in cc
      | inr (q, n, f, answer, newest) ↦
          all_approved-nonempty name (verdict q) (latest_verdicts rs) answer quiet
    ]

-- Where the thread wants approvals, GitHub answers with an open pull request that is no draft, has a
-- head and waits for nobody, and with reviews in which everyone who left a verdict approved last,
-- the people are found, the line is new and the thread takes it: the line is posted and claimed.
pub round_up-says :
    (a : Answers) (spot : ItemInThread) (p : PullRequest) (rs : List Review) (t : Thread)
    → a.found ≡ in_thread spot
    → wants spot.tracking approvals ≡ true
    → IsRead a p rs
    → IsUnanimous rs
    → a.reaches ≡ true
    → a.weather.lands ≡ true
    → a.weather.shuts ≡ true
    → any (is_note spot.tracked_item_id (approved_key p.head_sha)) t.notes ≡ false
    → round_up a t ≡ (with_line spot.tracked_item_id (approved_key p.head_sha) t, came_to was_said)
unfolding round_up round_up_in look_at count_reviews say_agreed say_once
round_up-says a spot p rs t found wanted read h reaches lands shuts free =
    let (pull, reviews, no_draft, shut, head, nobody, no_team) = read in
    rw
      (
        found,
        wanted,
        pull,
        no_draft,
        shut,
        head,
        nobody,
        no_team,
        reviews,
        IsUnanimous-all_approved rs h,
        reaches,
        claim-free spot.tracked_item_id (approved_key p.head_sha) t.notes free,
        lands,
        shuts,
      )
      refl
