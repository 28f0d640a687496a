-- ===== src/People/Replacing.antt =====
-- `replace` of shannon/db/stores/assignments.py always comes back: what it hands to `_rename` is such
-- that the loop there ends.
use shannon_bot.Base.{
  All, Bool, Bool-cases, List, Option, [], arith, false, inl, inr, keep, length, map, none, not,
  refl, some, true, ℕ, ◌*◌, ◌∙◌, ◌∷◌, ◌≡◌, ◌≢◌,
}
use shannon_bot.Domain.Text.{Text, lower, text_eq}
use shannon_bot.People.Ending.{rename_rounds-ends}
use shannon_bot.People.Keys.{keys, match_rows-IsMatched, wanted_from-IsWanted}
use shannon_bot.People.Ledger.{Assignment, Assignments, People, is_for, is_named}
use shannon_bot.People.Matching.{Matches, match_rows, matched_rows, wanted_from}
use shannon_bot.People.Names.{AreDistinct, is_named_same, text_eq_right}
use shannon_bot.People.Parking.{IsRenaming}
use shannon_bot.People.Rename.{
  Renamed, Renames, is_taken, name_taken, names_written, renamed, still_going, write_names, written,
}
use shannon_bot.People.Renaming.{
  IsCovered, IsLogin, is_named-keep, is_named-parts, logins_of, names_held,
}
use shannon_bot.People.Replace.{
  after_rename, before_rename, held_names, never_ends, replace, to_rename,
}
use shannon_bot.People.Rounds.{AreDistinct-keep, IsLogin-keep}
use shannon_bot.Sync.Policies.{Actor, ActorRole}

matched_rows-named :
    (n : Text) (mine : Matches)
    → is_named n (keys mine) ≡ false
    → is_named n (logins_of (matched_rows mine)) ≡ false
unfolding matched_rows is_named
matched_rows-named n [] h = refl
matched_rows-named n ((login, none) ∷ mine) h = matched_rows-named n mine (ground arith)
matched_rows-named n ((login, some r) ∷ mine) h =
    let rest = matched_rows-named n mine (ground arith) in ground arith

AreDistinct-matched_rows :
    (mine : Matches) → AreDistinct (keys mine) → AreDistinct (logins_of (matched_rows mine))
unfolding matched_rows
AreDistinct-matched_rows [] d = tt
AreDistinct-matched_rows ((login, none) ∷ mine) d = AreDistinct-matched_rows mine d.1
AreDistinct-matched_rows ((login, some r) ∷ mine) d =
    (matched_rows-named login mine d.0, AreDistinct-matched_rows mine d.1)

IsLogin-matched_rows :
    (mine : Matches) → All IsLogin (keys mine) → All IsLogin (logins_of (matched_rows mine))
unfolding matched_rows
IsLogin-matched_rows [] l = tt
IsLogin-matched_rows ((login, none) ∷ mine) l = IsLogin-matched_rows mine l.1
IsLogin-matched_rows ((login, some r) ∷ mine) l = (l.0, IsLogin-matched_rows mine l.1)

-- A row that keeps its name has the login that it was matched with.
kept_name :
    (n : Text) (kept : Renames)
    → is_named n (names_held (keep (λ m. not (not (text_eq m.1.github_username m.0))) kept)) ≡ true
    → is_named n (logins_of (keep (λ m. not (not (text_eq m.1.github_username m.0))) kept)) ≡ true
unfolding is_named
kept_name n [] h = h
kept_name n (m ∷ kept) h = elim (Bool-cases (text_eq m.1.github_username m.0)) [
  | inl same ↦
      let moved = text_eq_right m.1.github_username m.0 n same in ground (arith, kept_name n kept)
  | inr other ↦ ground (arith, kept_name n kept)
]

not_named-keep :
    (n : Text) (p : Text × Assignment → Bool) (w : Renames)
    → is_named n (logins_of w) ≡ false
    → is_named n (logins_of (keep p w)) ≡ false
not_named-keep n p w h = elim (Bool-cases (is_named n (logins_of (keep p w)))) [
  | inl k ↦ let m = is_named-keep (λ e. e.0) n p w k in cc
  | inr k ↦ k
]

-- Of distinct logins none is on both sides of a test.
one_side :
    (n : Text) (p : Text × Assignment → Bool) (w : Renames)
    → AreDistinct (logins_of w)
    → is_named n (logins_of (keep p w)) ≡ true
    → is_named n (logins_of (keep (λ e. not (p e)) w)) ≡ false
unfolding is_named
one_side n p [] d h = refl
one_side n p (x ∷ w) d h = elim (Bool-cases (text_eq n x.0)) [
  | inl same ↦
      let gone : is_named n (logins_of w) ≡ false = is_named_same n x.0 (logins_of w) same ∙ d.0 in
      let one = not_named-keep n p w gone in
      let other = not_named-keep n (λ e. not (p e)) w gone in
      elim (Bool-cases (p x)) [
        | inl e ↦ rw e other
        | inr e ↦ let h' : is_named n (logins_of (keep p w)) ≡ true = rw e at h in cc
      ]
  | inr other ↦ ground (arith, one_side n p w d.1)
]

IsCovered-to_rename :
    (kept : Renames) → AreDistinct (logins_of kept) → IsCovered (to_rename kept) (held_names kept)
unfolding to_rename held_names
IsCovered-to_rename kept d n h k =
    let moves = λ (m : Text × Assignment). not (text_eq m.1.github_username m.0) in
    let away = one_side n moves kept d k in
    is_named-parts (λ m. m.1.github_username) n moves kept h
      (elim (Bool-cases (is_named n (names_held (keep (λ m. not (moves m)) kept)))) [
        | inl e ↦ let no = kept_name n kept e in cc
        | inr e ↦ e
      ])

-- What `replace` hands to `_rename`.
IsRenaming-to_rename :
    (mine : Matches)
    → AreDistinct (keys mine) × All IsLogin (keys mine)
    → IsRenaming (to_rename (matched_rows mine)) (held_names (matched_rows mine))
unfolding to_rename
IsRenaming-to_rename mine h =
    let kept = matched_rows mine in
    let d = AreDistinct-matched_rows mine h.0 in
    let moves = λ (m : Text × Assignment). not (text_eq m.1.github_username m.0) in
    record {
      distinct = AreDistinct-keep moves kept d;
      are_logins = IsLogin-keep moves kept (IsLogin-matched_rows mine h.1);
      covered = IsCovered-to_rename kept d;
    }

write_names-ends :
    (item : ℕ) (role : ActorRole) (writes : List (ℕ × Text)) (rows : List Assignment)
    → write_names item role writes rows ≢ still_going
unfolding write_names
write_names-ends item role [] rows h = cc
write_names-ends item role (w ∷ writes) rows h =
    elim (Bool-cases (is_taken item role w.0 w.1 rows)) [
      | inl e ↦ let h' : name_taken ≡ still_going = rw (write_names, e) at h in cc
      | inr e ↦
          write_names-ends item role writes (map (written w.0 w.1) rows) (rw (write_names, e) at h)
    ]

renamed-ends :
    (item : ℕ) (role : ActorRole) (waiting : Renames) (held : List Text) (rows : List Assignment)
    → IsRenaming waiting held
    → renamed item role waiting held rows ≢ still_going
unfolding renamed
renamed-ends item role waiting held rows i h =
    let (writes, e) = rename_rounds-ends (2 * length waiting) waiting held i (inl (omega arith)) in
    write_names-ends item role writes rows (rw (renamed, e) at h)

after_rename-ends :
    (item : ℕ) (role : ActorRole) (as_of : Option ℕ) (wanted : People) (mine : Matches)
    (t : Assignments) (outcome : Renamed)
    → after_rename item role as_of wanted mine t outcome ≡ never_ends
    → outcome ≡ still_going
unfolding after_rename
after_rename-ends item role as_of wanted mine t (names_written after) h = cc
after_rename-ends item role as_of wanted mine t name_taken h = cc
after_rename-ends item role as_of wanted mine t still_going h = refl

-- Where no login begins with a hyphen, which GitHub does not allow, `replace` ends, whatever the rows
-- are and however the people on them have traded names: the loop of `_rename` never runs out of the
-- two rounds it is given for each name.
pub replace-ends :
    (item : ℕ) (role : ActorRole) (actors : List Actor) (as_of : Option ℕ) (t : Assignments)
    → All (λ a. IsLogin (lower a.login)) actors
    → replace item role actors as_of t ≢ never_ends
unfolding replace
replace-ends item role actors as_of t l h =
    let wanted = wanted_from [] actors in
    let mine = match_rows wanted (keep (is_for item role) t.rows) in
    let kept = matched_rows mine in
    let rows = before_rename item role as_of wanted mine t.rows in
    let is_wanted = wanted_from-IsWanted [] actors l (tt, tt) in
    renamed-ends item role (to_rename kept) (held_names kept) rows
      (IsRenaming-to_rename mine
        (match_rows-IsMatched wanted (keep (is_for item role) t.rows) is_wanted))
      (after_rename-ends item role as_of wanted mine t
        (renamed item role (to_rename kept) (held_names kept) rows) h)
