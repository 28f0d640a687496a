-- ===== src/People/Rows.antt =====
-- What `replace` leaves of a row that it keeps: a fact about a row that says nothing of its name and its
-- account stays true of the row with its id.
use shannon_bot.Base.{
  All, All-append, All-imp, All-keep, All-map, Bool, Bool-cases, List, Option, Option-cases, [],
  any, arith, inl, inr, is_none, keep, length, map, not, refl, subst, sym, ℕ, ◌&&◌, ◌*◌, ◌+◌, ◌<◌,
  ◌==◌, ◌∙◌, ◌∷◌, ◌≡◌,
}
use shannon_bot.Domain.Text.{Text, text_eq}
use shannon_bot.People.Ledger.{Assignment, Assignments, People, is_for, is_named}
use shannon_bot.People.Matching.{Matches, ids_of, match_rows, matched_rows, wanted_from}
use shannon_bot.People.Rename.{
  Renamed, Renames, is_taken, name_taken, names_written, rename_rounds, renamed, sort_by,
  still_going, write_names, written,
}
use shannon_bot.People.Replace.{
  account_of, after_rename, before_rename, held_names, insert_all, insert_one, learnt,
  removed_names, replace, replaced, to_rename, unmatched, without_names,
}
use shannon_bot.Sync.Policies.{Actor, ActorRole}

-- The rows with an id are such.
abbrev pub AreSuch : (Assignment → Type 0) → ℕ → List Assignment → Type 0
AreSuch P i rows = All (λ r. r.id ≡ i → P r) rows

-- They are, and the id is spent.
abbrev pub IsSuch : (Assignment → Type 0) → ℕ → Assignments → Type 0
IsSuch P i t = (i < t.next_id) × AreSuch P i t.rows

-- A change that keeps a row's id and what is so of the row.
abbrev pub Keeps : (Assignment → Type 0) → (Assignment → Assignment) → Type 0
Keeps P f = (r : Assignment) → ((f r).id ≡ r.id) × (P r → P (f r))

pub AreSuch-map :
    (P : Assignment → Type 0) (i : ℕ) (f : Assignment → Assignment) (rows : List Assignment)
    → Keeps P f
    → AreSuch P i rows
    → AreSuch P i (map f rows)
AreSuch-map P i f rows k h =
    All-map (λ r. r.id ≡ i → P r) f rows
      (All-imp (λ r. r.id ≡ i → P r) (λ r. (f r).id ≡ i → P (f r)) rows
        (λ r h same. (k r).1 (h (sym (k r).0 ∙ same))) h)

-- What is so of a row, whatever its name and its account.
pub record IsNameless (P : Assignment → Type 0) : Type 0 where
  pub any_name : (r : Assignment) (name : Text) → P r → P (record r { github_username = name })
  pub any_account : (r : Assignment) (a : Option ℕ) → P r → P (record r { github_user_id = a })

replaced-injective : (t u : Assignments) → replaced t ≡ replaced u → t ≡ u
replaced-injective t u e = cc

module _ (P : Assignment → Type 0) (nameless : IsNameless P) where
  written-Keeps : (i : ℕ) (name : Text) → Keeps P (written i name)
  unfolding written
  written-Keeps i name r = elim (Bool-cases (r.id == i)) [
    | inl e ↦ rw e (refl, nameless.any_name r name)
    | inr e ↦ rw e (refl, λ h. h)
  ]

  learnt-Keeps : (wanted : People) (mine : Renames) → Keeps P (learnt wanted mine)
  unfolding learnt
  learnt-Keeps wanted [] r = (refl, λ h. h)
  learnt-Keeps wanted (m ∷ mine) r =
      elim (Bool-cases (m.1.id == r.id && is_none r.github_user_id)) [
        | inl e ↦ rw (learnt, e) (refl, nameless.any_account r (account_of m.0 wanted))
        | inr e ↦ rw (learnt, e) (learnt-Keeps wanted mine r)
      ]

  AreSuch-write_names :
      (i item : ℕ) (role : ActorRole) (writes : List (ℕ × Text)) (rows after : List Assignment)
      → write_names item role writes rows ≡ names_written after
      → AreSuch P i rows
      → AreSuch P i after
  unfolding write_names
  AreSuch-write_names i item role [] rows after e h =
      let same : names_written rows ≡ names_written after = e in
      let same_rows : rows ≡ after = cc in subst (AreSuch P i) same_rows h
  AreSuch-write_names i item role (w ∷ writes) rows after e h =
      elim (Bool-cases (is_taken item role w.0 w.1 rows)) [
        | inl f ↦ let no : name_taken ≡ names_written after = rw (write_names, f) at e in cc
        | inr f ↦
            AreSuch-write_names i item role writes (map (written w.0 w.1) rows) after
              (rw (write_names, f) at e)
              (AreSuch-map P i (written w.0 w.1) rows (written-Keeps w.0 w.1) h)
      ]

  IsSuch-insert_one :
      (i item : ℕ) (role : ActorRole) (as_of : Option ℕ) (login : Text) (account : Option ℕ)
      (t : Assignments)
      → IsSuch P i t
      → IsSuch P i (insert_one item role as_of login account t)
  unfolding insert_one
  IsSuch-insert_one i item role as_of login account t h =
      let late : i < t.next_id + 1 = omega (arith, h.0) in
      let clash = any (λ r. is_for item role r && text_eq r.github_username login) t.rows in
      elim (Bool-cases clash) [
        | inl e ↦ rw e (late, h.1)
        | inr e ↦ rw e (
          late,
          All-append (λ r. r.id ≡ i → P r) t.rows (_ ∷ []) h.1 (λ same. ground (arith, h.0), tt),
        )
      ]

  IsSuch-insert_all :
      (i item : ℕ) (role : ActorRole) (as_of : Option ℕ) (wanted : People) (logins : List Text)
      (t : Assignments)
      → IsSuch P i t
      → IsSuch P i (insert_all item role as_of wanted logins t)
  unfolding insert_all
  IsSuch-insert_all i item role as_of wanted [] t h = h
  IsSuch-insert_all i item role as_of wanted (login ∷ logins) t h =
      IsSuch-insert_all i item role as_of wanted logins
        (insert_one item role as_of login (account_of login wanted) t)
        (IsSuch-insert_one i item role as_of login (account_of login wanted) t h)

  AreSuch-keep :
      (i : ℕ) (p : Assignment → Bool) (rows : List Assignment)
      → AreSuch P i rows
      → AreSuch P i (keep p rows)
  AreSuch-keep i p rows h = All-keep (λ r. r.id ≡ i → P r) p rows h

  AreSuch-before_rename :
      (i item : ℕ) (role : ActorRole) (as_of : Option ℕ) (wanted : People) (mine : Matches)
      (rows : List Assignment)
      → AreSuch P i rows
      → AreSuch P i (before_rename item role as_of wanted mine rows)
  unfolding before_rename without_names
  AreSuch-before_rename i item role as_of wanted mine rows h =
      let gone = removed_names as_of (ids_of mine) (keep (is_for item role) rows) in
      AreSuch-map P i (learnt wanted (matched_rows mine)) (without_names item role gone rows)
        (learnt-Keeps wanted (matched_rows mine))
        (AreSuch-keep i (λ r. not (is_for item role r && is_named r.github_username gone)) rows h)

  IsSuch-after_rename :
      (i item : ℕ) (role : ActorRole) (as_of : Option ℕ) (wanted : People) (mine : Matches)
      (t after : Assignments) (outcome : Renamed)
      → ((rows : List Assignment) → outcome ≡ names_written rows → AreSuch P i rows)
      → i < t.next_id
      → after_rename item role as_of wanted mine t outcome ≡ replaced after
      → IsSuch P i after
  unfolding after_rename
  IsSuch-after_rename i item role as_of wanted mine t after (names_written rows) h late e =
      let kept_so : IsSuch P i (record t { rows = rows }) = (late, h rows refl) in
      let added =
        insert_all item role as_of wanted (sort_by (λ n. n) (unmatched mine))
          (record t { rows = rows }) in
      subst (IsSuch P i) (replaced-injective added after e) (
        IsSuch-insert_all i item role as_of wanted (sort_by (λ n. n) (unmatched mine))
          (record t { rows = rows }) kept_so)
  IsSuch-after_rename i item role as_of wanted mine t after name_taken h late e = cc
  IsSuch-after_rename i item role as_of wanted mine t after still_going h late e = cc

  AreSuch-renamed :
      (i item : ℕ) (role : ActorRole) (waiting : Renames) (held : List Text)
      (rows after : List Assignment)
      → renamed item role waiting held rows ≡ names_written after
      → AreSuch P i rows
      → AreSuch P i after
  unfolding renamed
  AreSuch-renamed i item role waiting held rows after e h =
      elim (Option-cases (rename_rounds (2 * length waiting) waiting held)) [
        | inl f ↦ let no : still_going ≡ names_written after = rw (renamed, f) at e in cc
        | inr (writes, f) ↦
            AreSuch-write_names i item role writes rows after (rw (renamed, f) at e) h
      ]

  pub IsSuch-replace :
      (i item : ℕ) (role : ActorRole) (actors : List Actor) (as_of : Option ℕ)
      (t after : Assignments)
      → replace item role actors as_of t ≡ replaced after
      → IsSuch P i t
      → IsSuch P i after
  unfolding replace
  IsSuch-replace i item role actors as_of t after e h =
      let wanted = wanted_from [] actors in
      let mine = match_rows wanted (keep (is_for item role) t.rows) in
      let kept = matched_rows mine in
      let rows = before_rename item role as_of wanted mine t.rows in
      IsSuch-after_rename i item role as_of wanted mine t after
        (renamed item role (to_rename kept) (held_names kept) rows)
        (λ written_rows k.
          AreSuch-renamed i item role (to_rename kept) (held_names kept) rows written_rows k
            (AreSuch-before_rename i item role as_of wanted mine t.rows h.1))
        h.0 e
