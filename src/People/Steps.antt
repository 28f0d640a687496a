-- ===== src/People/Steps.antt =====
-- The statements that workers put to `item_assignments`, in any order, and what stays so of a row.
use shannon_bot.Base.{
  All, All-at, All-imp, All-map, Bool, Bool-cases, In, In-keep, List, Option, [], arith, at_head,
  if◌then◌else◌, in_tail, inl, inr, keep, none, refl, some, subst, sym, true, ℕ, ◌<◌, ◌∙◌, ◌∷◌, ◌≡◌,
  ◌≢◌, ◌⊎◌,
}
use shannon_bot.Domain.Text.{Text}
use shannon_bot.People.Ledger.{
  Assignment, Assignments, People, answered, answered_before, asked_anew, asked_before, asked_by,
  claim_notifications, is_answered_and_asked, is_answered_by, is_asked_again, is_owed, is_released,
  mark_fulfilled, or_now, release_notifications, reopen_if_newer, reopen_request, reopened_where,
  told, untold, update_where,
}
use shannon_bot.People.Replace.{replace, replaced}
use shannon_bot.People.Rows.{AreSuch-map, IsNameless, IsSuch, IsSuch-replace, Keeps}
use shannon_bot.Sync.Policies.{Actor, ActorRole}

-- Any worker's next statement or `replace`; those that hand a ping back and those that ask for a
-- request again are let in by the two flags.
pub data LedgerStep (hands_back asks : Bool) (t : Assignments) : Assignments → Type 0 where
  claims :
      (now item : ℕ) (role : ActorRole)
      → LedgerStep hands_back asks t (claim_notifications now item role t).0
  answers :
      (now item : ℕ) (role : ActorRole) (name : Text) (when account : Option ℕ)
      → LedgerStep hands_back asks t (mark_fulfilled now item role name when account t).0
  lists :
      (item : ℕ) (role : ActorRole) (actors : List Actor) (as_of : Option ℕ) (after : Assignments)
      → replace item role actors as_of t ≡ replaced after
      → LedgerStep hands_back asks t after
  gives_back :
      hands_back ≡ true
      → (item : ℕ) (role : ActorRole) (told_to : People)
      → LedgerStep hands_back asks t (release_notifications item role told_to t)
  asks_again :
      asks ≡ true
      → (item : ℕ) (role : ActorRole) (logins : List Text) (as_of : Option ℕ)
      → LedgerStep hands_back asks t (reopen_request item role logins as_of t).0
  asks_newer :
      asks ≡ true
      → (item : ℕ) (role : ActorRole) (logins : List Text) (as_of : Option ℕ)
      → LedgerStep hands_back asks t (reopen_if_newer item role logins as_of t).0

pub data LedgerRun (hands_back asks : Bool) (t : Assignments) : Assignments → Type 0 where
  at_start : LedgerRun hands_back asks t t
  then_step :
      {u v : Assignments}
      → LedgerRun hands_back asks t u
      → LedgerStep hands_back asks u v
      → LedgerRun hands_back asks t v

-- What each statement leaves so of the rows it changes.
pub record IsKept (hands_back asks : Bool) (P : Assignment → Type 0) : Type 0 where
  pub nameless : IsNameless P
  pub telling : (now : ℕ) (r : Assignment) → P r → P (told now r)
  pub answering :
      (submitted : ℕ) (r : Assignment)
      → asked_by submitted r.requested_at ≡ true
      → P r
      → P (answered submitted r)
  pub handing : hands_back ≡ true → (r : Assignment) → P r → P (untold r)
  pub asking :
      asks ≡ true
      → (as_of : ℕ) (r : Assignment)
      → (asked_before as_of r.requested_at ≡ true) ⊎ (answered_before as_of r.fulfilled_at ≡ true)
      → P r
      → P (asked_anew as_of r)

Keeps-where :
    (P : Assignment → Type 0) (found : Assignment → Bool) (change : Assignment → Assignment)
    → ((r : Assignment) → found r ≡ true → ((change r).id ≡ r.id) × (P r → P (change r)))
    → Keeps P (λ r. if found r then change r else r)
Keeps-where P found change k r = elim (Bool-cases (found r)) [
  | inl e ↦ rw e (k r e)
  | inr e ↦ rw e (refl, λ h. h)
]

is_answered_by-asked :
    (item : ℕ) (role : ActorRole) (name : Text) (account : Option ℕ) (submitted : ℕ)
    (r : Assignment)
    → is_answered_by item role name account submitted r ≡ true
    → asked_by submitted r.requested_at ≡ true
unfolding is_answered_by
is_answered_by-asked item role name account submitted r e = ground arith

pub is_asked_again-asked :
    (item : ℕ) (role : ActorRole) (logins : List Text) (as_of : ℕ) (r : Assignment)
    → is_asked_again item role logins as_of r ≡ true
    → asked_before as_of r.requested_at ≡ true
unfolding is_asked_again
is_asked_again-asked item role logins as_of r e = ground arith

is_answered_and_asked-answered :
    (item : ℕ) (role : ActorRole) (logins : List Text) (as_of : ℕ) (r : Assignment)
    → is_answered_and_asked item role logins as_of r ≡ true
    → answered_before as_of r.fulfilled_at ≡ true
unfolding is_answered_and_asked
is_answered_and_asked-answered item role logins as_of r e = ground arith

module _ (hands_back asks : Bool) (P : Assignment → Type 0) (k : IsKept hands_back asks P)
    (i : ℕ) where
  IsSuch-where :
      (found : Assignment → Bool) (change : Assignment → Assignment) (t : Assignments)
      → ((r : Assignment) → found r ≡ true → ((change r).id ≡ r.id) × (P r → P (change r)))
      → IsSuch P i t
      → IsSuch P i (record t { rows = update_where found change t.rows })
  IsSuch-where found change t keeps h = (
    h.0,
    AreSuch-map P i (λ r. if found r then change r else r) t.rows (Keeps-where P found change keeps)
        h.1,
  )

  IsSuch-step : {t u : Assignments} → LedgerStep hands_back asks t u → IsSuch P i t → IsSuch P i u
  unfolding claim_notifications mark_fulfilled release_notifications reopen_request reopen_if_newer
      reopened_where told answered untold asked_anew
  IsSuch-step {t} (claims now item role) h =
      IsSuch-where (is_owed item role) (told now) t (λ r e. (refl, k.telling now r)) h
  IsSuch-step {t} (answers now item role name when account) h =
      let at = or_now when now in
      IsSuch-where (is_answered_by item role name account at) (answered at) t
        (λ r e. (refl, k.answering at r (is_answered_by-asked item role name account at r e))) h
  IsSuch-step {t} (lists item role actors as_of after e) h =
      IsSuch-replace P k.nameless i item role actors as_of t after e h
  IsSuch-step {t} (gives_back allowed item role []) h = h
  IsSuch-step {t} (gives_back allowed item role (p ∷ told_to)) h =
      IsSuch-where (is_released item role (p ∷ told_to)) untold t
        (λ r e. (refl, k.handing allowed r)) h
  IsSuch-step {t} (asks_again allowed item role [] as_of) h = h
  IsSuch-step {t} (asks_again allowed item role (l ∷ logins) none) h = h
  IsSuch-step {t} (asks_again allowed item role (l ∷ logins) (some as_of)) h =
      IsSuch-where (is_asked_again item role (l ∷ logins) as_of) (asked_anew as_of) t
        (λ r e. (
          refl,
          k.asking allowed as_of r (inl (is_asked_again-asked item role (l ∷ logins) as_of r e)),
        ))
        h
  IsSuch-step {t} (asks_newer allowed item role [] as_of) h = h
  IsSuch-step {t} (asks_newer allowed item role (l ∷ logins) none) h = h
  IsSuch-step {t} (asks_newer allowed item role (l ∷ logins) (some as_of)) h =
      IsSuch-where (is_answered_and_asked item role (l ∷ logins) as_of) (asked_anew as_of) t
        (λ r e. (
          refl,
          k.asking allowed as_of r
              (inr (is_answered_and_asked-answered item role (l ∷ logins) as_of r e)),
        ))
        h

  pub IsSuch-run : {t u : Assignments} → LedgerRun hands_back asks t u → IsSuch P i t → IsSuch P i u
  IsSuch-run at_start h = h
  IsSuch-run (then_step before s) h = IsSuch-step s (IsSuch-run before h)

-- The primary key: each id once, and below the next of its sequence.
abbrev pub AreKeyed : List Assignment → Type 0
AreKeyed [] = Unit
AreKeyed (r ∷ rows) = All (λ s. s.id ≢ r.id) rows × AreKeyed rows

pub record IsKeyed (t : Assignments) : Type 0 where
  pub keyed : AreKeyed t.rows
  pub below : All (λ r. r.id < t.next_id) t.rows

pub same_row :
    {r : Assignment} (rows : List Assignment)
    → AreKeyed rows
    → In r rows
    → All (λ s. s.id ≡ r.id → s ≡ r) rows
same_row [] k m = tt
same_row (x ∷ rows) k at_head = (
  λ e. refl,
  All-imp (λ s. s.id ≢ x.id) (λ s. s.id ≡ x.id → s ≡ x) rows (λ s no e. elim (no e) [ ]) k.0,
)
same_row {r} (x ∷ rows) k (in_tail m) =
    (λ e. elim (All-at (λ s. s.id ≢ x.id) m k.0 (sym e)) [ ], same_row rows k.1 m)

-- A statement that found a row and changed it leaves all rows with its id such.
pub IsSuch-changed :
    (P : Assignment → Type 0) (found : Assignment → Bool) (change : Assignment → Assignment)
    (t : Assignments) (r : Assignment)
    → IsKeyed t
    → In r (keep found t.rows)
    → ((s : Assignment) → (change s).id ≡ s.id)
    → P (change r)
    → IsSuch P r.id (record t { rows = update_where found change t.rows })
IsSuch-changed P found change t r k m same h =
    let (place, hit) = In-keep found t.rows m in
    (
      All-at (λ s. s.id < t.next_id) place k.below,
      All-map (λ s. s.id ≡ r.id → P s) (λ s. if found s then change s else s) t.rows
          (All-imp (λ s. s.id ≡ r.id → s ≡ r)
            (λ s. (if found s then change s else s).id ≡ r.id → P (if found s then change s else s))
            t.rows (λ s one e. go s (one (sym (still s) ∙ e)) hit) (same_row t.rows k.keyed place)),
    )
  where
    still : (s : Assignment) → (if found s then change s else s).id ≡ s.id
    still s = elim (Bool-cases (found s)) [ inl e ↦ rw e (same s) | inr e ↦ rw e refl ]

    go : (s : Assignment) → s ≡ r → found r ≡ true → P (if found s then change s else s)
    go s e hit = subst (λ x. P (if found x then change x else x)) (sym e) (rw hit h)
