-- ===== src/Sync/Settled.antt =====
-- The policies agree: what the row says about a thread's lock is what the snapshot said.
use shannon_bot.Base.{Bool, arith, false, if◌then◌else◌, inl, inr, not, refl, some, true, ◌≡◌, ◌⊎◌}
use shannon_bot.Domain.Enums.{Status, backlog, done, in_review, not_reviewed}
use shannon_bot.Domain.Text.{Text, codes, text_eq}
use shannon_bot.Sync.Policies.{
  Snapshot, a_ticket, an_issue, display_state, is_closed, is_done, kind_of, pull_request, shut,
  shut_for_state, status_for,
}

-- GitHub's two states of an issue, which are its display state.
unfoldable pub IsIssueState : Snapshot → Type 0
IsIssueState s = (display_state s ≡ codes "open") ⊎ (display_state s ≡ codes "closed")

unfoldable pub IsTwoState : Snapshot → Type 0
unfolding IsIssueState
IsTwoState (pull_request i a) = Unit
IsTwoState (an_issue i) = IsIssueState (an_issue i)
IsTwoState (a_ticket i column) = Unit

two_states :
    (t : Text)
    → (t ≡ codes "open") ⊎ (t ≡ codes "closed")
    → text_eq t (codes "closed") ≡ not (text_eq t (codes "open"))
unfolding text_eq
two_states t h = elim h [ inl o ↦ rw (o, text_eq) refl | inr c ↦ rw (c, text_eq) refl ]

-- Where a snapshot decides whether a thread is shut, the row's status and state decide the same,
-- an issue being open or closed.
pub shut-shut_for_state :
    (s : Snapshot) (status : Status) (b : Bool)
    → IsTwoState s
    → shut s status ≡ some b
    → shut_for_state (kind_of s) status (display_state s) ≡ b
unfolding shut shut_for_state kind_of is_closed IsTwoState IsIssueState
shut-shut_for_state (pull_request i a) status b h e = ground arith
shut-shut_for_state (an_issue i) status b h e = cc (e, two_states (display_state (an_issue i)) h)
shut-shut_for_state (a_ticket i column) status b h e = cc

settled_issue :
    (shut : Bool) (current : Status)
    → let s = if shut then done else if is_done current then not_reviewed else current in
      (if shut then done else if is_done s then not_reviewed else s) ≡ s
unfolding is_done
settled_issue true current = refl
settled_issue false not_reviewed = refl
settled_issue false in_review = refl
settled_issue false backlog = refl
settled_issue false done = refl

-- A snapshot that is applied twice leaves the status where the first left it.
pub status_for-status_for :
    (s : Snapshot) (current : Status) → status_for s (status_for s current) ≡ status_for s current
unfolding status_for is_done
status_for-status_for (pull_request i a) current = refl
status_for-status_for (an_issue i) current = settled_issue (is_closed (an_issue i)) current
status_for-status_for (a_ticket i column) current = ground arith
