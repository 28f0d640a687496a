-- ===== src/Route/Guards.antt =====
-- What the webhook route promises: nothing is written down unchecked, and what is accepted is.
use shannon_bot.Base.{
  Bool, Bool-cases, List, Option, Option-cases, String, [], any, ap, arith, eq_iff, false,
  if◌then◌else◌, inl, inr, is_none, length, map, none, not, refl, some, str_eq, subst, sym, true, ℕ,
  ◌&&◌, ◌++◌, ◌||◌, ◌∙◌, ◌∷◌, ◌≡◌, ◌≤◌, ◌⊎◌,
}
use shannon_bot.Delivery.Store.{
  Table, WebhookEvent, enqueue, fresh_event, given_up_on, revive, revived, update_where,
}
use shannon_bot.Delivery.Worker.{WebhookOutcome}
use shannon_bot.Domain.Enums.{is_live}
use shannon_bot.Domain.Json.{Json, JsonObject, arr, flag, get, null, num, obj, string}
use shannon_bot.Domain.Text.{Text}
use shannon_bot.Events.{
  EventRouter, Handler, at_key, dispatch, is_supported, is_worth, or_empty, will_act_on,
}
use shannon_bot.Intake.{max_body_bytes, read_within_limit, require_valid_signature}
use shannon_bot.Intake.Reading.{read_within_limit-some, whole}
use shannon_bot.Intake.Signing.{IsSigned, require_valid_signature-IsSigned}
use shannon_bot.Route.{
  Action, Request, Surroundings, accept, accept_payload, action_in, after_signature, an_action,
  answered_with, bad_action, decode_and_accept, no_action, receive_github_webhook, recorded_as,
}

both_parts : (a b c : Bool) → ((a && not b) && c) ≡ true → (a ≡ true) × (b ≡ false)
both_parts a b c e = ground arith

will_act_on-parts :
    (r : EventRouter) (event : String) (act : Option String) (payload : JsonObject)
    → will_act_on r event act payload ≡ true
    → (is_supported event act ≡ true) × (is_none (at_key event r.handlers) ≡ false)
unfolding will_act_on
will_act_on-parts r event act payload e =
    both_parts (is_supported event act) (is_none (at_key event r.handlers))
      (is_worth (at_key event r.worth_recording) payload) e

held_some {ℓ} : {A : Type ℓ} (o : Option A) → is_none o ≡ false → (a : A) × (o ≡ some a)
held_some none e = cc e
held_some (some a) e = (a, refl)

-- A delivery that would be acted on reaches its handler when it is dispatched, whatever its number.
pub will_act_on-dispatch :
    (r : EventRouter) (event : String) (act : Option String) (payload : JsonObject)
    (arrived : Option ℕ)
    → will_act_on r event act payload ≡ true
    → (h : Handler) × (at_key event r.handlers ≡ some h)
      × (dispatch r event act payload arrived ≡ h (or_empty act) payload arrived)
unfolding dispatch
will_act_on-dispatch r event act payload arrived e =
    let (supported, there) = will_act_on-parts r event act payload e in
    let (h, f) = held_some (at_key event r.handlers) there in
    (h, f, rw (supported, f, dispatch) refl)

unfoldable pub IsWrittenDown : String → Table → Type 0
IsWrittenDown delivery_id t =
    any (λ r. str_eq r.github_delivery_id delivery_id && is_live r.status) t.rows ≡ true

any-append :
    (p : WebhookEvent → Bool) (xs : List WebhookEvent) (x : WebhookEvent)
    → p x ≡ true
    → any p (xs ++ x ∷ []) ≡ true
any-append p [] x e = ground arith
any-append p (y ∷ xs) x e = ground (arith, any-append p xs x e)

any-revived :
    (delivery_id : String) (payload : JsonObject) (rows : List WebhookEvent)
    → any (given_up_on delivery_id) rows ≡ true
    → any
        (λ r. str_eq r.github_delivery_id delivery_id && is_live r.status)
        (map (λ r. if given_up_on delivery_id r then revived payload r else r) rows)
      ≡ true
unfolding given_up_on revived is_live
any-revived delivery_id payload [] e = cc
any-revived delivery_id payload (r ∷ rows) e = ground (arith, any-revived delivery_id payload rows)

fresh_live :
    (now id : ℕ) (delivery_id event payload_hash : String) (payload : JsonObject)
    → (str_eq
          (fresh_event now id delivery_id event payload_hash payload).github_delivery_id
          delivery_id
        && is_live (fresh_event now id delivery_id event payload_hash payload).status)
      ≡ true
unfolding fresh_event is_live
fresh_live now id delivery_id event payload_hash payload =
    rw ((eq_iff delivery_id delivery_id).1 refl) refl

-- A delivery that the queue takes stands in it, with a status that the worker will come to.
pub enqueue-IsWrittenDown :
    (now : ℕ) (delivery_id event payload_hash : String) (payload : JsonObject) (t : Table)
    → (enqueue now delivery_id event payload_hash payload t).1 ≡ true
    → IsWrittenDown delivery_id (enqueue now delivery_id event payload_hash payload t).0
unfolding enqueue revive update_where IsWrittenDown
enqueue-IsWrittenDown now delivery_id event payload_hash payload t e =
    elim (Bool-cases (any (λ r. str_eq r.github_delivery_id delivery_id) t.rows)) [
      | inl d ↦ rw d (any-revived delivery_id payload t.rows (rw (d, enqueue) at e))
      | inr d ↦ rw d (
          any-append (λ r. str_eq r.github_delivery_id delivery_id && is_live r.status) t.rows
            (fresh_event now t.next_id delivery_id event payload_hash payload)
            (fresh_live now t.next_id delivery_id event payload_hash payload))
    ]

recorded_as-accepted :
    (p : Table × Bool)
    → (recorded_as p).1 ≡ answered_with WebhookOutcome.accepted
    → (p.1 ≡ true) × ((recorded_as p).0 ≡ p.0)
recorded_as-accepted (t, true) e = (refl, refl)
recorded_as-accepted (t, false) e = cc e

-- Where there is a queue, a delivery is answered ACCEPTED only when it is written down with a
-- status that the worker will come to.
pub accept-IsWrittenDown :
    (w : Surroundings) (r : EventRouter) (event delivery_id : String) (act : Option String)
    (payload : JsonObject) (t : Table)
    → w.has_queue ≡ true
    → (accept w r event delivery_id act payload t).1 ≡ answered_with WebhookOutcome.accepted
    → IsWrittenDown delivery_id (accept w r event delivery_id act payload t).0
unfolding accept
accept-IsWrittenDown w r event delivery_id act payload t queued e =
    elim (Bool-cases (will_act_on r event act payload)) [
      | inr f ↦ cc (rw (f, accept) at e)
      | inl f ↦ elim (Bool-cases w.has_connection) [
        | inr g ↦ cc (rw (f, queued, g, accept) at e)
        | inl g ↦
            let tried = enqueue w.now delivery_id event (w.hash_of payload) payload t in
            let (new, same) = recorded_as-accepted tried (rw (f, queued, g, accept) at e) in
            rw (f, queued, g, same)
              (enqueue-IsWrittenDown w.now delivery_id event (w.hash_of payload) payload t new)
      ]
    ]

accept-ignored :
    (w : Surroundings) (r : EventRouter) (event delivery_id : String) (act : Option String)
    (payload : JsonObject) (t : Table)
    → ((accept w r event delivery_id act payload t).0 ≡ t)
      ⊎ (will_act_on r event act payload ≡ true)
unfolding accept
accept-ignored w r event delivery_id act payload t =
    elim (Bool-cases (will_act_on r event act payload)) [ inl f ↦ inr f | inr f ↦ inl (rw f refl) ]

-- The payload's own action: none where it is absent or null.
abbrev pub IsAction : JsonObject → Option String → Type 0
IsAction payload none = (get payload "action" ≡ none) ⊎ (get payload "action" ≡ some null)
IsAction payload (some name) = get payload "action" ≡ some (string name)

-- What is read of the action is the payload's.
IsRead : JsonObject → Action → Type 0
IsRead payload bad_action = Unit {0}
IsRead payload no_action = IsAction payload none
IsRead payload (an_action name) = IsAction payload (some name)

action_in-IsRead : (payload : JsonObject) → IsRead payload (action_in payload)
unfolding action_in IsRead
action_in-IsRead payload = go (get payload "action") refl
  where
    go : (o : Option Json) → get payload "action" ≡ o → IsRead payload (action_in payload)
    go none e = rw (action_in, e) (inl e)
    go (some null) e = rw (action_in, e) (inr e)
    go (some (string s)) e = rw (action_in, e) e
    go (some (flag b)) e = rw (action_in, e) tt
    go (some (num n)) e = rw (action_in, e) tt
    go (some (arr xs)) e = rw (action_in, e) tt
    go (some (obj o)) e = rw (action_in, e) tt

module _ (sign : Text → Text → Text) (loads : Text → Option Json) (secrets : List Text) where
  -- A whole body within the limit, signed with a secret that is set, that decodes to an object whose
  -- event and action are acted on.
  pub IsChecked : EventRouter → Request → Type 0
  IsChecked r q =
      (payload : JsonObject) × (act : Option String) × (length (whole q.chunks) ≤ max_body_bytes)
      × IsSigned sign (whole q.chunks) secrets q.signature
      × (loads (whole q.chunks) ≡ some (obj payload))
      × IsAction payload act
      × (will_act_on r q.event act payload ≡ true)

  payload-checked :
      (w : Surroundings) (r : EventRouter) (q : Request) (payload : JsonObject) (t : Table)
      → ((accept_payload sign loads secrets w r q payload t).0 ≡ t)
        ⊎ ((act : Option String) × IsAction payload act
            × (will_act_on r q.event act payload ≡ true))
  unfolding accept_payload IsRead
  payload-checked w r q payload t = go (action_in payload) refl
    where
      go :
          (a : Action)
          → action_in payload ≡ a
          → ((accept_payload sign loads secrets w r q payload t).0 ≡ t)
            ⊎ ((act : Option String) × IsAction payload act
                × (will_act_on r q.event act payload ≡ true))
      go bad_action e = inl (rw (e, accept_payload) refl)
      go no_action e = elim (accept-ignored w r q.event q.delivery_id none payload t) [
        | inl same ↦ inl (rw (e, accept_payload) same)
        | inr acts ↦ inr (none, subst (IsRead payload) e (action_in-IsRead payload), acts)
      ]
      go (an_action name) e =
          elim (accept-ignored w r q.event q.delivery_id (some name) payload t) [
            | inl same ↦ inl (rw (e, accept_payload) same)
            | inr acts ↦ inr (some name, subst (IsRead payload) e (action_in-IsRead payload), acts)
          ]

  decoded-checked :
      (w : Surroundings) (r : EventRouter) (q : Request) (found : Option Json) (t : Table)
      → ((decode_and_accept sign loads secrets w r q found t).0 ≡ t)
        ⊎ ((payload : JsonObject) × (act : Option String) × (found ≡ some (obj payload))
            × IsAction payload act
            × (will_act_on r q.event act payload ≡ true))
  unfolding decode_and_accept
  decoded-checked w r q none t = inl refl
  decoded-checked w r q (some null) t = inl refl
  decoded-checked w r q (some (flag b)) t = inl refl
  decoded-checked w r q (some (num n)) t = inl refl
  decoded-checked w r q (some (string s)) t = inl refl
  decoded-checked w r q (some (arr xs)) t = inl refl
  decoded-checked w r q (some (obj payload)) t = elim (payload-checked w r q payload t) [
    | inl same ↦ inl same
    | inr (name, its, acts) ↦ inr (payload, name, refl, its, acts)
  ]

  signed-checked :
      (w : Surroundings) (r : EventRouter) (q : Request) (body : Text) (t : Table)
      → ((after_signature sign loads secrets w r q body t).0 ≡ t)
        ⊎ ((require_valid_signature sign body secrets q.signature ≡ none)
            × ((payload : JsonObject) × (act : Option String) × (loads body ≡ some (obj payload))
                × IsAction payload act
                × (will_act_on r q.event act payload ≡ true)))
  unfolding after_signature
  signed-checked w r q body t =
      elim (Option-cases (require_valid_signature sign body secrets q.signature)) [
        | inr (refusal, e) ↦ inl (rw (e, after_signature) refl)
        | inl e ↦ elim (decoded-checked w r q (loads body) t) [
          | inl same ↦ inl (rw (e, after_signature) same)
          | inr (payload, name, decoded, its, acts) ↦ inr (e, (payload, name, decoded, its, acts))
        ]
      ]

  -- Whatever a caller of the endpoint sends, the queue stays as it was unless the body is within
  -- the limit, signed with a secret that is set, a JSON object, and of an event that is acted on, with
  -- the payload's own action.
  pub receive-IsChecked :
      (w : Surroundings) (r : EventRouter) (q : Request) (t : Table)
      → ((receive_github_webhook sign loads secrets w r q t).0 ≡ t) ⊎ IsChecked r q
  unfolding receive_github_webhook IsChecked
  receive-IsChecked w r q t = elim (Bool-cases (str_eq q.event "" || str_eq q.delivery_id "")) [
    | inl e ↦ inl (rw (e, receive_github_webhook) refl)
    | inr e ↦ elim (Option-cases (read_within_limit q.content_length q.chunks)) [
      | inl f ↦ inl (rw (e, f, receive_github_webhook) refl)
      | inr (body, f) ↦
          let (all_of_it, small) = read_within_limit-some q.content_length q.chunks body f in
          elim (signed-checked w r q body t) [
            | inl same ↦ inl (rw (e, f, receive_github_webhook) same)
            | inr (signed, (payload, name, decoded, its, acts)) ↦ inr (
              payload,
              name,
              small,
              subst (λ (b : Text). IsSigned sign b secrets q.signature) all_of_it
                  (require_valid_signature-IsSigned sign body secrets q.signature signed),
              ap loads (sym all_of_it) ∙ decoded,
              its,
              acts,
            )
          ]
    ]
  ]
