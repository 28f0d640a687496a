-- ===== src/Route.antt =====
-- The route of shannon/api/routes/webhooks.py: what is answered and written down before any work is
-- done. The HMAC, `json.loads` and the hash of the payload are parameters.
pub mod Guards
use shannon_bot.Base.{
  Bool, List, Option, String, false, if◌then◌else◌, none, not, some, str_eq, true, ℕ, ◌||◌,
}
use shannon_bot.Delivery.Store.{Table, enqueue}
use shannon_bot.Delivery.Worker.{WebhookOutcome, action}
use shannon_bot.Domain.Json.{Json, JsonObject, arr, flag, get, null, num, obj, string}
use shannon_bot.Domain.Text.{Text}
use shannon_bot.Events.{EventRouter, dispatch, will_act_on}
use shannon_bot.Intake.{
  Refusal, bad_request, no_connection, read_within_limit, require_valid_signature, too_large,
}

-- What the route answers.
pub data Response : Type 0 where
  refused_with : Refusal → Response
  answered_with : WebhookOutcome → Response

-- What `_accept` meets: whether there is a queue, whether the pool has a connection to spare, the
-- database clock and the hash of the payload.
pub record Surroundings : Type 0 where
  pub has_queue : Bool
  pub has_connection : Bool
  pub now : ℕ
  pub hash_of : JsonObject → String

abbrev pub recorded_as : Table × Bool → Table × Response
recorded_as (t, true) = (t, answered_with WebhookOutcome.accepted)
recorded_as (t, false) = (t, answered_with WebhookOutcome.duplicate)

unfoldable pub accept :
    Surroundings
    → EventRouter
    → String
    → String
    → Option String
    → JsonObject
    → Table
    → Table × Response
unfolding will_act_on dispatch enqueue
accept w r event delivery_id action payload t =
    if not (will_act_on r event action payload)
    then (t, answered_with WebhookOutcome.ignored)
    else if not w.has_queue
    then (t, answered_with (dispatch r event action payload none))
    else if not w.has_connection
    then (t, refused_with no_connection)
    else recorded_as (enqueue w.now delivery_id event (w.hash_of payload) payload t)

-- `payload.get("action")`: None where it is absent or null, and refused where it is no string.
pub data Action : Type 0 where
  no_action : Action
  an_action : String → Action
  bad_action : Action

unfoldable pub action_in : JsonObject → Action
unfolding get
action_in payload = elim (get payload "action") [
  | none ↦ no_action
  | some null ↦ no_action
  | some (string s) ↦ an_action s
  | some (flag b) ↦ bad_action
  | some (num n) ↦ bad_action
  | some (arr xs) ↦ bad_action
  | some (obj o) ↦ bad_action
]

-- A request's headers and the chunks of its body.
pub record Request : Type 0 where
  pub event : String
  pub delivery_id : String
  pub signature : Option Text
  pub content_length : Option ℕ
  pub chunks : List Text

abbrev is_empty_text : String → Bool
is_empty_text s = str_eq s ""

module _ (sign : Text → Text → Text) (loads : Text → Option Json) (secrets : List Text) where
  -- The route after the payload was decoded.
  unfoldable pub accept_payload :
      Surroundings → EventRouter → Request → JsonObject → Table → Table × Response
  unfolding action_in accept
  accept_payload w r q payload t = elim (action_in payload) [
    | bad_action ↦ (t, refused_with bad_request)
    | no_action ↦ accept w r q.event q.delivery_id none payload t
    | an_action action ↦ accept w r q.event q.delivery_id (some action) payload t
  ]

  -- `_decode`, and what follows it.
  unfoldable pub decode_and_accept :
      Surroundings → EventRouter → Request → Option Json → Table → Table × Response
  unfolding accept_payload
  decode_and_accept w r q none t = (t, refused_with bad_request)
  decode_and_accept w r q (some (obj payload)) t = accept_payload w r q payload t
  decode_and_accept w r q (some null) t = (t, refused_with bad_request)
  decode_and_accept w r q (some (flag b)) t = (t, refused_with bad_request)
  decode_and_accept w r q (some (num n)) t = (t, refused_with bad_request)
  decode_and_accept w r q (some (string s)) t = (t, refused_with bad_request)
  decode_and_accept w r q (some (arr xs)) t = (t, refused_with bad_request)

  unfoldable pub after_signature :
      Surroundings → EventRouter → Request → Text → Table → Table × Response
  unfolding require_valid_signature decode_and_accept
  after_signature w r q body t = elim (require_valid_signature sign body secrets q.signature) [
    | some refusal ↦ (t, refused_with refusal)
    | none ↦ decode_and_accept w r q (loads body) t
  ]

  unfoldable pub receive_github_webhook :
      Surroundings → EventRouter → Request → Table → Table × Response
  unfolding read_within_limit after_signature
  receive_github_webhook w r q t =
      if is_empty_text q.event || is_empty_text q.delivery_id
      then (t, refused_with bad_request)
      else elim (read_within_limit q.content_length q.chunks) [
        | none ↦ (t, refused_with too_large)
        | some body ↦ after_signature w r q body t
      ]
