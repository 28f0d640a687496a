-- ===== src/Examples.antt =====
-- The cooldown and the webhook route at concrete inputs.
use shannon_bot.Base.{
  List, Option, [], any, arith, false, if◌then◌else◌, inr, is_none, leb, length, none, refl, some,
  true, ◌&&◌, ◌++◌, ◌∷◌, ◌≡◌, ◌⊎◌,
}
use shannon_bot.Cooldown.{Cooldown, begin, find_wait, finish, wait_for, whole_seconds}
use shannon_bot.Cooldown.Waits.{Distinct, IsPast, IsWellFormed}
use shannon_bot.Delivery.Invariant.{empty_table}
use shannon_bot.Delivery.Store.{enqueue, fresh_event}
use shannon_bot.Delivery.Worker.{WebhookOutcome}
use shannon_bot.Domain.Json.{Json, JsonObject, entry, no_entries, obj, string}
use shannon_bot.Domain.Text.{Text, codes, is_nonempty, text_eq}
use shannon_bot.Events.{EventRouter, Handler, at_key, is_supported, will_act_on}
use shannon_bot.Intake.{
  compare_digest, is_ascii, is_valid, max_body_bytes, read_within_limit, require_valid_signature,
  results, signature_prefix, starts_with, valid_or_first, verify, verify_any,
}
use shannon_bot.Intake.Reading.{read_within_limit-exact, whole}
use shannon_bot.Intake.Signing.{is_signed, require_valid_signature-goes_on}
use shannon_bot.Route.{Request, Surroundings, accept, answered_with, receive_github_webhook}
use shannon_bot.Route.Guards.{IsChecked, IsWrittenDown, accept-IsWrittenDown, receive-IsChecked}

abbrev idle_cooldown : Cooldown
idle_cooldown = record { spacing = 30_000_000; running = []; waits = [] }

well_formed : IsWellFormed idle_cooldown
unfolding IsWellFormed Distinct finish
well_formed = tt

abbrev finished_once : Cooldown
finished_once = finish 10_000_000 7 idle_cooldown

told_28 : (begin 12_500_000 7 finished_once).1 ≡ wait_for 28
unfolding begin finish find_wait whole_seconds
told_28 = refl

all-IsPast : IsPast 12_500_000 finished_once
unfolding IsPast finish
all-IsPast = (omega arith, tt)

-- A stand-in for the HMAC: the prefix, the secret and the body.
abbrev sign_plainly : Text → Text → Text
sign_plainly body secret = signature_prefix ++ secret ++ body

abbrev body : Text
body = codes "{}"

abbrev secrets : List Text
secrets = [] ∷ codes "s2" ∷ []

goes_on :
    is_none (require_valid_signature sign_plainly body secrets (some (codes "sha256=s2{}"))) ≡ true
unfolding require_valid_signature verify_any results valid_or_first is_valid verify starts_with
    compare_digest is_ascii text_eq is_nonempty
goes_on = refl

require_valid_signature-goes_on_example :
    is_none (require_valid_signature sign_plainly body secrets (some (codes "sha256=s2{}")))
    ≡ any (λ s. is_nonempty s && is_signed sign_plainly body (codes "sha256=s2{}") s) secrets
require_valid_signature-goes_on_example =
    require_valid_signature-goes_on sign_plainly body secrets (codes "sha256=s2{}")

none_set : any is_nonempty ([] ∷ []) ≡ false
unfolding is_nonempty
none_set = refl

abbrev chunks : List Text
chunks = codes "ab" ∷ codes "c" ∷ []

read_within_limit-exact_example :
    read_within_limit (some 3) chunks
    ≡ (if leb (length (whole chunks)) max_body_bytes then some (whole chunks) else none)
read_within_limit-exact_example = read_within_limit-exact (some 3) chunks (inr refl)

abbrev handler : Handler
handler act payload arrived = WebhookOutcome.processed

abbrev router : EventRouter
router = record { handlers = ("issues", handler) ∷ []; worth_recording = [] }

abbrev opened : JsonObject
opened = entry "action" (string "opened") no_entries

issues_act : will_act_on router "issues" (some "opened") opened ≡ true
unfolding will_act_on is_supported at_key
issues_act = refl

abbrev here_now : Surroundings
here_now = record { has_queue = true; has_connection = true; now = 5; hash_of = λ p. "h" }

accepted_now :
    (accept here_now router "issues" "a1" (some "opened") opened empty_table).1
    ≡ answered_with WebhookOutcome.accepted
unfolding accept will_act_on is_supported at_key enqueue fresh_event
accepted_now = refl

accept-IsWrittenDown_example :
    IsWrittenDown "a1" (accept here_now router "issues" "a1" (some "opened") opened empty_table).0
accept-IsWrittenDown_example =
    accept-IsWrittenDown here_now router "issues" "a1" (some "opened") opened empty_table refl
      accepted_now

-- A stand-in for `json.loads`: every body reads as the payload.
abbrev loads_plainly : Text → Option Json
loads_plainly b = some (obj opened)

abbrev request : Request
request = record {
  event = "issues";
  delivery_id = "a1";
  signature = some (codes "sha256=s2{}");
  content_length = none;
  chunks = body ∷ [];
}

receive-IsChecked_example :
    ((receive_github_webhook sign_plainly loads_plainly secrets here_now router request
        empty_table).0
      ≡ empty_table)
    ⊎ IsChecked sign_plainly loads_plainly secrets router request
receive-IsChecked_example =
    receive-IsChecked sign_plainly loads_plainly secrets here_now router request empty_table
