-- ===== src/Automation/Loop.antt =====
-- The loop over the actions of an automation
-- (src/modules/automations/engine/automation-executor.service.ts: runActions).
use chat_intelli_api.Base.{
  ℕ, ◌+◌, String, Bool, true, false, not, Option, none, some, List, [], ◌∷◌, if◌then◌else◌,
}
use chat_intelli_api.Json.{Json, undefined, null, is_falsy, concat}
use chat_intelli_api.Outbox.{Event}
use chat_intelli_api.Automation.{
  ActionDefinition, Context, Entry, Handler, Registry, Reply, RunStatus, done, failed_status,
  failure, partial, refused, succeeded, success, threw,
}

-- What the loop over the actions keeps: the log, `anyFailure`, `aborted`, and the outbox.
pub record Progress : Type 0 where
  pub log : List Entry
  pub any_failure : Bool
  pub aborted : Bool
  pub outbox : List Event

-- `continueOnError ?? default`, as a test
abbrev pub goes_on : Json → Bool → Bool
goes_on undefined default = default
goes_on null default = default
goes_on j default = not (is_falsy j)

abbrev pub failed_entry : ℕ → String → Option String → Option String → Json → Entry
failed_entry i type code message output = record {
  index = i;
  type = type;
  status = failure;
  error_code = code;
  error_message = message;
  output = output;
}

abbrev pub success_entry : ℕ → String → Json → Entry
success_entry i type output = record {
  index = i;
  type = type;
  status = success;
  error_code = none;
  error_message = none;
  output = output;
}

-- What one round logs, and whether it goes on by default behind a failure.
pub record Round : Type 0 where
  pub entry : Entry
  pub default : Bool
  pub outbox : List Event

abbrev log_reply : ℕ → String → Bool → Reply × List Event → Round
log_reply i type default (done output, es) = record {
  entry = success_entry i type output;
  default = default;
  outbox = es;
}
log_reply i type default (refused code message output, es) = record {
  entry = failed_entry i type code message output;
  default = default;
  outbox = es;
}
log_reply i type default (threw message, es) = record {
  entry = failed_entry i type (some "handler_threw") (some message) undefined;
  default = default;
  outbox = es;
}

abbrev round_with : Option Handler → Context → ℕ → ActionDefinition → List Event → Round
round_with none ctx i action es = record {
  entry =
      failed_entry i action.type (some "unknown_action")
        (some (concat ("no handler for " ∷ action.type ∷ []))) undefined;
  default = false;
  outbox = es;
}
round_with (some handler) ctx i action es =
    log_reply i action.type handler.continue_on_error_default (handler.execute action.params ctx es)

pub round_of : Registry → Context → ℕ → ActionDefinition → List Event → Round
round_of registry ctx i action es = round_with (registry action.type) ctx i action es

abbrev pub is_success : Entry → Bool
is_success e = elim e.status [ success ↦ true | failure ↦ false ]

abbrev pub logged : Bool → Entry → Progress → Progress
logged failure_now e p = record p {
  log = e ∷ p.log;
  any_failure = if failure_now then true else p.any_failure;
}

abbrev pub stopped : Entry → List Event → Progress
stopped e es = record { log = e ∷ []; any_failure = true; aborted = true; outbox = es }

abbrev pub no_progress : List Event → Progress
no_progress es = record { log = []; any_failure = false; aborted = false; outbox = es }

abbrev pub after_round : Round → ActionDefinition → Progress → Progress
after_round r action rest =
    if is_success r.entry
    then logged false r.entry rest
    else if goes_on action.continue_on_error r.default
    then logged true r.entry rest
    else stopped r.entry r.outbox

-- The loop of `runActions` from an index on.
unfoldable pub run_loop : Registry → Context → ℕ → List ActionDefinition → List Event → Progress
unfolding round_of
run_loop registry ctx i [] es = no_progress es
run_loop registry ctx i (a ∷ rest) es =
    let r = round_of registry ctx i a es in
    after_round r a (run_loop registry ctx (i + 1) rest r.outbox)

abbrev pub status_of : Progress → RunStatus
status_of p = if not p.any_failure then succeeded else if p.aborted then failed_status else partial
