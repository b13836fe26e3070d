-- ===== src/Actions/Messages/Tests.antt =====
-- A channel whose queue fails three times within a minute.
use chat_intelli_api.Base.{none, some, [], ◌∷◌, ◌≡◌, refl, arith}
use chat_intelli_api.Base.Table.{find_first}
use chat_intelli_api.Base.Exec.{ok}
use chat_intelli_api.Base.Texts.{size, units, trim}
use chat_intelli_api.Json.{str, obj, field, end, get}
use chat_intelli_api.Automation.{done}
use chat_intelli_api.Actions.Tags.Tests.{context}
use chat_intelli_api.Conversation.Fsm.Tests.{talk}
use chat_intelli_api.Actions.Messages.{
  Tables, State, Env, validate_params, record_failure, recent, circuit_open, send_message,
}
use chat_intelli_api.Actions.Messages.Breaker.{Sending, send_message-after_failures}

abbrev env : Env
env = record {
  now = 25000;
  failed_at = 25000;
  message_id = "m";
  create_fault = none;
  add_fault = none;
}

abbrev tables : Tables
tables = record {
  conversations = talk ∷ [];
  contact_channels = record { contact_id = "ana"; channel_id = "ch"; external_id = "55119" } ∷ [];
}

abbrev start : State
start = record { messages = []; outbound = []; failures = λ k. []; open_until = λ k. 0 }

sends :
    (send_message env "oi" context tables start).0
    ≡ done (obj (field "messageId" (str "m") (field "channelId" (str "ch") end)))
unfolding send_message find_first
sends = refl

reads : validate_params (field "body" (str "oi") end) ≡ ok "oi"
unfolding validate_params get size units trim
reads = refl

-- A call that fails at a time, storing its message or queueing it.
abbrev sending : Env → Sending
sending e = record { env = e; body = "oi"; ctx = context }

abbrev first : Sending
first =
    sending (record env { now = 900; failed_at = 1000; create_fault = some "Connection refused" })

abbrev second : Sending
second = sending (record env { now = 9900; failed_at = 10000; add_fault = some "READONLY" })

abbrev third : Sending
third = sending (record env { now = 19900; failed_at = 20000; add_fault = some "READONLY" })

abbrev last : Sending
last = sending env

abbrev behind : Sending → State → State
behind s st = (send_message s.env s.body s.ctx tables st).1

abbrev one_failure : State
one_failure = behind first start

abbrev two_failures : State
two_failures = behind second one_failure

abbrev tripped : State
tripped = behind third two_failures

is_open : tripped.open_until "ch" ≡ 50000
unfolding send_message find_first record_failure recent
is_open = refl

send_message-after_failures_example :
    send_message env "oi" context tables tripped ≡ (circuit_open env "oi" context "ch", tripped)
unfolding send_message find_first record_failure recent
send_message-after_failures_example =
    send_message-after_failures "ch" first second third last tables start one_failure two_failures
      tripped talk (record { contact_id = "ana"; channel_id = "ch"; external_id = "55119" })
      ("Connection refused", talk, ("c1", refl, refl, refl), refl)
      ("READONLY", talk, ("c1", refl, refl, refl), refl)
      ("READONLY", talk, ("c1", refl, refl, refl), refl) (omega arith) (omega arith) (omega arith)
      ("c1", refl, refl, refl) refl (omega arith)
