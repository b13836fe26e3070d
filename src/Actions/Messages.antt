-- ===== src/Actions/Messages.antt =====
-- The handler that sends a message, with its circuit breaker
-- (src/modules/automations/actions/handlers/send-message.handler.ts). A message is a text of code
-- points.
pub mod Breaker
mod Tests
use Prim.Native.Nat.{◌-◌}
use Prim.Native.String
use chat_intelli_api.Base.{
  ℕ, ◌+◌, String, Bool, true, false, ◌&&◌, Option, none, some, List, [], ◌∷◌, ◌++◌, ◌==◌, keep, ltb,
  leb, eqb, length, is_empty, if◌then◌else◌,
}
use chat_intelli_api.Base.Exec.{Failure, failed, Result, ok, err}
use chat_intelli_api.Base.Texts.{size, units, trim}
use chat_intelli_api.Base.Table.{find_first}
use chat_intelli_api.Json.{Json, Fields, get, str, obj, field, end, concat}
use chat_intelli_api.Conversation.{Conversation}
use chat_intelli_api.Automation.{Context, Reply, done}
use chat_intelli_api.Actions.{refusal, truthy}

pub record ContactChannel : Type 0 where
  pub contact_id : String
  pub channel_id : String
  pub external_id : String

-- An outbound message that is queued, sent by no user.
pub record Saved : Type 0 where
  pub id : String
  pub conversation_id : String
  pub text : String
  pub actor_id : String
  pub trace_id : String

-- A job of the queue `outbound-messages`.
pub record Outbound : Type 0 where
  pub message_id : String
  pub channel_id : String
  pub contact_external_id : String
  pub text : String

-- The tables that are read.
pub record Tables : Type 0 where
  pub conversations : List Conversation
  pub contact_channels : List ContactChannel

-- What is written, and the two maps of the process: the failures noted of a channel, and until when
-- it is in cooldown, 0 where the map has nothing.
pub record State : Type 0 where
  pub messages : List Saved
  pub outbound : List Outbound
  pub failures : String → List ℕ
  pub open_until : String → ℕ

-- The time of the check and of the failure, the new message's id, and the errors of the two writes.
pub record Env : Type 0 where
  pub now : ℕ
  pub failed_at : ℕ
  pub message_id : String
  pub create_fault : Option String
  pub add_fault : Option String

abbrev pub fail_window_ms : ℕ
fail_window_ms = 60000

abbrev pub fail_threshold : ℕ
fail_threshold = 3

abbrev pub cooldown_ms : ℕ
cooldown_ms = 30000

abbrev required : Failure
required = failed "send_message: \"body\" is required (string)"

abbrev checked : String → Result String
checked body =
    if is_empty body
    then err required
    else if eqb (size (trim body)) 0
    then err (failed "send_message: \"body\" cannot be empty")
    else if ltb 4096 (length (units body))
    then err (failed "send_message: \"body\" too long (max 4096 chars)")
    else ok body

abbrev body_of : Json → Result String
body_of (str body) = checked body
body_of _ = err required

-- `validateParams`, with the body that `execute` reads.
unfoldable pub validate_params : Fields → Result String
validate_params params = body_of (get "body" params)

-- `map.set(k, v)`
abbrev pub put {ℓ} : {A : Type ℓ} → String → A → (String → A) → String → A
put k v f j = if k == j then v else f j

-- The failures within the window, and this one. A clock that was set back counts as within.
unfoldable pub recent : ℕ → List ℕ → List ℕ
recent now ts = keep (λ t. ltb (now - t) fail_window_ms) ts ++ now ∷ []

abbrev pub noted : ℕ → String → List ℕ → State → State
noted now k ts st =
    if leb fail_threshold (length ts)
    then record st {
      open_until = put k (now + cooldown_ms) st.open_until;
      failures = put k [] st.failures;
    }
    else record st { failures = put k ts st.failures }

-- `recordFailure`
unfoldable pub record_failure : ℕ → String → State → State
unfolding recent
record_failure now k st = noted now k (recent now (st.failures k)) st

module _ (env : Env) (body : String) (ctx : Context) where
  abbrev pub saved : Conversation → Saved
  saved c = record {
    id = env.message_id;
    conversation_id = c.id;
    text = body;
    actor_id = ctx.actor_id;
    trace_id = ctx.trace_id;
  }

  abbrev queued : Conversation → ContactChannel → Outbound
  queued c cc = record {
    message_id = env.message_id;
    channel_id = c.channel_id;
    contact_external_id = cc.external_id;
    text = body;
  }

  abbrev failing : String → String → State → Reply × State
  failing k m st = (refusal "external_error" m, record_failure env.failed_at k st)

  abbrev pub add_job : Option String → Conversation → ContactChannel → State → Reply × State
  add_job (some m) c cc st = failing c.channel_id m st
  add_job none c cc st = (
    done (obj (field "messageId" (str env.message_id) (field "channelId" (str c.channel_id) end))),
    record st {
      outbound = st.outbound ++ queued c cc ∷ [];
      failures = put c.channel_id [] st.failures;
    },
  )

  -- The `try` block: what it has stored stays where queueing it fails.
  abbrev pub send : Option String → Conversation → ContactChannel → State → Reply × State
  send (some m) c cc st = failing c.channel_id m st
  send none c cc st =
      add_job env.add_fault c cc (record st { messages = st.messages ++ saved c ∷ [] })

  abbrev pub circuit_open : String → Reply
  circuit_open k =
      refusal "circuit_open" (concat ("channel " ∷ k ∷ " is in cooldown — provider failing" ∷ []))

  abbrev pub unless_open : Conversation → Option ContactChannel → State → Reply × State
  unless_open c none st =
      (refusal "no_active_channel" "contact has no binding for the conversation channel", st)
  unless_open c (some cc) st =
      if ltb env.now (st.open_until c.channel_id)
      then (circuit_open c.channel_id, st)
      else send env.create_fault c cc st

  abbrev pub channel_of : Conversation → Tables → Option ContactChannel
  channel_of c t =
      find_first (λ cc. cc.contact_id == c.contact_id && cc.channel_id == c.channel_id)
        t.contact_channels

  abbrev pub send_in : Option Conversation → Tables → State → Reply × State
  send_in none t st = (refusal "invalid_ref" "conversation not found", st)
  send_in (some c) t st = unless_open c (channel_of c t) st

  abbrev pub conversation_in : String → Tables → Option Conversation
  conversation_in id t =
      find_first (λ c. c.id == id && c.organization_id == ctx.organization_id) t.conversations

  abbrev pub send_for : Option String → Tables → State → Reply × State
  send_for none t st =
      (refusal "no_active_channel" "send_message requires an active conversation", st)
  send_for (some id) t st = send_in (conversation_in id t) t st

  -- `SendMessageHandler.execute`
  unfoldable pub send_message : Tables → State → Reply × State
  unfolding record_failure
  send_message t st = send_for (truthy (ctx.payload).conversation_id) t st
