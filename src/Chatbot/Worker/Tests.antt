-- ===== src/Chatbot/Worker/Tests.antt =====
-- The job of a contact who is asked to choose, and of one who is handed over.
use Prim.Native.String.{◌++◌}
use chat_intelli_api.Base.{◌⊎◌, true, false, none, some, [], ◌∷◌, ◌≡◌, refl}
use chat_intelli_api.Base.Table.{find_first, find_unique, update_key}
use chat_intelli_api.Base.Exec.{ok}
use chat_intelli_api.Base.Numerals.{shown_number}
use chat_intelli_api.Conversation.{Conversation, bot, pending}
use chat_intelli_api.Chatbot.{NodeType, Node, Flow}
use chat_intelli_api.Chatbot.Tests.{flow, call, no_data, first_node}
use chat_intelli_api.Chatbot.Nodes.{edge_at, execute_transfer}
use chat_intelli_api.Chatbot.Engine.{EngineResult, process_message}
use chat_intelli_api.Chatbot.Worker.{
  Database, Job, Env, saved_at, outbound_at, transfer_log, send_each, process_chat,
}
use chat_intelli_api.Chatbot.Worker.Sends.{HasSent, IsHandedOver, process_chat-HasSent}

abbrev transfer_node : Node
transfer_node = record {
  id = "n2";
  type = NodeType.transfer;
  content = record no_data { department_id = some "d1" };
  edges = [];
}

abbrev transfer_flow : Flow
transfer_flow = record flow { nodes = first_node ∷ transfer_node ∷ [] }

abbrev talk : Conversation
talk = record {
  id = "c";
  organization_id = "o";
  channel_id = "ch";
  contact_id = "ana";
  assigned_to_id = none;
  status = bot;
  last_message_at = none;
  first_response_at = none;
  closed_at = none;
  reopened_at = none;
  reopened_count = 0;
  deleted_at = none;
  ai_enabled = none;
  active_agent_id = none;
  stuck_attempts = 0;
  last_watchdog_check_at = none;
  watchdog_job_id = none;
  is_stuck = false;
  department_id = none;
}

abbrev database : Database
database = record {
  conversations = talk ∷ [];
  audit_logs = [];
  messages = [];
  outbound = [];
  entries = [];
}

abbrev job : Job
job = record { call = call; channel_id = "ch"; contact_external_id = "55119" }

abbrev env : Env
env = record { fresh = λ n. "m" ++ shown_number n; add_fails = λ n. none }

abbrev handing : EngineResult
handing = record {
  messages = "Transferindo você para um atendente..." ∷ [];
  transfer_to_human = true;
  transfer_department_id = some "d1";
  session_ended = true;
}

after : Database
after = record {
  conversations = record talk { status = pending; department_id = some "d1" } ∷ [];
  audit_logs = transfer_log env job ∷ [];
  messages = saved_at env job 0 "Transferindo você para um atendente..." ∷ [];
  outbound = outbound_at env job 0 "Transferindo você para um atendente..." ∷ [];
  entries = [];
}

hands_over : process_chat env job (transfer_flow ∷ []) database ≡ some (ok handing, after)
unfolding after process_chat send_each process_message find_unique find_first edge_at
    execute_transfer update_key shown_number
hands_over = refl

process_chat-HasSent_example :
    HasSent env job handing.messages database after
    × ((handing.transfer_to_human ≡ false) ⊎ IsHandedOver env job after)
process_chat-HasSent_example =
    process_chat-HasSent env job (transfer_flow ∷ []) database after handing hands_over
