-- ===== src/Chatbot/Tests.antt =====
-- A flow with a menu, and a contact who chooses from it.
use Prim.Native.Nat.{◌≤◌}
use chat_intelli_api.Base.{String, true, false, none, some, List, [], ◌∷◌, ◌++◌, ◌≡◌, refl, length}
use chat_intelli_api.Base.Table.{find_first, find_unique}
use chat_intelli_api.Base.Exec.{ok, err}
use chat_intelli_api.Base.Numerals.{shown_number}
use chat_intelli_api.Json.{null, concat}
use chat_intelli_api.Chatbot.{
  NodeType, start, menu, Edge, MenuOption, NodeData, Node, Flow, ChatbotSession,
}
use chat_intelli_api.Chatbot.Words.{interpolate}
use chat_intelli_api.Chatbot.Nodes.{
  Language, edge_at, Context, choose, execute_menu, menu_lines, missing_field,
}
use chat_intelli_api.Chatbot.Choice.{execute_menu-shown_number}
use chat_intelli_api.Chatbot.Session.{Entry, get}
use chat_intelli_api.Chatbot.Engine.{EngineResult, Call, max_iterations, process_message}
use chat_intelli_api.Chatbot.Engine.Keeps.{Settled, Others}
use chat_intelli_api.Chatbot.Engine.Ends.{process_message-returns, process_message-settles}
use chat_intelli_api.Chatbot.Engine.Unheard.{with_text, process_message-unheard}

abbrev plain : Language
plain = record { lower = λ s. s; less = λ a b. false }

abbrev sales : MenuOption
sales = record { label = "Vendas"; value = "sales" }

abbrev support : MenuOption
support = record { label = "Suporte"; value = "2" }

abbrev pub no_data : NodeData
no_data = record {
  message = "";
  title = "";
  options = none;
  variable = "";
  operator = "";
  value = none;
  prompt = "";
  save_as = "";
  department_id = none;
}

abbrev pub menu_data : NodeData
menu_data = record no_data { options = some (sales ∷ support ∷ []) }

abbrev pub edge : String → Edge
edge to = record { target_node_id = to; condition = none }

-- A start, a menu, and a node that leads back to the menu.
abbrev pub first_node : Node
first_node = record { id = "n1"; type = start; content = no_data; edges = edge "n2" ∷ [] }

abbrev menu_node : Node
menu_node = record { id = "n2"; type = menu; content = menu_data; edges = edge "n2" ∷ [] }

abbrev loop_node : Node
loop_node = record { id = "n3"; type = NodeType.message; content = no_data; edges = edge "n3" ∷ [] }

abbrev pub flow : Flow
flow = record {
  id = "f";
  organization_id = "o";
  name = "Início";
  description = none;
  trigger_type = "KEYWORD";
  trigger_config = null;
  variables = null;
  is_active = true;
  is_deleted = false;
  nodes = first_node ∷ menu_node ∷ loop_node ∷ [];
  channels = "ch" ∷ [];
}

abbrev pub call : Call
call = record { language = plain; now = 5; conversation_id = "c"; incoming_text = "oi" }

abbrev empty_menu : Node
empty_menu = record { id = "n1"; type = menu; content = no_data; edges = [] }

abbrev asked : EngineResult
asked = record {
  messages = "Escolha uma opção:\n\n1. Vendas\n2. Suporte" ∷ [];
  transfer_to_human = false;
  transfer_department_id = none;
  session_ended = false;
}

abbrev waiting_session : ChatbotSession
waiting_session = record {
  flow_id = "f";
  conversation_id = "c";
  current_node_id = "n2";
  variables = [];
  waiting_for_input = true;
}

abbrev stored : List Entry
stored =
    record {
      conversation = "c";
      session = waiting_session;
      started_at = 5;
      last_activity_at = 5;
      until = 86400005;
    }
    ∷ []

abbrev stored_start : List Entry
stored_start =
    record {
      conversation = "c";
      session = record waiting_session { current_node_id = "n1"; waiting_for_input = false };
      started_at = 5;
      last_activity_at = 5;
      until = 86400005;
    }
    ∷ []

asks : process_message call "ch" (flow ∷ []) [] ≡ some (ok asked, stored)
unfolding process_message find_unique find_first edge_at execute_menu shown_number
asks = refl

-- A menu without data, as the editor may save it, is an error of the call.
throws :
    (process_message call "ch" (record flow { nodes = empty_menu ∷ [] } ∷ []) [])
    ≡ some (err missing_field, stored_start)
unfolding process_message find_unique find_first edge_at execute_menu
throws = refl

greets :
    interpolate (record { name = "nome"; value = "Ana" } ∷ []) "Oi {{nome}}, {{x}} {{{nome}}"
    ≡ "Oi Ana, {{x}} {Ana"
unfolding interpolate
greets = refl

process_message-returns_example :
    (r : EngineResult) × (after : List Entry) × (process_message call "ch" (flow ∷ []) []
      ≡ some (ok r, after))
    × (length r.messages ≤ max_iterations)
process_message-returns_example =
    process_message-returns call "ch" (flow ∷ []) [] ((refl, (refl, (refl, tt))), tt)

process_message-settles_example : Settled call [] asked stored × Others call [] stored
process_message-settles_example = process_message-settles call "ch" (flow ∷ []) [] asked stored asks

process_message-unheard_example :
    process_message call "ch" (flow ∷ []) []
    ≡ process_message (with_text "1" call) "ch" (flow ∷ []) []
unfolding get find_unique
process_message-unheard_example = process_message-unheard call "1" "ch" (flow ∷ []) [] tt

abbrev chosen : Context
chosen = record {
  session = waiting_session;
  node = menu_node;
  incoming_message = some (shown_number 2);
}

execute_menu-shown_number_example :
    (menu_lines 1 (sales ∷ support ∷ [])
      ≡ menu_lines 1 (sales ∷ [])
        ++ concat ("\n" ∷ shown_number 2 ∷ ". " ∷ "Suporte" ∷ []) ∷ menu_lines 3 [])
    × (execute_menu plain chosen ≡ ok (choose (some support) (edge "n2" ∷ [])))
execute_menu-shown_number_example =
    execute_menu-shown_number plain chosen (sales ∷ []) [] support refl refl
