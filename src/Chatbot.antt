-- ===== src/Chatbot.antt =====
-- The chatbot: flows of nodes, and what a node answers
-- (src/modules/chatbot/engine/node-executors/node-executor.interface.ts,
-- src/modules/chatbot/chatbot-flows/chatbot-flows.repository.ts, prisma/schema.prisma).
-- The data of a node are the fields that the executors read, each of the type that they cast it to;
-- the options of a menu and the value of a condition may be missing, as any other, which an
-- executor reads as an empty text, is where it is empty.
pub mod Words
pub mod Nodes
pub mod Choice
pub mod Session
pub mod Engine
pub mod Worker
pub mod Flows
pub mod Tests
use chat_intelli_api.Base.{
  String, Bool, true, false, not, ◌&&◌, Option, none, some, List, [], ◌==◌, any, is_empty,
}
use chat_intelli_api.Base.Table.{find_first}
use chat_intelli_api.Json.{Json}

pub data NodeType : Type 0 where
  start : NodeType
  message : NodeType
  menu : NodeType
  condition : NodeType
  wait : NodeType
  action : NodeType
  transfer : NodeType
  end_flow : NodeType

pub record Edge : Type 0 where
  pub target_node_id : String
  pub condition : Option String

pub record MenuOption : Type 0 where
  pub label : String
  pub value : String

pub record NodeData : Type 0 where
  pub message : String
  pub title : String
  pub options : Option (List MenuOption)
  pub variable : String
  pub operator : String
  pub value : Option String
  pub prompt : String
  pub save_as : String
  pub department_id : Option String

pub record Node : Type 0 where
  pub id : String
  pub type : NodeType
  pub content : NodeData
  pub edges : List Edge

pub record Flow : Type 0 where
  pub id : String
  pub organization_id : String
  pub name : String
  pub description : Option String
  pub trigger_type : String
  pub trigger_config : Json
  pub variables : Json
  pub is_active : Bool
  pub is_deleted : Bool
  pub nodes : List Node
  pub channels : List String

-- `{ type, content: { text } }`; every message of a flow is a text.
abbrev pub Message : Type 0
Message = String

-- The variables of a session by name, the last one set first.
pub record Variable : Type 0 where
  pub name : String
  pub value : String

pub record ChatbotSession : Type 0 where
  pub flow_id : String
  pub conversation_id : String
  pub current_node_id : String
  pub variables : List Variable
  pub waiting_for_input : Bool

pub record NodeResult : Type 0 where
  pub next_node_id : Option String
  pub send_messages : List Message
  pub wait_for_input : Bool
  pub updated_variables : List Variable
  pub transfer_to_human : Bool
  pub transfer_department_id : Option String

-- `flowsRepo.findById`
unfoldable pub find_flow : String → List Flow → Option Flow
find_flow id flows = find_first (λ f. f.id == id && not f.is_deleted) flows

-- `flowsRepo.findActiveFlowForChannel`
unfoldable pub find_active_flow : String → List Flow → Option Flow
find_active_flow channel flows =
    find_first (λ f. any (λ c. c == channel) f.channels && f.is_active && not f.is_deleted) flows

abbrev pub is_start : NodeType → Bool
is_start start = true
is_start _ = false

-- `x || null`
abbrev pub or_null : String → Option String
or_null s = elim (is_empty s) [ true ↦ none | false ↦ some s ]
