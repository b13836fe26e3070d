-- ===== src/Chatbot/Engine.antt =====
-- The engine of the chatbot (src/modules/chatbot/engine/chatbot-engine.service.ts). The loop counts
-- its rounds as the code does and runs on fuel.
pub mod Rounds
pub mod Executed
pub mod Keeps
pub mod Ends
pub mod Unheard
use Prim.Native.Nat.{zero, suc, ◌+◌}
use mathlib.Core.Option
use chat_intelli_api.Base.{
  ℕ, String, Bool, true, false, not, Option, none, some, List, [], ◌∷◌, ◌++◌, ltb, if◌then◌else◌,
}
use chat_intelli_api.Base.Exec.{Failure, failed, Result, ok, err}
use chat_intelli_api.Base.Table.{find_first, find_unique}
use chat_intelli_api.Chatbot.{
  NodeType, start, action, end_flow, Node, Flow, Message, Variable, ChatbotSession, NodeResult,
  find_flow, find_active_flow, is_start,
}
use chat_intelli_api.Chatbot.Nodes.{Language, Context, edge_at, given, execute}
use chat_intelli_api.Chatbot.Session.{Entry, get, destroy, create, update, set_value}

pub record EngineResult : Type 0 where
  pub messages : List Message
  pub transfer_to_human : Bool
  pub transfer_department_id : Option String
  pub session_ended : Bool

-- What a call returns or throws, and the sessions behind it.
abbrev pub Outcome : Type 0
Outcome = Result EngineResult × List Entry

abbrev pub max_iterations : ℕ
max_iterations = 20

-- The variables of the loop; the session is absent where an update found none.
pub record State : Type 0 where
  pub iterations : ℕ
  pub current_node_id : Option String
  pub session : Option ChatbotSession
  pub messages : List Message
  pub entries : List Entry

-- How a round ends: with the next one, with `break` or the loop's end, or with the call's.
pub data Round : Type 0 where
  again : State → Round
  leave : State → Round
  answer : Outcome → Round

-- The result of a call behind which no session is left.
abbrev pub ended : List Message → Result EngineResult
ended messages = ok (record {
  messages = messages;
  transfer_to_human = false;
  transfer_department_id = none;
  session_ended = true;
})

-- Reading a field of `null`.
abbrev pub null_session : Result EngineResult
null_session = err (failed "Cannot read properties of null")

-- `Object.assign(session.variables, updatedVariables)`
abbrev pub assign_all : List Variable → List Variable → List Variable
assign_all [] vs = vs
assign_all (u ∷ us) vs = assign_all us (set_value u vs)

-- What the engine writes to the session.
abbrev pub move_to : String → Bool → List Variable → ChatbotSession → ChatbotSession
move_to node waiting variables s = record {
  flow_id = s.flow_id;
  conversation_id = s.conversation_id;
  current_node_id = node;
  variables = variables;
  waiting_for_input = waiting;
}

-- The variables behind a `break`.
abbrev pub left : State → State
left st = record {
  iterations = suc st.iterations;
  current_node_id = st.current_node_id;
  session = st.session;
  messages = st.messages;
  entries = st.entries;
}

abbrev pub is_end : NodeType → Bool
is_end end_flow = true
is_end _ = false

abbrev pub has_executor : NodeType → Bool
has_executor start = false
has_executor action = false
has_executor end_flow = false
has_executor _ = true

abbrev pub first_state : ChatbotSession → List Entry → State
first_state s entries = record {
  iterations = 0;
  current_node_id = some s.current_node_id;
  session = some s;
  messages = [];
  entries = entries;
}

abbrev pub first_node : Node → List Node → Node
first_node n nodes = elim (find_first (λ m. is_start m.type) nodes) [ none ↦ n | some m ↦ m ]

-- A call: the languages' functions, the time, and the message of the contact.
pub record Call : Type 0 where
  pub language : Language
  pub now : ℕ
  pub conversation_id : String
  pub incoming_text : String

module _ (call : Call) where
  -- The message that a node sees.
  abbrev pub context : Node → ChatbotSession → Context
  context node s = record {
    session = s;
    node = node;
    incoming_message = if s.waiting_for_input then some call.incoming_text else none;
  }

  abbrev pub go_to : Option String → List Variable → List Message → State → Round
  go_to none variables messages st = leave (record {
    iterations = suc st.iterations;
    current_node_id = none;
    session = st.session;
    messages = messages;
    entries = st.entries;
  })
  go_to (some node) variables messages st =
      let written =
        update call.now call.conversation_id (move_to node false variables) st.entries in
      again (record {
        iterations = suc st.iterations;
        current_node_id = some node;
        session = written.0;
        messages = messages;
        entries = written.1;
      })

  -- What follows the call of an executor.
  unfoldable pub after_execute : String → ChatbotSession → NodeResult → State → Round
  unfolding destroy update
  after_execute id s result st =
      let variables = assign_all result.updated_variables s.variables in
      let messages = st.messages ++ result.send_messages in
      if result.transfer_to_human
      then answer (
        ok (record {
          messages = messages;
          transfer_to_human = true;
          transfer_department_id = result.transfer_department_id;
          session_ended = true;
        }),
        destroy call.conversation_id st.entries,
      )
      else if result.wait_for_input
      then answer (
        ok (record {
          messages = messages;
          transfer_to_human = false;
          transfer_department_id = none;
          session_ended = false;
        }),
        (update call.now call.conversation_id (move_to id true variables) st.entries).1,
      )
      else go_to (given result.next_node_id) variables messages st

  unfoldable pub with_result : String → ChatbotSession → Option (Result NodeResult) → State → Round
  unfolding after_execute
  with_result id s none st = leave (left st)
  with_result id s (some (err e)) st = answer (err e, st.entries)
  with_result id s (some (ok result)) st = after_execute id s result st

  unfoldable pub run_node : Node → Option ChatbotSession → State → Round
  unfolding with_result execute
  run_node node none st =
      if has_executor node.type then answer (null_session, st.entries) else leave (left st)
  run_node node (some s) st =
      with_result node.id s (execute call.language node.type (context node s)) st

  unfoldable pub at_node : Option Node → State → Round
  unfolding run_node destroy
  at_node none st = leave (left st)
  at_node (some node) st =
      if is_end node.type
      then answer (ended st.messages, destroy call.conversation_id st.entries)
      else run_node node st.session st

  unfoldable pub round : List Node → String → State → Round
  unfolding at_node
  round nodes id st = at_node (find_unique (λ n. n.id) id nodes) st

  -- Behind the loop.
  unfoldable pub finish : State → Outcome
  unfolding destroy
  finish st = (ended st.messages, destroy call.conversation_id st.entries)

  -- `currentNodeId && iterations < MAX_ITERATIONS`
  unfoldable pub next_of : State → Option String
  next_of st = if ltb st.iterations max_iterations then given st.current_node_id else none

  abbrev pub follow : (State → Option Outcome) → Round → Option Outcome
  follow loop (again st) = loop st
  follow loop (leave st) = some (finish st)
  follow loop (answer out) = some out

  abbrev pub loop_round :
      (State → Option Outcome) → List Node → Option String → State → Option Outcome
  loop_round loop nodes none st = some (finish st)
  loop_round loop nodes (some id) st = follow loop (round nodes id st)

  -- The loop; `none` stands for fuel that was not enough.
  unfoldable pub run : ℕ → List Node → State → Option Outcome
  unfolding round finish next_of
  run zero nodes st = none
  run (suc fuel) nodes st = loop_round (run fuel nodes) nodes (next_of st) st

  unfoldable pub in_flow : ChatbotSession → Option Flow → List Entry → Option Outcome
  unfolding run destroy
  in_flow s none entries = some (ended [], destroy call.conversation_id entries)
  in_flow s (some flow) entries = run (max_iterations + 1) flow.nodes (first_state s entries)

  unfoldable pub in_session : List Flow → Option ChatbotSession → List Entry → Option Outcome
  unfolding in_flow find_flow
  in_session flows none entries = some (null_session, entries)
  in_session flows (some s) entries = in_flow s (find_flow s.flow_id flows) entries

  abbrev pub leave_start :
      Option String → ChatbotSession × List Entry → Option ChatbotSession × List Entry
  leave_start none made = (some made.0, made.1)
  leave_start (some next) made =
      update call.now call.conversation_id (λ s. move_to next s.waiting_for_input s.variables s)
        made.1

  -- The session of a new conversation: it is created at the first node, and a start node is left.
  unfoldable pub begin : Flow → Node → List Entry → Option ChatbotSession × List Entry
  unfolding create update
  begin flow node entries =
      leave_start (if is_start node.type then given (some (edge_at 0 node.edges)) else none)
        (create call.now call.conversation_id flow.id node.id entries)

  -- A flow without nodes is no flow.
  unfoldable pub with_nodes : List Flow → Flow → List Node → List Entry → Option Outcome
  unfolding begin in_session
  with_nodes flows flow [] entries = some (ended [], entries)
  with_nodes flows flow (n ∷ nodes) entries =
      let begun = begin flow (first_node n (n ∷ nodes)) entries in in_session flows begun.0 begun.1

  unfoldable pub begin_with : List Flow → Option Flow → List Entry → Option Outcome
  unfolding with_nodes
  begin_with flows none entries = some (ended [], entries)
  begin_with flows (some flow) entries = with_nodes flows flow flow.nodes entries

  unfoldable pub for_session :
      String → List Flow → Option ChatbotSession → List Entry → Option Outcome
  unfolding begin_with in_session find_active_flow
  for_session channel flows none entries = begin_with flows (find_active_flow channel flows) entries
  for_session channel flows (some s) entries = in_session flows (some s) entries

  unfoldable pub process_message : String → List Flow → List Entry → Option Outcome
  unfolding for_session get
  process_message channel flows entries =
      for_session channel flows (get call.now call.conversation_id entries) entries
