-- ===== src/Chatbot/Nodes.antt =====
-- The executors of the nodes (src/modules/chatbot/engine/node-executors/*.ts). `toLowerCase` and the
-- order of the numbers that `parseFloat` reads are parameters.
use Prim.Native.Nat.{zero, suc, ◌+◌}
use chat_intelli_api.Base.{
  ℕ, String, Bool, true, false, not, ◌||◌, Option, none, some, List, [], ◌∷◌, ◌==◌, is_empty,
  if◌then◌else◌, same_id,
}
use chat_intelli_api.Base.Numerals.{parse_int}
use chat_intelli_api.Base.Table.{find_first}
use chat_intelli_api.Base.Exec.{Failure, failed, Result, ok, err}
use chat_intelli_api.Base.Texts.{includes, trim}
use chat_intelli_api.Json.{concat, shown_number}
use chat_intelli_api.Chatbot.{
  NodeType, start, message, menu, condition, wait, action, transfer, end_flow, Edge, MenuOption,
  NodeData, Node, Message, Variable, ChatbotSession, NodeResult, or_null,
}
use chat_intelli_api.Chatbot.Words.{variable_of, interpolate}

-- What the language does with texts.
pub record Language : Type 0 where
  -- `s.toLowerCase()`
  pub lower : String → String
  -- `parseFloat(a) < parseFloat(b)`
  pub less : String → String → Bool

-- `NodeExecutionContext`
pub record Context : Type 0 where
  pub session : ChatbotSession
  pub node : Node
  pub incoming_message : Option String

abbrev target_of : Option Edge → String
target_of none = ""
target_of (some e) = e.target_node_id

-- `edges[i]?.targetNodeId`
unfoldable pub edge_at : ℕ → List Edge → String
edge_at n [] = ""
edge_at zero (e ∷ es) = e.target_node_id
edge_at (suc n) (e ∷ es) = edge_at n es

-- `edges.find((e) => e.condition === value)?.targetNodeId`
unfoldable pub edge_for : String → List Edge → String
edge_for value edges = target_of (find_first (λ e. same_id e.condition (some value)) edges)

-- `a || b`
abbrev pub or_text : String → String → String
or_text a b = if is_empty a then b else a

-- A result that goes on to a node.
abbrev pub to_node : Option String → List Message → List Variable → NodeResult
to_node next messages variables = record {
  next_node_id = next;
  send_messages = messages;
  wait_for_input = false;
  updated_variables = variables;
  transfer_to_human = false;
  transfer_department_id = none;
}

-- A result that asks for an input.
abbrev pub ask : Message → NodeResult
ask prompt = record {
  next_node_id = none;
  send_messages = prompt ∷ [];
  wait_for_input = true;
  updated_variables = [];
  transfer_to_human = false;
  transfer_department_id = none;
}

unfoldable pub execute_message : Context → NodeResult
execute_message ctx =
    to_node (or_null (edge_at 0 ctx.node.edges))
      (interpolate ctx.session.variables ctx.node.content.message ∷ []) []

unfoldable pub execute_transfer : Context → NodeResult
execute_transfer ctx = record {
  next_node_id = none;
  send_messages = or_text ctx.node.content.message "Transferindo você para um atendente..." ∷ [];
  wait_for_input = false;
  updated_variables = [];
  transfer_to_human = true;
  transfer_department_id = ctx.node.content.department_id;
}

-- `!ctx.incomingMessage`: an empty text counts as none.
abbrev pub given : Option String → Option String
given none = none
given (some text) = or_null text

abbrev wait_name : NodeData → String
wait_name d = or_text d.save_as "lastInput"

unfoldable pub wait_for : Option String → Context → NodeResult
wait_for none ctx = ask (or_text ctx.node.content.prompt "Aguardando sua resposta...")
wait_for (some text) ctx =
    to_node (or_null (edge_at 0 ctx.node.edges)) []
      (record { name = wait_name ctx.node.content; value = text } ∷ [])

unfoldable pub execute_wait : Context → NodeResult
unfolding wait_for
execute_wait ctx = wait_for (given ctx.incoming_message) ctx

-- `options[parsed - 1]`
unfoldable pub option_number : ℕ → List MenuOption → Option MenuOption
option_number zero options = none
option_number (suc n) [] = none
option_number (suc zero) (o ∷ options) = some o
option_number (suc (suc n)) (o ∷ options) = option_number (suc n) options

abbrev pub branch : Bool → List Edge → Option String
branch true edges = or_null (or_text (edge_for "true" edges) (edge_at 0 edges))
branch false edges = or_null (or_text (edge_for "false" edges) (edge_at 1 edges))

abbrev text_of : Option String → String
text_of none = ""
text_of (some v) = v

abbrev pub first_of : Option MenuOption → Option MenuOption → Option MenuOption
first_of (some o) other = some o
first_of none other = other

abbrev pub menu_lines : ℕ → List MenuOption → List String
menu_lines i [] = []
menu_lines i (o ∷ options) =
    concat ("\n" ∷ shown_number i ∷ ". " ∷ o.label ∷ []) ∷ menu_lines (i + 1) options

-- The title, an empty line and the options by number.
unfoldable pub menu_text : NodeData → List MenuOption → String
menu_text d options = concat (or_text d.title "Escolha uma opção:" ∷ "\n" ∷ menu_lines 1 options)

-- Reading a property of what the data of a node lack.
abbrev pub missing_field : Failure
missing_field = failed "Cannot read properties of undefined"

abbrev pub branched : Result Bool → List Edge → Result NodeResult
branched (ok met) edges = ok (to_node (branch met edges) [] [])
branched (err e) edges = err e

unfoldable pub choose : Option MenuOption → List Edge → NodeResult
choose none edges = ask "Opção inválida. Tente novamente."
choose (some o) edges =
    to_node (or_null (or_text (edge_for o.value edges) (edge_at 0 edges))) []
      (record { name = "lastMenuSelection"; value = o.value } ∷ [])

module _ (language : Language) where
  -- The switch on the operator.
  unfoldable pub condition_met : String → String → String → Bool
  condition_met operator actual value =
      if operator == "equals"
      then actual == value
      else if operator == "not_equals"
      then not (actual == value)
      else if operator == "contains"
      then includes (language.lower actual) (language.lower value)
      else if operator == "gt"
      then language.less value actual
      else if operator == "lt"
      then language.less actual value
      else false

  -- No text is equal to a missing value, which `parseFloat` reads as NaN.
  unfoldable pub condition_for : String → String → Option String → Result Bool
  condition_for operator actual (some value) = ok (condition_met operator actual value)
  condition_for operator actual none =
      if operator == "contains" then err missing_field else ok (operator == "not_equals")

  unfoldable pub execute_condition : Context → Result NodeResult
  execute_condition ctx =
      branched
        (condition_for ctx.node.content.operator
          (text_of (variable_of ctx.node.content.variable ctx.session.variables))
          ctx.node.content.value)
        ctx.node.edges

  -- An option by its value or its label, without regard to case.
  unfoldable pub option_named : String → List MenuOption → Option MenuOption
  option_named input options =
      find_first
        (λ o.
          language.lower o.value == language.lower input
          || language.lower o.label == language.lower input)
        options

  unfoldable pub selected_option : String → List MenuOption → Option MenuOption
  selected_option input options =
      first_of (option_number (parse_int input) options) (option_named input options)

  unfoldable pub menu_for : Option String → List MenuOption → Context → NodeResult
  unfolding choose selected_option menu_text
  menu_for none options ctx = ask (menu_text ctx.node.content options)
  menu_for (some text) options ctx = choose (selected_option (trim text) options) ctx.node.edges

  unfoldable pub menu_with : Option (List MenuOption) → Context → Result NodeResult
  unfolding menu_for
  menu_with none ctx = err missing_field
  menu_with (some options) ctx = ok (menu_for (given ctx.incoming_message) options ctx)

  unfoldable pub execute_menu : Context → Result NodeResult
  unfolding menu_with
  execute_menu ctx = menu_with ctx.node.content.options ctx

  -- `this.executors.get(node.type)` and its call; `none` where there is no executor.
  unfoldable pub execute : NodeType → Context → Option (Result NodeResult)
  execute message ctx = some (ok (execute_message ctx))
  execute menu ctx = some (execute_menu ctx)
  execute condition ctx = some (execute_condition ctx)
  execute wait ctx = some (ok (execute_wait ctx))
  execute transfer ctx = some (ok (execute_transfer ctx))
  execute start ctx = none
  execute action ctx = none
  execute end_flow ctx = none
