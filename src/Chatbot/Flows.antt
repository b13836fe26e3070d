-- ===== src/Chatbot/Flows.antt =====
-- The editing of flows (src/modules/chatbot/chatbot-flows/chatbot-flows.service.ts,
-- chatbot-flows.repository.ts). The ids of the rows that are created are inputs.
pub mod Edits
mod Tests
use Prim.Native.Nat.{suc}
use mathlib.Core.Option
use chat_intelli_api.Base.{
  ℕ, String, Bool, true, false, not, ◌&&◌, ◌||◌, Option, none, some, List, [], ◌∷◌, ◌++◌, ◌==◌, all,
  any, contains, length, is_empty, or_else, if◌then◌else◌,
}
use chat_intelli_api.Base.Exec.{
  Failure, not_found, forbidden, failed, Result, ok, err, Exec, pure, throw, ◌>>=◌, ◌>>◌,
}
use chat_intelli_api.Base.Table.{update_key}
use chat_intelli_api.Json.{Json, undefined, null, str, num, obj, arr, nil, end}
use chat_intelli_api.Chatbot.{
  NodeType, start, message, menu, condition, wait, action, transfer, end_flow, Edge, NodeData, Node,
  Flow, find_flow,
}

-- The flows with their nodes and channels, and the ids of the channels that there are.
pub record Tables : Type 0 where
  pub flows : List Flow
  pub channel_ids : List String

pub record CreateFlow : Type 0 where
  pub name : String
  pub description : Option String
  pub trigger_type : Option String
  pub trigger_config : Option Json

-- What is given is not `null`.
pub record UpdateFlow : Type 0 where
  pub name : Option String
  pub description : Option String
  pub is_active : Option Bool
  pub trigger_type : Option String
  pub trigger_config : Option Json
  pub variables : Option Json

-- `ChatbotNodeDto`, of which nothing is validated: `@ValidateNested` is missing. The service drops
-- the id that it may have. The data and the edges have the types that the executors cast them to.
pub record NodeInput : Type 0 where
  pub id : Option String
  pub type : String
  pub name : Json
  pub position_x : Json
  pub position_y : Json
  pub content : NodeData
  pub edges : List Edge

-- `x || d` on an optional text
abbrev text_or : Option String → String → String
text_or none d = d
text_or (some s) d = if is_empty s then d else s

abbrev pub flow_id : Flow → String
flow_id f = f.id

abbrev pub change_flow : String → (Flow → Flow) → Exec Tables Unit
change_flow id f t = (ok tt, record t { flows = update_key flow_id id f t.flows })

abbrev new_flow : String → String → CreateFlow → Flow
new_flow fresh organization dto = record {
  id = fresh;
  organization_id = organization;
  name = dto.name;
  description = dto.description;
  trigger_type = text_or dto.trigger_type "KEYWORD";
  trigger_config = or_else dto.trigger_config (obj end);
  variables = arr nil;
  is_active = false;
  is_deleted = false;
  nodes = [];
  channels = [];
}

unfoldable pub create_flow : String → String → CreateFlow → Exec Tables Flow
create_flow fresh organization dto t =
    let flow = new_flow fresh organization dto in
    (ok flow, record t { flows = t.flows ++ flow ∷ [] })

abbrev pub owned : String → Option Flow → Exec Tables Flow
owned organization none = throw (not_found "Chatbot flow not found")
owned organization (some f) =
    if f.organization_id == organization then pure f else throw (forbidden "Forbidden")

-- `findOne`
unfoldable pub find_one : String → String → Exec Tables Flow
unfolding find_flow
find_one id organization t = owned organization (find_flow id t.flows) t

abbrev kept_or : Option String → Option String → Option String
kept_or none old = old
kept_or (some s) old = some s

abbrev pub updated : UpdateFlow → Flow → Flow
updated dto f = record f {
  name = or_else dto.name f.name;
  description = kept_or dto.description f.description;
  is_active = or_else dto.is_active f.is_active;
  trigger_type = or_else dto.trigger_type f.trigger_type;
  trigger_config = or_else dto.trigger_config f.trigger_config;
  variables = or_else dto.variables f.variables;
}

unfoldable pub update_flow : String → String → UpdateFlow → Exec Tables Unit
unfolding find_one
update_flow id organization dto = find_one id organization >> change_flow id (updated dto)

-- `softDelete`
unfoldable pub remove_flow : String → String → Exec Tables Unit
unfolding find_one
remove_flow id organization =
    find_one id organization
    >> change_flow id (λ f. record f { is_deleted = true; is_active = false })

-- The values of the column's type; another text is refused by the database.
abbrev pub type_of : String → Option NodeType
type_of t =
    if t == "START"
    then some start
    else if t == "MESSAGE"
    then some message
    else if t == "MENU"
    then some menu
    else if t == "CONDITION"
    then some condition
    else if t == "WAIT"
    then some wait
    else if t == "ACTION"
    then some action
    else if t == "TRANSFER"
    then some transfer
    else if t == "END_FLOW"
    then some end_flow
    else none

-- The errors of the deletion, or of what is read before it, and of the transaction behind it.
pub record Faults : Type 0 where
  pub delete_fault : Option String
  pub create_fault : Option String

-- What a column of an optional text, and one of a number, takes.
abbrev takes_text : Json → Bool
takes_text undefined = true
takes_text null = true
takes_text (str s) = true
takes_text _ = false

abbrev takes_number : Json → Bool
takes_number (num n) = true
takes_number _ = false

-- The type of a row that Prisma takes.
abbrev pub taken_type : NodeInput → Option NodeType
taken_type i =
    if takes_text i.name && takes_number i.position_x && takes_number i.position_y
    then type_of i.type
    else none

abbrev pub add_node : String → NodeInput → Option NodeType → Option (List Node) → Option (List Node)
add_node id input (some type) (some nodes) =
    some (record { id = id; type = type; content = input.content; edges = input.edges } ∷ nodes)
add_node id input _ _ = none

-- The rows that are created, each with an id of its own, if Prisma takes every one. The name and the
-- position, which nothing reads, are left out of them.
unfoldable pub created_nodes : (ℕ → String) → ℕ → List NodeInput → Option (List Node)
created_nodes fresh n [] = some []
created_nodes fresh n (i ∷ is) =
    add_node (fresh n) i (taken_type i) (created_nodes fresh (suc n) is)

abbrev pub set_nodes : List Node → Flow → Flow
set_nodes nodes f = record f { nodes = nodes }

abbrev pub refused_node : Failure
refused_node = failed "Invalid `prisma.chatbotNode.create()` invocation"

abbrev pub insert_nodes : Option String → String → Option (List Node) → Exec Tables Unit
insert_nodes (some m) id nodes = throw (failed m)
insert_nodes none id none = throw refused_node
insert_nodes none id (some nodes) = change_flow id (set_nodes nodes)

-- Without nodes there is no transaction.
abbrev pub create_all : Option String → (ℕ → String) → String → List NodeInput → Exec Tables Unit
create_all fault fresh id [] = pure tt
create_all fault fresh id (i ∷ is) = insert_nodes fault id (created_nodes fresh 0 (i ∷ is))

abbrev pub delete_nodes : Option String → String → Exec Tables Unit
delete_nodes (some m) id = throw (failed m)
delete_nodes none id = change_flow id (set_nodes [])

-- `replaceNodes`: the nodes are deleted, then the new ones are created in one transaction.
unfoldable pub replace_nodes : Faults → (ℕ → String) → String → List NodeInput → Exec Tables Unit
unfolding created_nodes
replace_nodes faults fresh id inputs =
    delete_nodes faults.delete_fault id >> create_all faults.create_fault fresh id inputs

unfoldable pub save_nodes :
    Faults → (ℕ → String) → String → String → List NodeInput → Exec Tables Unit
unfolding find_one replace_nodes
save_nodes faults fresh id organization inputs =
    find_one id organization >> replace_nodes faults fresh id inputs

abbrev repeats : List String → Bool
repeats [] = false
repeats (c ∷ cs) = contains cs c || repeats cs

abbrev pub set_links : List String → Flow → Flow
set_links ids f = record f { channels = ids }

-- `createMany` breaks a key where a channel is not there or named twice.
unfoldable pub link_all : String → List String → Exec Tables Unit
link_all id ids t =
    if all (λ c. contains t.channel_ids c) ids && not (repeats ids)
    then change_flow id (set_links ids) t
    else (err (failed "Constraint failed on the table chatbot_flow_channels"), t)

-- `setChannels`
unfoldable pub set_channels : String → List String → Exec Tables Unit
unfolding link_all
set_channels id ids = change_flow id (set_links []) >> link_all id ids

unfoldable pub link_channels : String → String → List String → Exec Tables Flow
unfolding find_one set_channels
link_channels id organization ids =
    find_one id organization >> set_channels id ids >> find_one id organization
