-- ===== src/Chatbot/Engine/Executed.antt =====
-- What the executors answer with, and where they fail.
use Prim.Native.Nat.{◌≤◌}
use mathlib.Core.Path.{subst}
use mathlib.Core.Option.{some-injective}
use chat_intelli_api.Base.{
  String, Bool, true, false, not, ◌||◌, Option, none, some, is_none, List, ◌≡◌, refl, inl, inr,
  arith, ◌==◌, length, Bool-cases,
}
use chat_intelli_api.Base.Exec.{Result, ok, err}
use chat_intelli_api.Chatbot.{
  NodeType, start, message, menu, condition, wait, action, transfer, end_flow, Node, NodeData,
  MenuOption, NodeResult,
}
use chat_intelli_api.Chatbot.Nodes.{
  Language, Context, given, execute, execute_message, execute_menu, execute_condition, execute_wait,
  execute_transfer, wait_for, menu_for, menu_with, choose, branched, condition_for, missing_field,
}

choose-messages-le :
    (o : Option MenuOption) (node : Node) → length (choose o node.edges).send_messages ≤ 1
unfolding choose
choose-messages-le none node = omega arith
choose-messages-le (some o) node = omega arith

wait_for-messages-le :
    (input : Option String) (ctx : Context) → length (wait_for input ctx).send_messages ≤ 1
unfolding wait_for
wait_for-messages-le none ctx = omega arith
wait_for-messages-le (some text) ctx = omega arith

menu_for-messages-le :
    (language : Language) (input : Option String) (options : List MenuOption) (ctx : Context)
    → length (menu_for language input options ctx).send_messages ≤ 1
unfolding menu_for
menu_for-messages-le language none options ctx = omega arith
menu_for-messages-le language (some text) options ctx = choose-messages-le _ ctx.node

-- The data of the node have what its executor cannot do without: the options of a menu, and the
-- value of a condition on what a text contains.
abbrev pub is_complete : NodeType → NodeData → Bool
is_complete menu d = not (is_none d.options)
is_complete condition d = not (d.operator == "contains") || not (is_none d.value)
is_complete _ d = true

-- An executor answers with one message at most, or fails where the data of its node lack a field.
abbrev pub Executed : NodeType → Context → Result NodeResult → Type 0
Executed type ctx (ok r) = length r.send_messages ≤ 1
Executed type ctx (err e) = (e ≡ missing_field) × (is_complete type ctx.node.content ≡ false)

menu_with-Executed :
    (language : Language) (ctx : Context) (o : Option (List MenuOption))
    → ctx.node.content.options ≡ o
    → Executed menu ctx (menu_with language o ctx)
unfolding menu_with
menu_with-Executed language ctx none has = (refl, ground arith)
menu_with-Executed language ctx (some options) has =
    menu_for-messages-le language (given ctx.incoming_message) options ctx

branched-Executed :
    (language : Language) (ctx : Context) (actual : String) (o : Option String)
    → ctx.node.content.value ≡ o
    → Executed condition ctx
        (branched (condition_for language ctx.node.content.operator actual o) ctx.node.edges)
unfolding condition_for
branched-Executed language ctx actual (some value) has = omega arith
branched-Executed language ctx actual none has =
    elim (Bool-cases (ctx.node.content.operator == "contains")) [
      | inl contains ↦ rw contains (refl, rw (has, contains) refl)
      | inr other ↦ rw other (omega arith)
    ]

pub execute-Executed :
    (language : Language) (type : NodeType) (ctx : Context) (r : Result NodeResult)
    → execute language type ctx ≡ some r
    → Executed type ctx r
unfolding execute execute_message execute_menu execute_condition execute_wait execute_transfer
execute-Executed language message ctx r h =
    subst (Executed message ctx) (some-injective _ _ h) (omega arith)
execute-Executed language transfer ctx r h =
    subst (Executed transfer ctx) (some-injective _ _ h) (omega arith)
execute-Executed language wait ctx r h =
    subst (Executed wait ctx) (some-injective _ _ h)
      (wait_for-messages-le (given ctx.incoming_message) ctx)
execute-Executed language menu ctx r h =
    subst (Executed menu ctx) (some-injective _ _ h)
      (menu_with-Executed language ctx ctx.node.content.options refl)
execute-Executed language condition ctx r h =
    subst (Executed condition ctx) (some-injective _ _ h)
      (branched-Executed language ctx _ ctx.node.content.value refl)
execute-Executed language start ctx r h = absurd (ground arith)
execute-Executed language action ctx r h = absurd (ground arith)
execute-Executed language end_flow ctx r h = absurd (ground arith)
