-- ===== src/Chatbot/Engine/Unheard.antt =====
-- A text that no node waits for.
use Prim.Native.Nat.{zero, suc}
use chat_intelli_api.Base.{
  ℕ, String, Bool, false, Option, none, some, List, [], ◌∷◌, ◌++◌, ◌≡◌, ◌∙◌, sym, ap, refl, inl,
  inr, eq_refl, Bool-cases, if◌then◌else◌,
}
use chat_intelli_api.Base.Table.{find_unique}
use chat_intelli_api.Base.Exec.{Result, ok, err}
use chat_intelli_api.Chatbot.{
  Node, Flow, Message, Variable, ChatbotSession, NodeResult, find_flow, find_active_flow,
}
use chat_intelli_api.Chatbot.Nodes.{given, execute}
use chat_intelli_api.Chatbot.Session.{
  Entry, get, create, update, update_found, get-put, update_lem, new_session,
}
use chat_intelli_api.Chatbot.Engine.{
  Outcome, State, Round, Call, again, leave, answer, assign_all, move_to, go_to, is_end,
  after_execute, with_result, run_node, at_node, round, finish, next_of, run, follow, loop_round,
  context, has_executor, first_node, first_state, in_flow, in_session, leave_start, begin,
  with_nodes, begin_with, for_session, process_message,
}

-- The same call with another text.
abbrev pub with_text : String → Call → Call
with_text text call = record {
  language = call.language;
  now = call.now;
  conversation_id = call.conversation_id;
  incoming_text = text;
}

-- No node waits for an input.
abbrev pub Quiet : Option ChatbotSession → Type 0
Quiet none = Unit
Quiet (some s) = s.waiting_for_input ≡ false

abbrev QuietRound : Round → Type 0
QuietRound (again st) = Quiet st.session
QuietRound _ = Unit

Quiet-update_found :
    (now : ℕ) (id : String) (change : ChatbotSession → ChatbotSession)
    → ((s : ChatbotSession) → Quiet (some s) → Quiet (some (change s)))
    → (o : Option ChatbotSession) (entries : List Entry) → Quiet o
    → Quiet (update_found now id change o entries).0
unfolding update_found
Quiet-update_found now id change quiet none entries h = tt
Quiet-update_found now id change quiet (some s) entries h = quiet s h

Quiet-update :
    (now : ℕ) (id : String) (change : ChatbotSession → ChatbotSession)
    → ((s : ChatbotSession) → Quiet (some (change s)))
    → (o : Option ChatbotSession) (entries : List Entry)
    → Quiet (update_found now id change o entries).0
unfolding update_found
Quiet-update now id change quiet none entries = tt
Quiet-update now id change quiet (some s) entries = quiet s

module _ (call : Call) (text : String) where
  go_to-same :
      (next : Option String) (variables : List Variable) (messages : List Message) (st : State)
      → (go_to call next variables messages st
          ≡ go_to (with_text text call) next variables messages st)
        × QuietRound (go_to call next variables messages st)
  unfolding update
  go_to-same none variables messages st = (refl, tt)
  go_to-same (some node) variables messages st = (
    refl,
    Quiet-update call.now call.conversation_id (move_to node false variables) (λ s. refl)
        (get call.now call.conversation_id st.entries) st.entries,
  )

  abbrev Same : Round → Round → Type 0
  Same r r' = (r ≡ r') × QuietRound r

  after_execute-Same :
      (id : String) (s : ChatbotSession) (result : NodeResult) (st : State)
      → Same
          (after_execute call id s result st)
          (after_execute (with_text text call) id s result st)
  unfolding after_execute
  after_execute-Same id s result st = elim (Bool-cases result.transfer_to_human) [
    | inl transfers ↦ rw transfers (refl, tt)
    | inr stays ↦ rw stays (elim (Bool-cases result.wait_for_input) [
      | inl waits ↦ rw waits (refl, tt)
      | inr goes ↦ rw goes (
          go_to-same (given result.next_node_id) (assign_all result.updated_variables s.variables)
            (st.messages ++ result.send_messages) st)
    ])
  ]

  with_result-Same :
      (id : String) (s : ChatbotSession) (o : Option (Result NodeResult)) (st : State)
      → Same (with_result call id s o st) (with_result (with_text text call) id s o st)
  unfolding with_result
  with_result-Same id s none st = (refl, tt)
  with_result-Same id s (some (err e)) st = (refl, tt)
  with_result-Same id s (some (ok result)) st = after_execute-Same id s result st

  -- Where no node waits, an executor sees no text.
  unheard :
      (node : Node) (s : ChatbotSession)
      → s.waiting_for_input ≡ false
      → execute call.language node.type (context call node s)
        ≡ execute call.language node.type (context (with_text text call) node s)
  unheard node s quiet = ap (sees call.incoming_text) quiet ∙ sym (ap (sees text) quiet)
    where
      sees : String → Bool → Option (Result NodeResult)
      sees t waiting =
          execute call.language node.type (record {
            session = s;
            node = node;
            incoming_message = if waiting then some t else none;
          })

  run_node-Same :
      (node : Node) (o : Option ChatbotSession) (st : State)
      → Quiet o
      → Same (run_node call node o st) (run_node (with_text text call) node o st)
  unfolding run_node
  run_node-Same node none st quiet = (
    refl,
    elim (Bool-cases (has_executor node.type)) [ inl has ↦ rw has tt | inr lacks ↦ rw lacks tt ],
  )
  run_node-Same node (some s) st quiet =
      let (same, silent) =
        with_result-Same node.id s (execute call.language node.type (context call node s)) st in
      (
        same ∙ ap (λ o. with_result (with_text text call) node.id s o st) (unheard node s quiet),
        silent,
      )

  at_node-Same :
      (node : Option Node) (st : State)
      → Quiet st.session
      → Same (at_node call node st) (at_node (with_text text call) node st)
  unfolding at_node
  at_node-Same none st quiet = (refl, tt)
  at_node-Same (some node) st quiet = elim (Bool-cases (is_end node.type)) [
    | inl ends ↦ rw ends (refl, tt)
    | inr runs ↦ rw runs (run_node-Same node st.session st quiet)
  ]

  abbrev other : Call
  other = with_text text call

  follow-Same :
      (loop loop' : State → Option Outcome)
      → ((st : State) → Quiet st.session → loop st ≡ loop' st)
      → (r r' : Round) → Same r r'
      → follow call loop r ≡ follow other loop' r'
  unfolding finish
  follow-Same loop loop' same (again st) r' (e, quiet) = same st quiet ∙ ap (follow other loop') e
  follow-Same loop loop' same (leave st) r' (e, quiet) = ap (follow other loop') e
  follow-Same loop loop' same (answer out) r' (e, quiet) = ap (follow other loop') e

  loop_round-same :
      (loop loop' : State → Option Outcome)
      → ((st : State) → Quiet st.session → loop st ≡ loop' st)
      → (nodes : List Node) (next : Option String) (st : State) → Quiet st.session
      → loop_round call loop nodes next st ≡ loop_round other loop' nodes next st
  unfolding finish round
  loop_round-same loop loop' same nodes none st quiet = refl
  loop_round-same loop loop' same nodes (some id) st quiet =
      follow-Same loop loop' same _ _ (at_node-Same (find_unique (λ n. n.id) id nodes) st quiet)

  run-same :
      (fuel : ℕ) (nodes : List Node) (st : State)
      → Quiet st.session
      → run call fuel nodes st ≡ run other fuel nodes st
  unfolding run next_of
  run-same zero nodes st quiet = refl
  run-same (suc fuel) nodes st quiet =
      loop_round-same (run call fuel nodes) (run other fuel nodes)
        (λ st' q. run-same fuel nodes st' q) nodes (next_of call st) st quiet

  in_flow-same :
      (s : ChatbotSession) (flow : Option Flow) (entries : List Entry)
      → s.waiting_for_input ≡ false
      → in_flow call s flow entries ≡ in_flow other s flow entries
  unfolding in_flow
  in_flow-same s none entries quiet = refl
  in_flow-same s (some flow) entries quiet = run-same 21 flow.nodes (first_state s entries) quiet

  in_session-same :
      (flows : List Flow) (o : Option ChatbotSession) (entries : List Entry)
      → Quiet o
      → in_session call flows o entries ≡ in_session other flows o entries
  unfolding in_session
  in_session-same flows none entries quiet = refl
  in_session-same flows (some s) entries quiet =
      in_flow-same s (find_flow s.flow_id flows) entries quiet

  leave_start-same :
      (next : Option String) (made : ChatbotSession × List Entry)
      → leave_start call next made ≡ leave_start other next made
  leave_start-same none made = refl
  leave_start-same (some node) made = refl

  leave_start-Quiet :
      (next : Option String) (s : ChatbotSession) (entries : List Entry)
      → s.waiting_for_input ≡ false
      → get call.now call.conversation_id entries ≡ some s
      → Quiet (leave_start call next (s, entries)).0
  leave_start-Quiet none s entries quiet found = quiet
  leave_start-Quiet (some node) s entries quiet found =
      rw
        ((update_lem call.now call.conversation_id call.conversation_id
          (λ t. move_to node t.waiting_for_input t.variables t) s entries found).0)
        quiet

  begin-Quiet :
      (flow : Flow) (node : Node) (entries : List Entry) → Quiet (begin call flow node entries).0
  unfolding begin create
  begin-Quiet flow node entries =
      leave_start-Quiet _ (new_session call.conversation_id flow.id node.id) _ refl (
        get-put call.now call.now call.conversation_id call.conversation_id _ entries
        ∙ rw (eq_refl call.conversation_id) refl)

  with_nodes-same :
      (flows : List Flow) (flow : Flow) (nodes : List Node) (entries : List Entry)
      → with_nodes call flows flow nodes entries ≡ with_nodes other flows flow nodes entries
  unfolding with_nodes begin
  with_nodes-same flows flow [] entries = refl
  with_nodes-same flows flow (n ∷ nodes) entries =
      let begun = begin call flow (first_node n (n ∷ nodes)) entries in
      in_session-same flows begun.0 begun.1 (begin-Quiet flow (first_node n (n ∷ nodes)) entries)
      ∙ ap (λ (b : Option ChatbotSession × List Entry). in_session other flows b.0 b.1)
          (leave_start-same _ _)

  begin_with-same :
      (flows : List Flow) (flow : Option Flow) (entries : List Entry)
      → begin_with call flows flow entries ≡ begin_with other flows flow entries
  unfolding begin_with
  begin_with-same flows none entries = refl
  begin_with-same flows (some flow) entries = with_nodes-same flows flow flow.nodes entries

  for_session-same :
      (channel : String) (flows : List Flow) (o : Option ChatbotSession) (entries : List Entry)
      → Quiet o
      → for_session call channel flows o entries ≡ for_session other channel flows o entries
  unfolding for_session
  for_session-same channel flows none entries quiet =
      begin_with-same flows (find_active_flow channel flows) entries
  for_session-same channel flows (some s) entries quiet =
      in_session-same flows (some s) entries quiet

-- Where no session of the conversation waits for an input, what the contact wrote changes nothing:
-- the engine returns and stores the same for any other text.
pub process_message-unheard :
    (call : Call) (text channel : String) (flows : List Flow) (entries : List Entry)
    → Quiet (get call.now call.conversation_id entries)
    → process_message call channel flows entries
      ≡ process_message (with_text text call) channel flows entries
unfolding process_message
process_message-unheard call text channel flows entries quiet =
    for_session-same call text channel flows (get call.now call.conversation_id entries) entries
      quiet
