-- ===== src/Chatbot/Engine/Keeps.antt =====
-- What every round of the engine keeps.
use Prim.Native.Nat.{suc, ◌<◌, ◌≤◌}
use chat_intelli_api.Base.{
  String, true, false, Option, none, some, List, [], ◌++◌, ◌≡◌, ◌≢◌, ◌∙◌, sym, ap, refl, ◌⊎◌, inl,
  inr, arith, ◌==◌, eq_refl, length, length-append, Bool-cases,
}
use chat_intelli_api.Base.Exec.{Result, ok, err}
use chat_intelli_api.Chatbot.{Message, Node, Variable, ChatbotSession, NodeResult}
use chat_intelli_api.Chatbot.Nodes.{given, execute, missing_field}
use chat_intelli_api.Chatbot.Session.{Entry, get, destroy, update, get-destroy, update_lem}
use chat_intelli_api.Chatbot.Engine.{
  EngineResult, Outcome, State, Round, Call, max_iterations, assign_all, context, is_end, move_to,
  go_to, after_execute, left, with_result, run_node, at_node, finish,
}
use chat_intelli_api.Chatbot.Engine.Rounds.{RoundKeeps}
use chat_intelli_api.Chatbot.Engine.Executed.{is_complete, Executed, execute-Executed}

module _ (call : Call) (before : List Entry) where
  -- The sessions of other conversations are what they were.
  abbrev pub Others : List Entry → Type 0
  Others entries =
      (other : String)
      → (call.conversation_id == other) ≡ false
      → get call.now other entries ≡ get call.now other before

  -- The session is gone where the result says that it has ended; else it waits for an input, and
  -- the conversation stays with the chatbot.
  abbrev pub Settled : EngineResult → List Entry → Type 0
  Settled r entries =
      ((r.session_ended ≡ true) × (get call.now call.conversation_id entries ≡ none))
      ⊎ ((r.session_ended ≡ false)
          × (r.transfer_to_human ≡ false)
          × (s : ChatbotSession) × (get call.now call.conversation_id entries ≡ some s)
          × (s.waiting_for_input ≡ true))

  pub gone :
      (entries : List Entry)
      → get call.now call.conversation_id (destroy call.conversation_id entries) ≡ none
  gone entries =
      rw (get-destroy call.now call.conversation_id call.conversation_id entries)
        (rw (eq_refl call.conversation_id) refl)

  pub Others-destroy :
      (entries : List Entry) → Others entries → Others (destroy call.conversation_id entries)
  Others-destroy entries h other differs =
      rw (get-destroy call.now call.conversation_id other entries) (rw differs (h other differs))

  pub Others-update :
      (change : ChatbotSession → ChatbotSession) (s : ChatbotSession) (entries : List Entry)
      → get call.now call.conversation_id entries ≡ some s
      → Others entries
      → Others (update call.now call.conversation_id change entries).1
  Others-update change s entries here h other differs =
      rw ((update_lem call.now call.conversation_id other change s entries here).1)
        (rw differs (h other differs))

  pub stored :
      (change : ChatbotSession → ChatbotSession) (s : ChatbotSession) (entries : List Entry)
      → get call.now call.conversation_id entries ≡ some s
      → get call.now call.conversation_id (update call.now call.conversation_id change entries).1
        ≡ some (change s)
  stored change s entries here =
      rw ((update_lem call.now call.conversation_id call.conversation_id change s entries here).1)
        (rw (eq_refl call.conversation_id) refl)

-- What is known of the nodes of the flows is `Q`.
module _ (call : Call) (before : List Entry) (Q : Node → Type 0) where
  abbrev pub Served : Outcome → Type 0
  Served out =
      (r : EngineResult) × (out.0 ≡ ok r)
      × (length r.messages ≤ max_iterations)
      × Settled call before r out.1
      × Others call before out.1

  -- The engine throws at a node whose data lack a field.
  abbrev pub Failed : Outcome → Type 0
  Failed out =
      (node : Node) × Q node
      × (is_complete node.type node.content ≡ false)
      × (out.0 ≡ err missing_field)

  abbrev pub Good : Outcome → Type 0
  Good out = Served out ⊎ Failed out

  -- The loop's session is the stored call before one, and a round sends one message at most.
  abbrev pub Ready : State → Type 0
  Ready st =
      (s : ChatbotSession) × (st.session ≡ some s)
      × (get call.now call.conversation_id st.entries ≡ some s)
      × (length st.messages ≤ st.iterations)
      × (st.iterations ≤ max_iterations)
      × Others call before st.entries

  pub finish-Good : (st : State) → Ready st → Good (finish call st)
  unfolding finish
  finish-Good st (s, loaded, here, few, bound, others) = inl (
    _,
    refl,
    omega (arith, few, bound),
    inl (refl, gone call before st.entries),
    Others-destroy call before st.entries others,
  )

  abbrev pub Keeps : State → Round → Type 0
  Keeps st r = RoundKeeps call [] Ready Good st.iterations r

  left-Good :
      (st : State) → Ready st → st.iterations < max_iterations → Good (finish call (left st))
  left-Good st (s, loaded, here, few, bound, others) lt =
      finish-Good (left st) (s, loaded, here, omega (arith, few), omega (arith, lt), others)

  go_to-Keeps :
      (next : Option String) (variables : List Variable) (messages : List Message) (st : State)
      → Ready st
      → st.iterations < max_iterations
      → length messages ≤ suc st.iterations
      → Keeps st (go_to call next variables messages st)
  go_to-Keeps none variables messages st (s, loaded, here, few, bound, others) lt small =
      finish-Good _ (s, loaded, here, small, omega (arith, lt), others)
  go_to-Keeps (some node) variables messages st (s, loaded, here, few, bound, others) lt small = (
    (
      change s,
      (update_lem call.now call.conversation_id call.conversation_id change s st.entries here).0,
      stored call before change s st.entries here,
      small,
      omega (arith, lt),
      Others-update call before change s st.entries here others,
    ),
    refl,
  )
    where
      change : ChatbotSession → ChatbotSession
      change = move_to node false variables

  after_execute-Keeps :
      (id : String) (s : ChatbotSession) (result : NodeResult) (st : State)
      → Ready st
      → get call.now call.conversation_id st.entries ≡ some s
      → st.iterations < max_iterations
      → length result.send_messages ≤ 1
      → Keeps st (after_execute call id s result st)
  unfolding after_execute
  after_execute-Keeps id s result st ready found lt one =
      elim (Bool-cases result.transfer_to_human) [
        | inl transfers ↦ rw transfers (
            inl (
              _,
              refl,
              fits,
              inl (refl, gone call before st.entries),
              Others-destroy call before st.entries others,
            ))
        | inr stays ↦ rw stays (elim (Bool-cases result.wait_for_input) [
          | inl waits ↦ rw waits (
              inl (
                _,
                refl,
                fits,
                inr (refl, refl, _, stored call before waiting s st.entries found, refl),
                Others-update call before waiting s st.entries found others,
              ))
          | inr goes ↦
              rw goes (go_to-Keeps (given result.next_node_id) variables messages st ready lt small)
        ])
      ]
    where
      variables : List Variable
      variables = assign_all result.updated_variables s.variables

      messages : List Message
      messages = st.messages ++ result.send_messages

      waiting : ChatbotSession → ChatbotSession
      waiting = move_to id true variables

      others : Others call before st.entries
      others = ready.5

      small : length messages ≤ suc st.iterations
      small = omega (arith, length-append st.messages result.send_messages, one)

      fits : length messages ≤ max_iterations
      fits = omega (arith, small, lt)

  with_result-Keeps :
      (node : Node) (s : ChatbotSession) (o : Option (Result NodeResult)) (st : State)
      → Q node
      → Ready st
      → get call.now call.conversation_id st.entries ≡ some s
      → st.iterations < max_iterations
      → ((r : Result NodeResult) → o ≡ some r → Executed node.type (context call node s) r)
      → Keeps st (with_result call node.id s o st)
  unfolding with_result
  with_result-Keeps node s none st known ready found lt one = left-Good st ready lt
  with_result-Keeps node s (some (err e)) st known ready found lt one =
      let (same, lacks) = one (err e) refl in inr (node, known, lacks, ap err same)
  with_result-Keeps node s (some (ok result)) st known ready found lt one =
      after_execute-Keeps node.id s result st ready found lt (one (ok result) refl)

  run_node-Keeps :
      (node : Node) (o : Option ChatbotSession) (st : State)
      → Q node
      → Ready st
      → o ≡ get call.now call.conversation_id st.entries
      → o ≢ none
      → st.iterations < max_iterations
      → Keeps st (run_node call node o st)
  unfolding run_node
  run_node-Keeps node none st known ready found some_there lt = absurd (some_there refl)
  run_node-Keeps node (some s) st known ready found some_there lt =
      with_result-Keeps node s (execute call.language node.type (context call node s)) st known
        ready (sym found) lt (execute-Executed call.language node.type (context call node s))

  pub at_node-Keeps :
      (node : Option Node) (st : State)
      → ((n : Node) → node ≡ some n → Q n)
      → Ready st
      → st.iterations < max_iterations
      → Keeps st (at_node call node st)
  unfolding at_node run_node
  at_node-Keeps none st known ready lt = left-Good st ready lt
  at_node-Keeps (some node) st known (s, loaded, here, few, bound, others) lt =
      elim (Bool-cases (is_end node.type)) [
        | inl ends ↦ rw ends (
            inl (
              _,
              refl,
              omega (arith, few, bound),
              inl (refl, gone call before st.entries),
              Others-destroy call before st.entries others,
            ))
        | inr runs ↦ rw runs (
            run_node-Keeps node st.session st (known node refl)
              (s, loaded, here, few, bound, others) (loaded ∙ sym here) (ground arith) lt)
      ]
