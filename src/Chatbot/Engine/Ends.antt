-- ===== src/Chatbot/Engine/Ends.antt =====
-- A call of the engine ends: what it returns, and the sessions behind it.
use Prim.Native.Nat.{◌+◌, ◌<◌, ◌≤◌}
use chat_intelli_api.Base.{
  ℕ, String, Option, none, some, List, [], ◌∷◌, ◌≡◌, refl, inl, inr, arith, eq_refl, length, All,
  Bool-cases, true, not, ◌&&◌, ◌==◌,
}
use mathlib.Core.Path.{subst}
use mathlib.Core.Option.{some-injective}
use chat_intelli_api.Base.Exec.{ok}
use chat_intelli_api.Base.Order.{All-All}
use chat_intelli_api.Base.Table.{find_unique, find_first}
use chat_intelli_api.Chatbot.{Node, Flow, ChatbotSession, find_flow, find_active_flow}
use chat_intelli_api.Chatbot.Session.{Entry, get, put, create, get-put, update_lem}
use chat_intelli_api.Chatbot.Engine.{
  EngineResult, Outcome, State, Call, max_iterations, first_node, move_to, round, run, first_state,
  in_flow, in_session, leave_start, begin, with_nodes, begin_with, for_session, process_message,
}
use chat_intelli_api.Chatbot.Engine.Rounds.{Returns, run_ends}
use chat_intelli_api.Chatbot.Engine.Executed.{is_complete}
use chat_intelli_api.Chatbot.Engine.Keeps.{
  Others, Settled, Good, Ready, Keeps, gone, Others-destroy, Others-update, stored, finish-Good,
  at_node-Keeps,
}

find_unique-All :
    (P : Node → Type 0) (id : String) (nodes : List Node)
    → All P nodes
    → (n : Node) → find_unique (λ m. m.id) id nodes ≡ some n
    → P n
unfolding find_unique
find_unique-All P id [] h n e = absurd (ground arith)
find_unique-All P id (m ∷ nodes) h n e = elim (Bool-cases (m.id == id)) [
  | inl hit ↦ subst P (some-injective _ _ (rw hit at e)) h.0
  | inr other ↦ find_unique-All P id nodes h.1 n (rw other at e)
]

find_flow-All :
    (P : Flow → Type 0) (id : String) (flows : List Flow)
    → All P flows
    → (f : Flow) → find_flow id flows ≡ some f
    → P f
unfolding find_flow find_first
find_flow-All P id [] h f e = absurd (ground arith)
find_flow-All P id (g ∷ flows) h f e = elim (Bool-cases (g.id == id && not g.is_deleted)) [
  | inl hit ↦ subst P (some-injective _ _ (rw hit at e)) h.0
  | inr other ↦ find_flow-All P id flows h.1 f (rw other at e)
]

module _ (call : Call) (before : List Entry) (Q : Node → Type 0) (flows : List Flow)
    (known : All (λ f. All Q f.nodes) flows) where
  run-Returns :
      (nodes : List Node) (s : ChatbotSession) (entries : List Entry)
      → All Q nodes
      → get call.now call.conversation_id entries ≡ some s
      → Others call before entries
      → Returns call nodes
          (Ready call before Q)
          (Good call before Q)
          (run call (max_iterations + 1) nodes (first_state s entries))
  unfolding round
  run-Returns nodes s entries all here others =
      run_ends call nodes (Ready call before Q) (Good call before Q) (finish-Good call before Q)
        step (max_iterations + 1) _ (omega arith) (omega arith)
        (s, refl, here, omega arith, omega arith, others)
    where
      step :
          (st : State) (id : String)
          → Ready call before Q st
          → st.iterations < max_iterations
          → Keeps call before Q st (round call nodes id st)
      step st id ready lt =
          at_node-Keeps call before Q (find_unique (λ n. n.id) id nodes) st
            (find_unique-All Q id nodes all) ready lt

  abbrev pub Answers : Option Outcome → Type 0
  Answers o = (out : Outcome) × (o ≡ some out) × Good call before Q out

  in_flow-Answers :
      (s : ChatbotSession) (flow : Option Flow) (entries : List Entry)
      → ((f : Flow) → flow ≡ some f → All Q f.nodes)
      → get call.now call.conversation_id entries ≡ some s
      → Others call before entries
      → Answers (in_flow call s flow entries)
  unfolding in_flow
  in_flow-Answers s none entries all here others = (
    _,
    refl,
    inl (
      _,
      refl,
      omega arith,
      inl (refl, gone call before entries),
      Others-destroy call before entries others,
    ),
  )
  in_flow-Answers s (some flow) entries all here others =
      run-Returns flow.nodes s entries (all flow refl) here others

  -- A session that has begun is stored call before.
  abbrev Begun : Option ChatbotSession × List Entry → Type 0
  Begun b =
      (s : ChatbotSession) × (b.0 ≡ some s)
      × (get call.now call.conversation_id b.1 ≡ some s)
      × Others call before b.1

  leave_start-Begun :
      (next : Option String) (s : ChatbotSession) (entries : List Entry)
      → get call.now call.conversation_id entries ≡ some s
      → Others call before entries
      → Begun (leave_start call next (s, entries))
  leave_start-Begun none s entries here others = (s, refl, here, others)
  leave_start-Begun (some next) s entries here others = (
    change s,
    (update_lem call.now call.conversation_id call.conversation_id change s entries here).0,
    stored call before change s entries here,
    Others-update call before change s entries here others,
  )
    where
      change : ChatbotSession → ChatbotSession
      change t = move_to next t.waiting_for_input t.variables t

  Others-put :
      (started : ℕ) (s : ChatbotSession) (entries : List Entry)
      → Others call before entries
      → Others call before (put call.now started call.conversation_id s entries)
  Others-put started s entries h other differs =
      rw (get-put call.now started call.conversation_id other s entries)
        (rw differs (h other differs))

  begin-Begun :
      (flow : Flow) (node : Node) (entries : List Entry)
      → Others call before entries
      → Begun (begin call flow node entries)
  unfolding begin create
  begin-Begun flow node entries others =
      leave_start-Begun _ _ _
        (rw (get-put call.now call.now call.conversation_id call.conversation_id _ entries)
          (rw (eq_refl call.conversation_id) refl))
        (Others-put call.now _ entries others)

  in_session-Answers :
      (b : Option ChatbotSession × List Entry) → Begun b → Answers (in_session call flows b.0 b.1)
  unfolding in_session
  in_session-Answers b (s, found, here, others) = rw found (
      in_flow-Answers s (find_flow s.flow_id flows) b.1
        (find_flow-All (λ f. All Q f.nodes) s.flow_id flows known) here others)

  with_nodes-Answers :
      (flow : Flow) (nodes : List Node) (entries : List Entry)
      → get call.now call.conversation_id entries ≡ none
      → Others call before entries
      → Answers (with_nodes call flows flow nodes entries)
  unfolding with_nodes
  with_nodes-Answers flow [] entries none_yet others =
      (_, refl, inl (_, refl, omega arith, inl (refl, none_yet), others))
  with_nodes-Answers flow (n ∷ nodes) entries none_yet others =
      in_session-Answers _ (begin-Begun flow (first_node n (n ∷ nodes)) entries others)

  begin_with-Answers :
      (flow : Option Flow) (entries : List Entry)
      → get call.now call.conversation_id entries ≡ none
      → Others call before entries
      → Answers (begin_with call flows flow entries)
  unfolding begin_with
  begin_with-Answers none entries none_yet others =
      (_, refl, inl (_, refl, omega arith, inl (refl, none_yet), others))
  begin_with-Answers (some flow) entries none_yet others =
      with_nodes-Answers flow flow.nodes entries none_yet others

  for_session-Answers :
      (channel : String) (o : Option ChatbotSession)
      → get call.now call.conversation_id before ≡ o
      → Answers (for_session call channel flows o before)
  unfolding for_session
  for_session-Answers channel none found =
      begin_with-Answers (find_active_flow channel flows) before found (λ other _. refl)
  for_session-Answers channel (some s) found =
      in_session-Answers (some s, before) (s, refl, found, λ other _. refl)

-- Whatever the flows, cyclic ones included, the sessions and the text, where every menu has options,
-- each with a label and a value, every condition on what a text contains has a value, and no time
-- passes within the call: the engine returns, behind 20 messages at most.
pub process_message-returns :
    (call : Call) (channel : String) (flows : List Flow) (before : List Entry)
    → All (λ f. All (λ n. is_complete n.type n.content ≡ true) f.nodes) flows
    → (r : EngineResult) × (after : List Entry) × (process_message call channel flows before
        ≡ some (ok r, after))
      × (length r.messages ≤ max_iterations)
unfolding process_message
process_message-returns call channel flows before complete =
    let (out, e, good) =
      for_session-Answers call before (λ n. is_complete n.type n.content ≡ true) flows complete
        channel (get call.now call.conversation_id before) refl in
    elim good [
      | inl (r, is_ok, few, settled, others) ↦ (r, out.1, (ground arith), few)
      | inr (node, has, lacks, threw) ↦ absurd (ground arith)
    ]

-- What a call returns agrees with the sessions behind it: where the session has ended there is
-- none of the conversation; else it waits for an input, and nothing is transferred to a human. The
-- sessions of other conversations are what they were.
pub process_message-settles :
    (call : Call) (channel : String) (flows : List Flow) (before : List Entry) (r : EngineResult)
    (after : List Entry)
    → process_message call channel flows before ≡ some (ok r, after)
    → Settled call before r after × Others call before after
unfolding process_message
process_message-settles call channel flows before r after h =
    let (out, e, good) =
      for_session-Answers call before (λ n. Unit) flows
        (All-All (λ f. All (λ n. Unit) f.nodes) (λ f. All-All (λ n. Unit) (λ n. tt) f.nodes) flows)
        channel (get call.now call.conversation_id before) refl in
    elim good [
      | inl (r', is_ok, few, settled, others) ↦ ground arith
      | inr (node, has, lacks, threw) ↦ absurd (ground arith)
    ]
