-- ===== src/Router/Selection.antt =====
-- Which agent answers.
use chat_intelli_api.Base.{
  ℕ, String, Bool, true, false, not, ◌&&◌, Option, none, some, List, [], ◌∷◌, ◌≡◌, ◌⊎◌, refl, sym,
  inl, inr, arith, is_none, any,
}
use chat_intelli_api.Base.Table.{find_first}
use chat_intelli_api.Conversation.{Conversation}
use chat_intelli_api.Hours.{Clock}
use chat_intelli_api.Router.{
  Organization, Agent, Link, Database, AgentSelection, selection_of, is_orchestrator, serves,
  link_or, agent_of, resolve_channel_agent, active_id, agent_with, continue_or, select_agent,
  handle, should_handle,
}
use chat_intelli_api.Router.Handling.{allows, has_candidate, should_handle_iff}

-- What a search finds passes its test, and is in the list.
find_first-holds {ℓ} :
    {A : Type ℓ} (p : A → Bool) (xs : List A) (x : A) → find_first p xs ≡ some x → p x ≡ true
unfolding find_first
find_first-holds p [] x h = absurd (ground arith)
find_first-holds p (y ∷ ys) x h = ground (arith, find_first-holds p ys x)

find_first-any {ℓ} :
    {A : Type ℓ} (p : A → Bool) (xs : List A) → find_first p xs ≡ none → any p xs ≡ false
unfolding find_first
find_first-any p [] h = refl
find_first-any p (y ∷ ys) h = ground (arith, find_first-any p ys)

-- The link of an agent that answers by its channel.
abbrev pub IsEntry : String → List Link → AgentSelection → Type 0
IsEntry channel links sel =
    (l : Link) × (sel ≡ selection_of l.agent)
    × (serves channel l ≡ true)
    × (any (λ m. serves channel m && is_orchestrator m.agent.kind) links ≡ true
        → is_orchestrator l.agent.kind ≡ true)

chosen-IsEntry :
    (channel : String) (links : List Link) (sel : AgentSelection) (o p : Option Link)
    → find_first (λ l. serves channel l && is_orchestrator l.agent.kind) links ≡ o
    → find_first (serves channel) links ≡ p
    → agent_of (link_or o p) ≡ some sel
    → IsEntry channel links sel
chosen-IsEntry channel links sel (some l) p e f h =
    let both = find_first-holds _ links l e in (l, ground arith, ground arith, λ _. ground arith)
chosen-IsEntry channel links sel none (some l) e f h =
    let plain = find_first-holds _ links l f in
    let lone = find_first-any _ links e in (l, ground arith, plain, λ found. absurd (ground arith))
chosen-IsEntry channel links sel none none e f h = absurd (ground arith)

continue_or-cases :
    (a : Option Agent) (channel : String) (links : List Link) (sel : AgentSelection)
    → continue_or a channel links ≡ some sel
    → ((b : Agent) × (a ≡ some b) × (sel ≡ selection_of b))
      ⊎ ((a ≡ none) × IsEntry channel links sel)
unfolding continue_or resolve_channel_agent
continue_or-cases none channel links sel h =
    inr (refl, chosen-IsEntry channel links sel _ _ refl refl h)
continue_or-cases (some b) channel links sel h = inl (b, refl, ground arith)

-- The agent that answers is the active one of the conversation, where its row is there; else one
-- that is live, answers the channel on its own, and is an orchestrator if the channel has one.
pub select_agent-IsEntry :
    (c : Conversation) (db : Database) (sel : AgentSelection)
    → select_agent c db ≡ some sel
    → ((b : Agent) × (agent_with (active_id c) db.agents ≡ some b) × (sel ≡ selection_of b))
      ⊎ ((agent_with (active_id c) db.agents ≡ none) × IsEntry c.channel_id db.links sel)
unfolding select_agent
select_agent-IsEntry c db sel h =
    continue_or-cases (agent_with (active_id c) db.agents) c.channel_id db.links sel h

entry-some : (o p : Option Link) → is_none p ≡ false → is_none (agent_of (link_or o p)) ≡ false
entry-some (some l) p h = refl
entry-some none (some l) h = refl
entry-some none none h = absurd (ground arith)

active-some :
    (a : Option Agent) (channel : String) (links : List Link)
    → is_none a ≡ false
    → is_none (continue_or a channel links) ≡ false
unfolding continue_or
active-some (some a) channel links h = refl
active-some none channel links h = absurd (ground arith)

continue_or-some :
    (id : Option String) (agents : List Agent) (channel : String) (links : List Link)
    → not (is_none id && is_none (find_first (serves channel) links)) ≡ true
    → is_none id ≡ is_none (agent_with id agents)
    → is_none (continue_or (agent_with id agents) channel links) ≡ false
unfolding continue_or resolve_channel_agent
continue_or-some none agents channel links has kept =
    entry-some (find_first (λ l. serves channel l && is_orchestrator l.agent.kind) links)
      (find_first (serves channel) links) (ground arith)
continue_or-some (some i) agents channel links has kept =
    active-some (agent_with (some i) agents) channel links (sym kept)

-- Where the row of the conversation's active agent is there, if it has one: a message that the AI
-- is to handle finds an agent.
pub should_handle-selects :
    (clock : Clock) (month : ℕ) (c : Conversation) (db : Database)
    → is_none (active_id c) ≡ is_none (agent_with (active_id c) db.agents)
    → should_handle clock month c db ≡ handle
    → is_none (select_agent c db) ≡ false
unfolding select_agent
should_handle-selects clock month c db kept h =
    let (o, e, allowed) = (should_handle_iff clock month c db).0 h in
    continue_or-some (active_id c) db.agents c.channel_id db.links (agent_there o allowed) kept
  where
    agent_there :
        (o : Organization)
        → allows clock month c db o ≡ true
        → has_candidate clock month c db ≡ true
    agent_there o allowed = ground arith
