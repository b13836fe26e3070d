-- ===== src/Chatbot/Session.antt =====
-- The sessions in Redis, by conversation (src/modules/chatbot/session/chatbot-session.service.ts,
-- chatbot-session.types.ts). The times that a session notes are those of its entry.
use Prim.Native.Nat.{◌+◌}
use chat_intelli_api.Base.{
  ℕ, String, Bool, true, false, not, Option, none, some, List, [], ◌∷◌, ◌≡◌, refl, inl, inr, ◌==◌,
  eq_iff, ltb, keep, if◌then◌else◌, Bool-cases, arith,
}
use chat_intelli_api.Base.Table.{find_unique}
use chat_intelli_api.Chatbot.{Variable, ChatbotSession}

pub record Entry : Type 0 where
  pub conversation : String
  pub session : ChatbotSession
  pub started_at : ℕ
  pub last_activity_at : ℕ
  pub until : ℕ

-- 24 hours, in milliseconds.
abbrev pub ttl_ms : ℕ
ttl_ms = 86400000

abbrev conversation_of : Entry → String
conversation_of e = e.conversation

abbrev live : ℕ → Option Entry → Option ChatbotSession
live now none = none
live now (some e) = if ltb now e.until then some e.session else none

-- `get`
unfoldable pub get : ℕ → String → List Entry → Option ChatbotSession
get now id entries = live now (find_unique conversation_of id entries)

-- `del`
unfoldable pub destroy : String → List Entry → List Entry
destroy id entries = keep (λ e. not (e.conversation == id)) entries

-- `setex`, which overwrites the key.
unfoldable pub put : ℕ → ℕ → String → ChatbotSession → List Entry → List Entry
unfolding destroy
put now started id session entries =
    record {
      conversation = id;
      session = session;
      started_at = started;
      last_activity_at = now;
      until = now + ttl_ms;
    }
    ∷ destroy id entries

abbrev pub new_session : String → String → String → ChatbotSession
new_session id flow node = record {
  flow_id = flow;
  conversation_id = id;
  current_node_id = node;
  variables = [];
  waiting_for_input = false;
}

-- `create`
unfoldable pub create : ℕ → String → String → String → List Entry → ChatbotSession × List Entry
unfolding put
create now id flow node entries =
    (new_session id flow node, put now now id (new_session id flow node) entries)

abbrev started_of : ℕ → Option Entry → ℕ
started_of now none = now
started_of now (some e) = e.started_at

-- `update`, with what it changes in the session.
unfoldable pub update_found :
    ℕ
    → String
    → (ChatbotSession → ChatbotSession)
    → Option ChatbotSession
    → List Entry
    → Option ChatbotSession × List Entry
unfolding put
update_found now id change none entries = (none, entries)
update_found now id change (some s) entries = (
  some (change s),
  put now (started_of now (find_unique conversation_of id entries)) id (change s) entries,
)

unfoldable pub update :
    ℕ → String → (ChatbotSession → ChatbotSession) → List Entry → Option ChatbotSession × List Entry
unfolding update_found get
update now id change entries = update_found now id change (get now id entries) entries

-- `variables[name] = value`; a text is no prototype.
unfoldable pub set_value : Variable → List Variable → List Variable
set_value v vs = if v.name == "__proto__" then vs else v ∷ vs

-- `setVariable`
unfoldable pub set_variable : ℕ → String → Variable → List Entry → List Entry
unfolding update set_value
set_variable now id v entries =
    (update now id
      (λ s. record {
        flow_id = s.flow_id;
        conversation_id = s.conversation_id;
        current_node_id = s.current_node_id;
        variables = set_value v s.variables;
        waiting_for_input = s.waiting_for_input;
      })
      entries).1

-- `exists`
unfoldable pub exists : ℕ → String → List Entry → Bool
unfolding get
exists now id entries = elim (get now id entries) [ none ↦ false | some s ↦ true ]

find_unique-destroy :
    (id other : String) (entries : List Entry)
    → find_unique conversation_of other (destroy id entries)
      ≡ (if id == other then none else find_unique conversation_of other entries)
unfolding find_unique destroy
find_unique-destroy id other [] = ground arith
find_unique-destroy id other (e ∷ entries) = ground (
  arith,
  eq_iff e.conversation id,
  eq_iff e.conversation other,
  eq_iff id other,
  find_unique-destroy id other entries,
)

-- What is destroyed is gone, and nothing else is.
pub get-destroy :
    (now : ℕ) (id other : String) (entries : List Entry)
    → get now other (destroy id entries) ≡ (if id == other then none else get now other entries)
unfolding get
get-destroy now id other entries =
    rw (find_unique-destroy id other entries)
      (elim (Bool-cases (id == other)) [ inl same ↦ rw same refl | inr differs ↦ rw differs refl ])

-- A session that is put is there until its time has run out, and nothing else changes.
pub get-put :
    (now started : ℕ) (id other : String) (s : ChatbotSession) (entries : List Entry)
    → get now other (put now started id s entries)
      ≡ (if id == other then some s else get now other entries)
unfolding get put find_unique
get-put now started id other s entries = elim (Bool-cases (id == other)) [
  | inl same ↦ rw same (ground arith)
  | inr differs ↦ rw differs (rw (find_unique-destroy id other entries) (rw differs refl))
]

-- An update of a session that is there.
pub update_lem :
    (now : ℕ) (id other : String) (change : ChatbotSession → ChatbotSession) (s : ChatbotSession)
    (entries : List Entry)
    → get now id entries ≡ some s
    → ((update now id change entries).0 ≡ some (change s))
      × (get now other (update now id change entries).1
          ≡ (if id == other then some (change s) else get now other entries))
unfolding update update_found
update_lem now id other change s entries h = rw h (refl, get-put now _ id other (change s) entries)
