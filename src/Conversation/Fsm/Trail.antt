-- ===== src/Conversation/Fsm/Trail.antt =====
-- The audit log is the history of the status.
use chat_intelli_api.Base.{
  ℕ, String, Bool, true, false, ◌&&◌, ◌≡◌, refl, sym, ap, ◌∙◌, Option, none, some, List, [], ◌∷◌,
  ◌++◌, arith, inl, inr, ◌==◌, eq_iff, eq_refl, any, same_id, or_else, if◌then◌else◌, Bool-cases,
}
use chat_intelli_api.Base.Table.{find_unique, update_key, find_unique-update_key, find_unique-key}
use chat_intelli_api.Conversation.{
  Status, pending, bot, open_status, waiting, closed, status_name, Conversation, status_change,
  assignment, AuditLog, Database, id_of,
}
use chat_intelli_api.Conversation.Fsm.{
  Env, valid_transitions, can_transition, moved, assigned_to, actor_or, change_log, will_open,
}
use chat_intelli_api.Conversation.Fsm.Outcome.{transition_outcome, assign_outcome}
use chat_intelli_api.Conversation.Fsm.History.{
  Call, move, give, apply, run, run_keeps, conversations-ask_rating, audit_logs-ask_rating,
}

-- Whether the table of transitions has a step between two statuses, given by their names.
pub valid_names : String → String → Bool
valid_names from to = any (λ t. status_name t.0 == from && status_name t.1 == to) valid_transitions

abbrev pub is_change : String → AuditLog → Bool
is_change id a = elim a.action [ status_change ↦ a.conversation_id == id | assignment ↦ false ]

-- One entry of the log of a conversation: a status change must start at the status that the
-- conversation has, and go along the table; other entries are passed over.
abbrev pub follow : String → Option String → AuditLog → Option String
follow id none a = none
follow id (some now) a =
    if is_change id a
    then (if same_id a.from_value (some now) && valid_names now (or_else a.to_value "")
        then a.to_value
        else none)
    else some now

-- The name of the status that the log leads to, or `none` if the log is no chain of valid steps.
unfoldable pub replay : String → Option String → List AuditLog → Option String
replay id now [] = now
replay id now (a ∷ logs) = replay id (follow id now a) logs

replay-append :
    (id : String) (now : Option String) (xs : List AuditLog) (a : AuditLog)
    → replay id now (xs ++ a ∷ []) ≡ follow id (replay id now xs) a
unfolding replay
replay-append id now [] a = refl
replay-append id now (x ∷ xs) a = replay-append id (follow id now x) xs a

valid_names-status_name :
    (s t : Status) → can_transition s t ≡ true → valid_names (status_name s) (status_name t) ≡ true
unfolding can_transition valid_names
valid_names-status_name pending open_status h = refl
valid_names-status_name pending bot h = refl
valid_names-status_name pending closed h = refl
valid_names-status_name bot pending h = refl
valid_names-status_name open_status waiting h = refl
valid_names-status_name open_status closed h = refl
valid_names-status_name waiting open_status h = refl
valid_names-status_name waiting closed h = refl
valid_names-status_name closed open_status h = refl
valid_names-status_name closed pending h = refl
valid_names-status_name _ _ h = absurd (ground arith)

-- A logged change of a conversation from the status that it has leads to the new status.
follow-change_log :
    (actor : Option String) (c : Conversation) (to : Status)
    → can_transition c.status to ≡ true
    → follow c.id (some (status_name c.status)) (change_log actor c to) ≡ some (status_name to)
follow-change_log actor c to valid =
    rw (eq_refl c.id, eq_refl (status_name c.status), valid_names-status_name c.status to valid)

-- The log of the conversation leads from the status that it had at the start to the one it has.
abbrev pub HasTrail : (String → String) → Database → Type 0
HasTrail start db =
    (j : String) (c : Conversation)
    → find_unique id_of j db.conversations ≡ some c
    → replay j (some (start j)) db.audit_logs ≡ some (status_name c.status)

-- A log entry of one conversation says nothing of another.
follow_other :
    (actor : Option String) (c : Conversation) (to : Status) (j : String) (now : Option String)
    → (c.id == j) ≡ false
    → follow j now (change_log actor c to) ≡ now
follow_other actor c to j none h = refl
follow_other actor c to j (some now) h = rw h

-- The row of a conversation after an update of one of them.
row_after :
    (f : Conversation → Conversation) (k j : String) (rows : List Conversation)
    → ((r : Conversation) → (f r).id ≡ r.id)
    → (c : Conversation) → find_unique id_of j (update_key id_of k f rows) ≡ some c
    → (old : Conversation) × (find_unique id_of j rows ≡ some old)
      × (c ≡ (if k == j then f old else old))
row_after f k j rows same c h = go (find_unique id_of j rows) refl
  where
    go :
        (o : Option Conversation)
        → find_unique id_of j rows ≡ o
        → (old : Conversation) × (find_unique id_of j rows ≡ some old)
          × (c ≡ (if k == j then f old else old))
    go none e = absurd (ground (arith, find_unique-update_key id_of k j f rows same, eq_iff k j))
    go (some old) e =
        (old, e, ground (arith, find_unique-update_key id_of k j f rows same, eq_iff k j))

-- The row that a call loaded is the row of its own id.
same_row :
    (rows : List Conversation) (id j : String) (c old : Conversation)
    → find_unique id_of id rows ≡ some c
    → find_unique id_of j rows ≡ some old
    → (c.id == j) ≡ true
    → old ≡ c
same_row rows id j c old found there h =
    let key = find_unique-key id_of id rows c found in ground (arith, eq_iff c.id j)

-- A status change in the log, as any conversation sees it.
follow_change :
    (rows : List Conversation) (id j : String) (c old : Conversation) (actor : Option String)
    (to : Status)
    → find_unique id_of id rows ≡ some c
    → find_unique id_of j rows ≡ some old
    → can_transition c.status to ≡ true
    → follow j (some (status_name old.status)) (change_log actor c to)
      ≡ some (status_name (if c.id == j then to else old.status))
follow_change rows id j c old actor to found there valid = elim (Bool-cases (c.id == j)) [
  | inl mine ↦
      let same = same_row rows id j c old found there mine in
      let key : c.id ≡ j = (eq_iff c.id j).0 mine in
      rw (same, ← key)
        (follow-change_log actor c to valid
          ∙ ap (λ b. some (status_name (if b then to else c.status))) (sym (eq_refl c.id)))
  | inr other ↦
      follow_other actor c to j (some (status_name old.status)) other
      ∙ ap (λ b. some (status_name (if b then to else old.status))) (sym other)
]

id-moved : (now : ℕ) (to : Status) (c : Conversation) → (moved now to c).id ≡ c.id
id-moved now to c = ground arith

status_after :
    (now : ℕ) (to : Status) (d old : Conversation) (b : Bool)
    → d ≡ (if b then moved now to old else old)
    → some (status_name (if b then to else old.status)) ≡ some (status_name d.status)
status_after now to d old true h = ap (λ (r : Conversation). some (status_name r.status)) (sym h)
status_after now to d old false h = ap (λ (r : Conversation). some (status_name r.status)) (sym h)

move-HasTrail :
    (start : String → String) (env : Env) (id : String) (to : Status) (actor : Option String)
    (db : Database)
    → HasTrail start db
    → HasTrail start (apply (move env id to actor) db)
unfolding apply
move-HasTrail start env id to actor db h = elim (transition_outcome env id to actor db) [
  | inl (e, failure) ↦ rw (failure, apply) h
  | inr (c, es, found, valid, emits, success) ↦
      rw (success, apply)
        λ j d there.
          let rows = rw conversations-ask_rating at there in
          let (old, before, now) =
            row_after (moved env.now to) c.id j db.conversations (id-moved env.now to) d rows in
          rw (audit_logs-ask_rating, replay-append, h j old before)
            (follow_change db.conversations id j c old actor to found before valid
              ∙ status_after env.now to d old (c.id == j) now)
]

id-assigned_to : (now : ℕ) (agent : String) (c : Conversation) → (assigned_to now agent c).id ≡ c.id
id-assigned_to now agent c = ground arith

-- The status that an assignment leaves: a pending conversation is opened.
abbrev opened : Status → Status
opened pending = open_status
opened s = s

status-assigned_to :
    (now : ℕ) (agent : String) (c : Conversation)
    → (assigned_to now agent c).status ≡ opened c.status
status-assigned_to now agent c = ground arith

can_open : (c : Conversation) → will_open c ≡ true → can_transition c.status open_status ≡ true
unfolding can_transition
can_open c h = ground arith

opened_by :
    (now : ℕ) (agent : String) (d old c : Conversation) (b : Bool)
    → (b ≡ true → old ≡ c)
    → d ≡ (if b then assigned_to now agent old else old)
    → will_open c ≡ true
    → some (status_name (if b then open_status else old.status)) ≡ some (status_name d.status)
opened_by now agent d old c true same h w =
    ground (arith, same refl, status-assigned_to now agent old)
opened_by now agent d old c false same h w =
    ap (λ (r : Conversation). some (status_name r.status)) (sym h)

unopened_by :
    (now : ℕ) (agent : String) (d old c : Conversation) (b : Bool)
    → (b ≡ true → old ≡ c)
    → d ≡ (if b then assigned_to now agent old else old)
    → will_open c ≡ false
    → some (status_name old.status) ≡ some (status_name d.status)
unopened_by now agent d old c true same h w =
    ground (arith, same refl, status-assigned_to now agent old)
unopened_by now agent d old c false same h w =
    ap (λ (r : Conversation). some (status_name r.status)) (sym h)

give-HasTrail :
    (start : String → String) (env : Env) (id agent : String) (actor : Option String)
    (db : Database)
    → HasTrail start db
    → HasTrail start (apply (give env id agent actor) db)
unfolding apply
give-HasTrail start env id agent actor db h = elim (assign_outcome env id agent actor db) [
  | inl (e, failure) ↦ rw (failure, apply) h
  | inr (c, es, found, emits, success) ↦
      rw (success, apply)
        λ j d there.
          let by = actor_or actor agent in
          let (old, before, now) =
            row_after (assigned_to env.now agent) c.id j db.conversations
              (id-assigned_to env.now agent) d there in
          let same = same_row db.conversations id j c old found before in
          elim (Bool-cases (will_open c)) [
            | inl w ↦
                rw (w, replay-append, replay-append, h j old before)
                  (follow_change db.conversations id j c old (some by) open_status found before
                      (can_open c w)
                    ∙ opened_by env.now agent d old c (c.id == j) same now w)
            | inr w ↦
                rw (w, replay-append, h j old before)
                  (unopened_by env.now agent d old c (c.id == j) same now w)
          ]
]

apply-HasTrail :
    (start : String → String) (k : Call) (db : Database)
    → HasTrail start db
    → HasTrail start (apply k db)
apply-HasTrail start (move env id to actor) db h = move-HasTrail start env id to actor db h
apply-HasTrail start (give env id agent actor) db h = give-HasTrail start env id agent actor db h

-- Where the audit log of every conversation is a chain of valid transitions from the status that
-- it had at the start to the status that it has, it is such a chain after any history of calls.
pub run-HasTrail :
    (start : String → String) (cs : List Call) (db : Database)
    → HasTrail start db
    → HasTrail start (run cs db)
run-HasTrail start = run_keeps (apply-HasTrail start)
