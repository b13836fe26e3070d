-- ===== src/Conversation/Fsm/Outcome.antt =====
-- Every outcome of `transition` and `assign`: an error that changes nothing, or all of the writes.
use chat_intelli_api.Base.{
  String, Bool, true, false, not, ◌≡◌, refl, ap, ◌∙◌, ◌⊎◌, inl, inr, Option, none, some, List, [],
  ◌∷◌, ◌++◌, arith, Option-cases, Bool-cases, same_id, if◌then◌else◌,
}
use mathlib.Core.Path.{subst}
use chat_intelli_api.Base.Table.{find_unique, update_key}
use chat_intelli_api.Base.Exec.{
  Failure, not_found, failed, Result, ok, err, transaction, transaction_outcome, >>=-eq-ok,
  Result-cases,
}
use chat_intelli_api.Outbox
use chat_intelli_api.Events.{Payload}
use chat_intelli_api.Outbox.{Event, Fresh, no_options}
use chat_intelli_api.Conversation.{Status, open_status, Conversation, id_of, AuditLog, Database}
use chat_intelli_api.Conversation.Fsm.{
  Env, moved, move_log, change_log, change_event, ask_rating, move_tx, invalid, can_transition,
  transition, emit, guarded, when, after_enqueue, will_open, assign_log, assign_event, actor_or,
  assigned_to, assign_writes, assign_emits, assign_tx, assign,
}

-- The database after the transaction of `transition`, with the rows that the outbox then has.
abbrev pub after_move :
    Env → Conversation → Status → Option String → List Event → Database → Database
after_move env c to actor es db = record db {
  conversations = update_key id_of c.id (moved env.now to) db.conversations;
  audit_logs = db.audit_logs ++ move_log env actor c to ∷ [];
  outbox = es;
}

-- The call of `enqueue` that a status change makes.
abbrev pub Emits : Env → Conversation → Status → Option String → Database → List Event → Type 0
Emits env c to actor db es =
    Outbox.enqueue (change_event actor c to) no_options env.first_event db.outbox ≡ ok es

move_tx_outcome :
    (env : Env) (c : Conversation) (to : Status) (actor : Option String) (db : Database)
    → ((e : Failure) × (transaction (move_tx env c to actor) db ≡ (err e, db)))
      ⊎ ((es : List Event) × Emits env c to actor db es
          × (transaction (move_tx env c to actor) db ≡ (ok tt, after_move env c to actor es db)))
unfolding move_tx
move_tx_outcome env c to actor db = elim (Option-cases env.update_fault) [
  | inr (m, broken) ↦ inl (failed m, rw broken)
  | inl works ↦ elim (Option-cases env.audit_fault) [
    | inr (m, broken) ↦ inl (failed m, rw (works, broken))
    | inl logs ↦
        elim (Result-cases
          (Outbox.enqueue (change_event actor c to) no_options env.first_event db.outbox)) [
            | inl (e, refused) ↦ inl (e, rw (works, logs, refused))
            | inr (es, written) ↦ inr (es, written, rw (works, logs, written))
          ]
  ]
]

-- The whole of `transition`: it throws and changes nothing, or the conversation exists, the step is
-- valid, and the row, the audit log and the outbox are written, with the rating behind them.
pub transition_outcome :
    (env : Env) (id : String) (to : Status) (actor : Option String) (db : Database)
    → ((e : Failure) × (transition env id to actor db ≡ (err e, db)))
      ⊎ ((c : Conversation) × (es : List Event) × (find_unique id_of id db.conversations ≡ some c)
          × (can_transition c.status to ≡ true)
          × Emits env c to actor db es
          × (transition env id to actor db
              ≡ (ok tt, ask_rating env c.id to (after_move env c to actor es db))))
unfolding transition
transition_outcome env id to actor db =
    elim (Option-cases (find_unique id_of id db.conversations)) [
      | inl missing ↦ inl (not_found id, rw missing)
      | inr (c, found) ↦ elim (Bool-cases (can_transition c.status to)) [
        | inr refused ↦ inl (invalid c.status to, rw (found, refused))
        | inl valid ↦ elim (move_tx_outcome env c to actor db) [
          | inl (e, failure) ↦ inl (e, rw (found, valid, failure))
          | inr (es, emits, success) ↦ inr (c, es, found, valid, emits, rw (found, valid, success))
        ]
      ]
    ]

guarded_ok :
    (fault : Option String) (write : Database → Database) (db r : Database)
    → guarded fault write db ≡ (ok tt, r)
    → write db ≡ r
guarded_ok none write db r h = ground arith
guarded_ok (some m) write db r h = absurd (ground arith)

-- A statement that emits an event under a test.
abbrev pub EmitsWhen : Bool → Payload → Fresh → List Event → List Event → Type 0
EmitsWhen true p fresh before after = Outbox.enqueue p no_options fresh before ≡ ok after
EmitsWhen false p fresh before after = after ≡ before

when-emit_ok :
    (b : Bool) (p : Payload) (fresh : Fresh) (db r : Database)
    → when b (emit p fresh) db ≡ (ok tt, r)
    → (es : List Event) × EmitsWhen b p fresh db.outbox es × (r ≡ record db { outbox = es })
unfolding emit
when-emit_ok false p fresh db r h = (db.outbox, refl, ground arith)
when-emit_ok true p fresh db r h = go (Outbox.enqueue p no_options fresh db.outbox) refl h
  where
    go :
        (o : Result (List Event))
        → Outbox.enqueue p no_options fresh db.outbox ≡ o
        → after_enqueue o db ≡ (ok tt, r)
        → (es : List Event) × EmitsWhen true p fresh db.outbox es × (r ≡ record db { outbox = es })
    go (ok es) e k = (es, e, ground arith)
    go (err x) e k = absurd (ground arith)

-- The audit logs that `assign` adds.
abbrev pub assign_logs : String → Conversation → String → List AuditLog → List AuditLog
assign_logs by c agent logs =
    let first = logs ++ assign_log by c agent ∷ [] in
    if will_open c then first ++ change_log (some by) c open_status ∷ [] else first

abbrev pub after_assign : Env → Conversation → String → String → List Event → Database → Database
after_assign env c agent by es db = record db {
  conversations = update_key id_of c.id (assigned_to env.now agent) db.conversations;
  audit_logs = assign_logs by c agent db.audit_logs;
  outbox = es;
}

-- The events of `assign`: the assignment, unless it changes nothing, and the status change.
abbrev pub AssignEmits : Env → Conversation → String → String → List Event → List Event → Type 0
AssignEmits env c agent by before after =
    (mid : List Event) × EmitsWhen (not (same_id c.assigned_to_id (some agent)))
      (assign_event by c agent) env.first_event before mid
    × EmitsWhen (will_open c) (change_event (some by) c open_status) env.second_event mid after

assign_writes_ok :
    (env : Env) (c : Conversation) (agent by : String) (db r : Database)
    → assign_writes env c agent by db ≡ (ok tt, r)
    → r ≡ after_assign env c agent by db.outbox db
unfolding assign_writes
assign_writes_ok env c agent by db r h = ground arith

assign_emits_ok :
    (env : Env) (c : Conversation) (agent by : String) (db r : Database)
    → assign_emits env c agent by db ≡ (ok tt, r)
    → (es : List Event) × AssignEmits env c agent by db.outbox es × (r ≡ record db { outbox = es })
unfolding assign_emits
assign_emits_ok env c agent by db r h =
    let b₁ = not (same_id c.assigned_to_id (some agent)) in
    let p₁ = assign_event by c agent in
    let b₂ = will_open c in
    let p₂ = change_event (some by) c open_status in
    let (_, mid, h₁, h₂) =
      >>=-eq-ok (when b₁ (emit p₁ env.first_event)) (λ _. when b₂ (emit p₂ env.second_event)) db r
        tt h in
    let (es₁, first, e₁) = when-emit_ok b₁ p₁ env.first_event db mid h₁ in
    let (es, second, e₂) = when-emit_ok b₂ p₂ env.second_event mid r h₂ in
    let rows : mid.outbox ≡ es₁ = ap (λ (d : Database). d.outbox) e₁ in
    (es, (es₁, first, subst (λ x. EmitsWhen b₂ p₂ env.second_event x es) rows second), cc (e₁, e₂))

assign_tx_ok :
    (env : Env) (c : Conversation) (agent by : String) (db r : Database)
    → assign_tx env c agent by db ≡ (ok tt, r)
    → (es : List Event) × AssignEmits env c agent by db.outbox es
      × (r ≡ after_assign env c agent by es db)
unfolding assign_tx
assign_tx_ok env c agent by db r h =
    let (_, mid, h₁, h₂) =
      >>=-eq-ok (assign_writes env c agent by) (λ _. assign_emits env c agent by) db r tt h in
    let written = assign_writes_ok env c agent by db mid h₁ in
    let (es, emits, e) = assign_emits_ok env c agent by mid r h₂ in
    let rows : mid.outbox ≡ db.outbox = ap (λ (d : Database). d.outbox) written in
    (es, subst (λ x. AssignEmits env c agent by x es) rows emits, cc (written, e))

-- The whole of `assign`: it throws and changes nothing, or the conversation exists and all of its
-- writes are made.
pub assign_outcome :
    (env : Env) (id agent : String) (actor : Option String) (db : Database)
    → ((e : Failure) × (assign env id agent actor db ≡ (err e, db)))
      ⊎ ((c : Conversation) × (es : List Event) × (find_unique id_of id db.conversations ≡ some c)
          × AssignEmits env c agent (actor_or actor agent) db.outbox es
          × (assign env id agent actor db
              ≡ (ok tt, after_assign env c agent (actor_or actor agent) es db)))
unfolding assign
assign_outcome env id agent actor db = elim (Option-cases (find_unique id_of id db.conversations)) [
  | inl missing ↦ inl (not_found id, rw missing)
  | inr (c, found) ↦
      let by = actor_or actor agent in
      elim (transaction_outcome (assign_tx env c agent by) db) [
        | inl (e, failure) ↦ inl (e, rw found failure)
        | inr (_, r, done, success) ↦
            let (es, emits, same) = assign_tx_ok env c agent by db r done in
            inr (c, es, found, emits, rw found (success ∙ ap (λ (d : Database). (ok tt, d)) same))
      ]
]
