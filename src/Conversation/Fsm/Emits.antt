-- ===== src/Conversation/Fsm/Emits.antt =====
-- The outbox gets one event for each change, and none for an assignment that changes nothing.
use mathlib.Core.Path.{subst}
use chat_intelli_api.Base.{
  ℕ, ◌+◌, String, Bool, true, false, not, ◌≡◌, refl, ap, Option, some, List, [], ◌∷◌, ◌++◌, arith,
  inl, inr, ◌==◌, eq_refl, same_id, if◌then◌else◌, Bool-cases, count_if, count_if-append,
}
use chat_intelli_api.Base.Table.{find_unique}
use chat_intelli_api.Base.Exec.{ok}
use chat_intelli_api.Events.{status_changed, assigned}
use chat_intelli_api.Outbox
use chat_intelli_api.Outbox.{Event, Fresh, no_options, derive_dedup_key, new_event}
use chat_intelli_api.Outbox.Dedup.{enqueue_outcome}
use chat_intelli_api.Conversation.{Status, open_status, Conversation, AuditLog, Database, id_of}
use chat_intelli_api.Conversation.Fsm.{Env, change_event, assign_event, will_open, actor_or, assign}
use chat_intelli_api.Conversation.Fsm.Outcome.{
  after_assign, assign_logs, EmitsWhen, AssignEmits, transition_outcome, assign_outcome,
}
use chat_intelli_api.Conversation.Fsm.History.{
  Call, move, give, apply, run, run_keeps, audit_logs-ask_rating, outbox-ask_rating,
}
use chat_intelli_api.Conversation.Fsm.Trail.{is_change}

-- The event of a status change, or of an assignment, of the conversation.
abbrev pub is_change_event : String → Event → Bool
is_change_event id e = elim e.payload.details [
  | status_changed _ _ ↦ same_id e.payload.conversation_id (some id)
  | _ ↦ false
]

abbrev pub is_assign_event : String → Event → Bool
is_assign_event id e = elim e.payload.details [
  | assigned _ _ ↦ same_id e.payload.conversation_id (some id)
  | _ ↦ false
]

-- Events with no key are never taken for duplicates.
emit_change :
    (actor : Option String) (c : Conversation) (to : Status) (f : Fresh) (es r : List Event)
    → Outbox.enqueue (change_event actor c to) no_options f es ≡ ok r
    → r ≡ es ++ new_event (change_event actor c to) no_options f ∷ []
unfolding derive_dedup_key
emit_change actor c to f es r h =
    ground (arith, enqueue_outcome (change_event actor c to) no_options f es r h)

emit_assign :
    (by agent : String) (c : Conversation) (f : Fresh) (es r : List Event)
    → Outbox.enqueue (assign_event by c agent) no_options f es ≡ ok r
    → r ≡ es ++ new_event (assign_event by c agent) no_options f ∷ []
unfolding derive_dedup_key
emit_assign by agent c f es r h =
    ground (arith, enqueue_outcome (assign_event by c agent) no_options f es r h)

abbrev one_if : Bool → ℕ
one_if b = if b then 1 else 0

-- What the two events of an assignment add to the counts of events.
module _ (env : Env) (c : Conversation) (agent by : String) (j : String) where
  count-change_when :
      (b : Bool) (es r : List Event)
      → EmitsWhen b (change_event (some by) c open_status) env.second_event es r
      → (count_if (is_change_event j) r
          ≡ count_if (is_change_event j) es + (if b then one_if (c.id == j) else 0))
        × (count_if (is_assign_event j) r ≡ count_if (is_assign_event j) es)
  count-change_when true es r h = rw (emit_change (some by) c open_status env.second_event es r h) (
      rw (count_if-append (is_change_event j), count_if-append (is_assign_event j))
        (omega arith, omega arith))
  count-change_when false es r h = rw h (omega arith, refl)

  count-assign_when :
      (b : Bool) (es r : List Event)
      → EmitsWhen b (assign_event by c agent) env.first_event es r
      → (count_if (is_assign_event j) r
          ≡ count_if (is_assign_event j) es + (if b then one_if (c.id == j) else 0))
        × (count_if (is_change_event j) r ≡ count_if (is_change_event j) es)
  count-assign_when true es r h = rw (emit_assign by agent c env.first_event es r h) (
      rw (count_if-append (is_assign_event j), count_if-append (is_change_event j))
        (omega arith, omega arith))
  count-assign_when false es r h = rw h (omega arith, refl)

  count-assign_logs :
      (logs : List AuditLog)
      → count_if (is_change j) (assign_logs by c agent logs)
        ≡ count_if (is_change j) logs + (if will_open c then one_if (c.id == j) else 0)
  count-assign_logs logs = elim (Bool-cases (will_open c)) [
    | inl w ↦ rw (w, count_if-append, count_if-append) (omega arith)
    | inr w ↦ rw (w, count_if-append) (omega arith)
  ]

-- As many status changes in the log of the conversation as events of them in the outbox.
abbrev pub IsBalanced : String → Database → Type 0
IsBalanced j db = count_if (is_change_event j) db.outbox ≡ count_if (is_change j) db.audit_logs

apply-IsBalanced :
    (j : String) (k : Call) (db : Database) → IsBalanced j db → IsBalanced j (apply k db)
unfolding apply
apply-IsBalanced j (move env id to actor) db h = elim (transition_outcome env id to actor db) [
  | inl (e, failure) ↦ rw (failure, apply) h
  | inr (c, es, found, valid, emits, success) ↦
      rw (success, apply)
        (rw (audit_logs-ask_rating, outbox-ask_rating)
          (rw (emit_change actor c to env.first_event db.outbox es emits) (
            rw (count_if-append (is_change_event j), count_if-append (is_change j)) (omega arith))))
]
apply-IsBalanced j (give env id agent actor) db h = elim (assign_outcome env id agent actor db) [
  | inl (e, failure) ↦ rw (failure, apply) h
  | inr (c, es, found, (mid, first, second), success) ↦
      let by = actor_or actor agent in
      rw (success, apply)
        (omega (
          arith,
          count-assign_when env c agent by j (not (same_id c.assigned_to_id (some agent))) db.outbox
              mid first,
          count-change_when env c agent by j (will_open c) mid es second,
          count-assign_logs env c agent by j db.audit_logs,
        ))
]

-- Where the status changes in the audit log of a conversation and their events in the outbox are
-- equally many, they are so after every history of calls.
pub run-IsBalanced :
    (j : String) (cs : List Call) (db : Database) → IsBalanced j db → IsBalanced j (run cs db)
run-IsBalanced j = run_keeps (apply-IsBalanced j)

assign-counts :
    (env : Env) (c : Conversation) (agent by : String) (before after : List Event)
    → AssignEmits env c agent by before after
    → (count_if (is_assign_event c.id) after
        ≡ count_if (is_assign_event c.id) before
          + (if same_id c.assigned_to_id (some agent) then 0 else 1))
      × (count_if (is_change_event c.id) after
          ≡ count_if (is_change_event c.id) before + (if will_open c then 1 else 0))
assign-counts env c agent by before after (mid, first, second) = ground (
  arith,
  count-assign_when env c agent by c.id (not (same_id c.assigned_to_id (some agent))) before mid
      first,
  count-change_when env c agent by c.id (will_open c) mid after second,
  eq_refl c.id,
)

-- An assignment that returns adds one assignment event if the assignee is another than before and
-- none if it is the same, and one status event if the conversation was pending and none else.
pub assign-emits :
    (env : Env) (id agent : String) (actor : Option String) (db r : Database) (c : Conversation)
    → find_unique id_of id db.conversations ≡ some c
    → assign env id agent actor db ≡ (ok tt, r)
    → (count_if (is_assign_event c.id) r.outbox
        ≡ count_if (is_assign_event c.id) db.outbox
          + (if same_id c.assigned_to_id (some agent) then 0 else 1))
      × (count_if (is_change_event c.id) r.outbox
          ≡ count_if (is_change_event c.id) db.outbox + (if will_open c then 1 else 0))
assign-emits env id agent actor db r c found h = elim (assign_outcome env id agent actor db) [
  | inl (e, failure) ↦ absurd (ground (arith, failure))
  | inr (d, es, there, (mid, first, second), success) ↦
      let by = actor_or actor agent in
      let same : d ≡ c = ground arith in
      let final : after_assign env d agent by es db ≡ r = ground arith in
      let rows : es ≡ r.outbox = ap (λ (x : Database). x.outbox) final in
      let emitted =
        subst (λ x. AssignEmits env x agent by db.outbox es) same (mid, first, second) in
      rw (← rows) (assign-counts env c agent by db.outbox es emitted)
]
