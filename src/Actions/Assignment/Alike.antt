-- ===== src/Actions/Assignment/Alike.antt =====
-- The handler that assigns, compared with `assign` of the state machine.
use mathlib.Core.Path.{subst}
use chat_intelli_api.Base.{
  Option, [], ◌∷◌, ◌++◌, String, Bool, true, false, ◌&&◌, none, some, List, [], ◌∷◌, ◌≡◌, ◌∙◌, inl,
  inr, sym, ap, refl, arith, ◌==◌, is_empty, same_id, Bool-cases, if◌then◌else◌,
}
use chat_intelli_api.Base.Exec
use chat_intelli_api.Base.Exec.{
  failed, Failure, failed, Result, ok, err, transaction, settle, resume, ◌>>◌,
}
use chat_intelli_api.Base.Table.{update_key, find_first, find_unique}
use chat_intelli_api.Json.{str, obj, field, end}
use chat_intelli_api.Events.{Payload}
use chat_intelli_api.Outbox.{Fresh, no_options, derive_dedup_key}
use chat_intelli_api.Outbox.Dedup.{enqueue_unkeyed}
use chat_intelli_api.Conversation.{Conversation, AuditLog, Database, open_status, id_of}
use chat_intelli_api.Conversation.Fsm.{
  guarded, assigned_to, assign_log, change_log, write_audit, write_conversation, Env, when,
  will_open, assign_event, change_event, emit, assign_writes, assign_emits, assign_tx, assign,
}
use chat_intelli_api.Automation.{Context, Member, Reply, done}
use chat_intelli_api.Actions.{chained, refusal, truthy}
use chat_intelli_api.Actions.Assignment.{
  marked, emit_chained, writes, emits, reply_to, is_member, assign_user,
}

-- What a call leaves of the conversations, and of their logs but for the metadata.
abbrev pub Rows : Type 0
Rows = List Conversation × List AuditLog

-- A log without its metadata.
abbrev pub bare : AuditLog → AuditLog
bare log = record log { metadata = obj end }

abbrev pub bare_all : List AuditLog → List AuditLog
bare_all [] = []
bare_all (l ∷ ls) = bare l ∷ bare_all ls

abbrev pub rows : Database → Rows
rows db = (db.conversations, bare_all db.audit_logs)

abbrev pub outcome : Result {0} Unit × Database → Result {0} Unit × Rows
outcome (r, db) = (r, rows db)

-- The reply of the handler for such an outcome.
abbrev pub reply_for : String → Result {0} Unit × Rows → Reply × Rows
reply_for user (ok _, r) = (done (obj (field "userId" (str user) end)), r)
reply_for user (err e, r) = (refusal "unexpected" (Exec.message e), r)

abbrev pub reply_rows : Reply × Database → Reply × Rows
reply_rows (reply, db) = (reply, rows db)

-- One method does to the rows what the other does, from rows that agree.
abbrev AreAlike :
    (Database → Result {0} Unit × Database) → (Database → Result {0} Unit × Database) → Type 0
AreAlike m n = (a b : Database) → rows a ≡ rows b → outcome (m a) ≡ outcome (n b)

then_alike :
    (m n : Database → Result {0} Unit × Database) (r s : Result {0} Unit × Database)
    → AreAlike m n
    → outcome r ≡ outcome s
    → outcome (resume r (λ _. m)) ≡ outcome (resume s (λ _. n))
then_alike m n (ok _, a) (ok _, b) alike h = alike a b (ap (λ (x : Result {0} Unit × Rows). x.1) h)
then_alike m n (err e, a) (err f, b) alike h = ground arith
then_alike m n (ok _, a) (err f, b) alike h = absurd (ground arith)
then_alike m n (err e, a) (ok _, b) alike h = absurd (ground arith)

settle_alike :
    (r s : Result {0} Unit × Database) (db : Database)
    → outcome r ≡ outcome s
    → outcome (settle r db) ≡ outcome (settle s db)
settle_alike (ok _, a) (ok _, b) db h = h
settle_alike (err e, a) (err f, b) db h = ground arith
settle_alike (ok _, a) (err f, b) db h = absurd (ground arith)
settle_alike (err e, a) (ok _, b) db h = absurd (ground arith)

when_alike :
    (t : Bool) (m n : Database → Result {0} Unit × Database)
    → AreAlike m n
    → AreAlike (when t m) (when t n)
when_alike true m n alike a b h = alike a b h
when_alike false m n alike a b h = ap (λ (x : Rows). (ok tt, x)) h

guarded_alike :
    (fault : Option String) (f g : Database → Database)
    → ((a b : Database) → rows a ≡ rows b → rows (f a) ≡ rows (g b))
    → AreAlike (guarded fault f) (guarded fault g)
guarded_alike none f g alike a b h = ap (λ (x : Rows). (ok tt, x)) (alike a b h)
guarded_alike (some m) f g alike a b h = ap (λ (x : Rows). (err (failed m), x)) h

bare_all-append :
    (ls : List AuditLog) (l : AuditLog) → bare_all (ls ++ l ∷ []) ≡ bare_all ls ++ bare l ∷ []
bare_all-append [] l = refl
bare_all-append (k ∷ ls) l = ap (λ x. bare k ∷ x) (bare_all-append ls l)

-- Logs that differ in their metadata only.
audit_alike :
    (k l : AuditLog)
    → bare k ≡ bare l
    → (a b : Database) → rows a ≡ rows b
    → rows (write_audit k a) ≡ rows (write_audit l b)
audit_alike k l same a b h =
    rw (bare_all-append a.audit_logs k, bare_all-append b.audit_logs l, same)
      (ap (λ (x : Rows). (x.0, x.1 ++ bare l ∷ [])) h)

module _ (env : Env) (user : String) (ctx : Context) where
  emit_alike :
      (p : Payload) (fresh : Fresh)
      → derive_dedup_key p ≡ none
      → AreAlike (emit_chained env user ctx p fresh) (emit p fresh)
  unfolding emit
  emit_alike p fresh free a b h = elim (enqueue_unkeyed p fresh free) [
    | inl (e, refused) ↦
        rw (refused (chained ctx) a.outbox refl, refused no_options b.outbox refl)
          (ap (λ (x : Rows). (err e, x)) h)
    | inr written ↦
        rw (written (chained ctx) a.outbox refl, written no_options b.outbox refl)
          (ap (λ (x : Rows). (ok tt, x)) h)
  ]

  emits_alike :
      (c : Conversation)
      → same_id c.assigned_to_id (some user) ≡ false
      → AreAlike (emits env user ctx c) (assign_emits env c user ctx.actor_id)
  unfolding assign_emits derive_dedup_key
  emits_alike c other a b h = rw other (
      then_alike _ _ _ _
        (when_alike (will_open c) _ _
          (emit_alike (change_event (some ctx.actor_id) c open_status) env.second_event refl))
        (emit_alike (assign_event ctx.actor_id c user) env.first_event refl a b h))

  writes_alike :
      (c : Conversation) → AreAlike (writes env user ctx c) (assign_writes env c user ctx.actor_id)
  unfolding assign_writes
  writes_alike c a b h =
      then_alike _ _ _ _
        (when_alike (will_open c) _ _ (
          guarded_alike env.audit_fault _ _ (
            audit_alike (marked env user ctx (change_log (some ctx.actor_id) c open_status))
              (change_log (some ctx.actor_id) c open_status) refl)))
        (then_alike _ _ _ _
          (guarded_alike env.audit_fault _ _ (
            audit_alike (marked env user ctx (assign_log ctx.actor_id c user))
              (assign_log ctx.actor_id c user) refl))
          (guarded_alike env.update_fault (write_conversation c.id (assigned_to env.now user))
            (write_conversation c.id (assigned_to env.now user))
            (λ x y e.
              ap (λ (r : Rows). (update_key id_of c.id (assigned_to env.now user) r.0, r.1)) e)
            a b h))

  tx_alike :
      (c : Conversation) (db : Database)
      → same_id c.assigned_to_id (some user) ≡ false
      → outcome (transaction (writes env user ctx c >> emits env user ctx c) db)
        ≡ outcome (transaction (assign_tx env c user ctx.actor_id) db)
  unfolding assign_tx
  tx_alike c db other = settle_alike _ _ db (
      then_alike (emits env user ctx c) (assign_emits env c user ctx.actor_id)
        (writes env user ctx c db) (assign_writes env c user ctx.actor_id db) (emits_alike c other)
        (writes_alike c db db refl))

  reply_to_rows :
      (r : Result {0} Unit × Database)
      → reply_rows (reply_to env user ctx r) ≡ reply_for user (outcome r)
  reply_to_rows (ok _, db) = refl
  reply_to_rows (err e, db) = refl

  -- The row of an id, if it is of the organisation.
  found_in :
      (id : String) (c : Conversation) (cs : List Conversation)
      → find_unique id_of id cs ≡ some c
      → (c.organization_id == ctx.organization_id) ≡ true
      → find_first (λ x. x.id == id && x.organization_id == ctx.organization_id) cs ≡ some c
  unfolding find_unique find_first
  found_in id c [] h mine = absurd (ground arith)
  found_in id c (x ∷ cs) h mine = elim (Bool-cases (x.id == id)) [
    | inl same ↦
        let is_c : x ≡ c = ground arith in
        subst
          (λ y.
            (if y.id == id && y.organization_id == ctx.organization_id
              then some y
              else find_first (λ x. x.id == id && x.organization_id == ctx.organization_id) cs)
            ≡ some c)
          (sym is_c) (rw (mine, ap (λ (y : Conversation). y.id == id) (sym is_c) ∙ same) refl)
    | inr differs ↦ rw differs (found_in id c cs (rw differs at h) mine)
  ]

-- For a member of the organisation and a conversation of it that is not the member's yet, the
-- handler does to the conversations, and to their logs but for the metadata, exactly what assign of
-- the state machine does for the rule's author, and it succeeds just if that does.
pub assign_user_alike :
    (env : Env) (user : String) (ctx : Context) (members : List Member) (db : Database)
    (id : String) (c : Conversation)
    → truthy (ctx.payload).conversation_id ≡ some id
    → is_member env user ctx members ≡ true
    → find_unique id_of id db.conversations ≡ some c
    → (c.organization_id == ctx.organization_id) ≡ true
    → same_id c.assigned_to_id (some user) ≡ false
    → is_empty ctx.actor_id ≡ false
    → reply_rows (assign_user env user ctx members db)
      ≡ reply_for user (outcome (assign env id user (some ctx.actor_id) db))
unfolding assign_user assign
assign_user_alike env user ctx members db id c named joined found mine other author =
    rw (named, joined, found_in env user ctx id c db.conversations found mine, other, found, author)
      (reply_to_rows env user ctx (transaction (writes env user ctx c >> emits env user ctx c) db)
        ∙ ap (reply_for user) (tx_alike env user ctx c db other))
