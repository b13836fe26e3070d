-- ===== src/Pending/Executor/Once.antt =====
-- A tool call runs at most once with success, and a decision is final.
use chat_intelli_api.Base.{
  ℕ, String, Bool, true, false, ◌≡◌, refl, ap, sym, ◌∙◌, Option, some, arith, eq_refl,
}
use chat_intelli_api.Base.Table.{find_unique-update_key}
use chat_intelli_api.Base.Exec.{Failure, bad_request, ok, err}
use chat_intelli_api.Json.{Json}
use chat_intelli_api.Pending.{
  Status, pending, approved, rejected, expired, executed, Action, action_id, approve,
}
use chat_intelli_api.Pending.Executor.{
  Database, HttpTool, run_tool, mark_executed, note_failure, failure_of, or_null, skipped,
  update_action, execute_pending, execute_found,
}
use chat_intelli_api.Pending.Executor.Life.{
  Change, unchanged, made, approves, rejects, expires, executes, fails, of_id,
}
use chat_intelli_api.Pending.Executor.Life.Calls.{apply-Change, store-run_tool}
use chat_intelli_api.Pending.Executor.Sound.{◌⊢◌⟶*◌, here, then_call}

-- No call leaves these.
abbrev pub is_final : Status → Bool
is_final pending = false
is_final approved = false
is_final rejected = true
is_final expired = true
is_final executed = true

final-Change :
    {o p : Option Action} (a : Action)
    → Change o p
    → o ≡ some a
    → is_final a.status ≡ true
    → p ≡ some a
final-Change a (unchanged o) e f = e
final-Change a (made id now input) e f = absurd (ground arith)
final-Change a (approves user now b p early) e f = absurd (ground arith)
final-Change a (rejects user now reason b p early given) e f = absurd (ground arith)
final-Change a (expires now b p late) e f = absurd (ground arith)
final-Change a (executes result b p) e f = absurd (ground arith)
final-Change a (fails result b p) e f = absurd (ground arith)

-- An action that is rejected, expired or executed stays, with every field, what it is, whatever
-- calls follow.
pub final_stays :
    (http : HttpTool) {db after : Database} (k : String) (a : Action)
    → http ⊢ db ⟶* after
    → of_id k db.store.actions ≡ some a
    → is_final a.status ≡ true
    → of_id k after.store.actions ≡ some a
final_stays http k a here e f = e
final_stays http {db} k a (then_call c fresh rest) e f =
    final_stays http k a rest (final-Change a (apply-Change http c db k fresh) e f) f

-- What a job that ran the tool has written.
settled_row :
    (http : HttpTool) (at id : String) (db : Database) (a : Action) (f : Action → Action)
    (after : Database)
    → of_id id db.store.actions ≡ some a
    → ((x : Action) → action_id (f x) ≡ action_id x)
    → after.store ≡ db.store
    → of_id id (update_action id f after).store.actions ≡ some (f a)
settled_row http at id db a f after found same kept =
    rw kept
      (ground (arith, find_unique-update_key action_id id id f db.store.actions same, eq_refl id))

-- A second job for an action whose tool call has succeeded is skipped and changes nothing.
pub succeeds_once :
    (http : HttpTool) (at later id : String) (db after : Database) (a : Action) (result : Json)
    → of_id id db.store.actions ≡ some a
    → a.status ≡ approved
    → run_tool http at a db ≡ (ok result, after)
    → (let done = (execute_pending http at id db).1 in
        execute_pending http later id done ≡ (skipped "status_EXECUTED", done))
unfolding execute_pending execute_found
succeeds_once http at later id db after a result found is_approved ran =
    let row =
      settled_row http at id db a (mark_executed (or_null result)) after found (λ x. refl)
        (ap (λ r. r.1.store) (sym ran) ∙ store-run_tool http at a db) in
    rw (found, is_approved, ran) (rw row refl)

-- An approved action whose tool call fails stays approved, with the error for its result: a second
-- approval is refused and changes nothing.
pub failure_stays_approved :
    (http : HttpTool) (fault : Bool) (at id user : String) (now : ℕ) (db after : Database)
    (a : Action) (e : Failure)
    → of_id id db.store.actions ≡ some a
    → a.status ≡ approved
    → run_tool http at a db ≡ (err e, after)
    → (let done = (execute_pending http at id db).1.store in
        (of_id id done.actions ≡ some (note_failure (failure_of e) a))
        × (approve fault id user now done
            ≡ (err (bad_request "Action is APPROVED and cannot be approved"), done)))
unfolding execute_pending execute_found approve
failure_stays_approved http fault at id user now db after a e found is_approved ran =
    let row =
      settled_row http at id db a (note_failure (failure_of e)) after found (λ x. refl)
        (ap (λ r. r.1.store) (sym ran) ∙ store-run_tool http at a db) in
    rw (found, is_approved, ran) (row, rw row refl)
