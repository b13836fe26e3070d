-- ===== src/Pending/Executor/Life/Calls.antt =====
-- Every call of the service and the worker, and what it does to an action.
use mathlib.Core.Option
use chat_intelli_api.Base.{
  ℕ, String, Bool, ◌≡◌, refl, Option, none, some, List, ◌==◌, arith, inl, inr, Bool-cases,
  if◌then◌else◌,
}
use chat_intelli_api.Base.Table.{find_unique, update_many, find_unique-update_many}
use chat_intelli_api.Base.Exec.{Result, ok, err}
use chat_intelli_api.Json.{Json}
use chat_intelli_api.Pending.{
  approved, same_status, Action, CreateInput, Store, action_id, create, mark_expired, approve,
  reject, expire_overdue,
}
use chat_intelli_api.Pending.Executor.{
  Database, HttpTool, run_tool, execute_transfer_to_human, execute_http_skill, execute_found,
  settle, or_null, failure_of, transfer_found, conversation_key, Conversation, mark_executed,
  note_failure, execute_pending, is_overdue, expire_overdue_actions,
}
use chat_intelli_api.Pending.Executor.Life.Sweep.{AreKeyed, expire_overdue-Change}
use chat_intelli_api.Pending.Executor.Life.{
  Change, approve-Change, create-Change, executes, expires, fails, of_id, reject-Change, unchanged,
  update-Change,
}

-- A call of the service, or a job of the worker.
pub data Call : Type 0 where
  create_it : String → ℕ → CreateInput → Call
  approve_it : Bool → String → String → ℕ → Call
  reject_it : String → String → String → ℕ → Call
  execute_it : String → String → Call
  expire_all : ℕ → Call
  sweep_all : ℕ → Call

abbrev on_store : (Store → Store) → Database → Database
on_store f db = record db { store = f db.store }

-- A new action has an id that no action has; and for the sweep, no two rows have one id, as the
-- primary key has it: each row is the one that its id finds.
abbrev pub IsFresh : Call → Database → Type 0
IsFresh (create_it id now input) db = of_id id db.store.actions ≡ none
IsFresh (sweep_all now) db = AreKeyed db.store.actions
IsFresh _ db = Unit

module _ (http : HttpTool) where
  -- The database after a call, whether it throws or not.
  unfoldable pub apply : Call → Database → Database
  apply (create_it id now input) db = on_store (λ s. (create id now input s).1) db
  apply (approve_it fault id user now) db = on_store (λ s. (approve fault id user now s).1) db
  apply (reject_it id user reason now) db = on_store (λ s. (reject id user reason now s).1) db
  apply (execute_it at id) db = (execute_pending http at id db).1
  apply (expire_all now) db = (expire_overdue_actions now db).1
  apply (sweep_all now) db = on_store (λ s. (expire_overdue now s).1) db

  store-transfer_found :
      (at : String) (a : Action) (o : Option Conversation) (db : Database)
      → (transfer_found at a o db).1.store ≡ db.store
  store-transfer_found at a none db = refl
  store-transfer_found at a (some c) db = refl

  store-transfer :
      (at : String) (a : Action) (db : Database)
      → (execute_transfer_to_human at a db).1.store ≡ db.store
  unfolding execute_transfer_to_human
  store-transfer at a db =
      store-transfer_found at a (find_unique conversation_key a.conversation_id db.conversations) db

  pub store-run_tool :
      (at : String) (a : Action) (db : Database) → (run_tool http at a db).1.store ≡ db.store
  unfolding run_tool execute_transfer_to_human execute_http_skill
  store-run_tool at a db = elim (Bool-cases (a.tool_name == "transferToHuman")) [
    | inr skill ↦ rw (skill, run_tool) refl
    | inl transfer ↦ rw (transfer, run_tool) (store-transfer at a db)
  ]

  execute-Change :
      (k at id : String) (o : Option Action) (db : Database)
      → of_id id db.store.actions ≡ o
      → Change (of_id k db.store.actions) (of_id k (execute_found http at id o db).1.store.actions)
  unfolding execute_found
  execute-Change k at id none db found = unchanged (of_id k db.store.actions)
  execute-Change k at id (some a) db found = elim (Bool-cases (same_status a.status approved)) [
    | inr other ↦ rw other (unchanged (of_id k db.store.actions))
    | inl same ↦ rw same (settled (ground arith) (run_tool http at a db) (store-run_tool at a db))
  ]
    where
      settled :
          a.status ≡ approved
          → (r : Result Json × Database) → r.1.store ≡ db.store
          → Change (of_id k db.store.actions) (of_id k (settle id r).1.store.actions)
      settled is_approved (ok result, after) e = rw e (
          update-Change k id db.store.actions a (mark_executed (or_null result)) (λ x. refl) found
            (executes (or_null result) a is_approved))
      settled is_approved (err e, after) f = rw f (
          update-Change k id db.store.actions a (note_failure (failure_of e)) (λ x. refl) found
            (fails (failure_of e) a is_approved))

  overdue-Change :
      (k : String) (now : ℕ) (rows : List Action)
      → Change (of_id k rows) (of_id k (update_many (is_overdue now) mark_expired rows))
  overdue-Change k now rows =
      rw (find_unique-update_many action_id k (is_overdue now) mark_expired rows (λ x. refl))
        (one (of_id k rows))
    where
      one :
          (o : Option Action)
          → Change o (Option.map (λ r. if is_overdue now r then mark_expired r else r) o)
      one none = unchanged none
      one (some a) = elim (Bool-cases (is_overdue now a)) [
        | inl late ↦ rw late (expires now a (ground arith) (ground arith))
        | inr other ↦ rw other (unchanged (some a))
      ]

  -- Every call of the service and every job of the worker leaves the action of each id as it is,
  -- or makes it, approves or rejects it while it is pending and not expired, expires it while it
  -- is pending and late, or records the outcome of its tool while it is approved; a new action's
  -- id is one that no action has, and no two actions have one id where overdue ones are swept.
  pub apply-Change :
      (c : Call) (db : Database) (k : String)
      → IsFresh c db
      → Change (of_id k db.store.actions) (of_id k (apply c db).store.actions)
  unfolding apply execute_pending expire_overdue_actions
  apply-Change (create_it id now input) db k fresh = create-Change k db.store id now input fresh
  apply-Change (approve_it fault id user now) db k fresh =
      approve-Change k db.store fault id user now
  apply-Change (reject_it id user reason now) db k fresh =
      reject-Change k db.store id user reason now
  apply-Change (execute_it at id) db k fresh =
      execute-Change k at id (of_id id db.store.actions) db refl
  apply-Change (expire_all now) db k fresh = overdue-Change k now db.store.actions
  apply-Change (sweep_all now) db k keyed = expire_overdue-Change k now db.store keyed
