-- ===== src/Pending/Executor/Tests.antt =====
-- One action from its approval to the end.
use chat_intelli_api.Base.{true, false, ◌≡◌, refl, none, some, [], ◌∷◌, ◌==◌, inl, inr, Bool-cases}
use chat_intelli_api.Base.Table.{find_unique, find_first, update_key}
use chat_intelli_api.Base.Order.{order_by}
use chat_intelli_api.Pending.Executor.Life.Sweep.{AreKeyed}
use chat_intelli_api.Base.Exec.{Failure, failed, bad_request, ok, err}
use chat_intelli_api.Json.{Json, null, bool, str, end, field, obj, get}
use chat_intelli_api.Pending.{
  pending, Action, mark_approved, approve, mark_expired, expire_overdue, sweep, list_by_status,
  save,
}
use chat_intelli_api.Pending.Executor.{
  Database, HttpTool, run_tool, execute_http_skill, execute_transfer_to_human, mark_executed,
  note_failure, failure_of, execute_pending,
}
use chat_intelli_api.Pending.Executor.Life.{Change, of_id}
use chat_intelli_api.Pending.Executor.Life.Calls.{
  Call, approve_it, execute_it, sweep_all, apply, apply-Change,
}
use chat_intelli_api.Pending.Executor.Sound.{here, then_call, AreSound, reached-IsSound}
use chat_intelli_api.Pending.Executor.Once.{final_stays, failure_stays_approved}

abbrev waiting_action : Action
waiting_action = record {
  id = "p1";
  agent_run_id = "r1";
  conversation_id = "c1";
  agent_id = "a1";
  tool_name = "transferToHuman";
  args = obj end;
  preview = obj end;
  status = pending;
  created_at = 0;
  expires_at = 1800000;
  approved_by = none;
  approved_at = none;
  rejected_by = none;
  rejected_at = none;
  rejected_reason = none;
  execution_result = none;
}

abbrev approved_action : Action
approved_action = mark_approved "bia" 1000 waiting_action

abbrev done_action : Action
done_action = mark_executed (str "done") approved_action

abbrev broken_action : Action
broken_action = record approved_action { tool_name = "grantAccess" }

abbrev database : Action → Database
database a = record {
  store = record { actions = a ∷ []; queue = [] };
  skills = [];
  tools = [];
  runs = [];
  conversations =
      record { id = "c1"; contact_id = "ana"; channel_id = "ch"; ai_enabled = true } ∷ [];
}

abbrev no_tool : HttpTool
no_tool skill tool args ctx = err (failed "unreachable")

sound : AreSound (database waiting_action)
unfolding find_unique
sound k = elim (Bool-cases ("p1" == k)) [
  | inl it ↦ rw it (refl, refl, refl)
  | inr other ↦ rw other tt
]

found : of_id "p1" (database approved_action).store.actions ≡ some approved_action
unfolding find_unique
found = refl

found_done : of_id "p1" (database done_action).store.actions ≡ some done_action
unfolding find_unique
found_done = refl

found_broken : of_id "p1" (database broken_action).store.actions ≡ some broken_action
unfolding find_unique
found_broken = refl

abbrev result : Json
result = obj (field "ok" (bool true) (field "transferredAt" (str "now") (field "reason" null end)))

transferred : Database
unfolding run_tool
transferred = (run_tool no_tool "now" approved_action (database approved_action)).1

transfers :
    run_tool no_tool "now" approved_action (database approved_action) ≡ (ok result, transferred)
unfolding run_tool execute_transfer_to_human transferred find_unique get
transfers = refl

abbrev missing : Failure
missing = failed "Skill grantAccess not found or inactive"

breaks :
    run_tool no_tool "now" broken_action (database broken_action)
    ≡ (err missing, database broken_action)
unfolding run_tool execute_http_skill find_first
breaks = refl

-- The sweep of the service at a time behind the action's.
sweeps :
    (apply no_tool (sweep_all 1800001) (database waiting_action)).store.actions
    ≡ mark_expired waiting_action ∷ []
unfolding apply expire_overdue sweep list_by_status order_by save find_unique update_key
sweeps = refl

is_keyed : AreKeyed (database done_action).store.actions
unfolding find_unique
is_keyed = (refl, tt)

abbrev approval : Call
approval = approve_it false "p1" "bia" 1000

abbrev job : Call
job = execute_it "now" "p1"

apply-Change_example :
    Change
      (of_id "p1" (database waiting_action).store.actions)
      (of_id "p1" (apply no_tool approval (database waiting_action)).store.actions)
apply-Change_example = apply-Change no_tool approval (database waiting_action) "p1" tt

reached-IsSound_example :
    AreSound (apply no_tool job (apply no_tool approval (database waiting_action)))
reached-IsSound_example =
    reached-IsSound no_tool (then_call approval tt (then_call job tt here)) sound

final_stays_example :
    of_id "p1"
      (apply no_tool job (apply no_tool (sweep_all 1800001) (database done_action))).store.actions
    ≡ some done_action
final_stays_example =
    final_stays no_tool "p1" done_action
      (then_call (sweep_all 1800001) is_keyed (then_call job tt here)) found_done refl

failure_stays_approved_example :
    (let done = (execute_pending no_tool "now" "p1" (database broken_action)).1.store in
      (of_id "p1" done.actions ≡ some (note_failure (failure_of missing) broken_action))
      × (approve false "p1" "bia" 2000 done
          ≡ (err (bad_request "Action is APPROVED and cannot be approved"), done)))
failure_stays_approved_example =
    failure_stays_approved no_tool false "now" "p1" "bia" 2000 (database broken_action)
      (database broken_action) broken_action missing found_broken refl breaks
