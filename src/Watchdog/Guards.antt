-- ===== src/Watchdog/Guards.antt =====
-- When a check runs the agent.
use Prim.Native.Nat.{◌+◌, ◌≤◌}
use chat_intelli_api.Base.{
  ℕ, true, false, Option, none, some, ◌≡◌, refl, inl, inr, arith, ltb, Bool-cases,
}
use chat_intelli_api.Base.Exec.{Failure, Result, ok, err}
use chat_intelli_api.Base.Table.{find_unique}
use chat_intelli_api.Conversation.{Conversation, id_of}
use chat_intelli_api.Hours.{is_within_business_hours}
use chat_intelli_api.Router.{Organization, Decision, handle, refuse, forced_off}
use chat_intelli_api.Watchdog.{resolve, Message, Store, rests}
use chat_intelli_api.Watchdog.Check.{
  JobData, Env, Outcome, reactivated, run_failed, is_unanswered, returned, run_agent, on_decision,
  decide, reactivate, mark_stuck, attempt, check, check_in, check_found, process,
}

-- The number of the attempt, where the agent was run.
abbrev pub acted : Result Outcome → Option ℕ
acted (ok (reactivated n)) = some n
acted (ok (run_failed e n)) = some n
acted _ = none

returned-acted : (n k : ℕ) (r : Result {0} Unit × Store) → acted (returned n r).0 ≡ some k → k ≡ n
returned-acted n k (ok _, st) h = ground arith
returned-acted n k (err e, st) h = ground arith

run_agent-acted :
    (env : Env) (c fresh : Conversation) (m : Option Message) (st : Store) (k : ℕ)
    → acted (run_agent env c fresh m st).0 ≡ some k
    → k ≡ c.stuck_attempts + 1
unfolding run_agent
run_agent-acted env c fresh none st k h = absurd (ground arith)
run_agent-acted env c fresh (some m) st k h = returned-acted (c.stuck_attempts + 1) k _ h

on_decision-acted :
    (env : Env) (c fresh : Conversation) (d : Decision) (st : Store) (k : ℕ)
    → acted (on_decision env c fresh d st).0 ≡ some k
    → k ≡ c.stuck_attempts + 1
unfolding on_decision
on_decision-acted env c fresh (refuse r) st k h = absurd (ground arith)
on_decision-acted env c fresh handle st k h = run_agent-acted env c fresh _ st k h

decide-acted :
    (env : Env) (c : Conversation) (fresh : Option Conversation) (st : Store) (k : ℕ)
    → acted (decide env c fresh st).0 ≡ some k
    → k ≡ c.stuck_attempts + 1
unfolding decide
decide-acted env c none st k h = absurd (ground arith)
decide-acted env c (some fresh) st k h = on_decision-acted env c fresh _ st k h

pub mark_stuck-acted :
    (f : Option Failure) (c : Conversation) (st : Store) → acted (mark_stuck f c st).0 ≡ none
unfolding mark_stuck
mark_stuck-acted none c st = refl
mark_stuck-acted (some e) c st = refl

attempt-acted :
    (env : Env) (scheduled : ℕ) (c : Conversation) (org : Organization) (st : Store) (k : ℕ)
    → acted (attempt env scheduled c org st).0 ≡ some k
    → (c.stuck_attempts ≤ scheduled) × (k ≡ c.stuck_attempts + 1) × (k ≤ (resolve org).max_attempts)
unfolding attempt reactivate
attempt-acted env scheduled c org st k h = elim (Bool-cases (ltb scheduled c.stuck_attempts)) [
  | inl ahead ↦ absurd (ground arith)
  | inr fresh ↦ elim (Bool-cases (ltb (resolve org).max_attempts (c.stuck_attempts + 1))) [
    | inl over ↦ absurd (ground (arith, mark_stuck-acted env.notify_fails c st))
    | inr below ↦
        let one : k ≡ c.stuck_attempts + 1 = decide-acted env c _ _ k (rw (fresh, below) at h) in
        (ground arith, one, ground arith)
  ]
]

-- What a check has to meet before it runs the agent.
abbrev pub Due : Env → ℕ → Conversation → Organization → Store → Type 0
Due env scheduled c org st =
    (c.deleted_at ≡ none)
    × (org.watchdog_enabled ≡ true)
    × (is_within_business_hours env.clock org.watchdog_business_hours ≡ true)
    × (rests c.status ≡ false)
    × (forced_off c.ai_enabled ≡ false)
    × (is_unanswered c.id st.messages ≡ true)
    × (c.stuck_attempts ≤ scheduled)

check-acted :
    (env : Env) (scheduled : ℕ) (c : Conversation) (org : Organization) (st : Store) (k : ℕ)
    → acted (check env scheduled c org st).0 ≡ some k
    → Due env scheduled c org st × (k ≡ c.stuck_attempts + 1) × (k ≤ (resolve org).max_attempts)
unfolding check
check-acted env scheduled c org st k h = ground (arith, attempt-acted env scheduled c org st k)

check_in-acted :
    (env : Env) (scheduled : ℕ) (c : Conversation) (org : Option Organization) (st : Store) (k : ℕ)
    → acted (check_in env scheduled c org st).0 ≡ some k
    → (o : Organization) × (org ≡ some o)
      × Due env scheduled c o st
      × (k ≡ c.stuck_attempts + 1)
      × (k ≤ (resolve o).max_attempts)
unfolding check_in
check_in-acted env scheduled c none st k h = absurd (ground arith)
check_in-acted env scheduled c (some o) st k h =
    let (due, one, few) = check-acted env scheduled c o st k h in (o, refl, due, one, few)

check_found-acted :
    (env : Env) (scheduled : ℕ) (c : Option Conversation) (st : Store) (k : ℕ)
    → acted (check_found env scheduled c st).0 ≡ some k
    → (d : Conversation) × (o : Organization) × (c ≡ some d)
      × (find_unique (λ o. o.id) d.organization_id st.routing.organizations ≡ some o)
      × Due env scheduled d o st
      × (k ≡ d.stuck_attempts + 1)
      × (k ≤ (resolve o).max_attempts)
unfolding check_found
check_found-acted env scheduled none st k h = absurd (ground arith)
check_found-acted env scheduled (some d) st k h =
    let (o, e, due, one, few) = check_in-acted env scheduled d _ st k h in
    (d, o, refl, e, due, one, few)

-- A check that runs the agent, whether the run ends well or not, has found a live conversation of
-- an organisation with the watchdog on, within its business hours, that neither rests nor has its
-- AI switched off, whose last message came from the contact, and whose attempts have not advanced
-- since the check was scheduled; and the run is the next attempt, within the limit.
pub process-acted :
    (env : Env) (job : JobData) (st : Store) (k : ℕ)
    → acted (process env job st).0 ≡ some k
    → (c : Conversation) × (o : Organization) × (find_unique id_of job.conversation_id
          st.conversations
        ≡ some c)
      × (find_unique (λ o. o.id) c.organization_id st.routing.organizations ≡ some o)
      × Due env job.scheduled_at_attempts c o st
      × (k ≡ c.stuck_attempts + 1)
      × (k ≤ (resolve o).max_attempts)
unfolding process
process-acted env job st k h = check_found-acted env job.scheduled_at_attempts _ st k h
