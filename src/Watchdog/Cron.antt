-- ===== src/Watchdog/Cron.antt =====
-- The scan for conversations that have no check (src/modules/routing/watchdog/watchdog-cron.service.ts).
use Prim.Native.Nat.{◌+◌}
use chat_intelli_api.Base.{
  ℕ, String, Bool, false, not, ◌&&◌, Option, none, some, List, [], ◌∷◌, ◌==◌, any, keep, length,
  take, ltb, is_none, is_empty, if◌then◌else◌,
}
use chat_intelli_api.Base.Table.{find_unique}
use chat_intelli_api.Conversation.{Conversation}
use chat_intelli_api.Router.{Organization, forced_off}
use chat_intelli_api.Watchdog.{Timer, Store, rests, schedule_check}
use chat_intelli_api.Base.Exec.{ok}
use chat_intelli_api.Watchdog.Check.{JobData, Env, Answer, skipped, scanned, is_unanswered, process}

abbrev pub scan_limit : ℕ
scan_limit = 500

abbrev margin_ms : ℕ
margin_ms = 300000

-- `lastMessageAt < now - 5 min`; no time is before none.
abbrev is_older : ℕ → Option ℕ → Bool
is_older now none = false
is_older now (some at) = ltb (at + margin_ms) now

abbrev is_watched : Option Organization → Bool
is_watched none = false
is_watched (some org) = org.watchdog_enabled

unfoldable pub is_candidate : ℕ → List Organization → Conversation → Bool
is_candidate now orgs c =
    is_none c.deleted_at
    && not c.is_stuck
    && not (rests c.status)
    && is_older now c.last_message_at
    && not (forced_off c.ai_enabled)
    && is_watched (find_unique (λ o. o.id) c.organization_id orgs)

unfoldable pub candidates : ℕ → Store → List Conversation
unfolding is_candidate
candidates now st =
    take scan_limit (keep (is_candidate now st.routing.organizations) st.conversations)

-- `conv.watchdogJobId && getJob(conv.watchdogJobId)`
abbrev pub has_job : Option String → List Timer → Bool
has_job none timers = false
has_job (some job) timers = not (is_empty job) && any (λ t. t.job_id == job) timers

unfoldable pub enqueue_each : ℕ → List Conversation → Store → ℕ × Store
unfolding schedule_check is_unanswered
enqueue_each now [] st = (0, st)
enqueue_each now (c ∷ cs) st =
    let needs = is_unanswered c.id st.messages && not (has_job c.watchdog_job_id st.timers) in
    let rest = enqueue_each now cs (if needs then schedule_check now c.id st else st) in
    ((if needs then 1 else 0) + rest.0, rest.1)

-- `scanAndEnqueue`: how many rows were scanned and how many checks asked for, and the store.
unfoldable pub scan_and_enqueue : ℕ → Store → (ℕ × ℕ) × Store
unfolding candidates enqueue_each
scan_and_enqueue now st =
    let found = candidates now st in
    let done = enqueue_each now found st in ((length found, done.0), done.1)

-- `process`: the job's name says whether it is a scan or a check.
unfoldable pub process_job : Env → String → JobData → Store → Answer
unfolding scan_and_enqueue process
process_job env name job st =
    if name == "watchdog-fallback-scan"
    then (let done = scan_and_enqueue env.now st in (ok (scanned (done.0).0 (done.0).1), done.1))
    else if name == "watchdog-check"
    then process env job st
    else (ok (skipped "unknown_job_name"), st)
