-- ===== src/Executor/Engine/Counters.antt =====
-- The counters of the automations over a job.
use mathlib.Core.Path.{subst}
use chat_intelli_api.Base.{
  ℕ, ◌+◌, ◌≤◌, String, Bool, true, false, ◌≡◌, refl, Option, none, some, List, [], ◌∷◌, ◌==◌, arith,
  inl, inr, contains, eqb, leb, eq_iff, eq_refl, Bool-cases, Option-cases,
}
use chat_intelli_api.Base.Table.{find_unique, update_key, find_unique-update_key, update_key_twice}
use chat_intelli_api.Base.Exec.{Result, ok, err, resume}
use chat_intelli_api.Outbox.Poller.{Job}
use chat_intelli_api.Redis.{Lock, Hit, acquire_contact_lock}
use chat_intelli_api.Automation.{
  Automation, RunStatus, succeeded, failed_status, partial, skipped, Run, Database, Registry,
  parse_actions,
}
use chat_intelli_api.Automation.Loop.{Progress, run_loop, status_of}
use chat_intelli_api.Executor.{
  Faults, automation_id, update, update_found, count_success, count_failure, count_skip, pause,
  auto_pause, pause_at_limit, in_a_row, failures_of, count_failed_run, update_counters,
  current_schema_version, auto_disable_after_failures, max_cascade_depth,
}
use chat_intelli_api.Executor.Engine.{
  Env, record_run, run_actions, release, under_lock, try_lock, rate_limited, run_matched,
  check_actor, context_of, persist_run, execute_one, execute_all, execute,
}

-- The runs with an outcome are among all runs, and an automation with as many failures in a row as
-- the limit is paused.
abbrev pub IsCounted : Automation → Type 0
IsCounted a =
    (a.success_count + a.failure_count ≤ a.run_count)
    × (a.consecutive_failures ≤ a.failure_count)
    × (auto_disable_after_failures ≤ a.consecutive_failures → a.enabled ≡ false)

abbrev CountedAt : Option Automation → Type 0
CountedAt none = Unit
CountedAt (some a) = IsCounted a

abbrev of_id : String → List Automation → Option Automation
of_id k rows = find_unique automation_id k rows

-- The row that the queries by id find has agreeing counters.
abbrev pub AreCounted : Database → Type 0
AreCounted db = (k : String) → CountedAt (of_id k db.automations)

-- An update that keeps the counters of the row of its id in agreement keeps those of all.
updated_row :
    (id : String) (f : Automation → Automation) (rows : List Automation) (a : Automation)
    → ((x : Automation) → automation_id (f x) ≡ automation_id x)
    → of_id id rows ≡ some a
    → IsCounted (f a)
    → ((k : String) → CountedAt (of_id k rows))
    → (k : String) → CountedAt (of_id k (update_key automation_id id f rows))
updated_row id f rows a same found counted h k = elim (Bool-cases (id == k)) [
  | inr other ↦ rw (find_unique-update_key automation_id id k f rows same, other) (h k)
  | inl it ↦
      let there : of_id k rows ≡ some a = ground (arith, eq_iff id k) in
      rw (find_unique-update_key automation_id id k f rows same, it, there) counted
]

updated :
    (fault : Option String) (id : String) (f : Automation → Automation) (db : Database)
    → ((x : Automation) → automation_id (f x) ≡ automation_id x)
    → ((a : Automation) → IsCounted a → IsCounted (f a))
    → AreCounted db
    → AreCounted (update fault id f db).1
unfolding update
updated (some m) id f db same step h = h
updated none id f db same step h = go (of_id id db.automations) refl
  where
    go :
        (o : Option Automation)
        → of_id id db.automations ≡ o
        → AreCounted (update_found id f o db).1
    go none e = h
    go (some a) e = updated_row id f db.automations a same e (step a (subst CountedAt e (h id))) h

pause-IsCounted :
    (now : ℕ) (reason : String) (a : Automation) → IsCounted a → IsCounted (pause now reason a)
pause-IsCounted now reason a h = (h.0, h.1, λ many. refl)

auto_pause-AreCounted :
    (fault : Option String) (now : ℕ) (id reason : String) (db : Database)
    → AreCounted db
    → AreCounted (auto_pause fault now id reason db).1
unfolding auto_pause
auto_pause-AreCounted fault now id reason db h =
    updated fault id (pause now reason) db (λ a. refl) (pause-IsCounted now reason) h

counted_row :
    (faults : Faults) (now : ℕ) (id : String) (db : Database)
    → faults.pause_fault ≡ none
    → AreCounted db
    → AreCounted
        (resume (update none id (count_failure now) db) (λ _ d.
          pause_at_limit faults.pause_fault now id
            (failures_of (find_unique automation_id id d.automations))
            d)).1
unfolding update pause_at_limit auto_pause
counted_row faults now id db quiet h = rw quiet (elim (Option-cases (of_id id db.automations)) [
  | inl gone ↦ rw gone h
  | inr (a, found) ↦
      let old : IsCounted a = subst CountedAt found (h id) in
      let row : of_id id (update_key automation_id id (count_failure now) db.automations)
          ≡ some (count_failure now a) =
        ground (
          arith,
          find_unique-update_key automation_id id id (count_failure now) db.automations (λ x. refl),
          eq_refl id,
        ) in
      elim (Bool-cases (leb auto_disable_after_failures (a.consecutive_failures + 1))) [
        | inr below ↦
            rw (found, row, below)
              (updated_row id (count_failure now) db.automations a (λ x. refl) found
                (ground (arith, old)) h)
        | inl many ↦
            let give_up = pause now (in_a_row (a.consecutive_failures + 1)) in
            rw (found, row, many)
              (rw
                (update_key_twice automation_id id (count_failure now) give_up db.automations
                  (λ x. refl))
                (updated_row id (λ x. give_up (count_failure now x)) db.automations a (λ x. refl)
                  found (ground (arith, old)) h))
      ]
])

-- A failed run is counted, and the pause follows at the limit.
count_failed_run-AreCounted :
    (faults : Faults) (now : ℕ) (id : String) (db : Database)
    → faults.pause_fault ≡ none
    → AreCounted db
    → AreCounted (count_failed_run faults now id db).1
unfolding count_failed_run
count_failed_run-AreCounted faults now id db quiet h = elim (Option-cases faults.count_fault) [
  | inr (m, broken) ↦ rw broken h
  | inl works ↦ rw works (counted_row faults now id db quiet h)
]

update_counters-AreCounted :
    (faults : Faults) (now : ℕ) (id : String) (status : RunStatus) (db : Database)
    → faults.pause_fault ≡ none
    → AreCounted db
    → AreCounted (update_counters faults now id status db).1
unfolding update_counters
update_counters-AreCounted faults now id succeeded db quiet h =
    updated faults.count_fault id (count_success now) db (λ a. refl) (λ a c. ground (arith, c)) h
update_counters-AreCounted faults now id failed_status db quiet h =
    count_failed_run-AreCounted faults now id db quiet h
update_counters-AreCounted faults now id partial db quiet h =
    count_failed_run-AreCounted faults now id db quiet h
update_counters-AreCounted faults now id skipped db quiet h =
    updated faults.count_fault id (count_skip now) db (λ a. refl) (λ a c. ground (arith, c)) h

module _ (lower : String → String) (registry : Registry) (env : Env) (job : Job)
    (quiet : (id : String) → (env.faults id).pause_fault ≡ none) where
  persist_run-AreCounted :
      (run : Run) (db : Database) → AreCounted db → AreCounted (persist_run env run db)
  persist_run-AreCounted run db h = elim (Bool-cases (env.run_fault run.automation_id)) [
    | inl fault ↦ rw fault h
    | inr fine ↦ rw fine h
  ]

  run_actions-AreCounted :
      (a : Automation) (db : Database)
      → AreCounted db
      → AreCounted (run_actions lower registry env job a db).1
  unfolding run_actions
  run_actions-AreCounted a db h =
      update_counters-AreCounted (env.faults a.id) env.now a.id (status_of p)
        (record_run lower registry env job a p db) (quiet a.id)
        (persist_run-AreCounted _ (record db { outbox = p.outbox }) h)
    where
      p : Progress
      p = run_loop registry (context_of a job) 0 (parse_actions a.actions) db.outbox

  automations-release :
      (token : String) (o : Result (Unit {0}) × Database)
      → (release lower registry env job token o).1.automations ≡ o.1.automations
  automations-release token (r, db) = refl

  try_lock-AreCounted :
      (a : Automation) (db : Database)
      → AreCounted db
      → AreCounted (try_lock lower registry env job a db).1
  unfolding try_lock under_lock run_actions
  try_lock-AreCounted a db h =
      go (acquire_contact_lock env.now (env.token a.id) job.payload.contact_id db.locks)
    where
      go : (o : Option String × List Lock) → AreCounted (under_lock lower registry env job a o db).1
      go (none, locks) k = h k
      go (some token, locks) k =
          let ran = run_actions lower registry env job a (record db { locks = locks }) in
          rw (automations-release token ran)
            (run_actions-AreCounted a (record db { locks = locks }) h k)

  rate_limited-AreCounted :
      (a : Automation) (o : Bool × List Hit) (db : Database)
      → AreCounted db
      → AreCounted (rate_limited lower registry env job a o db).1
  unfolding rate_limited
  rate_limited-AreCounted a (false, hits) db h =
      persist_run-AreCounted _ (record db { hits = hits }) h
  rate_limited-AreCounted a (true, hits) db h = try_lock-AreCounted a (record db { hits = hits }) h

  run_matched-AreCounted :
      (a : Automation) (r : Result Bool) (db : Database)
      → AreCounted db
      → AreCounted (run_matched lower registry env job a r db).1
  unfolding run_matched rate_limited
  run_matched-AreCounted a (err e) db h = h
  run_matched-AreCounted a (ok false) db h = h
  run_matched-AreCounted a (ok true) db h =
      elim (Bool-cases (check_actor lower registry env job a db)) [
        | inl member ↦ rw member (rate_limited-AreCounted a _ db h)
        | inr gone ↦ rw gone (
            auto_pause-AreCounted (env.faults a.id).pause_fault env.now a.id
              "creator no longer in workspace" _ (persist_run-AreCounted _ db h))
      ]

  execute_one-AreCounted :
      (a : Automation) (db : Database)
      → AreCounted db
      → AreCounted (execute_one lower registry env job a db).1
  unfolding execute_one
  execute_one-AreCounted a db h = elim (Bool-cases (contains job.visited_automations a.id)) [
    | inl seen ↦ rw seen (persist_run-AreCounted _ db h)
    | inr new ↦ elim (Bool-cases (eqb a.schema_version current_schema_version)) [
      | inl same ↦ rw (new, same) (run_matched-AreCounted a _ db h)
      | inr other ↦ rw (new, other) (persist_run-AreCounted _ db h)
    ]
  ]

  execute_all-AreCounted :
      (rows : List Automation) (db : Database)
      → AreCounted db
      → AreCounted (execute_all lower registry env job rows db).1
  unfolding execute_all
  execute_all-AreCounted [] db h = h
  execute_all-AreCounted (a ∷ rest) db h =
      go (execute_one lower registry env job a db) (execute_one-AreCounted a db h)
        (λ after c. execute_all-AreCounted rest after c)
    where
      go :
          (o : Result (Unit {0}) × Database)
          → AreCounted o.1
          → ((after : Database)
              → AreCounted after
              → AreCounted (execute_all lower registry env job rest after).1)
          → AreCounted (resume o (λ _. execute_all lower registry env job rest)).1
      go (err e, after) c ih = c
      go (ok u, after) c ih = ih after c

  -- Whatever a job does, and however it ends, as long as no update that pauses an automation fails:
  -- from automations whose counters agree, it leads to
  -- automations whose counters agree: no more successes and failures than runs, no more failures
  -- in a row than failures, and one with as many in a row as the limit is paused.
  pub execute-AreCounted :
      (db : Database) → AreCounted db → AreCounted (execute lower registry env job db).1
  unfolding execute
  execute-AreCounted db h = elim (Bool-cases (leb max_cascade_depth job.cascade_depth)) [
    | inl deep ↦ rw deep h
    | inr fine ↦ rw fine (execute_all-AreCounted _ db h)
  ]
