-- ===== src/Executor/Engine/Locks.antt =====
-- The lock of a contact over a job.
use chat_intelli_api.Base.{
  ℕ, ◌+◌, String, Bool, true, false, not, ◌≡◌, refl, ap, ◌∙◌, Option, none, some, List, [], ◌∷◌,
  ◌==◌, arith, inl, inr, eq_refl, keep, contains, eqb, leb, any, Bool-cases,
}
use chat_intelli_api.Base.Table.{find_unique}
use chat_intelli_api.Base.Exec.{Result, ok, err, resume}
use chat_intelli_api.Outbox.Poller.{Job}
use chat_intelli_api.Redis.{
  contact_lock_ttl_ms, Lock, Hit, acquire_contact_lock, release_contact_lock, is_held,
}
use chat_intelli_api.Automation.{
  Automation, RunStatus, succeeded, failed_status, partial, skipped, Run, Database, Registry,
  parse_actions,
}
use chat_intelli_api.Automation.Loop.{Progress, run_loop, status_of}
use chat_intelli_api.Executor.{
  Faults, automation_id, update, update_found, count_success, count_failure, count_skip, pause,
  auto_pause, pause_at_limit, failures_of, in_a_row, count_failed_run, update_counters,
  current_schema_version, auto_disable_after_failures, max_cascade_depth,
}
use chat_intelli_api.Executor.Engine.{
  Env, record_run, run_actions, release, under_lock, try_lock, rate_limited, run_matched,
  check_actor, context_of, persist_run, execute_one, execute_all, execute,
}

-- No lock is on a contact.
abbrev pub IsFree : String → Database → Type 0
IsFree contact db = any (λ l. l.contact == contact) db.locks ≡ false

-- What a free contact's lock makes of the others: it is taken, and released, beside them.
not_held :
    (now : ℕ) (contact : String) (ls : List Lock)
    → any (λ l. l.contact == contact) ls ≡ false
    → is_held now contact ls ≡ false
not_held now contact [] h = refl
not_held now contact (l ∷ ls) h = ground (arith, h, not_held now contact ls)

others_kept :
    (contact : String) (ls : List Lock)
    → any (λ l. l.contact == contact) ls ≡ false
    → keep (λ l. not (l.contact == contact)) ls ≡ ls
others_kept contact [] h = refl
others_kept contact (l ∷ ls) h = ground (arith, h, others_kept contact ls)

others_left :
    (contact token : String) (ls : List Lock)
    → any (λ l. l.contact == contact) ls ≡ false
    → release_contact_lock contact token ls ≡ ls
unfolding release_contact_lock
others_left contact token [] h = refl
others_left contact token (l ∷ ls) h = ground (arith, h, others_left contact token ls)

abbrev own_lock : ℕ → String → String → Lock
own_lock now token contact = record {
  contact = contact;
  token = token;
  until = now + contact_lock_ttl_ms;
}

acquired :
    (now : ℕ) (token contact : String) (ls : List Lock)
    → any (λ l. l.contact == contact) ls ≡ false
    → acquire_contact_lock now token contact ls ≡ (some token, own_lock now token contact ∷ ls)
unfolding acquire_contact_lock
acquired now token contact ls free =
    rw (not_held now contact ls free, others_kept contact ls free) refl

released :
    (now : ℕ) (token contact : String) (ls : List Lock)
    → any (λ l. l.contact == contact) ls ≡ false
    → release_contact_lock contact token (own_lock now token contact ∷ ls) ≡ ls
unfolding release_contact_lock
released now token contact ls free =
    rw (eq_refl contact, eq_refl token) (others_left contact token ls free)

locks-update :
    (fault : Option String) (id : String) (f : Automation → Automation) (db : Database)
    → (update fault id f db).1.locks ≡ db.locks
unfolding update
locks-update (some m) id f db = refl
locks-update none id f db = go (find_unique automation_id id db.automations)
  where
    go : (o : Option Automation) → (update_found id f o db).1.locks ≡ db.locks
    go none = refl
    go (some a) = refl

locks-pause_at_limit :
    (fault : Option String) (now : ℕ) (id : String) (failures : ℕ) (db : Database)
    → (pause_at_limit fault now id failures db).1.locks ≡ db.locks
unfolding pause_at_limit auto_pause
locks-pause_at_limit fault now id failures db =
    elim (Bool-cases (leb auto_disable_after_failures failures)) [
      | inl many ↦ rw many (locks-update fault id (pause now (in_a_row failures)) db)
      | inr few ↦ rw few refl
    ]

locks-count_failed_run :
    (faults : Faults) (now : ℕ) (id : String) (db : Database)
    → (count_failed_run faults now id db).1.locks ≡ db.locks
unfolding count_failed_run
locks-count_failed_run faults now id db =
    go (update faults.count_fault id (count_failure now) db)
      (locks-update faults.count_fault id (count_failure now) db)
  where
    go :
        (o : Result (Unit {0}) × Database)
        → o.1.locks ≡ db.locks
        → (resume o (λ _ after.
            pause_at_limit faults.pause_fault now id
              (failures_of (find_unique automation_id id after.automations))
              after)).1.locks
          ≡ db.locks
    go (err e, after) same = same
    go (ok u, after) same =
        locks-pause_at_limit faults.pause_fault now id
          (failures_of (find_unique automation_id id after.automations)) after
        ∙ same

locks-update_counters :
    (faults : Faults) (now : ℕ) (id : String) (status : RunStatus) (db : Database)
    → (update_counters faults now id status db).1.locks ≡ db.locks
unfolding update_counters count_failed_run pause_at_limit auto_pause
locks-update_counters faults now id succeeded db =
    locks-update faults.count_fault id (count_success now) db
locks-update_counters faults now id skipped db =
    locks-update faults.count_fault id (count_skip now) db
locks-update_counters faults now id failed_status db = locks-count_failed_run faults now id db
locks-update_counters faults now id partial db = locks-count_failed_run faults now id db

module _ (lower : String → String) (registry : Registry) (env : Env) (job : Job) where
  locks-persist_run : (run : Run) (db : Database) → (persist_run env run db).locks ≡ db.locks
  locks-persist_run run db = ground arith

  locks-run_actions :
      (a : Automation) (db : Database)
      → (run_actions lower registry env job a db).1.locks ≡ db.locks
  unfolding run_actions
  locks-run_actions a db =
      locks-update_counters (env.faults a.id) env.now a.id (status_of p)
        (record_run lower registry env job a p db)
      ∙ locks-persist_run _ (record db { outbox = p.outbox })
    where
      p : Progress
      p = run_loop registry (context_of a job) 0 (parse_actions a.actions) db.outbox

  locks-release :
      (token : String) (o : Result (Unit {0}) × Database)
      → (release lower registry env job token o).1.locks
        ≡ release_contact_lock job.payload.contact_id token o.1.locks
  locks-release token (r, db) = refl

  locks-under_lock :
      (a : Automation) (token : String) (locks : List Lock) (db : Database)
      → (under_lock lower registry env job a (some token, locks) db).1.locks
        ≡ release_contact_lock job.payload.contact_id token locks
  unfolding under_lock
  locks-under_lock a token locks db =
      locks-release token (run_actions lower registry env job a (record db { locks = locks }))
      ∙ ap (release_contact_lock job.payload.contact_id token)
          (locks-run_actions a (record db { locks = locks }))

  locks-try_lock :
      (a : Automation) (db : Database)
      → IsFree job.payload.contact_id db
      → (try_lock lower registry env job a db).1.locks ≡ db.locks
  unfolding try_lock
  locks-try_lock a db free =
      rw (acquired env.now (env.token a.id) job.payload.contact_id db.locks free) (
        locks-under_lock a (env.token a.id) _ db
        ∙ released env.now (env.token a.id) job.payload.contact_id db.locks free)

  locks-rate_limited :
      (a : Automation) (o : Bool × List Hit) (db : Database)
      → IsFree job.payload.contact_id db
      → (rate_limited lower registry env job a o db).1.locks ≡ db.locks
  unfolding rate_limited
  locks-rate_limited a (false, hits) db free = locks-persist_run _ (record db { hits = hits })
  locks-rate_limited a (true, hits) db free = locks-try_lock a (record db { hits = hits }) free

  locks-run_matched :
      (a : Automation) (r : Result Bool) (db : Database)
      → IsFree job.payload.contact_id db
      → (run_matched lower registry env job a r db).1.locks ≡ db.locks
  unfolding run_matched auto_pause
  locks-run_matched a (err e) db free = refl
  locks-run_matched a (ok false) db free = refl
  locks-run_matched a (ok true) db free =
      elim (Bool-cases (check_actor lower registry env job a db)) [
        | inl member ↦ rw member (locks-rate_limited a _ db free)
        | inr gone ↦ rw gone (
            locks-update (env.faults a.id).pause_fault a.id
              (pause env.now "creator no longer in workspace") _
            ∙ locks-persist_run _ db)
      ]

  locks-execute_one :
      (a : Automation) (db : Database)
      → IsFree job.payload.contact_id db
      → (execute_one lower registry env job a db).1.locks ≡ db.locks
  unfolding execute_one
  locks-execute_one a db free = elim (Bool-cases (contains job.visited_automations a.id)) [
    | inl seen ↦ rw seen (locks-persist_run _ db)
    | inr new ↦ elim (Bool-cases (eqb a.schema_version current_schema_version)) [
      | inl same ↦ rw (new, same) (locks-run_matched a _ db free)
      | inr other ↦ rw (new, other) (locks-persist_run _ db)
    ]
  ]

  locks-execute_all :
      (rows : List Automation) (db : Database)
      → IsFree job.payload.contact_id db
      → (execute_all lower registry env job rows db).1.locks ≡ db.locks
  unfolding execute_all
  locks-execute_all [] db free = refl
  locks-execute_all (a ∷ rest) db free =
      go (execute_one lower registry env job a db) (locks-execute_one a db free)
        (λ after f. locks-execute_all rest after f)
    where
      go :
          (o : Result (Unit {0}) × Database)
          → o.1.locks ≡ db.locks
          → ((after : Database)
              → IsFree job.payload.contact_id after
              → (execute_all lower registry env job rest after).1.locks ≡ after.locks)
          → (resume o (λ _. execute_all lower registry env job rest)).1.locks ≡ db.locks
      go (err e, after) same ih = same
      go (ok u, after) same ih = ih after (rw same free) ∙ same

  -- A job whose contact is free takes the contact's lock only for a while: whatever runs, fails or
  -- throws in it, the locks behind it are the locks in front of it.
  pub locks-execute :
      (db : Database)
      → IsFree job.payload.contact_id db
      → (execute lower registry env job db).1.locks ≡ db.locks
  unfolding execute
  locks-execute db free = elim (Bool-cases (leb max_cascade_depth job.cascade_depth)) [
    | inl deep ↦ rw deep refl
    | inr fine ↦ rw fine (locks-execute_all _ db free)
  ]
