-- ===== src/Watchdog/Timers.antt =====
-- The timers of conversations do not pile up.
use Prim.Native.Nat.{◌≤◌}
use chat_intelli_api.Base.{
  ℕ, String, Bool, true, false, not, ◌&&◌, ◌||◌, Option, none, some, List, [], ◌∷◌, ◌≡◌, refl, inl,
  inr, arith, ◌==◌, eq_iff, eq_refl, if-holds, count_if, any, keep, eqb, Bool-cases, All, ap, ◌∙◌,
}
use chat_intelli_api.Base.Table.{find_unique}
use chat_intelli_api.Conversation.{Conversation, id_of}
use chat_intelli_api.Router.{Organization, forced_off}
use chat_intelli_api.Watchdog.{
  Timer, Store, resolve, job_id_for, delay_for_status, rests, timer_for, cancel_by_job_id,
  add_timer, put_timer, schedule_in, schedule_found, schedule_check, cancel_check,
}
use chat_intelli_api.Watchdog.Check.{is_unanswered}
use chat_intelli_api.Watchdog.Cron.{candidates, has_job, enqueue_each, scan_and_enqueue}

abbrev pub jobs_with : String → List Timer → ℕ
jobs_with job timers = count_if (λ t. t.job_id == job) timers

-- No two jobs of the queue have one id.
abbrev pub HasUniqueJobs : List Timer → Type 0
HasUniqueJobs timers = (job : String) → jobs_with job timers ≤ 1

keep-le :
    (p : Timer → Bool) (job : String) (timers : List Timer)
    → jobs_with job (keep p timers) ≤ jobs_with job timers
keep-le p job [] = omega arith
keep-le p job (t ∷ ts) = elim (Bool-cases (p t)) [
  | inl kept ↦ rw kept (omega (arith, keep-le p job ts))
  | inr left ↦ rw left (omega (arith, keep-le p job ts))
]

any-count :
    (job : String) (timers : List Timer)
    → any (λ u. u.job_id == job) timers ≡ false
    → jobs_with job timers ≡ 0
any-count job [] h = refl
any-count job (t ∷ ts) h = ground (arith, any-count job ts)

cancel-HasUniqueJobs :
    (job : String) (timers : List Timer)
    → HasUniqueJobs timers
    → HasUniqueJobs (cancel_by_job_id job timers)
unfolding cancel_by_job_id
cancel-HasUniqueJobs job timers h other =
    omega (arith, h other, keep-le (λ t. not (t.job_id == job && not t.is_active)) other timers)

add-HasUniqueJobs :
    (t : Timer) (timers : List Timer) → HasUniqueJobs timers → HasUniqueJobs (add_timer t timers)
unfolding add_timer
add-HasUniqueJobs t timers h other = elim (Bool-cases (any (λ u. u.job_id == t.job_id) timers)) [
  | inl there ↦ rw there (h other)
  | inr absent ↦
      rw absent (ground (arith, h other, eq_iff t.job_id other, any-count t.job_id timers absent))
]

schedule_in-HasUniqueJobs :
    (now : ℕ) (c : Conversation) (org : Option Organization) (st : Store)
    → HasUniqueJobs st.timers
    → HasUniqueJobs (schedule_in now c org st).timers
unfolding schedule_in put_timer
schedule_in-HasUniqueJobs now c none st h = h
schedule_in-HasUniqueJobs now c (some org) st h =
    elim (Bool-cases (not org.watchdog_enabled || (forced_off c.ai_enabled || rests c.status))) [
      | inl off ↦ rw off h
      | inr on ↦ rw on (elim (Bool-cases (eqb (delay_for_status c.status (resolve org)) 0)) [
        | inl never ↦ rw never h
        | inr later ↦ rw later (
            add-HasUniqueJobs (timer_for now (delay_for_status c.status (resolve org)) c) _
              (cancel-HasUniqueJobs (job_id_for c.id) st.timers h))
      ])
    ]

schedule-HasUniqueJobs :
    (now : ℕ) (id : String) (st : Store)
    → HasUniqueJobs st.timers
    → HasUniqueJobs (schedule_check now id st).timers
unfolding schedule_check schedule_found
schedule-HasUniqueJobs now id st h = found (find_unique id_of id st.conversations)
  where
    found : (o : Option Conversation) → HasUniqueJobs (schedule_found now o st).timers
    found none = h
    found (some c) =
        schedule_in-HasUniqueJobs now c
          (find_unique (λ o. o.id) c.organization_id st.routing.organizations) st h

-- A call of the watchdog that changes the queue.
pub data Call : Type 0 where
  schedule : ℕ → String → Call
  cancel : String → Call
  scan : ℕ → Call

abbrev pub apply : Call → Store → Store
apply (schedule now id) st = schedule_check now id st
apply (cancel id) st = cancel_check id st
apply (scan now) st = (scan_and_enqueue now st).1

abbrev pub apply_all : List Call → Store → Store
apply_all [] st = st
apply_all (call ∷ calls) st = apply_all calls (apply call st)

enqueue_each-HasUniqueJobs :
    (now : ℕ) (cs : List Conversation) (st : Store)
    → HasUniqueJobs st.timers
    → HasUniqueJobs ((enqueue_each now cs st).1).timers
unfolding enqueue_each
enqueue_each-HasUniqueJobs now [] st h = h
enqueue_each-HasUniqueJobs now (c ∷ cs) st h = enqueue_each-HasUniqueJobs now cs _ (
    if-holds (λ (s : Store). HasUniqueJobs s.timers)
      (is_unanswered c.id st.messages && not (has_job c.watchdog_job_id st.timers))
      (schedule_check now c.id st) st (schedule-HasUniqueJobs now c.id st h) h)

apply-HasUniqueJobs :
    (call : Call) (st : Store) → HasUniqueJobs st.timers → HasUniqueJobs (apply call st).timers
unfolding cancel_check scan_and_enqueue
apply-HasUniqueJobs (schedule now id) st h = schedule-HasUniqueJobs now id st h
apply-HasUniqueJobs (cancel id) st h = cancel-HasUniqueJobs (job_id_for id) st.timers h
apply-HasUniqueJobs (scan now) st h = enqueue_each-HasUniqueJobs now (candidates now st) st h

-- No two jobs of the queue have one id after any history, where they have not before it.
pub apply_all-HasUniqueJobs :
    (calls : List Call) (st : Store)
    → HasUniqueJobs st.timers
    → HasUniqueJobs (apply_all calls st).timers
apply_all-HasUniqueJobs [] st h = h
apply_all-HasUniqueJobs (call ∷ calls) st h =
    apply_all-HasUniqueJobs calls (apply call st) (apply-HasUniqueJobs call st h)

-- Every job has the id of its conversation.
abbrev pub AreNamed : List Timer → Type 0
AreNamed timers = All (λ t. t.job_id ≡ job_id_for t.conversation_id) timers

abbrev pub checks_of : String → List Timer → ℕ
checks_of id timers = count_if (λ t. t.conversation_id == id) timers

-- One check of each conversation at most.
abbrev pub HasOneCheck : List Timer → Type 0
HasOneCheck timers = (id : String) → checks_of id timers ≤ 1

cancel-AreNamed :
    (job : String) (timers : List Timer) → AreNamed timers → AreNamed (cancel_by_job_id job timers)
unfolding cancel_by_job_id
cancel-AreNamed job [] h = tt
cancel-AreNamed job (t ∷ ts) h =
    if-holds AreNamed (not (t.job_id == job && not t.is_active)) _ _
      (h.0, cancel-AreNamed job ts h.1) (cancel-AreNamed job ts h.1)

add-AreNamed :
    (t : Timer) (timers : List Timer)
    → t.job_id ≡ job_id_for t.conversation_id
    → AreNamed timers
    → AreNamed (add_timer t timers)
unfolding add_timer
add-AreNamed t timers named h =
    if-holds AreNamed (any (λ u. u.job_id == t.job_id) timers) _ _ h (named, h)

schedule_in-AreNamed :
    (now : ℕ) (c : Conversation) (org : Option Organization) (st : Store)
    → AreNamed st.timers
    → AreNamed (schedule_in now c org st).timers
unfolding schedule_in put_timer
schedule_in-AreNamed now c none st h = h
schedule_in-AreNamed now c (some org) st h =
    if-holds (λ (s : Store). AreNamed s.timers)
      (not org.watchdog_enabled || (forced_off c.ai_enabled || rests c.status)) _ _ h
      (if-holds (λ (s : Store). AreNamed s.timers) (eqb (delay_for_status c.status (resolve org)) 0)
        _ _ h
        (add-AreNamed (timer_for now (delay_for_status c.status (resolve org)) c) _ refl
          (cancel-AreNamed (job_id_for c.id) st.timers h)))

schedule_found-AreNamed :
    (now : ℕ) (o : Option Conversation) (st : Store)
    → AreNamed st.timers
    → AreNamed (schedule_found now o st).timers
unfolding schedule_found
schedule_found-AreNamed now none st h = h
schedule_found-AreNamed now (some c) st h =
    schedule_in-AreNamed now c (find_unique (λ o. o.id) c.organization_id st.routing.organizations)
      st h

schedule-AreNamed :
    (now : ℕ) (id : String) (st : Store)
    → AreNamed st.timers
    → AreNamed (schedule_check now id st).timers
unfolding schedule_check
schedule-AreNamed now id st h =
    schedule_found-AreNamed now (find_unique id_of id st.conversations) st h

enqueue_each-AreNamed :
    (now : ℕ) (cs : List Conversation) (st : Store)
    → AreNamed st.timers
    → AreNamed ((enqueue_each now cs st).1).timers
unfolding enqueue_each
enqueue_each-AreNamed now [] st h = h
enqueue_each-AreNamed now (c ∷ cs) st h = enqueue_each-AreNamed now cs _ (
    if-holds (λ (s : Store). AreNamed s.timers)
      (is_unanswered c.id st.messages && not (has_job c.watchdog_job_id st.timers))
      (schedule_check now c.id st) st (schedule-AreNamed now c.id st h) h)

apply-AreNamed : (call : Call) (st : Store) → AreNamed st.timers → AreNamed (apply call st).timers
unfolding cancel_check scan_and_enqueue
apply-AreNamed (schedule now id) st h = schedule-AreNamed now id st h
apply-AreNamed (cancel id) st h = cancel-AreNamed (job_id_for id) st.timers h
apply-AreNamed (scan now) st h = enqueue_each-AreNamed now (candidates now st) st h

-- The checks of a conversation are among the jobs of its id.
checks-le :
    (id : String) (timers : List Timer)
    → AreNamed timers
    → checks_of id timers ≤ jobs_with (job_id_for id) timers
checks-le id [] h = omega arith
checks-le id (t ∷ ts) h = elim (Bool-cases (t.conversation_id == id)) [
  | inl mine ↦
      let same : t.job_id ≡ job_id_for id =
        h.0 ∙ ap job_id_for ((eq_iff t.conversation_id id).0 mine) in
      rw (mine, same, eq_refl (job_id_for id)) (omega (arith, checks-le id ts h.1))
  | inr other ↦ rw other (omega (arith, checks-le id ts h.1))
]

-- Where no two jobs of the queue have one id, and each has the id of its conversation: the queue has
-- at most one check of each conversation after any history of schedulings, cancellations and
-- scans, so that checks of a conversation never pile up.
pub apply_all-HasOneCheck :
    (calls : List Call) (st : Store)
    → HasUniqueJobs st.timers
    → AreNamed st.timers
    → HasOneCheck (apply_all calls st).timers
apply_all-HasOneCheck [] st h named =
    λ id. omega (arith, h (job_id_for id), checks-le id st.timers named)
apply_all-HasOneCheck (call ∷ calls) st h named =
    apply_all-HasOneCheck calls (apply call st) (apply-HasUniqueJobs call st h)
      (apply-AreNamed call st named)

any-cancelled :
    (job : String) (timers : List Timer)
    → any (λ t. t.job_id == job && t.is_active) timers ≡ false
    → any (λ t. t.job_id == job) (cancel_by_job_id job timers) ≡ false
unfolding cancel_by_job_id
any-cancelled job [] h = refl
any-cancelled job (t ∷ ts) h = ground (arith, any-cancelled job ts)

abbrev AddsOne : Timer → List Timer → Type 0
AddsOne t after =
    (find_unique (λ u. u.job_id) t.job_id after ≡ some t) × (jobs_with t.job_id after ≡ 1)

add-AddsOne :
    (t : Timer) (timers : List Timer)
    → any (λ u. u.job_id == t.job_id) timers ≡ false
    → AddsOne t (add_timer t timers)
unfolding add_timer find_unique
add-AddsOne t timers h =
    rw h (rw (eq_refl t.job_id) (refl, omega (arith, any-count t.job_id timers h)))

schedule_in-AddsOne :
    (now : ℕ) (c : Conversation) (org : Organization) (st : Store)
    → (not org.watchdog_enabled || (forced_off c.ai_enabled || rests c.status)) ≡ false
    → eqb (delay_for_status c.status (resolve org)) 0 ≡ false
    → any (λ t. t.job_id == job_id_for c.id && t.is_active) st.timers ≡ false
    → AddsOne
        (timer_for now (delay_for_status c.status (resolve org)) c)
        (schedule_in now c (some org) st).timers
unfolding schedule_in put_timer
schedule_in-AddsOne now c org st watched delay idle =
    rw (watched, delay)
      (add-AddsOne (timer_for now (delay_for_status c.status (resolve org)) c)
        (cancel_by_job_id (job_id_for c.id) st.timers)
        (any-cancelled (job_id_for c.id) st.timers idle))

-- Where the watchdog watches the conversation, with a delay above 0 for its status, and none of its
-- checks runs just then: scheduling leaves one check of it, which is due after the delay of its
-- status from now on, whatever was scheduled before, and carries the attempts that have been made.
pub schedule_check-resets :
    (now : ℕ) (c : Conversation) (org : Organization) (st : Store)
    → find_unique id_of c.id st.conversations ≡ some c
    → find_unique (λ o. o.id) c.organization_id st.routing.organizations ≡ some org
    → org.watchdog_enabled ≡ true
    → forced_off c.ai_enabled ≡ false
    → rests c.status ≡ false
    → eqb (delay_for_status c.status (resolve org)) 0 ≡ false
    → any (λ t. t.job_id == job_id_for c.id && t.is_active) st.timers ≡ false
    → (let after = (schedule_check now c.id st).timers in
        (find_unique (λ t. t.job_id) (job_id_for c.id) after
          ≡ some (timer_for now (delay_for_status c.status (resolve org)) c))
        × (jobs_with (job_id_for c.id) after ≡ 1))
unfolding schedule_check schedule_found
schedule_check-resets now c org st e o on free awake delay idle =
    rw (e, o) (schedule_in-AddsOne now c org st (ground arith) delay idle)
