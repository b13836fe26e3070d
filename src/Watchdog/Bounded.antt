-- ===== src/Watchdog/Bounded.antt =====
-- However many checks run, the agent is run a bounded number of times for one unanswered message.
use Prim.Native.Nat.{◌+◌, ◌≤◌}
use Prim.Native.String
use mathlib.Core.Path.{subst}
use chat_intelli_api.Base.{
  ℕ, String, not, ◌||◌, Option, none, some, List, [], ◌∷◌, ◌≡◌, ◌∙◌, ap, refl, inl, inr, arith,
  if-holds, All, is_empty, is_none, eq_refl, Bool-cases,
}
use chat_intelli_api.Base.Exec.{Failure, Result, ok, err}
use chat_intelli_api.Base.Table.{find_unique, find_unique-update_key, find_unique-key}
use chat_intelli_api.Conversation.{
  Conversation, pending, bot, open_status, same_status, status_name, id_of,
}
use chat_intelli_api.Hours.{is_within_business_hours}
use chat_intelli_api.Router.{Organization, Decision, handle, refuse, forced_off}
use chat_intelli_api.Watchdog.{resolve, Message, stuck_note, Store, rests}
use chat_intelli_api.Watchdog.Guards.{acted, mark_stuck-acted, process-acted}
use chat_intelli_api.Watchdog.Check.{
  JobData, Env, Answer, is_unanswered, returned, run_agent, on_decision, decide, reactivate,
  mark_stuck, attempt, check, check_in, check_found, process, clear_job_id, skip, change_row,
  set_stuck, to_bot, count_attempt, counted, warned, notify_assignee, notify_to, add_note,
  contact_name,
}

-- What the checks leave of a conversation: its row with these attempts at least, and its
-- organisation.
module _ (id : String) (org : Organization) where
  abbrev pub Stands : ℕ → Store → Type 0
  Stands n st =
      (c : Conversation) × (find_unique id_of id st.conversations ≡ some c)
      × (find_unique (λ o. o.id) c.organization_id st.routing.organizations ≡ some org)
      × (n ≤ c.stuck_attempts)

  Stands-change :
      (n m : ℕ) (f : Conversation → Conversation) (st : Store)
      → ((c : Conversation) → id_of (f c) ≡ id_of c)
      → ((c : Conversation) → (f c).organization_id ≡ c.organization_id)
      → ((c : Conversation) → n ≤ c.stuck_attempts → m ≤ (f c).stuck_attempts)
      → Stands n st
      → Stands m (change_row id f st)
  Stands-change n m f st same_id same_org up (c, e, o, few) = (
    f c,
    find_unique-update_key id_of id id f st.conversations same_id ∙ rw (eq_refl id, e) refl,
    ap (λ i. find_unique (λ o. o.id) i st.routing.organizations) (same_org c) ∙ o,
    up c few,
  )

  Stands-weaken : (n m : ℕ) (st : Store) → m ≤ n → Stands n st → Stands m st
  Stands-weaken n m st le (c, e, o, few) = (c, e, o, omega (arith, le, few))

  notify-Stands :
      (who : Option String) (env : Env) (c : Conversation) (reason : String) (n : ℕ) (st : Store)
      → Stands n st
      → Stands n (notify_to who env c reason st)
  notify-Stands none env c reason n st h = h
  notify-Stands (some who) env c reason n st h =
      elim (Bool-cases (is_empty who || not (is_none env.notify_fails))) [
        | inl silent ↦ rw silent h
        | inr sent ↦ rw sent h
      ]

  -- A run that sends no answer leaves the attempts of the conversation, and its organisation.
  abbrev pub Unanswering : Env → Type 0
  Unanswering env =
      (n : ℕ) (c : Conversation) (m : Message) (st : Store)
      → Stands n st
      → Stands n (env.run c m st).1

  returned-Stands :
      (n k : ℕ) (r : Result {0} Unit × Store) → Stands n r.1 → Stands n (returned k r).1
  returned-Stands n k (ok _, st) h = h
  returned-Stands n k (err e, st) h = h

-- How many runs an answer stands for.
abbrev acts : Option ℕ → ℕ
acts none = 0
acts (some k) = 1

acts-le : (o : Option ℕ) → acts o ≤ 1
acts-le none = omega arith
acts-le (some k) = omega arith

module _ (env : Env) (c : Conversation) (org : Organization)
    (silent : Unanswering c.id org env) where
  row-Stands :
      (n : ℕ) (f : Conversation → Conversation) (st : Store)
      → ((r : Conversation) → id_of (f r) ≡ id_of r)
      → ((r : Conversation) → (f r).organization_id ≡ r.organization_id)
      → ((r : Conversation) → (f r).stuck_attempts ≡ r.stuck_attempts)
      → Stands c.id org n st
      → Stands c.id org n (change_row c.id f st)
  row-Stands n f st a b same h =
      Stands-change c.id org n n f st a b (λ r le. omega (arith, same r, le)) h

  run_agent-Stands :
      (n : ℕ) (fresh : Conversation) (m : Option Message) (st : Store)
      → Stands c.id org n st
      → Stands c.id org n (run_agent env c fresh m st).1
  unfolding run_agent
  run_agent-Stands n fresh none st h = h
  run_agent-Stands n fresh (some m) st h =
      returned-Stands c.id org n (c.stuck_attempts + 1) (env.run fresh m (to_bot c st))
        (silent n fresh m (to_bot c st) promoted)
    where
      promoted : Stands c.id org n (to_bot c st)
      promoted = elim (Bool-cases (same_status c.status pending)) [
        | inl is ↦
            rw is (
              row-Stands n (λ r. record r { status = bot }) st (λ _. refl) (λ _. refl) (λ _. refl)
                h)
        | inr other ↦ rw other h
      ]

  on_decision-Stands :
      (n : ℕ) (fresh : Conversation) (d : Decision) (st : Store)
      → Stands c.id org n st
      → Stands c.id org n (on_decision env c fresh d st).1
  unfolding on_decision
  on_decision-Stands n fresh (refuse r) st h = h
  on_decision-Stands n fresh handle st h = run_agent-Stands n fresh _ st h

  decide-Stands :
      (n : ℕ) (fresh : Option Conversation) (st : Store)
      → Stands c.id org n st
      → Stands c.id org n (decide env c fresh st).1
  unfolding decide
  decide-Stands n none st h = h
  decide-Stands n (some fresh) st h = on_decision-Stands n fresh _ st h

  warned-Stands : (n : ℕ) (st : Store) → Stands c.id org n st → Stands c.id org n (warned env c st)
  warned-Stands n st h = elim (Bool-cases (same_status c.status open_status)) [
    | inl is ↦ rw is (notify-Stands c.id org c.assigned_to_id env c "human_idle_taking_over" n st h)
    | inr other ↦ rw other h
  ]

  cleared-Stands :
      (n : ℕ) (st : Store) → Stands c.id org n st → Stands c.id org n (clear_job_id c.id st)
  cleared-Stands n st h =
      row-Stands n (λ r. record r { watchdog_job_id = none }) st (λ _. refl) (λ _. refl) (λ _. refl)
        h

  reactivate-Stands :
      (n : ℕ) (st : Store)
      → Stands c.id org n st
      → Stands c.id org (c.stuck_attempts + 1) (reactivate env c st).1
  unfolding reactivate
  reactivate-Stands n st h =
      decide-Stands (c.stuck_attempts + 1) _ (warned env c (counted env c st)) (
        warned-Stands (c.stuck_attempts + 1) (counted env c st) (
          Stands-change c.id org n (c.stuck_attempts + 1)
            (count_attempt env.now (c.stuck_attempts + 1)) st (λ _. refl) (λ _. refl)
            (λ r le. omega arith) h))

  mark_stuck-Stands :
      (f : Option Failure) (n : ℕ) (st : Store)
      → Stands c.id org n st
      → Stands c.id org n (mark_stuck f c st).1
  unfolding mark_stuck
  mark_stuck-Stands (some e) n st h =
      row-Stands n set_stuck st (λ _. refl) (λ _. refl) (λ _. refl) h
  mark_stuck-Stands none n st h =
      cleared-Stands n
        (add_note (stuck_note c.organization_id (contact_name c st)) (change_row c.id set_stuck st))
        (row-Stands n set_stuck st (λ _. refl) (λ _. refl) (λ _. refl) h)

  -- A check that runs the agent counts one attempt more.
  abbrev Counts : Answer → Type 0
  Counts a = Stands c.id org (c.stuck_attempts + acts (acted a.0)) a.1

  abbrev Here : Store → Type 0
  Here st = Stands c.id org c.stuck_attempts st

  skip-Counts : (reason : String) (st : Store) → Here st → Counts (skip reason c.id st)
  skip-Counts reason st h =
      Stands-weaken c.id org c.stuck_attempts (c.stuck_attempts + 0) (clear_job_id c.id st)
        (omega arith) (cleared-Stands c.stuck_attempts st h)

  reactivate-Counts : (st : Store) → Here st → Counts (reactivate env c st)
  reactivate-Counts st h =
      let a = reactivate env c st in
      Stands-weaken c.id org (c.stuck_attempts + 1) (c.stuck_attempts + acts (acted a.0)) a.1
        (omega (arith, acts-le (acted a.0))) (reactivate-Stands c.stuck_attempts st h)

  mark_stuck-Counts : (st : Store) → Here st → Counts (mark_stuck env.notify_fails c st)
  mark_stuck-Counts st h =
      let a = mark_stuck env.notify_fails c st in
      Stands-weaken c.id org c.stuck_attempts (c.stuck_attempts + acts (acted a.0)) a.1
        (rw (mark_stuck-acted env.notify_fails c st) (omega arith))
        (mark_stuck-Stands env.notify_fails c.stuck_attempts st h)

  attempt-Counts : (scheduled : ℕ) (st : Store) → Here st → Counts (attempt env scheduled c org st)
  unfolding attempt
  attempt-Counts scheduled st h =
      if-holds Counts _ _ _ (skip-Counts "attempts_advanced" st h)
        (if-holds Counts _ _ _ (mark_stuck-Counts st h) (reactivate-Counts st h))

  check-Counts : (scheduled : ℕ) (st : Store) → Here st → Counts (check env scheduled c org st)
  unfolding check
  check-Counts scheduled st h = elim (Bool-cases (not (is_none c.deleted_at))) [
    | inl is ↦
        rw is (Stands-weaken c.id org c.stuck_attempts (c.stuck_attempts + 0) st (omega arith) h)
    | inr other ↦ rw other (elim (Bool-cases (not org.watchdog_enabled)) [
      | inl is ↦ rw is (skip-Counts "watchdog_disabled" st h)
      | inr other ↦
          rw other
            (elim (Bool-cases
              (not (is_within_business_hours env.clock org.watchdog_business_hours))) [
                | inl is ↦ rw is (skip-Counts "outside_business_hours" st h)
                | inr other ↦ rw other (elim (Bool-cases (rests c.status)) [
                  | inl is ↦ rw is (skip-Counts (String.◌++◌ "status_" (status_name c.status)) st h)
                  | inr other ↦ rw other (elim (Bool-cases (forced_off c.ai_enabled)) [
                    | inl is ↦ rw is (
                        skip-Counts "ai_disabled_by_human"
                          (notify_assignee env c "ai_disabled_by_human" st)
                          (notify-Stands c.id org c.assigned_to_id env c "ai_disabled_by_human"
                            c.stuck_attempts st h))
                    | inr other ↦ rw other (elim (Bool-cases (is_unanswered c.id st.messages)) [
                      | inl is ↦ rw is (attempt-Counts scheduled st h)
                      | inr other ↦ rw other (skip-Counts "last_message_outbound" st h)
                    ])
                  ])
                ])
              ])
    ])
  ]

-- The check of a conversation that a job with these attempts makes.
abbrev pub check_of : String → ℕ → JobData
check_of id scheduled = record { conversation_id = id; scheduled_at_attempts = scheduled }

module _ (org : Organization) (env : Env) (scheduled : ℕ) (st : Store) where
  process-Stands_row :
      (c : Conversation)
      → Unanswering c.id org env
      → find_unique id_of c.id st.conversations ≡ some c
      → find_unique (λ o. o.id) c.organization_id st.routing.organizations ≡ some org
      → (let r = process env (check_of c.id scheduled) st in
          Stands c.id org (c.stuck_attempts + acts (acted r.0)) r.1)
  unfolding process check_found check_in
  process-Stands_row c silent e o =
      rw (e, o) (check-Counts env c org silent scheduled st (c, e, o, omega arith))

  process-Stands :
      (id : String) (n : ℕ)
      → Unanswering id org env
      → Stands id org n st
      → (let r = process env (check_of id scheduled) st in Stands id org (n + acts (acted r.0)) r.1)
  process-Stands id n silent (c, e, o, few) =
      subst At (find_unique-key id_of id st.conversations c e) row silent e
    where
      At : String → Type 0
      At i =
          Unanswering i org env
          → find_unique id_of i st.conversations ≡ some c
          → (let r = process env (check_of i scheduled) st in
              Stands i org (n + acts (acted r.0)) r.1)

      row : At c.id
      row quiet found =
          let r = process env (check_of c.id scheduled) st in
          Stands-weaken c.id org (c.stuck_attempts + acts (acted r.0)) (n + acts (acted r.0)) r.1
            (omega (arith, few)) (process-Stands_row c quiet found o)

-- An attempt is within the limit.
acted-few :
    (id : String) (org : Organization) (env : Env) (scheduled n : ℕ) (st : Store)
    → Stands id org n st
    → (o : Option ℕ) → acted (process env (check_of id scheduled) st).0 ≡ o
    → n ≤ (resolve org).max_attempts
    → n + acts o ≤ (resolve org).max_attempts
acted-few id org env scheduled n st (c, e, o, few) none h le = omega (arith, le)
acted-few id org env scheduled n st (c, e, o, few) (some k) h le =
    let (d, p, e', o', due, one, within) = process-acted env (check_of id scheduled) st k h in
    let same : d ≡ c = ground (arith, e, e') in
    let found : find_unique (λ o. o.id) c.organization_id st.routing.organizations ≡ some p =
      subst
        (λ (x : Conversation).
          find_unique (λ o. o.id) x.organization_id st.routing.organizations ≡ some p)
        same o' in
    let same_org : p ≡ org = ground (arith, found, o) in
    let limit = subst (λ (x : Organization). k ≤ (resolve x).max_attempts) same_org within in
    let attempts = ap (λ (x : Conversation). x.stuck_attempts) same in
    omega (arith, limit, attempts, one, few)

-- How many of these checks of one conversation, one after the other, run the agent.
unfoldable pub reactivations : String → List (Env × ℕ) → Store → ℕ
unfolding process
reactivations id [] st = 0
reactivations id (e ∷ es) st =
    let r = process e.0 (check_of id e.1) st in acts (acted r.0) + reactivations id es r.1

reactivations-le :
    (id : String) (org : Organization) (checks : List (Env × ℕ)) (n : ℕ) (st : Store)
    → Stands id org n st
    → All (λ (e : Env × ℕ). Unanswering id org e.0) checks
    → n ≤ (resolve org).max_attempts
    → n + reactivations id checks st ≤ (resolve org).max_attempts
unfolding reactivations
reactivations-le id org [] n st h silent le = omega (arith, le)
reactivations-le id org (e ∷ es) n st h silent le =
    let r = process e.0 (check_of id e.1) st in
    let within = acted-few id org e.0 e.1 n st h (acted r.0) refl le in
    let rest =
      reactivations-le id org es (n + acts (acted r.0)) r.1
        (process-Stands org e.0 e.1 st id n silent.0 h) silent.1 within in
    omega (arith, rest)

-- Whatever checks of one conversation run, one after the other, at whatever times: as long as no
-- run of the agent sends an answer, and from no more attempts than the organisation's limit, the
-- attempts before them and the runs of the agent are together no more than that limit. So the
-- reactivations of an unanswered message end.
pub reactivations_end :
    (id : String) (org : Organization) (checks : List (Env × ℕ)) (c : Conversation) (st : Store)
    → find_unique id_of id st.conversations ≡ some c
    → find_unique (λ o. o.id) c.organization_id st.routing.organizations ≡ some org
    → All (λ (e : Env × ℕ). Unanswering id org e.0) checks
    → c.stuck_attempts ≤ (resolve org).max_attempts
    → c.stuck_attempts + reactivations id checks st ≤ (resolve org).max_attempts
reactivations_end id org checks c st e o silent le =
    reactivations-le id org checks c.stuck_attempts st (c, e, o, omega arith) silent le
