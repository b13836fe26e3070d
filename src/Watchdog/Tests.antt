-- ===== src/Watchdog/Tests.antt =====
-- A conversation whose last message came from the contact.
use Prim.Native.Nat.{◌+◌, ◌≤◌}
use chat_intelli_api.Base.{ℕ, none, some, List, [], ◌∷◌, ◌≡◌, refl, arith}
use chat_intelli_api.Base.Exec.{ok}
use chat_intelli_api.Base.Table.{find_first, find_unique, update_key}
use chat_intelli_api.Conversation.{Conversation, id_of}
use chat_intelli_api.Hours.{is_within_business_hours}
use chat_intelli_api.Router.{Organization, should_handle}
use chat_intelli_api.Router.Tests.{monday, conversation, organization, routing}
use chat_intelli_api.Watchdog.{inbound, Store, resolve, timer_for, schedule_check}
use chat_intelli_api.Watchdog.Check.{Env, process}
use chat_intelli_api.Watchdog.Guards.{acted, Due, process-acted}
use chat_intelli_api.Watchdog.Bounded.{check_of, Unanswering, reactivations, reactivations_end}
use chat_intelli_api.Watchdog.Timers.{
  jobs_with, HasUniqueJobs, schedule, scan, cancel, apply_all, HasOneCheck, apply_all-HasOneCheck,
  schedule_check-resets,
}

abbrev store : Store
store = record {
  conversations = conversation ∷ [];
  messages = record { id = "m"; conversation_id = "c"; direction = inbound } ∷ [];
  contacts = [];
  timers = timer_for 0 15 conversation ∷ [];
  notes = [];
  routing = routing;
}

-- A run that answers nothing.
abbrev env : Env
env = record {
  now = 900000;
  clock = monday;
  start_of_month = 0;
  notify_fails = none;
  run = λ c m st. (ok tt, st);
}

runs : acted (process env (check_of "c" 0) store).0 ≡ some 1
unfolding process find_unique is_within_business_hours update_key should_handle find_first
runs = refl

process-acted_example :
    (c : Conversation) × (o : Organization) × (find_unique id_of "c" (conversation ∷ []) ≡ some c)
    × (find_unique (λ o. o.id) c.organization_id (organization ∷ []) ≡ some o)
    × Due env 0 c o store
    × (1 ≡ c.stuck_attempts + 1)
    × (1 ≤ (resolve o).max_attempts)
process-acted_example = process-acted env (check_of "c" 0) store 1 runs

abbrev checks : List (Env × ℕ)
checks = (env, 0) ∷ (env, 1) ∷ (env, 2) ∷ (env, 3) ∷ []

four_checks : reactivations "c" checks store ≡ 3
unfolding reactivations find_unique is_within_business_hours update_key should_handle find_first
four_checks = refl

found : find_unique id_of "c" (conversation ∷ []) ≡ some conversation
unfolding find_unique
found = refl

in_organization : find_unique (λ o. o.id) "o" (organization ∷ []) ≡ some organization
unfolding find_unique
in_organization = refl

silent : Unanswering "c" organization env
silent n c m st h = h

reactivations_end_example : 0 + reactivations "c" checks store ≤ 3
reactivations_end_example =
    reactivations_end "c" organization checks conversation store found in_organization
      (silent, (silent, (silent, (silent, tt)))) (omega arith)

one_job : HasUniqueJobs store.timers
one_job job = ground arith

apply_all-HasOneCheck_example :
    HasOneCheck (apply_all (schedule 5 "c" ∷ scan 9 ∷ cancel "c" ∷ []) store).timers
apply_all-HasOneCheck_example =
    apply_all-HasOneCheck (schedule 5 "c" ∷ scan 9 ∷ cancel "c" ∷ []) store one_job (refl, tt)

schedule_check-resets_example :
    (let after = (schedule_check 7 "c" store).timers in
      (find_unique (λ t. t.job_id) "watchdog-c" after ≡ some (timer_for 7 15 conversation))
      × (jobs_with "watchdog-c" after ≡ 1))
schedule_check-resets_example =
    schedule_check-resets 7 conversation organization store found in_organization refl refl refl
      refl refl
