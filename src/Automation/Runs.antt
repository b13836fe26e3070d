-- ===== src/Automation/Runs.antt =====
-- What the status of a run says of its log.
use chat_intelli_api.Base.{
  ℕ, suc, ◌+◌, ◌≤◌, Bool, true, false, not, ◌≡◌, refl, List, [], ◌∷◌, arith, inl, inr, length, all,
  Bool-cases,
}
use chat_intelli_api.Outbox.{Event}
use chat_intelli_api.Automation.{
  RunStatus, succeeded, failed_status, partial, Entry, Registry, Context, ActionDefinition,
}
use chat_intelli_api.Automation.Loop.{
  Round, Progress, round_of, is_success, after_round, goes_on, run_loop, status_of,
}

-- The last entry is not a success.
abbrev last_fails : List Entry → Bool
last_fails [] = false
last_fails (e ∷ []) = not (is_success e)
last_fails (e ∷ f ∷ es) = last_fails (f ∷ es)

-- What the progress keeps of its log, over as many actions.
abbrev IsLogged : ℕ → Progress → Type 0
IsLogged n p =
    (length p.log ≤ n)
    × (p.any_failure ≡ not (all is_success p.log))
    × (p.aborted ≡ false → length p.log ≡ n)
    × (p.aborted ≡ true → last_fails p.log ≡ true)

last_fails-cons : (e : Entry) (es : List Entry) → last_fails es ≡ true → last_fails (e ∷ es) ≡ true
last_fails-cons e [] h = absurd (ground arith)
last_fails-cons e (f ∷ es) h = h

last_fails-all : (es : List Entry) → last_fails es ≡ true → all is_success es ≡ false
last_fails-all [] h = absurd (ground arith)
last_fails-all (e ∷ []) h = ground arith
last_fails-all (e ∷ f ∷ es) h = ground (arith, last_fails-all (f ∷ es) h)

after_round-IsLogged :
    (n : ℕ) (r : Round) (a : ActionDefinition) (rest : Progress)
    → IsLogged n rest
    → IsLogged (suc n) (after_round r a rest)
after_round-IsLogged n r a rest h = elim (Bool-cases (is_success r.entry)) [
  | inl fine ↦ rw fine (ground (arith, h, fine, last_fails-cons r.entry rest.log))
  | inr bad ↦ elim (Bool-cases (goes_on a.continue_on_error r.default)) [
    | inl on ↦ rw (bad, on) (ground (arith, h, bad, last_fails-cons r.entry rest.log))
    | inr off ↦ rw (bad, off) (ground (arith, bad))
  ]
]

run_loop-IsLogged :
    (registry : Registry) (ctx : Context) (i : ℕ) (actions : List ActionDefinition)
    (es : List Event)
    → IsLogged (length actions) (run_loop registry ctx i actions es)
unfolding run_loop
run_loop-IsLogged registry ctx i [] es = (omega arith, refl, λ _. refl, λ h. absurd (ground arith))
run_loop-IsLogged registry ctx i (a ∷ rest) es =
    let r = round_of registry ctx i a es in
    after_round-IsLogged (length rest) r a (run_loop registry ctx (i + 1) rest r.outbox)
      (run_loop-IsLogged registry ctx (i + 1) rest r.outbox)

-- What a status says of a log, over as many actions.
abbrev pub Says : RunStatus → ℕ → List Entry → Type 0
Says succeeded n log = (length log ≡ n) × (all is_success log ≡ true)
Says partial n log = (length log ≡ n) × (all is_success log ≡ false)
Says failed_status n log = (length log ≤ n) × (last_fails log ≡ true)
Says _ n log = Unit

-- Whatever the handlers do: a run that is a success has an entry for every action, all of them
-- successes; a partial one an entry for every action, not all of them successes; and a failed one
-- ends with an entry that is no success, with no more entries than actions.
pub run_loop-status :
    (registry : Registry) (ctx : Context) (i : ℕ) (actions : List ActionDefinition)
    (es : List Event)
    → (let p = run_loop registry ctx i actions es in Says (status_of p) (length actions) p.log)
run_loop-status registry ctx i actions es =
    go (run_loop registry ctx i actions es) (run_loop-IsLogged registry ctx i actions es)
  where
    go : (p : Progress) → IsLogged (length actions) p → Says (status_of p) (length actions) p.log
    go p h = elim (Bool-cases p.any_failure) [
      | inr fine ↦ rw fine (ground (arith, h, last_fails-all p.log))
      | inl bad ↦ elim (Bool-cases p.aborted) [
        | inl end ↦ rw (bad, end) (ground (arith, h))
        | inr on ↦ rw (bad, on) (ground (arith, h))
      ]
    ]
