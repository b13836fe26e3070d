-- ===== src/Chatbot/Engine/Rounds.antt =====
-- The rule for the loop of the engine: what every round keeps, the loop keeps, and it ends.
use Prim.Native.Nat.{zero, suc, ◌+◌, ◌<◌, ◌≤◌}
use chat_intelli_api.Base.{ℕ, String, Option, some, List, ◌≡◌, refl, inl, inr, arith, Option-cases}
use chat_intelli_api.Chatbot.{Node}
use chat_intelli_api.Chatbot.Engine.{
  Outcome, State, Round, Call, again, leave, answer, max_iterations, round, finish, next_of, follow,
  run,
}

module _ (call : Call) (nodes : List Node) (P : State → Type 0) (Q : Outcome → Type 0) where
  -- A round that goes on counts one more and keeps `P`; one that ends the call leads to `Q`.
  abbrev pub RoundKeeps : ℕ → Round → Type 0
  RoundKeeps n (again st) = P st × (st.iterations ≡ suc n)
  RoundKeeps n (leave st) = Q (finish call st)
  RoundKeeps n (answer out) = Q out

  abbrev pub Returns : Option Outcome → Type 0
  Returns o = (out : Outcome) × (o ≡ some out) × Q out

  next-lt : (st : State) (id : String) → next_of call st ≡ some id → st.iterations < max_iterations
  unfolding next_of
  next-lt st id h = ground arith

  module _ (last : (st : State) → P st → Q (finish call st))
      (step : (st : State) (id : String)
        → P st
        → st.iterations < max_iterations
        → RoundKeeps st.iterations (round call nodes id st)) where
    onward :
        (loop : State → Option Outcome) (n : ℕ)
        → ((st : State) → st.iterations ≡ suc n → P st → Returns (loop st))
        → (r : Round) → RoundKeeps n r
        → Returns (follow call loop r)
    onward loop n goes (again st) keeps = goes st keeps.1 keeps.0
    onward loop n goes (leave st) keeps = (_, refl, keeps)
    onward loop n goes (answer out) keeps = (_, refl, keeps)

    pub run_ends :
        (fuel : ℕ) (st : State)
        → st.iterations ≤ max_iterations
        → max_iterations < fuel + st.iterations
        → P st
        → Returns (run call fuel nodes st)
    unfolding run
    run_ends zero st few enough p = absurd (omega arith)
    run_ends (suc fuel) st few enough p = elim (Option-cases (next_of call st)) [
      | inl stop ↦ rw stop (_, refl, last st p)
      | inr (id, goes) ↦
          let lt = next-lt st id goes in
          rw goes (
            onward (run call fuel nodes) st.iterations
              (λ st' e q. run_ends fuel st' (omega (arith, lt, e)) (omega (arith, lt, e)) q)
              (round call nodes id st) (step st id p lt))
    ]
