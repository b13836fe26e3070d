-- ===== src/Conversation/Fsm/Graph.antt =====
-- The diagram of the statuses, and calls that fail.
use chat_intelli_api.Base.{String, true, ◌≡◌, refl, ◌↔◌, Option, arith, inl, inr}
use chat_intelli_api.Base.Exec.{Failure, err}
use chat_intelli_api.Conversation.{Status, pending, bot, open_status, waiting, closed, Database}
use chat_intelli_api.Conversation.Fsm.{Env, can_transition, transition, assign}
use chat_intelli_api.Conversation.Fsm.Outcome.{transition_outcome, assign_outcome}

infix 40 ◌⟶◌ ◌⟶*◌
-- The diagram, drawn independently of the table.
pub data ◌⟶◌ : Status → Status → Type 0 where
  take_up : pending ⟶ open_status
  automate : pending ⟶ bot
  dismiss : pending ⟶ closed
  hand_over : bot ⟶ pending
  await : open_status ⟶ waiting
  resolve : open_status ⟶ closed
  reply : waiting ⟶ open_status
  give_up : waiting ⟶ closed
  reopen : closed ⟶ open_status
  requeue : closed ⟶ pending

pub data ◌⟶*◌ (s : Status) : Status → Type 0 where
  here : s ⟶* s
  next : {t u : Status} → s ⟶* t → t ⟶ u → s ⟶* u

ruleset edges =
    (take_up, automate, dismiss, hand_over, await, resolve, reply, give_up, reopen, requeue)

edge_of : (s t : Status) → can_transition s t ≡ true → s ⟶ t
unfolding can_transition
edge_of pending open_status h = take_up
edge_of pending bot h = automate
edge_of pending closed h = dismiss
edge_of bot pending h = hand_over
edge_of open_status waiting h = await
edge_of open_status closed h = resolve
edge_of waiting open_status h = reply
edge_of waiting closed h = give_up
edge_of closed open_status h = reopen
edge_of closed pending h = requeue
edge_of _ _ h = absurd (ground arith)

of_edge : {s t : Status} → s ⟶ t → can_transition s t ≡ true
unfolding can_transition
of_edge take_up = refl
of_edge automate = refl
of_edge dismiss = refl
of_edge hand_over = refl
of_edge await = refl
of_edge resolve = refl
of_edge reply = refl
of_edge give_up = refl
of_edge reopen = refl
of_edge requeue = refl

trans : {s t u : Status} → s ⟶* t → t ⟶* u → s ⟶* u
trans p here = p
trans p (next q e) = next (trans p q) e

from_pending : (t : Status) → pending ⟶* t
from_pending pending = here
from_pending bot = next here automate
from_pending open_status = next here take_up
from_pending waiting = next (next here take_up) await
from_pending closed = next here dismiss

to_pending : (s : Status) → s ⟶* pending
to_pending pending = here
to_pending bot = next here hand_over
to_pending open_status = next (next here resolve) requeue
to_pending waiting = next (next here give_up) requeue
to_pending closed = next here requeue

-- The table of transitions accepts exactly the arrows of the diagram, and along them every status
-- can be reached from every other: no status is a dead end.
pub can_transition_diagram : (s t : Status) → ((can_transition s t ≡ true) ↔ (s ⟶ t)) × (s ⟶* t)
can_transition_diagram s t = ((edge_of s t, λ e. of_edge e), trans (to_pending s) (from_pending t))

-- A call of `transition` or of `assign` that throws, at whatever statement, has changed nothing.
pub failure_changes_nothing :
    (env : Env) (id agent : String) (to : Status) (actor : Option String) (db r : Database)
    (e : Failure)
    → ((transition env id to actor db ≡ (err e, r)) → r ≡ db)
      × ((assign env id agent actor db ≡ (err e, r)) → r ≡ db)
failure_changes_nothing env id agent to actor db r e = (
  λ h. elim (transition_outcome env id to actor db) [
    | inl (_, failure) ↦ ground arith
    | inr (c, es, found, valid, emits, success) ↦ absurd (ground (arith, success))
  ],
  λ h. elim (assign_outcome env id agent actor db) [
    | inl (_, failure) ↦ ground arith
    | inr (c, es, found, emits, success) ↦ absurd (ground (arith, success))
  ],
)
