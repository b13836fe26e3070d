-- ===== src/Conversation/Fsm/Stamps.antt =====
-- The time stamps of a conversation agree with its status.
use chat_intelli_api.Base.{ℕ, ◌<◌, String, false, not, ◌≡◌, List, arith, inl, inr, All, is_none}
use chat_intelli_api.Base.Table.{All-update_key}
use chat_intelli_api.Conversation.{Status, Conversation, Database, id_of}
use chat_intelli_api.Conversation.Fsm.{is_closed, moved, assigned_to}
use chat_intelli_api.Conversation.Fsm.Outcome.{transition_outcome, assign_outcome}
use chat_intelli_api.Conversation.Fsm.History.{
  Call, move, give, apply, run, run_keeps, conversations-ask_rating,
}

-- `closedAt` is set just while the conversation is closed, and a conversation that was opened again
-- has the time of it.
abbrev pub IsStamped : Conversation → Type 0
IsStamped c =
    (not (is_none c.closed_at) ≡ is_closed c.status)
    × (0 < c.reopened_count → is_none c.reopened_at ≡ false)

abbrev pub AreStamped : Database → Type 0
AreStamped db = All IsStamped db.conversations

moved-IsStamped :
    (now : ℕ) (to : Status) (c : Conversation) → IsStamped c → IsStamped (moved now to c)
moved-IsStamped now to c h = ground arith

assigned_to-IsStamped :
    (now : ℕ) (agent : String) (c : Conversation)
    → IsStamped c
    → IsStamped (assigned_to now agent c)
assigned_to-IsStamped now agent c h = ground arith

apply-AreStamped : (k : Call) (db : Database) → AreStamped db → AreStamped (apply k db)
unfolding apply
apply-AreStamped (move env id to actor) db h = elim (transition_outcome env id to actor db) [
  | inl (e, failure) ↦ rw (failure, apply) h
  | inr (c, es, found, valid, emits, success) ↦
      rw (success, apply)
        (rw conversations-ask_rating (
          All-update_key id_of IsStamped c.id (moved env.now to) db.conversations
            (moved-IsStamped env.now to) h))
]
apply-AreStamped (give env id agent actor) db h = elim (assign_outcome env id agent actor db) [
  | inl (e, failure) ↦ rw (failure, apply) h
  | inr (c, es, found, emits, success) ↦
      rw (success, apply)
        (All-update_key id_of IsStamped c.id (assigned_to env.now agent) db.conversations
          (assigned_to-IsStamped env.now agent) h)
]

-- From conversations whose stamps agree, every history of transitions and assignments leads to
-- conversations whose stamps agree.
pub run-AreStamped : (cs : List Call) (db : Database) → AreStamped db → AreStamped (run cs db)
run-AreStamped = run_keeps apply-AreStamped
