-- ===== src/Chatbot/Worker/Sends.antt =====
-- What a job that returns has stored and queued.
use Prim.Native.Nat.{suc}
use mathlib.Core.Path.{subst}
use mathlib.Core.List.{append-nil, append_assoc}
use chat_intelli_api.Base.{
  ◌⊎◌, ℕ, String, false, Option, none, some, List, [], ◌∷◌, ◌++◌, ◌≡◌, ◌∙◌, sym, ap, refl, inl, inr,
  arith, length, eq_refl, length-append, Option-cases, Bool-cases,
}
use chat_intelli_api.Base.Exec.{Result, ok, err}
use chat_intelli_api.Base.Table.{find_unique, find_unique-update_key}
use chat_intelli_api.Conversation.{Conversation, pending, id_of}
use chat_intelli_api.Chatbot.{Flow, Message}
use chat_intelli_api.Chatbot.Engine.{EngineResult, Outcome, process_message}
use chat_intelli_api.Chatbot.Worker.{
  Saved, Outbound, Database, Job, Env, saved_at, outbound_at, store_one, queue_one, hand_over,
  send_each, transfer_found, transfer, returning, after_send, answered, answered_if, process_chat,
}

module _ (env : Env) (job : Job) where
  -- The rows of these messages, from this place of the table on.
  abbrev pub saved_from : ℕ → List Message → List Saved
  saved_from n [] = []
  saved_from n (m ∷ ms) = saved_at env job n m ∷ saved_from (suc n) ms

  abbrev pub outbound_from : ℕ → List Message → List Outbound
  outbound_from n [] = []
  outbound_from n (m ∷ ms) = outbound_at env job n m ∷ outbound_from (suc n) ms

  -- These messages are stored and queued, each under its own id, in their order.
  abbrev pub HasSent : List Message → Database → Database → Type 0
  HasSent ms db after =
      (after.messages ≡ db.messages ++ saved_from (length db.messages) ms)
      × (after.outbound ≡ db.outbound ++ outbound_from (length db.messages) ms)

  longer :
      (m : Message) (db : Database)
      → length (db.messages ++ saved_at env job (length db.messages) m ∷ [])
        ≡ suc (length db.messages)
  longer m db =
      omega (arith, length-append db.messages (saved_at env job (length db.messages) m ∷ []))

  next_place :
      (m : Message) (ms : List Message) (db : Database)
      → (db.messages ++ saved_at env job (length db.messages) m ∷ [])
          ++ saved_from (length (db.messages ++ saved_at env job (length db.messages) m ∷ [])) ms
        ≡ (db.messages ++ saved_at env job (length db.messages) m ∷ [])
          ++ saved_from (suc (length db.messages)) ms
  next_place m ms db =
      ap (λ n. (db.messages ++ saved_at env job (length db.messages) m ∷ []) ++ saved_from n ms)
        (longer m db)

  send_each-HasSent :
      (ms : List Message) (db after : Database)
      → send_each env job ms db ≡ (ok tt, after)
      → HasSent ms db after
  unfolding send_each
  send_each-HasSent [] db after h =
      let same : db ≡ after = ap (λ (r : Result {0} Unit × Database). r.1) h in
      (
        ap (λ (d : Database). d.messages) (sym same) ∙ sym (append-nil db.messages),
        ap (λ (d : Database). d.outbound) (sym same) ∙ sym (append-nil db.outbound),
      )
  send_each-HasSent (m ∷ ms) db after h = elim (Option-cases (env.add_fails (length db.messages))) [
    | inl added ↦
        let (stored, queued) =
          send_each-HasSent ms (queue_one env job (length db.messages) m (store_one env job m db))
            after (rw added at h) in
        (
          stored
              ∙ next_place m ms db
              ∙ append_assoc db.messages (saved_at env job (length db.messages) m ∷ [])
                  (saved_from (suc (length db.messages)) ms),
          queued
              ∙ ap
                  (λ n.
                    (db.outbound ++ outbound_at env job (length db.messages) m ∷ [])
                    ++ outbound_from n ms)
                  (longer m db)
              ∙ append_assoc db.outbound (outbound_at env job (length db.messages) m ∷ [])
                  (outbound_from (suc (length db.messages)) ms),
        )
    | inr (e, fails) ↦ absurd (ground arith)
  ]

  abbrev conversation_key : String
  conversation_key = job.call.conversation_id

  -- The conversation waits for a person.
  abbrev pub IsHandedOver : Database → Type 0
  IsHandedOver after =
      (c : Conversation) × (find_unique id_of job.call.conversation_id after.conversations ≡ some c)
      × (c.status ≡ pending)

  abbrev SentAlike : Database → Database → Type 0
  SentAlike db after = (after.messages ≡ db.messages) × (after.outbound ≡ db.outbound)

  same_sent : (db after : Database) → db ≡ after → SentAlike db after
  same_sent db after e =
      (ap (λ (d : Database). d.messages) (sym e), ap (λ (d : Database). d.outbound) (sym e))

  transfer_found-HasSent :
      (department : Option String) (c : Option Conversation) (db after : Database)
      → find_unique id_of job.call.conversation_id db.conversations ≡ c
      → transfer_found env job department c db ≡ (ok tt, after)
      → SentAlike db after × IsHandedOver after
  unfolding transfer_found
  transfer_found-HasSent department none db after found h = absurd (ground arith)
  transfer_found-HasSent department (some c) db after found h =
      let same = ap (λ (r : Result {0} Unit × Database). r.1) h in
      (
        (
          ap (λ (d : Database). d.messages) (sym same),
          ap (λ (d : Database). d.outbound) (sym same),
        ),
        (
          hand_over env job department c,
          ap (λ (d : Database). find_unique id_of job.call.conversation_id d.conversations)
                (sym same)
              ∙ find_unique-update_key id_of conversation_key conversation_key
                  (hand_over env job department) db.conversations (λ _. refl)
              ∙ rw (eq_refl conversation_key, found) refl,
          refl,
        ),
      )

  transfer-HasSent :
      (r : EngineResult) (db after : Database)
      → transfer env job r db ≡ (ok tt, after)
      → SentAlike db after × ((r.transfer_to_human ≡ false) ⊎ IsHandedOver after)
  transfer-HasSent r db after h = elim (Bool-cases r.transfer_to_human) [
    | inl moves ↦
        let (alike, handed) =
          transfer_found-HasSent r.transfer_department_id _ db after refl (rw moves at h) in
        (alike, inr handed)
    | inr stays ↦
        let same = ap (λ (x : Result {0} Unit × Database). x.1) (rw stays at h) in
        (same_sent db after same, inl stays)
  ]

  returning-ok :
      (r r' : EngineResult) (x : Result {0} Unit × Database) (after : Database)
      → returning env job r x ≡ (ok r', after)
      → (x ≡ (ok tt, after)) × (r ≡ r')
  returning-ok r r' (ok _, db) after h = (ground arith, ground arith)
  returning-ok r r' (err e, db) after h = absurd (ground arith)

  after_send-ok :
      (r r' : EngineResult) (x : Result {0} Unit × Database) (after : Database)
      → after_send env job r x ≡ (ok r', after)
      → (mid : Database) × (x ≡ (ok tt, mid))
        × (r ≡ r')
        × SentAlike mid after
        × ((r.transfer_to_human ≡ false) ⊎ IsHandedOver after)
  unfolding after_send
  after_send-ok r r' (err e, db) after h = absurd (ground arith)
  after_send-ok r r' (ok _, db) after h =
      let (moved, same) = returning-ok r r' (transfer env job r db) after h in
      let (alike, handed) = transfer-HasSent r db after moved in (db, refl, same, alike, handed)

  answered-ok :
      (out : Option Outcome) (r : EngineResult) (db after : Database)
      → answered_if env job out db ≡ some (ok r, after)
      → HasSent r.messages db after × ((r.transfer_to_human ≡ false) ⊎ IsHandedOver after)
  unfolding answered
  answered-ok none r db after h = absurd (ground arith)
  answered-ok (some (err e, entries)) r db after h = absurd (ground arith)
  answered-ok (some (ok r', entries)) r db after h =
      let start = record db { entries = entries } in
      let inner : after_send env job r' (send_each env job r'.messages start) ≡ (ok r, after) =
        ground arith in
      let (mid, sent, same, alike, handed) =
        after_send-ok r' r (send_each env job r'.messages start) after inner in
      let (stored, queued) = send_each-HasSent r'.messages start mid sent in
      subst
        (λ (x : EngineResult).
          HasSent x.messages db after × ((x.transfer_to_human ≡ false) ⊎ IsHandedOver after))
        same ((alike.0 ∙ stored, alike.1 ∙ queued), handed)

-- A job that returns has stored every message of the engine's answer and queued it under its id, in
-- their order and nothing else; and where the answer hands the conversation over, it waits for a
-- person.
pub process_chat-HasSent :
    (env : Env) (job : Job) (flows : List Flow) (db after : Database) (r : EngineResult)
    → process_chat env job flows db ≡ some (ok r, after)
    → HasSent env job r.messages db after
      × ((r.transfer_to_human ≡ false) ⊎ IsHandedOver env job after)
unfolding process_chat
process_chat-HasSent env job flows db after r h =
    answered-ok env job (process_message job.call job.channel_id flows db.entries) r db after h
