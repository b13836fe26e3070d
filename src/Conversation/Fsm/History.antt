-- ===== src/Conversation/Fsm/History.antt =====
-- Histories: any sequence of calls of `transition` and `assign`, in any order, the failing ones
-- included.
use chat_intelli_api.Base.{String, ◌≡◌, Option, List, [], ◌∷◌, arith}
use chat_intelli_api.Ratings.{request_rating}
use chat_intelli_api.Conversation.{Status, Database}
use chat_intelli_api.Conversation.Fsm.{Env, ask_rating, transition, assign}

pub data Call : Type 0 where
  move : Env → String → Status → Option String → Call
  give : Env → String → String → Option String → Call

-- The database after one call, whether it throws or not.
unfoldable pub apply : Call → Database → Database
apply (move env id to actor) db = (transition env id to actor db).1
apply (give env id agent actor) db = (assign env id agent actor db).1

unfoldable pub run : List Call → Database → Database
run [] db = db
run (c ∷ cs) db = run cs (apply c db)

module _ {P : Database → Type 0} (step : (c : Call) (db : Database) → P db → P (apply c db)) where
  -- What every call keeps, every history keeps.
  pub run_keeps : (cs : List Call) (db : Database) → P db → P (run cs db)
  unfolding run
  run_keeps [] db h = h
  run_keeps (c ∷ cs) db h = run_keeps cs (apply c db) (step c db h)

module _ (env : Env) (id : String) (db : Database) where
  pub conversations-ask_rating :
      (to : Status) → (ask_rating env id to db).conversations ≡ db.conversations
  unfolding request_rating
  conversations-ask_rating to = ground arith

  pub audit_logs-ask_rating : (to : Status) → (ask_rating env id to db).audit_logs ≡ db.audit_logs
  unfolding request_rating
  audit_logs-ask_rating to = ground arith

  pub outbox-ask_rating : (to : Status) → (ask_rating env id to db).outbox ≡ db.outbox
  unfolding request_rating
  outbox-ask_rating to = ground arith
