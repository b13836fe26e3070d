-- ===== src/Actions/Assignment/Tests.antt =====
-- A rule that assigns the conversation of the state machine's tests.
use chat_intelli_api.Base.{some, List, [], ◌∷◌, ◌≡◌, refl}
use chat_intelli_api.Base.Table.{find_unique}
use chat_intelli_api.Base.Exec.{ok}
use chat_intelli_api.Json.{get, str, field, end}
use chat_intelli_api.Automation.{Member}
use chat_intelli_api.Actions.Tags.Tests.{context}
use chat_intelli_api.Conversation.Fsm.{assign}
use chat_intelli_api.Conversation.Fsm.Tests.{talk, database, env}
use chat_intelli_api.Actions.Assignment.{validate_params, assign_user}
use chat_intelli_api.Actions.Assignment.Alike.{reply_rows, reply_for, outcome, assign_user_alike}

abbrev members : List Member
members = record { user_id = "caio"; organization_id = "org" } ∷ []

reads : validate_params (field "userId" (str "caio") end) ≡ ok "caio"
unfolding validate_params get
reads = refl

found : find_unique (λ c. c.id) "c1" database.conversations ≡ some talk
unfolding find_unique
found = refl

assign_user_alike_example :
    reply_rows (assign_user env "caio" context members database)
    ≡ reply_for "caio" (outcome (assign env "c1" "caio" (some "bia") database))
assign_user_alike_example =
    assign_user_alike env "caio" context members database "c1" talk refl refl found refl refl refl
