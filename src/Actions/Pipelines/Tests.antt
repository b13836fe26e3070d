-- ===== src/Actions/Pipelines/Tests.antt =====
-- A lead that is put into a pipeline, twice, and won.
use chat_intelli_api.Base.{false, none, some, List, [], ◌∷◌, ◌≡◌, refl, arith}
use chat_intelli_api.Base.Table.{find_first, find_unique, update_key}
use chat_intelli_api.Base.Order.{order_by}
use chat_intelli_api.Actions.Tags.Tests.{context}
use chat_intelli_api.Actions.Pipelines.{
  normal, won_stage, won, Tables, Env, AddParams, MoveParams, Card, add_to_pipeline,
  move_pipeline_stage, newest,
}
use chat_intelli_api.Actions.Pipelines.Cards.{HasOneOpen, Call, add, move, run, run-HasOneOpen}

abbrev env : Env
env = record { card_id = "card"; now = 20; write_fault = none }

abbrev to_sales : AddParams
to_sales = record { pipeline_id = "sales"; stage_id = none; title = none }

abbrev to_won : MoveParams
to_won = record { to_stage_id = "s2"; pipeline_id = none }

abbrev before : Tables
before = record {
  pipelines = record { id = "sales"; organization_id = "org"; archived = false } ∷ [];
  stages =
      record { id = "s2"; pipeline_id = "sales"; type = won_stage; order = 2 }
      ∷ record { id = "s1"; pipeline_id = "sales"; type = normal; order = 1 }
      ∷ [];
  cards = [];
  contacts = record { id = "ana"; organization_id = "org"; name = none; phone = some "55119" } ∷ [];
}

abbrev calls : List Call
calls = add env to_sales context ∷ add env to_sales context ∷ move env to_won context ∷ []

abbrev sold : Card
sold = record {
  id = "card";
  organization_id = "org";
  pipeline_id = "sales";
  stage_id = "s2";
  title = "55119";
  status = won;
  contact_id = some "ana";
  conversation_id = some "c1";
  closed_at = some 20;
  updated_at = 20;
}

sells : (run calls before).cards ≡ sold ∷ []
unfolding add_to_pipeline move_pipeline_stage find_first find_unique update_key order_by newest
sells = refl

run-HasOneOpen_example : HasOneOpen (run calls before)
run-HasOneOpen_example = run-HasOneOpen calls before (λ org pipeline contact. omega arith)
