-- ===== src/Chatbot/Flows/Tests.antt =====
-- The flow of the chatbot's tests, edited by its organisation and by another.
use Prim.Native.String.{◌++◌}
use Prim.Native.Nat.{ℕ}
use chat_intelli_api.Base.{String, false, none, some, [], ◌∷◌, ◌≡◌, refl}
use chat_intelli_api.Base.Exec.{ok}
use chat_intelli_api.Base.Numerals.{shown_number}
use chat_intelli_api.Base.Table.{find_first, update_key}
use chat_intelli_api.Chatbot.{find_flow}
use chat_intelli_api.Chatbot.Tests.{flow, menu_data, edge}
use chat_intelli_api.Json.{undefined, num}
use chat_intelli_api.Chatbot.Flows.{
  Faults, Tables, UpdateFlow, NodeInput, update_flow, link_channels,
}

abbrev tables : Tables
tables = record { flows = flow ∷ []; channel_ids = "ch" ∷ "ch2" ∷ [] }

abbrev renamed : UpdateFlow
renamed = record {
  name = some "Menu";
  description = none;
  is_active = some false;
  trigger_type = none;
  trigger_config = none;
  variables = none;
}

abbrev input : String → NodeInput
input type = record {
  id = some "n1";
  type = type;
  name = undefined;
  position_x = num 0;
  position_y = num 0;
  content = menu_data;
  edges = edge "n1" ∷ [];
}

abbrev row_id : ℕ → String
row_id n = "row" ++ shown_number n

renames :
    update_flow "f" "o" renamed tables
    ≡ (ok tt, record tables { flows = record flow { name = "Menu"; is_active = false } ∷ [] })
unfolding update_flow update_key find_flow find_first
renames = refl

links : link_channels "f" "o" ("ch2" ∷ []) tables ≡ (
  ok (record flow { channels = "ch2" ∷ [] }),
  record tables { flows = record flow { channels = "ch2" ∷ [] } ∷ [] },
)
unfolding link_channels update_key find_flow find_first
links = refl

abbrev no_faults : Faults
no_faults = record { delete_fault = none; create_fault = none }
