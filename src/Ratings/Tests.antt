-- ===== src/Ratings/Tests.antt =====
-- Answers to one rating.
use chat_intelli_api.Base.{◌≡◌, refl, none, some, List, [], ◌∷◌}
use chat_intelli_api.Base.Table.{find_unique, update_key}
use chat_intelli_api.Base.Exec.{ok}
use chat_intelli_api.Conversation.{Rating}
use chat_intelli_api.Ratings.{token_of, answer, answer_found, answer_open, submit_by_token}

abbrev rating : Rating
rating = record {
  conversation_id = "c1";
  organization_id = "org";
  agent_id = none;
  score = 0;
  comment = none;
  token = "t1";
  responded_at = none;
}

abbrev ratings : List Rating
ratings = rating ∷ []

abbrev answered : List Rating
answered = update_key token_of "t1" (answer 5 none 100) ratings

answers : submit_by_token "t1" (some 5) none 100 ratings ≡ (ok tt, answered)
unfolding submit_by_token answer_found answer_open find_unique
answers = refl
