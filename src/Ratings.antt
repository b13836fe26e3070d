-- ===== src/Ratings.antt =====
-- Ratings of closed conversations (src/modules/ratings/ratings.service.ts).
pub mod Laws
mod Tests
use chat_intelli_api.Base.{
  ℕ, String, Bool, true, false, ◌||◌, Option, none, some, List, [], ◌∷◌, ◌++◌, ltb, if◌then◌else◌,
}
use chat_intelli_api.Base.Table.{find_unique, update_key}
use chat_intelli_api.Base.Exec.{Failure, not_found, bad_request, Result, ok, err, Exec}
use chat_intelli_api.Conversation.{Conversation, Rating, Database, id_of}

abbrev pub token_of : Rating → String
token_of r = r.token

abbrev pub conversation_of : Rating → String
conversation_of r = r.conversation_id

abbrev pub new_rating : Conversation → String → Rating
new_rating c token = record {
  conversation_id = c.id;
  organization_id = c.organization_id;
  agent_id = c.assigned_to_id;
  score = 0;
  comment = none;
  token = token;
  responded_at = none;
}

-- `requestRating` at the conversation and the rating that its queries find; `token` is random.
add_rating : Option Conversation → Option Rating → String → List Rating → List Rating
add_rating none existing token rs = rs
add_rating (some c) (some r) token rs = rs
add_rating (some c) none token rs = rs ++ new_rating c token ∷ []

unfoldable pub request_rating : String → String → Database → Database
unfolding add_rating
request_rating id token db = record db {
  ratings =
      add_rating (find_unique id_of id db.conversations) (find_unique conversation_of id db.ratings)
        token db.ratings;
}

-- `submitByToken`. A score that is no natural number is refused by the first test; it is `none`.
abbrev in_range : Option ℕ → Bool
in_range none = false
in_range (some n) = if ltb n 1 || ltb 5 n then false else true

-- A field that is `undefined` is left alone by `update`.
abbrev kept_or : Option String → Option String → Option String
kept_or none old = old
kept_or (some new) old = some new

abbrev answer : ℕ → Option String → ℕ → Rating → Rating
answer score comment now r = record r {
  score = score;
  comment = kept_or comment r.comment;
  responded_at = some now;
}

answer_open : String → ℕ → Option String → ℕ → Option ℕ → Exec (List Rating) (Unit {0})
answer_open token score comment now (some _) rs = (err (bad_request "Rating already submitted"), rs)
answer_open token score comment now none rs =
    (ok tt, update_key token_of token (answer score comment now) rs)

answer_found : String → ℕ → Option String → ℕ → Option Rating → Exec (List Rating) (Unit {0})
unfolding answer_open
answer_found token score comment now none rs = (err (not_found "Rating request not found"), rs)
answer_found token score comment now (some r) rs =
    answer_open token score comment now r.responded_at rs

unfoldable pub submit_by_token :
    String → Option ℕ → Option String → ℕ → Exec (List Rating) (Unit {0})
unfolding answer_found
submit_by_token token none comment now rs =
    (err (bad_request "Score must be an integer between 1 and 5"), rs)
submit_by_token token (some n) comment now rs =
    if in_range (some n)
    then answer_found token n comment now (find_unique token_of token rs) rs
    else (err (bad_request "Score must be an integer between 1 and 5"), rs)
