-- ===== src/Ratings/Laws.antt =====
-- One rating for a conversation, one answer for a rating, and a score from 1 to 5.
use chat_intelli_api.Base.{
  ℕ, ◌≤◌, String, true, ◌≡◌, refl, Option, none, some, List, arith, inl, inr, eq_refl, All,
  Option-cases, Bool-cases,
}
use chat_intelli_api.Base.Table.{find_unique, update_key, find_unique-update_key, All-update_key}
use chat_intelli_api.Base.Exec.{bad_request, ok, err}
use chat_intelli_api.Conversation.{Rating}
use chat_intelli_api.Ratings.{token_of, answer, answer_found, in_range, submit_by_token}

-- A rating is unanswered with score 0, or answered with a score from 1 to 5.
abbrev pub IsScored : Rating → Type 0
IsScored r = elim r.responded_at [ none ↦ r.score ≡ 0 | some _ ↦ (1 ≤ r.score) × (r.score ≤ 5) ]

abbrev IsAnswered : String → List Rating → Type 0
IsAnswered token rs =
    (x : Rating) × (now : ℕ) × (find_unique token_of token rs ≡ some x)
    × (x.responded_at ≡ some now)

-- A call that returns has answered the rating of its token.
answer_found_ok :
    (token : String) (n : ℕ) (text : Option String) (now : ℕ) (o : Option Rating)
    (rs r : List Rating)
    → find_unique token_of token rs ≡ o
    → answer_found token n text now o rs ≡ (ok tt, r)
    → IsAnswered token r
unfolding answer_found
answer_found_ok token n text now none rs r e h = absurd (ground arith)
answer_found_ok token n text now (some x) rs r e h = elim (Option-cases x.responded_at) [
  | inr (old, answered) ↦ absurd (ground arith)
  | inl fresh ↦
      let written : update_key token_of token (answer n text now) rs ≡ r = ground arith in
      let row : find_unique token_of token r ≡ some (answer n text now x) = rw (← written) (
        ground (
          arith,
          find_unique-update_key token_of token token (answer n text now) rs (λ y. refl),
          eq_refl token,
        )) in
      (answer n text now x, now, row, refl)
]

again_refused :
    (token : String) (m : ℕ) (text : Option String) (later : ℕ) (r : List Rating)
    → IsAnswered token r
    → answer_found token m text later (find_unique token_of token r) r
      ≡ (err (bad_request "Rating already submitted"), r)
unfolding answer_found
again_refused token m text later r (x, now, row, answered) = rw row (rw answered)

-- A rating that is answered cannot be answered again: behind a call that returns, a second call for
-- the same token, with a score in range, throws and changes nothing.
pub submit_once :
    (token : String) (n m : ℕ) (text again : Option String) (now later : ℕ) (rs r : List Rating)
    → in_range (some m) ≡ true
    → submit_by_token token (some n) text now rs ≡ (ok tt, r)
    → submit_by_token token (some m) again later r
      ≡ (err (bad_request "Rating already submitted"), r)
unfolding submit_by_token
submit_once token n m text again now later rs r ok_m h = elim (Bool-cases (in_range (some n))) [
  | inr out ↦ absurd (ground arith)
  | inl ok_n ↦
      let done : IsAnswered token r =
        answer_found_ok token n text now (find_unique token_of token rs) rs r refl (rw ok_n at h) in
      rw ok_m (again_refused token m again later r done)
]

answer-IsScored :
    (n : ℕ) (text : Option String) (now : ℕ)
    → in_range (some n) ≡ true
    → (r : Rating) → IsScored r
    → IsScored (answer n text now r)
answer-IsScored n text now h r s = ground arith

answer_found-IsScored :
    (token : String) (n : ℕ) (text : Option String) (now : ℕ) (o : Option Rating) (rs : List Rating)
    → in_range (some n) ≡ true
    → All IsScored rs
    → All IsScored (answer_found token n text now o rs).1
unfolding answer_found
answer_found-IsScored token n text now none rs ok_n h = h
answer_found-IsScored token n text now (some x) rs ok_n h = elim (Option-cases x.responded_at) [
  | inr (old, answered) ↦ rw answered h
  | inl fresh ↦ rw fresh (
      All-update_key token_of IsScored token (answer n text now) rs
        (answer-IsScored n text now ok_n) h)
]

-- From ratings of which every answered one has a score from 1 to 5 and every other the score 0,
-- whatever is submitted leads to such ratings.
pub submit_by_token-IsScored :
    (token : String) (score : Option ℕ) (text : Option String) (now : ℕ) (rs : List Rating)
    → All IsScored rs
    → All IsScored (submit_by_token token score text now rs).1
unfolding submit_by_token
submit_by_token-IsScored token none text now rs h = h
submit_by_token-IsScored token (some n) text now rs h = elim (Bool-cases (in_range (some n))) [
  | inr out ↦ rw out h
  | inl ok_n ↦
      rw ok_n (answer_found-IsScored token n text now (find_unique token_of token rs) rs ok_n h)
]
