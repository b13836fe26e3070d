-- ===== src/Redis.antt =====
-- The locks and the rate windows of the automation engine in Redis
-- (src/modules/automations/redis/automation-redis.service.ts).
pub mod Window
mod Tests
use chat_intelli_api.Base.{
  ℕ, ◌+◌, String, Bool, true, false, not, ◌&&◌, ◌||◌, Option, none, some, List, [], ◌∷◌, ◌==◌, any,
  keep, count_if, ltb, leb, eqb, is_empty, if◌then◌else◌,
}

-- A lock by the contact that it is on.
pub record Lock : Type 0 where
  pub contact : String
  pub token : String
  pub until : ℕ

-- A member of the sorted set of an automation and a conversation.
pub record Hit : Type 0 where
  pub automation : String
  pub conversation : String
  pub member : String
  pub at : ℕ

abbrev pub contact_lock_ttl_ms : ℕ
contact_lock_ttl_ms = 30000

abbrev window_ms : ℕ
window_ms = 60000

-- A lock is there until its time has run out.
abbrev pub is_held : ℕ → String → List Lock → Bool
is_held now contact locks = any (λ l. l.contact == contact && ltb now l.until) locks

-- `SET key token PX ttl NX`; the token is a random UUID.
unfoldable pub acquire_contact_lock : ℕ → String → String → List Lock → Option String × List Lock
acquire_contact_lock now token contact locks =
    if is_held now contact locks then (none, locks) else (
      some token,
      record { contact = contact; token = token; until = now + contact_lock_ttl_ms }
          ∷ keep (λ l. not (l.contact == contact)) locks,
    )

-- The script deletes the key if the token still owns it.
unfoldable pub release_contact_lock : String → String → List Lock → List Lock
release_contact_lock contact token locks =
    keep (λ l. not (l.contact == contact && l.token == token)) locks

abbrev pub of_key : String → String → Hit → Bool
of_key automation conversation h = h.automation == automation && h.conversation == conversation

-- `zremrangebyscore key 0 (now - windowMs)` on one key
abbrev left_window : String → String → ℕ → Hit → Bool
left_window automation conversation now h =
    of_key automation conversation h && leb (h.at + window_ms) now

abbrev pub in_window : String → String → ℕ → List Hit → List Hit
in_window automation conversation now hits =
    keep (λ h. not (left_window automation conversation now h)) hits

abbrev new_hit : String → String → String → ℕ → Hit
new_hit automation conversation member now = record {
  automation = automation;
  conversation = conversation;
  member = member;
  at = now;
}

consume : ℕ → String → String → String → ℕ → List Hit → Bool × List Hit
consume now member automation conversation per_minute hits =
    let kept = in_window automation conversation now hits in
    if ltb per_minute (count_if (of_key automation conversation) kept + 1)
    then (false, kept)
    else (true, new_hit automation conversation member now ∷ kept)

-- `tryConsumeRateLimit`, where Redis answers; the member is new, so that its removal leaves what
-- was there without it.
unfoldable pub try_consume_rate_limit :
    ℕ → String → String → Option String → ℕ → List Hit → Bool × List Hit
unfolding consume
try_consume_rate_limit now member automation none per_minute hits = (true, hits)
try_consume_rate_limit now member automation (some conversation) per_minute hits =
    if is_empty conversation || eqb per_minute 0
    then (true, hits)
    else consume now member automation conversation per_minute hits
