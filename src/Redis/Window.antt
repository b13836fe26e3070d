-- ===== src/Redis/Window.antt =====
-- The rate limit holds in every window.
use chat_intelli_api.Base.{
  ℕ, ◌+◌, ◌≤◌, ◌<◌, String, Bool, false, not, ◌≡◌, some, List, [], ◌∷◌, arith, eq_refl, keep,
  count_if, ltb, eqb, is_empty, if◌then◌else◌,
}
use chat_intelli_api.Redis.{Hit, of_key, in_window, left_window, consume, try_consume_rate_limit}

-- The calls that a window counts for an automation and a conversation.
abbrev pub hits_of : String → String → List Hit → ℕ
hits_of automation conversation hits = count_if (of_key automation conversation) hits

count_if-keep_le : (p q : Hit → Bool) (hits : List Hit) → count_if p (keep q hits) ≤ count_if p hits
count_if-keep_le p q [] = omega arith
count_if-keep_le p q (h ∷ hits) = ground (arith, count_if-keep_le p q hits)

-- With a limit above 0 and a conversation, a call is let through just if fewer calls than the
-- limit are left in the window, and then counts as one more; and no call, let through or not,
-- makes a window of at most as many calls as the limit longer than that.
pub within_limit :
    (now : ℕ) (member automation conversation : String) (per_minute : ℕ) (hits : List Hit)
    → is_empty conversation ≡ false
    → 0 < per_minute
    → (let r = try_consume_rate_limit now member automation (some conversation) per_minute hits in
        let left = hits_of automation conversation (in_window automation conversation now hits) in
        (r.0 ≡ ltb left per_minute)
        × (hits_of automation conversation r.1 ≡ left + (if r.0 then 1 else 0))
        × (hits_of automation conversation hits ≤ per_minute
            → hits_of automation conversation r.1 ≤ per_minute))
unfolding try_consume_rate_limit consume
within_limit now member automation conversation per_minute hits named limited =
    let some_limit : eqb per_minute 0 ≡ false = ground arith in
    let fewer =
      count_if-keep_le (of_key automation conversation)
        (λ h. not (left_window automation conversation now h)) hits in
    rw (named, some_limit) (ground (arith, fewer, eq_refl automation, eq_refl conversation))
