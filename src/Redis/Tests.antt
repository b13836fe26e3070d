-- ===== src/Redis/Tests.antt =====
-- A window of one hit.
use chat_intelli_api.Base.{◌+◌, ◌≤◌, ◌≡◌, refl, some, List, [], ◌∷◌, arith, ltb, if◌then◌else◌}
use chat_intelli_api.Redis.{Hit, new_hit, in_window, try_consume_rate_limit}
use chat_intelli_api.Redis.Window.{hits_of, within_limit}

abbrev hits : List Hit
hits = new_hit "rule" "c1" "m1" 1000 ∷ []

within_limit_example :
    (let r = try_consume_rate_limit 2000 "m2" "rule" (some "c1") 1 hits in
      let left = hits_of "rule" "c1" (in_window "rule" "c1" 2000 hits) in
      (r.0 ≡ ltb left 1)
      × (hits_of "rule" "c1" r.1 ≡ left + (if r.0 then 1 else 0))
      × (hits_of "rule" "c1" hits ≤ 1 → hits_of "rule" "c1" r.1 ≤ 1))
within_limit_example = within_limit 2000 "m2" "rule" "c1" 1 hits refl (omega arith)
