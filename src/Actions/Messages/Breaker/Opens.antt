-- ===== src/Actions/Messages/Breaker/Opens.antt =====
-- What three failures within a minute do to the breaker, whatever was noted before.
use Prim.Native.Nat.{◌≤◌, ◌<◌, ◌-◌}
use chat_intelli_api.Base.{
  ℕ, ◌+◌, String, Bool, true, false, List, [], ◌∷◌, ◌++◌, ◌≡◌, ◌∙◌, inl, inr, ap, refl, arith, keep,
  ltb, leb, length, length-append, eq_refl, Bool-cases,
}
use chat_intelli_api.Actions.Messages.{
  State, fail_window_ms, fail_threshold, cooldown_ms, recent, noted, record_failure,
}

keep-append {ℓ} :
    {A : Type ℓ} (q : A → Bool) (xs ys : List A) → keep q (xs ++ ys) ≡ keep q xs ++ keep q ys
keep-append q [] ys = refl
keep-append q (x ∷ xs) ys = elim (Bool-cases (q x)) [
  | inl pass ↦ rw pass (ap (λ l. x ∷ l) (keep-append q xs ys))
  | inr fails ↦ rw fails (keep-append q xs ys)
]

-- What is noted within the window stays noted.
recent_twice :
    (n m : ℕ) (ts : List ℕ)
    → n ≤ m
    → m < n + fail_window_ms
    → recent m (recent n ts)
      ≡ (keep (λ t. ltb (m - t) fail_window_ms) (keep (λ t. ltb (n - t) fail_window_ms) ts)
          ++ n ∷ [])
        ++ m ∷ []
unfolding recent
recent_twice n m ts order within =
    let near : ltb (m - n) fail_window_ms ≡ true = ground arith in
    ap (λ l. l ++ m ∷ [])
      (keep-append (λ t. ltb (m - t) fail_window_ms) (keep (λ t. ltb (n - t) fail_window_ms) ts)
          (n ∷ [])
        ∙ rw near refl)

kept_two :
    (q : ℕ → Bool) (xs : List ℕ) (a b : ℕ)
    → q a ≡ true
    → q b ≡ true
    → keep q ((xs ++ a ∷ []) ++ b ∷ []) ≡ (keep q xs ++ a ∷ []) ++ b ∷ []
kept_two q xs a b ha hb =
    rw (keep-append q (xs ++ a ∷ []) (b ∷ []), keep-append q xs (a ∷ []), ha, hb) refl

length-three :
    (xs : List ℕ) (a b c : ℕ) → length (((xs ++ a ∷ []) ++ b ∷ []) ++ c ∷ []) ≡ length xs + 3
length-three xs a b c = omega (
  arith,
  length-append ((xs ++ a ∷ []) ++ b ∷ []) (c ∷ []),
  length-append (xs ++ a ∷ []) (b ∷ []),
  length-append xs (a ∷ []),
)

three_recent :
    (a b c : ℕ) (ts : List ℕ)
    → a ≤ b
    → b ≤ c
    → c < a + fail_window_ms
    → leb fail_threshold (length (recent c (recent b (recent a ts)))) ≡ true
unfolding recent
three_recent a b c ts ab bc within =
    let xs = keep (λ t. ltb (b - t) fail_window_ms) (keep (λ t. ltb (a - t) fail_window_ms) ts) in
    let first : ltb (c - a) fail_window_ms ≡ true = ground arith in
    let second : ltb (c - b) fail_window_ms ≡ true = ground arith in
    let list : recent c (recent b (recent a ts))
        ≡ ((keep (λ t. ltb (c - t) fail_window_ms) xs ++ a ∷ []) ++ b ∷ []) ++ c ∷ [] =
      ap (recent c) (recent_twice a b ts ab (omega arith))
      ∙ ap (λ l. l ++ c ∷ []) (kept_two (λ t. ltb (c - t) fail_window_ms) xs a b first second) in
    rw (list, length-three (keep (λ t. ltb (c - t) fail_window_ms) xs) a b c) (ground arith)

cools :
    (now bound : ℕ) (k : String) (ts : List ℕ) (st : State)
    → bound ≤ now
    → bound + cooldown_ms ≤ st.open_until k
    → bound + cooldown_ms ≤ (noted now k ts st).open_until k
cools now bound k ts st late was = elim (Bool-cases (leb fail_threshold (length ts))) [
  | inl opens ↦ rw (opens, eq_refl k) (omega arith)
  | inr stays ↦ rw stays was
]

-- A failure behind which the breaker stays shut is noted.
stays_shut :
    (now : ℕ) (k : String) (st : State)
    → leb fail_threshold (length (recent now (st.failures k))) ≡ false
    → (record_failure now k st).failures k ≡ recent now (st.failures k)
unfolding record_failure
stays_shut now k st shut = rw (shut, eq_refl k) refl

opens :
    (now : ℕ) (k : String) (st : State)
    → leb fail_threshold (length (recent now (st.failures k))) ≡ true
    → (record_failure now k st).open_until k ≡ now + cooldown_ms
unfolding record_failure
opens now k st trips = rw (trips, eq_refl k) refl

stays_open :
    (now bound : ℕ) (k : String) (st : State)
    → bound ≤ now
    → bound + cooldown_ms ≤ st.open_until k
    → bound + cooldown_ms ≤ (record_failure now k st).open_until k
unfolding record_failure
stays_open now bound k st late was = cools now bound k (recent now (st.failures k)) st late was

-- Three failures of a channel within a minute, whatever was noted before.
pub three_failures :
    (a b c : ℕ) (k : String) (st : State)
    → a ≤ b
    → b ≤ c
    → c < a + fail_window_ms
    → a + cooldown_ms
      ≤ (record_failure c k (record_failure b k (record_failure a k st))).open_until k
three_failures a b c k st ab bc within =
    let s1 = record_failure a k st in
    let s2 = record_failure b k s1 in
    elim (Bool-cases (leb fail_threshold (length (recent a (st.failures k))))) [
      | inl trips ↦
          stays_open c a k s2 (omega arith)
            (stays_open b a k s1 ab (omega (arith, opens a k st trips)))
      | inr shut ↦ elim (Bool-cases (leb fail_threshold (length (recent b (s1.failures k))))) [
        | inl trips ↦ stays_open c a k s2 (omega arith) (omega (arith, opens b k s1 trips))
        | inr shut2 ↦
            let noted1 = stays_shut a k st shut in
            let noted2 = stays_shut b k s1 shut2 in
            let all_three : s2.failures k ≡ recent b (recent a (st.failures k)) =
              noted2 ∙ ap (recent b) noted1 in
            omega (
              arith,
              opens c k s2 (
                  ap (λ l. leb fail_threshold (length (recent c l))) all_three
                  ∙ three_recent a b c (st.failures k) ab bc within),
            )
      ]
    ]
