-- ===== src/Pending/Executor/Life/Sweep.antt =====
-- `expireOverdue` of the service: the actions that it has read, one after the other.
use chat_intelli_api.Base.{
  ℕ, String, Bool, true, false, ◌≡◌, refl, sym, ap, ◌∙◌, Option, none, some, List, [], ◌∷◌, ◌==◌,
  ◌&&◌, ◌⊎◌, inl, inr, arith, eq_iff, Bool-cases, Option-cases, All, keep,
}
use chat_intelli_api.Base.Order.{order_by, All-order_by, All-keep, All-imp}
use chat_intelli_api.Base.Table.{find_unique, find_unique-update_key, find_unique-append}
use chat_intelli_api.Pending.{
  pending, same_status, Action, Store, action_id, overwrite, save, backwards, in_conversation,
  list_by_status, is_expired, mark_expired, sweep, expire_overdue,
}
use chat_intelli_api.Pending.Executor.Life.{Change, unchanged, expires, of_id}

-- Each row is the one that its id finds: no two rows have one id.
abbrev pub AreKeyed : List Action → Type 0
AreKeyed rows = All (λ a. of_id a.id rows ≡ some a) rows

All-backwards {κ} :
    (P : Action → Type κ) (xs done : List Action)
    → All P xs
    → All P done
    → All P (backwards xs done)
All-backwards P [] done h k = k
All-backwards P (x ∷ xs) done h k = All-backwards P xs (x ∷ done) h.1 (h.0, k)

-- An action that the query reads is the row of its id, and pending.
abbrev IsRead : List Action → Action → Type 0
IsRead rows a = (of_id a.id rows ≡ some a) × (a.status ≡ pending)

list_by_status-IsRead :
    (rows : List Action) → AreKeyed rows → All (IsRead rows) (list_by_status pending none rows)
unfolding list_by_status
list_by_status-IsRead rows keyed =
    let test : Action → Bool = λ a. same_status a.status pending && in_conversation none a in
    All-backwards (IsRead rows) (order_by (λ a. a.created_at) (keep test rows)) []
      (All-order_by (λ a. a.created_at) (IsRead rows) (keep test rows)
        (All-keep (IsRead rows) test rows (
          All-imp (λ a. of_id a.id rows ≡ some a) (λ a. test a ≡ true → IsRead rows a)
            (λ a found passes. (found, ground arith)) rows keyed)))
      tt

-- What the sweep has made of the action of an id.
abbrev Swept : ℕ → Option Action → Option Action → Type 0
Swept now o c =
    (c ≡ o)
    ⊎ ((a : Action) × (o ≡ some a)
        × (a.status ≡ pending)
        × (is_expired now a ≡ true)
        × (c ≡ some (mark_expired a)))

save-other :
    (k : String) (now : ℕ) (b : Action) (rows : List Action)
    → (b.id == k) ≡ false
    → of_id k (save now b rows) ≡ of_id k rows
unfolding save find_unique
save-other k now b rows other = elim (Option-cases (of_id b.id rows)) [
  | inl gone ↦
      rw (gone, find_unique-append action_id k rows (record b { created_at = now }), other)
        (elim (Option-cases (of_id k rows)) [ inl e ↦ rw e refl | inr (a, e) ↦ rw e refl ])
  | inr (r, there) ↦
      rw (there, find_unique-update_key action_id b.id k (overwrite b) rows (λ x. refl), other) refl
]

save-same :
    (k : String) (now : ℕ) (b r : Action) (rows : List Action)
    → b.id ≡ k
    → of_id k rows ≡ some r
    → of_id k (save now b rows) ≡ some (overwrite b r)
unfolding save
save-same k now b r rows same found =
    let hit : (b.id == k) ≡ true = (eq_iff b.id k).1 same in
    let there : of_id b.id rows ≡ some r = rw same found in
    rw (there, find_unique-update_key action_id b.id k (overwrite b) rows (λ x. refl), hit, found)
      refl

module _ (k : String) (now : ℕ) (o : Option Action) where
  -- One action that was read as it was found at first, and is late.
  save-Swept :
      (a : Action) (rows : List Action)
      → (a.id ≡ k → o ≡ some a)
      → a.status ≡ pending
      → is_expired now a ≡ true
      → Swept now o (of_id k rows)
      → Swept now o (of_id k (save now (mark_expired a) rows))
  save-Swept a rows read waits late h = elim (Bool-cases (a.id == k)) [
    | inr other ↦ rw (save-other k now (mark_expired a) rows other) h
    | inl hit ↦
        let same : a.id ≡ k = (eq_iff a.id k).0 hit in
        let was : o ≡ some a = read same in
        inr (
          a,
          was,
          waits,
          late,
          elim h [
            | inl as_found ↦ save-same k now (mark_expired a) a rows same (as_found ∙ was)
            | inr (b, was_b, waits_b, late_b, now_b) ↦
                let same_row : mark_expired b ≡ mark_expired a = ground arith in
                save-same k now (mark_expired a) (mark_expired a) rows same
                  (now_b ∙ ap some same_row)
          ],
        )
  ]

  sweep-Swept :
      (list rows : List Action)
      → All (λ a. (a.id ≡ k → o ≡ some a) × (a.status ≡ pending)) list
      → Swept now o (of_id k rows)
      → Swept now o (of_id k (sweep now list rows).1)
  unfolding sweep
  sweep-Swept [] rows read h = h
  sweep-Swept (a ∷ list) rows read h = elim (Bool-cases (is_expired now a)) [
    | inr early ↦ rw early (sweep-Swept list rows read.1 h)
    | inl late ↦ rw late (
        sweep-Swept list (save now (mark_expired a) rows) read.1
          (save-Swept a rows ((read.0).0) ((read.0).1) late h))
  ]

Swept-Change : (now : ℕ) (o c : Option Action) → Swept now o c → Change o c
Swept-Change now o c (inl same) = rw same (unchanged o)
Swept-Change now o c (inr (a, was, waits, late, is)) = rw (was, is) (expires now a waits late)

pub expire_overdue-Change :
    (k : String) (now : ℕ) (s : Store)
    → AreKeyed s.actions
    → Change (of_id k s.actions) (of_id k (expire_overdue now s).1.actions)
unfolding expire_overdue
expire_overdue-Change k now s keyed = Swept-Change now (of_id k s.actions) _ (
    sweep-Swept k now (of_id k s.actions) (list_by_status pending none s.actions) s.actions
      (All-imp (IsRead s.actions)
        (λ a. (a.id ≡ k → of_id k s.actions ≡ some a) × (a.status ≡ pending))
        (λ a h. (λ same. rw (sym same) h.0, h.1)) (list_by_status pending none s.actions)
        (list_by_status-IsRead s.actions keyed))
      (inl refl))
