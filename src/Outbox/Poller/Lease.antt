-- ===== src/Outbox/Poller/Lease.antt =====
-- The lease keeps two pollers from the same row.
use chat_intelli_api.Base.{
  ℕ, ◌+◌, ◌≤◌, String, Bool, true, false, ◌≡◌, refl, some, inl, inr, List, [], ◌∷◌, arith, length,
  All, contains, Bool-cases,
}
use chat_intelli_api.Base.Table.{update_many}
use chat_intelli_api.Base.Order.{
  All-order_by, All-take, All-keep, All-map, All-imp, All-All, length-take-le,
}
use chat_intelli_api.Outbox.{Event, processing}
use chat_intelli_api.Outbox.Poller.{
  lease_ttl_ms, batch_size, claimable, lease, in_ids, claimed_ids, claim_batch, candidates,
}

-- A row that was just leased is claimed by nobody until the lease runs out.
leased-claimable :
    (ids : List String) (worker : String) (locked : String → Bool) (now later : ℕ)
    → later ≤ now + lease_ttl_ms
    → (es : List Event)
    → All
        (λ e. claimable locked later e ≡ true → contains ids e.id ≡ false)
        (update_many (in_ids ids) (lease worker now) es)
unfolding update_many
leased-claimable ids worker locked now later soon [] = tt
leased-claimable ids worker locked now later soon (e ∷ es) = elim (Bool-cases (contains ids e.id)) [
  | inl old ↦
      rw old (λ c. absurd (ground arith), leased-claimable ids worker locked now later soon es)
  | inr new ↦ rw new (λ _. new, leased-claimable ids worker locked now later soon es)
]

-- While the lease lasts, a second poller claims none of the rows that the first has claimed,
-- whatever rows are locked for either of them.
pub claim_batch_exclusive :
    (worker : String) (locked locked' : String → Bool) (now later : ℕ) (es : List Event)
    → later ≤ now + lease_ttl_ms
    → All
        (λ id. contains (claimed_ids locked now es) id ≡ false)
        (claimed_ids locked' later (claim_batch worker locked now es).0)
unfolding claim_batch
claim_batch_exclusive worker locked locked' now later es soon =
    let ids = claimed_ids locked now es in
    let rows = update_many (in_ids ids) (lease worker now) es in
    All-map (λ id. contains ids id ≡ false) (λ e. e.id) (candidates locked' later rows)
      (All-take _ batch_size _ (
        All-order_by (λ e. e.created_at) _ _
          (All-keep _ (claimable locked' later) rows
            (leased-claimable ids worker locked' now later soon es))))

-- A row leaves the claim as it was, or leased by the worker until the end of the lease.
abbrev pub IsLeased : String → ℕ → Event → Type 0
IsLeased worker now e =
    (e.status ≡ processing)
    × (e.leased_by ≡ some worker)
    × (e.leased_until ≡ some (now + lease_ttl_ms))

pub update_many-IsLeased :
    (ids : List String) (worker : String) (now : ℕ) (es : List Event)
    → All
        (λ e. contains ids e.id ≡ true → IsLeased worker now e)
        (update_many (in_ids ids) (lease worker now) es)
unfolding update_many
update_many-IsLeased ids worker now [] = tt
update_many-IsLeased ids worker now (e ∷ es) = elim (Bool-cases (contains ids e.id)) [
  | inl old ↦ rw old (λ _. (refl, refl, refl), update_many-IsLeased ids worker now es)
  | inr new ↦ rw new (λ c. cc (new, c), update_many-IsLeased ids worker now es)
]

-- A claim takes at most a batch of rows, all of them claimable; the rows that it returns have ids
-- among those taken, and each is leased by the worker.
pub claim_batch-IsLeased :
    (worker : String) (locked : String → Bool) (now : ℕ) (es : List Event)
    → (length (candidates locked now es) ≤ batch_size)
      × All (λ e. claimable locked now e ≡ true) (candidates locked now es)
      × All
          (λ e. (contains (claimed_ids locked now es) e.id ≡ true) × IsLeased worker now e)
          (claim_batch worker locked now es).1
unfolding claim_batch
claim_batch-IsLeased worker locked now es =
    let ids = claimed_ids locked now es in
    let rows = update_many (in_ids ids) (lease worker now) es in
    (
      length-take-le batch_size _,
      All-take _ batch_size _ (
          All-order_by (λ e. e.created_at) _ _
            (All-keep _ (claimable locked now) es (All-All _ (λ e h. h) es))),
      All-keep _ (in_ids ids) rows
          (All-imp _ _ (λ e leased h. (h, leased h)) rows (update_many-IsLeased ids worker now es)),
    )
