-- ===== src/Outbox/Poller/Fate.antt =====
-- No event is lost between its row and the queue.
use chat_intelli_api.Base.{
  ℕ, String, Bool, true, false, ◌≡◌, refl, ◌⊎◌, inl, inr, Option, none, some, List, [], ◌∷◌, keep,
  arith, ◌==◌, eq_iff, eq_refl, any, any-append, All, contains, Bool-cases, if-holds, if◌then◌else◌,
}
use mathlib.Core.Path.{subst}
use chat_intelli_api.Base.Table.{update_many}
use chat_intelli_api.Base.Order.{All-imp, All-both}
use chat_intelli_api.Outbox.{Event, pending}
use chat_intelli_api.Outbox.Poller.{
  Engine, Job, job_of, add_job, in_ids, is_lease_of, release, push_one, push_all, claim_batch,
  claimed_ids, tick,
}
use chat_intelli_api.Outbox.Poller.Lease.{IsLeased, update_many-IsLeased}

-- The row is free again: another tick may claim it.
abbrev pub IsReleased : Event → Type 0
IsReleased e = (e.status ≡ pending) × (e.leased_by ≡ none) × (e.leased_until ≡ none)

-- The queue keeps a job with the id of the row.
abbrev pub IsQueued : List Job → Event → Type 0
IsQueued jobs e = any (λ j. j.outbox_event_id == e.id) jobs ≡ true

-- The row waits for its round of the loop, under the worker's lease.
abbrev IsWaiting : String → List Event → Event → Type 0
IsWaiting worker todo e = (e.leased_by ≡ some worker) × (any (λ d. d.id == e.id) todo ≡ true)

abbrev IsAccounted : String → List Event → List Job → Event → Type 0
IsAccounted worker todo jobs e = IsReleased e ⊎ (IsQueued jobs e ⊎ IsWaiting worker todo e)

IsQueued-add_job :
    (jobs : List Job) (j : Job) (e : Event) → IsQueued jobs e → IsQueued (add_job j jobs) e
IsQueued-add_job jobs j e h =
    if-holds (λ js. IsQueued js e) (any (λ k. k.outbox_event_id == j.outbox_event_id) jobs) _ _ h
      (rw any-append (ground arith))

-- An event that is pushed has a job, a new one or one that was kept.
added-IsQueued :
    (jobs : List Job) (d e : Event) → (d.id == e.id) ≡ true → IsQueued (add_job (job_of d) jobs) e
added-IsQueued jobs d e mine = elim (Bool-cases (any (λ k. k.outbox_event_id == d.id) jobs)) [
  | inl there ↦
      rw there (
        subst (λ i. any (λ k. k.outbox_event_id == i) jobs ≡ true) ((eq_iff d.id e.id).0 mine)
          there)
  | inr absent ↦ rw absent (rw any-append (ground arith))
]

-- One round, on a row.
queue-IsAccounted :
    (worker : String) (d : Event) (todo : List Event) (jobs : List Job) (e : Event)
    → IsAccounted worker (d ∷ todo) jobs e
    → IsAccounted worker todo (add_job (job_of d) jobs) e
queue-IsAccounted worker d todo jobs e (inl free) = inl free
queue-IsAccounted worker d todo jobs e (inr (inl queued)) =
    inr (inl (IsQueued-add_job jobs (job_of d) e queued))
queue-IsAccounted worker d todo jobs e (inr (inr waiting)) = elim (Bool-cases (d.id == e.id)) [
  | inl mine ↦ inr (inl (added-IsQueued jobs d e mine))
  | inr other ↦ inr (inr (waiting.0, ground arith))
]

skip-IsAccounted :
    (worker : String) (d : Event) (todo : List Event) (jobs : List Job) (e : Event)
    → is_lease_of worker d.id e ≡ false
    → IsAccounted worker (d ∷ todo) jobs e
    → IsAccounted worker todo jobs e
skip-IsAccounted worker d todo jobs e other (inl free) = inl free
skip-IsAccounted worker d todo jobs e other (inr (inl queued)) = inr (inl queued)
skip-IsAccounted worker d todo jobs e other (inr (inr waiting)) =
    inr (inr (waiting.0, ground (arith, eq_iff d.id e.id, eq_iff e.id d.id, eq_refl worker)))

release-IsAccounted :
    (worker message : String) (d : Event) (todo : List Event) (jobs : List Job) (e : Event)
    → IsAccounted worker (d ∷ todo) jobs e
    → IsAccounted worker todo jobs (if is_lease_of worker d.id e then release message e else e)
release-IsAccounted worker message d todo jobs e h = elim (Bool-cases (is_lease_of worker d.id e)) [
  | inl mine ↦ rw mine (inl (refl, refl, refl))
  | inr other ↦ rw other (skip-IsAccounted worker d todo jobs e other h)
]

-- The rows whose ids were claimed are all accounted for.
abbrev AreAccounted : List String → String → List Event → List Job → List Event → Type 0
AreAccounted ids worker todo jobs =
    All (λ e. contains ids e.id ≡ true → IsAccounted worker todo jobs e)

AreAccounted-release :
    (ids : List String) (worker message : String) (d : Event) (todo : List Event) (jobs : List Job)
    (rows : List Event)
    → AreAccounted ids worker (d ∷ todo) jobs rows
    → AreAccounted ids worker todo jobs
        (update_many (is_lease_of worker d.id) (release message) rows)
unfolding update_many
AreAccounted-release ids worker message d todo jobs [] h = tt
AreAccounted-release ids worker message d todo jobs (e ∷ rows) h =
    (one, AreAccounted-release ids worker message d todo jobs rows h.1)
  where
    same :
        (b : Bool)
        → contains ids (if b then release message e else e).id ≡ true
        → contains ids e.id ≡ true
    same true c = c
    same false c = c

    one :
        contains ids (if is_lease_of worker d.id e then release message e else e).id ≡ true
        → IsAccounted worker todo jobs (if is_lease_of worker d.id e then release message e else e)
    one c =
        release-IsAccounted worker message d todo jobs e (h.0 (same (is_lease_of worker d.id e) c))

push_one-IsAccounted :
    (ids : List String) (worker : String) (outcome : Option String) (d : Event) (todo : List Event)
    (s : Engine)
    → AreAccounted ids worker (d ∷ todo) s.jobs s.outbox
    → AreAccounted ids worker todo
        (push_one worker outcome d s).jobs
        (push_one worker outcome d s).outbox
unfolding push_one
push_one-IsAccounted ids worker none d todo s h =
    All-imp _ _ (λ e k c. queue-IsAccounted worker d todo s.jobs e (k c)) s.outbox h
push_one-IsAccounted ids worker (some message) d todo s h =
    AreAccounted-release ids worker message d todo s.jobs s.outbox h

push_all-IsAccounted :
    (ids : List String) (worker : String) (push : Event → Option String) (todo : List Event)
    (s : Engine)
    → AreAccounted ids worker todo s.jobs s.outbox
    → AreAccounted ids worker []
        (push_all worker push todo s).jobs
        (push_all worker push todo s).outbox
unfolding push_all
push_all-IsAccounted ids worker push [] s h = h
push_all-IsAccounted ids worker push (d ∷ todo) s h =
    push_all-IsAccounted ids worker push todo (push_one worker (push d) d s)
      (push_one-IsAccounted ids worker (push d) d todo s h)

kept_cons :
    (p : Event → Bool) (x : Event) (rows : List Event) (e : Event)
    → any (λ d. d.id == e.id) (keep p rows) ≡ true
    → any (λ d. d.id == e.id) (keep p (x ∷ rows)) ≡ true
kept_cons p x rows e h = ground arith

-- A row that passes the test is among those kept.
kept_listed :
    (p : Event → Bool) (rows : List Event)
    → All (λ e. p e ≡ true → any (λ d. d.id == e.id) (keep p rows) ≡ true) rows
kept_listed p [] = tt
kept_listed p (x ∷ rows) = (
  λ h. ground (arith, eq_refl x.id),
  All-imp _ _ (λ e k h. kept_cons p x rows e (k h)) rows (kept_listed p rows),
)

end_of_loop :
    (worker : String) (jobs : List Job) (e : Event)
    → IsAccounted worker [] jobs e
    → IsReleased e ⊎ IsQueued jobs e
end_of_loop worker jobs e (inl free) = inl free
end_of_loop worker jobs e (inr (inl queued)) = inr queued
end_of_loop worker jobs e (inr (inr waiting)) = cc waiting.1

-- After the claim each claimed row waits for its round: the loop runs over all of them.
claim-IsWaiting :
    (ids : List String) (worker : String) (now : ℕ) (jobs : List Job) (rows : List Event)
    → All (λ e. contains ids e.id ≡ true → IsLeased worker now e) rows
    → AreAccounted ids worker (keep (in_ids ids) rows) jobs rows
claim-IsWaiting ids worker now jobs rows leased =
    All-imp
      (λ e.
        (contains ids e.id ≡ true → IsLeased worker now e)
        × (contains ids e.id ≡ true → any (λ d. d.id == e.id) (keep (in_ids ids) rows) ≡ true))
      _ (λ e k c. inr (inr ((k.0 c).1, k.1 c))) rows
      (All-both _ _ rows leased (kept_listed (in_ids ids) rows))

-- With the engine switched on, whichever of the calls of queue.add fail: every row that a tick has
-- claimed is afterwards free to be claimed again, or the queue keeps a job with its id, which may be
-- one that it has kept from before.
pub tick-loses_none :
    (worker : String) (locked : String → Bool) (push : Event → Option String) (now : ℕ) (s : Engine)
    → All
        (λ e.
          contains (claimed_ids locked now s.outbox) e.id ≡ true
          → IsReleased e ⊎ IsQueued (tick true worker locked push now s).jobs e)
        (tick true worker locked push now s).outbox
unfolding tick
tick-loses_none worker locked push now s =
    let ids = claimed_ids locked now s.outbox in
    let rows = (claim_batch worker locked now s.outbox).0 in
    All-imp _ _ (λ e k c. end_of_loop worker _ e (k c)) _
      (push_all-IsAccounted ids worker push (keep (in_ids ids) rows) (record s { outbox = rows })
        (claim-IsWaiting ids worker now s.jobs rows (update_many-IsLeased ids worker now s.outbox)))
