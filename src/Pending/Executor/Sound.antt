-- ===== src/Pending/Executor/Sound.antt =====
-- Histories of the service and the worker: what the fields of an action prove about its past.
use mathlib.Core.Path.{subst}
use chat_intelli_api.Base.{
  ℕ, ◌≤◌, String, false, ◌≡◌, refl, Option, none, some, arith, is_none, is_empty,
}
use chat_intelli_api.Base.Texts.{trim}
use chat_intelli_api.Pending.{Status, pending, approved, rejected, expired, executed, Action}
use chat_intelli_api.Pending.Executor.{Database, HttpTool}
use chat_intelli_api.Pending.Executor.Life.{
  Change, unchanged, made, approves, rejects, expires, executes, fails, of_id,
}
use chat_intelli_api.Pending.Executor.Life.Calls.{Call, apply, IsFresh, apply-Change}

-- Databases that a sequence of calls leads to, each of which makes actions of new ids only.
infix 3 ◌⊢◌⟶*◌
pub data ◌⊢◌⟶*◌ : HttpTool → Database → Database → Type 0 where
  here : {http : HttpTool} {db : Database} → http ⊢ db ⟶* db
  then_call :
      {http : HttpTool} {db after : Database} (c : Call)
      → IsFresh c db
      → http ⊢ apply http c db ⟶* after
      → http ⊢ db ⟶* after

-- Approved in time, by somebody.
abbrev IsApproved : Action → Type 0
IsApproved a =
    (user : String) × (at : ℕ) × (a.approved_by ≡ some user)
    × (a.approved_at ≡ some at)
    × (at ≤ a.expires_at)

abbrev IsUndecided : Action → Type 0
IsUndecided a = (a.approved_at ≡ none) × (a.rejected_at ≡ none) × (a.execution_result ≡ none)

abbrev IsRejected : Action → Type 0
IsRejected a =
    (user : String) × (at : ℕ) × (reason : String) × (a.rejected_by ≡ some user)
    × (a.rejected_at ≡ some at)
    × (a.rejected_reason ≡ some (trim reason))
    × (is_empty (trim reason) ≡ false)
    × (a.approved_at ≡ none)
    × (a.execution_result ≡ none)

abbrev AsStatus : Status → Action → Type 0
AsStatus pending a = IsUndecided a
AsStatus approved a = IsApproved a × (a.rejected_at ≡ none)
AsStatus rejected a = IsRejected a
AsStatus expired a = IsUndecided a
AsStatus executed a = IsApproved a × (a.rejected_at ≡ none) × (is_none a.execution_result ≡ false)

-- What the status of an action says of its fields.
abbrev pub IsSound : Action → Type 0
IsSound a = AsStatus a.status a

abbrev pub SoundAt : Option Action → Type 0
SoundAt none = Unit
SoundAt (some a) = IsSound a

abbrev pub AreSound : Database → Type 0
AreSound db = (k : String) → SoundAt (of_id k db.store.actions)

as_status : {s : Status} (a : Action) → a.status ≡ s → IsSound a → AsStatus s a
as_status a e h = subst (λ s. AsStatus s a) e h

Change-IsSound : {o p : Option Action} → Change o p → SoundAt o → SoundAt p
Change-IsSound (unchanged o) h = h
Change-IsSound (made id now input) h = (refl, refl, refl)
Change-IsSound (approves user now a p early) h =
    let u = as_status a p h in ((user, now, refl, refl, ground arith), u.1)
Change-IsSound (rejects user now reason a p early given) h =
    let u = as_status a p h in (user, now, reason, refl, refl, refl, given, u.0, u.2)
Change-IsSound (expires now a p late) h = as_status a p h
Change-IsSound (executes result a p) h = let u = as_status a p h in (u.0, u.1, refl)
Change-IsSound (fails result a p) h = as_status a p h

-- From a database of sound actions, every history of calls leads to sound actions: one that is
-- approved or executed was approved by somebody, not after it expired, and never rejected; one
-- that is executed has a result; one that is rejected has somebody and a reason that is not
-- blank, and no approval or result; one that is pending or expired has none of these.
pub reached-IsSound :
    (http : HttpTool) {db after : Database} → http ⊢ db ⟶* after → AreSound db → AreSound after
reached-IsSound http here h = h
reached-IsSound http {db} (then_call c fresh rest) h =
    reached-IsSound http rest (λ k. Change-IsSound (apply-Change http c db k fresh) (h k))
