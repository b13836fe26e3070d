-- ===== src/Outbox/Poller/Settle.antt =====
-- How the worker settles a row.
use mathlib.Core.Option
use chat_intelli_api.Base.{
  ℕ, String, Bool, true, false, ◌≡◌, refl, ap, ◌∙◌, Option, none, some, List, [], ◌∷◌, map, arith,
  ◌==◌, eq_refl, if◌then◌else◌, Option-cases, inl, inr,
}
use chat_intelli_api.Base.Table.{update_many, update_key, find_unique, find_unique-update_key}
use chat_intelli_api.Base.Exec.{Failure, not_found, message, Result, ok, err, Exec, resume}
use chat_intelli_api.Outbox.{Event, Status, processed}
use chat_intelli_api.Outbox.Poller.{process, mark, mark_processed, note_failure, clip}

abbrev pub id_of : Event → String
id_of e = e.id

find-mark :
    (now : ℕ) (id : String) (remark : Option String) (es : List Event)
    → find_unique id_of id (update_key id_of id (mark now remark) es)
      ≡ Option.map (mark now remark) (find_unique id_of id es)
find-mark now id remark es =
    find_unique-update_key id_of id id (mark now remark) es (λ r. refl)
    ∙ ap
        (λ b.
          if b
          then Option.map (mark now remark) (find_unique id_of id es)
          else find_unique id_of id es)
        (eq_refl id)

-- The row that a worker has settled.
abbrev pub IsSettled : ℕ → String → List Event → Type 0
IsSettled now id es =
    (e : Event) × (find_unique id_of id es ≡ some e)
    × (e.status ≡ processed)
    × (e.processed_at ≡ some now)

mark_processed-IsSettled :
    (now : ℕ) (id : String) (remark : Option String) (es r : List Event)
    → mark_processed now id remark es ≡ (ok tt, r)
    → IsSettled now id r
unfolding mark_processed
mark_processed-IsSettled now id remark es r h = elim (Option-cases (find_unique id_of id es)) [
  | inl missing ↦ absurd (ground arith)
  | inr (e, found) ↦
      let written : update_key id_of id (mark now remark) es ≡ r = ground arith in
      let marked : find_unique id_of id r ≡ some (mark now remark e) =
        rw (← written) (find-mark now id remark es ∙ ap (Option.map (mark now remark)) found) in
      (mark now remark e, marked, refl, refl)
]

note_failure-ok :
    (id : String) (m : Result (Unit {0}) × List Event) (r : List Event)
    → note_failure id m ≡ (ok tt, r)
    → m ≡ (ok tt, r)
unfolding note_failure
note_failure-ok id (ok a, es) r h = h
note_failure-ok id (err e, es) r h = absurd (ground arith)

-- A job that ends without an error has settled its row: the row is PROCESSED, at the time of the
-- job, whether the executor ran or the kill switch was off.
pub process-IsSettled :
    (enabled : Bool) (execute : Exec (List Event) (Unit {0})) (now : ℕ) (id : String)
    (es r : List Event)
    → process enabled execute now id es ≡ (ok tt, r)
    → IsSettled now id r
unfolding process
process-IsSettled false execute now id es r h =
    mark_processed-IsSettled now id (some "kill_switch_disabled") es r h
process-IsSettled true execute now id es r h = after_execute (execute es) (note_failure-ok id _ r h)
  where
    after_execute :
        (m : Result (Unit {0}) × List Event)
        → resume m (λ _. mark_processed now id none) ≡ (ok tt, r)
        → IsSettled now id r
    after_execute (ok a, mid) k = mark_processed-IsSettled now id none mid r k
    after_execute (err e, mid) k = absurd (ground arith)

abbrev noted_rows : String → Failure → List Event → List Event
noted_rows id x es =
    update_many (λ r. r.id == id) (λ r. record r { last_error = some (clip 500 (message x)) }) es

-- The statuses of the rows, in the order of the table.
abbrev pub statuses : List Event → List Status
statuses = map (λ e. e.status)

statuses-note :
    (id : String) (m : Option String) (es : List Event)
    → statuses (update_many (λ r. r.id == id) (λ r. record r { last_error = m }) es) ≡ statuses es
unfolding update_many
statuses-note id m [] = refl
statuses-note id m (e ∷ es) = ground (arith, statuses-note id m es)

note_failure-ok_ne :
    (id : String) (es r : List Event) (e : Failure) → ¬ (note_failure id (ok tt, es) ≡ (err e, r))
unfolding note_failure
note_failure-ok_ne id es r e h = ground arith

note_failure-statuses :
    (id : String) (m : Result (Unit {0}) × List Event) (r : List Event) (e : Failure)
    → note_failure id m ≡ (err e, r)
    → statuses r ≡ statuses m.1
unfolding note_failure
note_failure-statuses id (ok a, es) r e h = absurd (ground arith)
note_failure-statuses id (err x, es) r e h =
    let noted : noted_rows id x es ≡ r = ground arith in
    rw (← noted) (statuses-note id (some (clip 500 (message x))) es)

-- `markProcessed` writes nothing where it throws.
settled_or_same :
    (now : ℕ) (id : String) (remark : Option String) (m : Result (Unit {0}) × List Event)
    (r : List Event) (e : Failure)
    → note_failure id (resume m (λ _. mark_processed now id remark)) ≡ (err e, r)
    → statuses r ≡ statuses m.1
unfolding mark_processed
settled_or_same now id remark (err x, mid) r e h = note_failure-statuses id (err x, mid) r e h
settled_or_same now id remark (ok a, mid) r e h = elim (Option-cases (find_unique id_of id mid)) [
  | inl missing ↦
      note_failure-statuses id (err (not_found id), mid) r e (rw (missing, mark_processed) at h)
  | inr (row, found) ↦ absurd (note_failure-ok_ne id _ r e (rw (found, mark_processed) at h))
]

-- With the kill switch on, a job that throws has settled no row: the status of every row is as the
-- executor left it.
pub process_failure :
    (execute : Exec (List Event) (Unit {0})) (now : ℕ) (id : String) (es r : List Event)
    (e : Failure)
    → process true execute now id es ≡ (err e, r)
    → statuses r ≡ statuses (execute es).1
unfolding process
process_failure execute now id es r e h = settled_or_same now id none (execute es) r e h
