-- ===== src/Pending/Executor/Life.antt =====
-- The life of an action: what every call does to it.
pub mod Sweep
pub mod Calls
use mathlib.Core.Option
use chat_intelli_api.Base.{
  ℕ, String, Bool, true, false, ◌≡◌, refl, ap, ◌∙◌, Option, none, some, List, [], ◌∷◌, ◌++◌, ◌==◌,
  ◌||◌, arith, inl, inr, eq_iff, Bool-cases, Option-cases, if◌then◌else◌, is_empty,
}
use chat_intelli_api.Base.Table.{
  find_unique, find_unique-key, update_key, update_many, find_unique-update_key,
  find_unique-update_many, find_unique-append,
}
use chat_intelli_api.Base.Exec.{Result, ok, err}
use chat_intelli_api.Json.{Json}
use chat_intelli_api.Base.Texts.{trim}
use chat_intelli_api.Pending.{
  pending, approved, same_status, Action, CreateInput, Store, action_id, overwrite, save,
  is_expired, created, create, mark_expired, mark_approved, approve, mark_rejected, reject, write,
  decide, returning, enqueue_execution,
}
use chat_intelli_api.Pending.Executor.{
  Database, HttpTool, run_tool, execute_transfer_to_human, execute_http_skill, execute_found,
  settle, or_null, failure_of, transfer_found, conversation_key, Conversation, mark_executed,
  note_failure, execute_pending, is_overdue, expire_overdue_actions,
}

-- What may happen to the action of an id, where `none` is no action.
pub data Change : Option Action → Option Action → Type 0 where
  unchanged : (o : Option Action) → Change o o
  made : (id : String) (now : ℕ) (input : CreateInput) → Change none (some (created id now input))
  approves :
      (user : String) (now : ℕ) (a : Action)
      → a.status ≡ pending
      → is_expired now a ≡ false
      → Change (some a) (some (mark_approved user now a))
  rejects :
      (user : String) (now : ℕ) (reason : String) (a : Action)
      → a.status ≡ pending
      → is_expired now a ≡ false
      → is_empty (trim reason) ≡ false
      → Change (some a) (some (mark_rejected user now reason a))
  expires :
      (now : ℕ) (a : Action)
      → a.status ≡ pending
      → is_expired now a ≡ true
      → Change (some a) (some (mark_expired a))
  executes :
      (result : Json) (a : Action)
      → a.status ≡ approved
      → Change (some a) (some (mark_executed result a))
  fails :
      (result : Json) (a : Action)
      → a.status ≡ approved
      → Change (some a) (some (note_failure result a))

abbrev pub of_id : String → List Action → Option Action
of_id k rows = find_unique action_id k rows

-- An update of the action of one id changes that action alone.
update-Change :
    (k id : String) (rows : List Action) (r : Action) (f : Action → Action)
    → ((x : Action) → action_id (f x) ≡ action_id x)
    → of_id id rows ≡ some r
    → Change (some r) (some (f r))
    → Change (of_id k rows) (of_id k (update_key action_id id f rows))
update-Change k id rows r f same found change = elim (Bool-cases (id == k)) [
  | inr other ↦
      rw (find_unique-update_key action_id id k f rows same, other) (unchanged (of_id k rows))
  | inl it ↦
      let there : of_id k rows ≡ some r = ground (arith, eq_iff id k) in
      rw (find_unique-update_key action_id id k f rows same, it, there) change
]

save-Change :
    (k : String) (now : ℕ) (rows : List Action) (r b : Action)
    → of_id r.id rows ≡ some r
    → b.id ≡ r.id
    → Change (some r) (some (overwrite b r))
    → Change (of_id k rows) (of_id k (save now b rows))
unfolding save
save-Change k now rows r b found same change =
    rw (same, found, save) (update-Change k r.id rows r (overwrite b) (λ x. refl) found change)

actions-enqueue_execution :
    (fault : Bool) (id : String) (s : Store) → (enqueue_execution fault id s).actions ≡ s.actions
actions-enqueue_execution true id s = refl
actions-enqueue_execution false id s = refl

save_found :
    (k id : String) (now : ℕ) (rows : List Action) (r b : Action)
    → of_id id rows ≡ some r
    → b.id ≡ r.id
    → Change (some r) (some (overwrite b r))
    → Change (of_id k rows) (of_id k (save now b rows))
save_found k id now rows r b found same change =
    save-Change k now rows r b
      (ap (λ j. of_id j rows) (find_unique-key action_id id rows r found) ∙ found) same change

insert-Change :
    (k : String) (rows : List Action) (id : String) (now : ℕ) (input : CreateInput)
    → of_id id rows ≡ none
    → Change (of_id k rows) (of_id k (rows ++ created id now input ∷ []))
unfolding find_unique
insert-Change k rows id now input fresh = elim (Option-cases (of_id k rows)) [
  | inr (a, there) ↦
      rw (find_unique-append action_id k rows (created id now input), there) (unchanged (some a))
  | inl gone ↦ elim (Bool-cases (id == k)) [
    | inl it ↦
        rw (find_unique-append action_id k rows (created id now input), gone, it)
          (made id now input)
    | inr other ↦
        rw (find_unique-append action_id k rows (created id now input), gone, other)
          (unchanged none)
  ]
]

module _ (k : String) (s : Store) where
  create-Change :
      (id : String) (now : ℕ) (input : CreateInput)
      → of_id id s.actions ≡ none
      → Change (of_id k s.actions) (of_id k (create id now input s).1.actions)
  unfolding create save
  create-Change id now input fresh = rw fresh (insert-Change k s.actions id now input fresh)

  decide-Change :
      (verb : String) (now : ℕ) (id : String) (o : Option Action) (change : Action → Store → Store)
      (g : Action → Action)
      → of_id id s.actions ≡ o
      → ((a : Action)
          → of_id id s.actions ≡ some a
          → a.status ≡ pending
          → is_expired now a ≡ false
          → Change (of_id k s.actions) (of_id k (change a s).actions))
      → Change (of_id k s.actions) (of_id k (returning g (decide verb now o change s)).1.actions)
  decide-Change verb now id none change g found decided = unchanged (of_id k s.actions)
  decide-Change verb now id (some a) change g found decided =
      elim (Bool-cases (same_status a.status pending)) [
        | inr other ↦ rw other (unchanged (of_id k s.actions))
        | inl same ↦
            let is_pending : a.status ≡ pending = ground arith in
            elim (Bool-cases (is_expired now a)) [
              | inl late ↦
                  rw (same, late)
                    (save_found k id now s.actions a (mark_expired a) found refl
                      (expires now a is_pending late))
              | inr early ↦ rw (same, early) (decided a found is_pending early)
            ]
      ]

  approve-Change :
      (fault : Bool) (id user : String) (now : ℕ)
      → Change (of_id k s.actions) (of_id k (approve fault id user now s).1.actions)
  unfolding approve
  approve-Change fault id user now =
      decide-Change "approved" now id (of_id id s.actions)
        (λ a t. enqueue_execution fault id (write now (mark_approved user now a) t))
        (mark_approved user now) refl
        (λ a found is_pending early.
          rw (actions-enqueue_execution fault id (write now (mark_approved user now a) s)) (
            save_found k id now s.actions a (mark_approved user now a) found refl
              (approves user now a is_pending early)))

  reject-Change :
      (id user reason : String) (now : ℕ)
      → Change (of_id k s.actions) (of_id k (reject id user reason now s).1.actions)
  unfolding reject
  reject-Change id user reason now = elim (Bool-cases (is_empty reason || is_empty (trim reason))) [
    | inl missing ↦ rw missing (unchanged (of_id k s.actions))
    | inr given ↦
        let shown : is_empty (trim reason) ≡ false = ground arith in
        rw given (
          decide-Change "rejected" now id (of_id id s.actions)
            (λ a t. write now (mark_rejected user now reason a) t) (mark_rejected user now reason)
            refl
            (λ a found is_pending early.
              save_found k id now s.actions a (mark_rejected user now reason a) found refl
                (rejects user now reason a is_pending early shown)))
  ]
