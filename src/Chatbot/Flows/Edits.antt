-- ===== src/Chatbot/Flows/Edits.antt =====
-- What the edits of a flow do.
use chat_intelli_api.Base.{
  ℕ, String, Bool, true, false, Option, none, some, List, [], ◌≡◌, refl, ◌⊎◌, ◌==◌, any, is_none,
}
use chat_intelli_api.Base.Exec.{Failure, not_found, forbidden, failed, Result, ok, err}
use chat_intelli_api.Base.Table.{find_unique, update_key}
use chat_intelli_api.Chatbot.{Node, Flow, find_flow}
use chat_intelli_api.Chatbot.Flows.{
  Faults, Tables, UpdateFlow, NodeInput, flow_id, owned, find_one, update_flow, remove_flow,
  taken_type, created_nodes, set_nodes, save_nodes, link_channels,
}

-- The organisation has no such flow.
abbrev pub IsForeign : String → String → Tables → Type 0
IsForeign id organization t =
    (f : Flow) → find_flow id t.flows ≡ some f → (f.organization_id == organization) ≡ false

abbrev Refuses : Result {0} Unit × Tables → Tables → Type 0
Refuses r t = (e : Failure) × (r ≡ (err e, t))

owned_refuses :
    (organization : String) (o : Option Flow) (t : Tables)
    → ((f : Flow) → o ≡ some f → (f.organization_id == organization) ≡ false)
    → (e : Failure) × (owned organization o t ≡ (err e, t))
owned_refuses organization none t h = (not_found "Chatbot flow not found", refl)
owned_refuses organization (some f) t h = (forbidden "Forbidden", rw (h f refl) refl)

find_one_refuses :
    (id organization : String) (t : Tables)
    → IsForeign id organization t
    → (e : Failure) × (find_one id organization t ≡ (err e, t))
unfolding find_one
find_one_refuses id organization t h = owned_refuses organization (find_flow id t.flows) t h

-- A flow that is not the organisation's, or was deleted, can be neither updated nor removed, and
-- neither its nodes nor its channels can be set: each of the calls throws and changes nothing.
pub foreign_flow_stays :
    (faults : Faults) (fresh : ℕ → String) (id organization : String) (dto : UpdateFlow)
    (inputs : List NodeInput) (channels : List String) (t : Tables)
    → IsForeign id organization t
    → (e : Failure) × (update_flow id organization dto t ≡ (err e, t))
      × (remove_flow id organization t ≡ (err e, t))
      × (save_nodes faults fresh id organization inputs t ≡ (err e, t))
      × (link_channels id organization channels t ≡ (err e, t))
unfolding update_flow remove_flow save_nodes link_channels
foreign_flow_stays faults fresh id organization dto inputs channels t foreign =
    let (e, refused) = find_one_refuses id organization t foreign in
    (e, rw refused refl, rw refused refl, rw refused refl, rw refused refl)

-- Prisma does not take the node.
abbrev pub is_refused : NodeInput → Bool
is_refused i = is_none (taken_type i)

-- The outcomes of a replacement of the nodes.
abbrev pub IsReplaced :
    (ℕ → String) → String → List NodeInput → Tables → Result {0} Unit × Tables → Type 0
IsReplaced fresh id inputs t r =
    (nodes : List Node) × (created_nodes fresh 0 inputs ≡ some nodes)
    × (r ≡ (ok tt, record t { flows = update_key flow_id id (set_nodes nodes) t.flows }))
    × ((to : String)
        → ((n : ℕ) → (fresh n == to) ≡ false)
        → find_unique (λ m. m.id) to nodes ≡ none)

-- Everything that a failure of the creation can come from.
abbrev pub IsEmptied : Faults → String → List NodeInput → Tables → Result {0} Unit × Tables → Type 0
IsEmptied faults id inputs t r =
    (e : Failure) × ((any is_refused inputs ≡ true)
      ⊎ ((m : String) × (faults.create_fault ≡ some m)))
    × (r ≡ (err e, record t { flows = update_key flow_id id (set_nodes []) t.flows }))

abbrev pub IsUntouched : Faults → Tables → Result {0} Unit × Tables → Type 0
IsUntouched faults t r = (m : String) × (faults.delete_fault ≡ some m) × (r ≡ (err (failed m), t))

abbrev pub Replacement :
    Faults → (ℕ → String) → String → List NodeInput → Tables → Result {0} Unit × Tables → Type 0
Replacement faults fresh id inputs t r =
    IsReplaced fresh id inputs t r ⊎ (IsEmptied faults id inputs t r ⊎ IsUntouched faults t r)
