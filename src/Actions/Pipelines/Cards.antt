-- ===== src/Actions/Pipelines/Cards.antt =====
-- A contact has no two open cards in one pipeline.
use Prim.Native.Nat.{ℕ, ◌≤◌}
use mathlib.Core.Path.{subst}
use chat_intelli_api.Base.{
  String, Bool, true, not, Option, none, some, List, [], ◌∷◌, ◌++◌, ◌≡◌, inl, inr, refl, arith,
  ◌==◌, count_if, count_if-append, keep, leb, eq_iff, eq_refl, same_id, Option-cases, Bool-cases,
  if-holds,
}
use chat_intelli_api.Base.Table.{find_first, update_key}
use chat_intelli_api.Json.{Json}
use chat_intelli_api.Automation.{Context, Reply}
use chat_intelli_api.Actions.Pipelines.{
  StageType, normal, won_stage, lost_stage, CardStatus, open_card, won, lost, Pipeline, Stage, Card,
  Tables, Env, AddParams, MoveParams, card_key, is_open, open_of, write_cards, new_card, add_unless,
  add_at, add_in, add_to_pipeline, newest, moved_to, move_card, move_in, move_to,
  move_pipeline_stage,
}

abbrev pub HasOneOpen : Tables → Type 0
HasOneOpen t = (org pipeline contact : String) → count_if (open_of org pipeline contact) t.cards ≤ 1

-- What a query does not find is not there.
count_if-find_first :
    (q : Card → Bool) (cs : List Card) → find_first q cs ≡ none → count_if q cs ≡ 0
unfolding find_first
count_if-find_first q [] h = refl
count_if-find_first q (c ∷ cs) h = elim (Bool-cases (q c)) [
  | inl pass ↦ absurd (ground arith)
  | inr fails ↦ rw fails (omega (arith, count_if-find_first q cs (rw fails at h)))
]

-- Rows that a change does not let pass a test do not make the rows that pass it more.
count_if-update_key :
    (q : Card → Bool) (k : String) (f : Card → Card) (cs : List Card)
    → ((c : Card) → q (f c) ≡ true → q c ≡ true)
    → count_if q (update_key card_key k f cs) ≤ count_if q cs
unfolding update_key
count_if-update_key q k f [] h = omega arith
count_if-update_key q k f (c ∷ cs) h =
    let rest = count_if-update_key q k f cs h in
    elim (Bool-cases (card_key c == k)) [
      | inl same ↦ elim (Bool-cases (q (f c))) [
        | inl pass ↦ rw (same, pass, h c pass) (omega (arith, rest))
        | inr fails ↦ rw (same, fails) (ground (arith, rest))
      ]
      | inr differs ↦ rw differs (ground (arith, rest))
    ]

same_id-some :
    (a : Option String) (s r : String)
    → same_id a (some s) ≡ true
    → same_id a (some r) ≡ true
    → s ≡ r
same_id-some none s r h k = absurd (ground arith)
same_id-some (some a) s r h k = ground (arith, eq_iff a s, eq_iff a r)

-- Two keys whose open cards share one are one.
open_of_key :
    (c : Card) (org pipeline contact org' pipeline' contact' : String)
    → open_of org pipeline contact c ≡ true
    → open_of org' pipeline' contact' c ≡ true
    → (org ≡ org') × (pipeline ≡ pipeline') × (contact ≡ contact')
open_of_key c o q k o' q' k' h h' = (
  ground (arith, eq_iff c.organization_id o, eq_iff c.organization_id o'),
  ground (arith, eq_iff c.pipeline_id q, eq_iff c.pipeline_id q'),
  same_id-some c.contact_id k k' (ground arith) (ground arith),
)

-- A new open card of a key that has none.
adds_one :
    (n : Card) (cs : List Card) (org pipeline contact : String)
    → open_of org pipeline contact n ≡ true
    → count_if (open_of org pipeline contact) cs ≡ 0
    → ((o q k : String) → count_if (open_of o q k) cs ≤ 1)
    → (o q k : String) → count_if (open_of o q k) (cs ++ n ∷ []) ≤ 1
adds_one n cs org pipeline contact is_new absent once o q k = elim (Bool-cases (open_of o q k n)) [
  | inl pass ↦
      let (oe, qe, ke) = open_of_key n org pipeline contact o q k is_new pass in
      let none_yet : count_if (open_of o q k) cs ≡ 0 =
        subst (λ x. count_if (open_of x q k) cs ≡ 0) oe
          (subst (λ x. count_if (open_of org x k) cs ≡ 0) qe
            (subst (λ x. count_if (open_of org pipeline x) cs ≡ 0) ke absent)) in
      rw (count_if-append (open_of o q k) cs (n ∷ []), none_yet, pass) (omega arith)
  | inr fails ↦ rw (count_if-append (open_of o q k) cs (n ∷ []), fails) (omega (arith, once o q k))
]

newest-keep :
    (q : Card → Bool) (cs : List Card) (c : Card) → newest (keep q cs) ≡ some c → q c ≡ true
unfolding newest
newest-keep q [] c h = absurd (ground arith)
newest-keep q (d ∷ cs) c h = elim (Bool-cases (q d)) [
  | inl pass ↦ elim (Option-cases (newest (keep q cs))) [
    | inl alone ↦ let same : d ≡ c = ground arith in subst (λ x. q x ≡ true) same pass
    | inr (e, more) ↦ elim (Bool-cases (leb e.updated_at d.updated_at)) [
      | inl first ↦ let same : d ≡ c = ground arith in subst (λ x. q x ≡ true) same pass
      | inr later ↦
          let same : e ≡ c = ground arith in subst (λ x. q x ≡ true) same (newest-keep q cs e more)
    ]
  ]
  | inr fails ↦ newest-keep q cs c (rw fails at h)
]

-- A card that is open and moves is of its key, and open at most.
moved_to-open :
    (now : ℕ) (stage : Stage) (type : StageType) (old : CardStatus) (org pipeline contact : String)
    → open_card ≡ old
    → (c : Card) → open_of org pipeline contact (moved_to now stage type old c) ≡ true
    → open_of org pipeline contact c ≡ true
moved_to-open now stage normal open_card o q k was c h = h
moved_to-open now stage normal won o q k was c h = absurd (ground arith)
moved_to-open now stage normal lost o q k was c h = absurd (ground arith)
moved_to-open now stage won_stage old o q k was c h = absurd (ground arith)
moved_to-open now stage lost_stage old o q k was c h = absurd (ground arith)

open_of-status :
    (c : Card) (org pipeline contact : String)
    → open_of org pipeline contact c ≡ true
    → open_card ≡ c.status
open_of-status c o q k h = go c.status (ground arith)
  where
    go : (s : CardStatus) → is_open s ≡ true → open_card ≡ s
    go open_card e = refl
    go won e = absurd (ground arith)
    go lost e = absurd (ground arith)

module _ (env : Env) (ctx : Context) where
  write_cards-HasOneOpen :
      (fault : Option String) (cs : List Card) (out : Json) (t : Tables)
      → HasOneOpen t
      → ((org pipeline contact : String) → count_if (open_of org pipeline contact) cs ≤ 1)
      → HasOneOpen (write_cards fault cs out t).1
  write_cards-HasOneOpen (some m) cs out t h k = h
  write_cards-HasOneOpen none cs out t h k = k

  add_unless-HasOneOpen :
      (p : AddParams) (pipeline : Pipeline) (stage : Stage) (o : Option Card) (t : Tables)
      → find_first (open_of ctx.organization_id pipeline.id (ctx.payload).contact_id) t.cards ≡ o
      → HasOneOpen t
      → HasOneOpen (add_unless env p ctx pipeline stage o t).1
  add_unless-HasOneOpen p pipeline stage (some c) t found h = h
  add_unless-HasOneOpen p pipeline stage none t found h =
      write_cards-HasOneOpen env.write_fault (t.cards ++ new_card env p ctx pipeline stage t ∷ []) _
        t h
        (adds_one (new_card env p ctx pipeline stage t) t.cards ctx.organization_id pipeline.id
          (ctx.payload).contact_id
          (rw (eq_refl ctx.organization_id, eq_refl pipeline.id, eq_refl (ctx.payload).contact_id)
            refl)
          (count_if-find_first (open_of ctx.organization_id pipeline.id (ctx.payload).contact_id)
            t.cards found)
          h)

  add_at-HasOneOpen :
      (p : AddParams) (pipeline : Pipeline) (o : Option Stage) (t : Tables)
      → HasOneOpen t
      → HasOneOpen (add_at env p ctx pipeline o t).1
  add_at-HasOneOpen p pipeline none t h = h
  add_at-HasOneOpen p pipeline (some stage) t h = add_unless-HasOneOpen p pipeline stage _ t refl h

  add_in-HasOneOpen :
      (p : AddParams) (o : Option Pipeline) (t : Tables)
      → HasOneOpen t
      → HasOneOpen (add_in env p ctx o t).1
  add_in-HasOneOpen p none t h = h
  add_in-HasOneOpen p (some pipeline) t h = add_at-HasOneOpen p pipeline _ t h

  pub add_to_pipeline-HasOneOpen :
      (p : AddParams) (t : Tables) → HasOneOpen t → HasOneOpen (add_to_pipeline env p ctx t).1
  unfolding add_to_pipeline
  add_to_pipeline-HasOneOpen p t h = add_in-HasOneOpen p _ t h

  move_card-HasOneOpen :
      (p : MoveParams) (stage : Stage) (o : Option Card) (t : Tables)
      → newest
          (keep (open_of ctx.organization_id stage.pipeline_id (ctx.payload).contact_id) t.cards)
        ≡ o
      → HasOneOpen t
      → HasOneOpen (move_card env p ctx stage o t).1
  move_card-HasOneOpen p stage none t found h = h
  move_card-HasOneOpen p stage (some c) t found h =
      let is_found = newest-keep _ t.cards c found in
      let was =
        open_of-status c ctx.organization_id stage.pipeline_id (ctx.payload).contact_id is_found in
      elim (Bool-cases (c.stage_id == stage.id)) [
        | inl stays ↦ rw stays h
        | inr moves ↦ rw moves (
            write_cards-HasOneOpen env.write_fault
              (update_key card_key c.id (moved_to env.now stage stage.type c.status) t.cards) _ t h
              (λ org pipeline contact. omega (
                arith,
                h org pipeline contact,
                count_if-update_key (open_of org pipeline contact) c.id
                    (moved_to env.now stage stage.type c.status) t.cards
                    (moved_to-open env.now stage stage.type c.status org pipeline contact was),
              )))
      ]

  move_in-HasOneOpen :
      (p : MoveParams) (stage : Stage) (o : Option Pipeline) (t : Tables)
      → HasOneOpen t
      → HasOneOpen (move_in env p ctx stage o t).1
  move_in-HasOneOpen p stage none t h = h
  move_in-HasOneOpen p stage (some q) t h =
      if-holds (λ (r : Reply × Tables). HasOneOpen r.1)
        (not (q.organization_id == ctx.organization_id)) _ _ h
        (if-holds (λ (r : Reply × Tables). HasOneOpen r.1) _ _ _ h
          (move_card-HasOneOpen p stage _ t refl h))

  move_to-HasOneOpen :
      (p : MoveParams) (o : Option Stage) (t : Tables)
      → HasOneOpen t
      → HasOneOpen (move_to env p ctx o t).1
  move_to-HasOneOpen p none t h = h
  move_to-HasOneOpen p (some stage) t h = move_in-HasOneOpen p stage _ t h

  pub move_pipeline_stage-HasOneOpen :
      (p : MoveParams) (t : Tables) → HasOneOpen t → HasOneOpen (move_pipeline_stage env p ctx t).1
  unfolding move_pipeline_stage
  move_pipeline_stage-HasOneOpen p t h = move_to-HasOneOpen p _ t h

-- The calls of the two handlers, one after the other.
pub data Call : Type 0 where
  add : Env → AddParams → Context → Call
  move : Env → MoveParams → Context → Call

abbrev step : Call → Tables → Tables
step (add env p ctx) t = (add_to_pipeline env p ctx t).1
step (move env p ctx) t = (move_pipeline_stage env p ctx t).1

abbrev pub run : List Call → Tables → Tables
run [] t = t
run (c ∷ cs) t = run cs (step c t)

-- Where no contact has two open cards in one pipeline of an organisation, none has after any
-- history of calls of the two handlers, whatever their parameters and events: leads do not pile up.
pub run-HasOneOpen : (cs : List Call) (t : Tables) → HasOneOpen t → HasOneOpen (run cs t)
run-HasOneOpen [] t h = h
run-HasOneOpen (add env p ctx ∷ cs) t h =
    run-HasOneOpen cs _ (add_to_pipeline-HasOneOpen env ctx p t h)
run-HasOneOpen (move env p ctx ∷ cs) t h =
    run-HasOneOpen cs _ (move_pipeline_stage-HasOneOpen env ctx p t h)
