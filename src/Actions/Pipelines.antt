-- ===== src/Actions/Pipelines.antt =====
-- The handlers of pipelines (src/modules/automations/actions/handlers/add-to-pipeline.handler.ts,
-- move-pipeline-stage.handler.ts).
pub mod Cards
mod Tests
use Prim.Native.String
use chat_intelli_api.Base.{
  ℕ, String, Bool, true, false, not, ◌&&◌, Option, none, some, List, [], ◌∷◌, ◌++◌, ◌==◌, keep, leb,
  or_else, is_empty, same_id, if◌then◌else◌,
}
use chat_intelli_api.Base.Exec.{Failure, failed, Result, ok, err}
use chat_intelli_api.Base.Texts.{take_text}
use chat_intelli_api.Base.Table.{find_first, find_unique, update_key}
use chat_intelli_api.Base.Order.{order_by}
use chat_intelli_api.Json.{Json, Fields, undefined, bool, str, obj, field, end, get, concat}
use chat_intelli_api.Automation.{Context, Reply, done}
use chat_intelli_api.Actions.{refusal, truthy}

pub data StageType : Type 0 where
  normal won_stage lost_stage : StageType

pub data CardStatus : Type 0 where
  open_card won lost : CardStatus

pub record Pipeline : Type 0 where
  pub id : String
  pub organization_id : String
  pub archived : Bool

pub record Stage : Type 0 where
  pub id : String
  pub pipeline_id : String
  pub type : StageType
  pub order : ℕ

-- The fields that the handlers read or write; `metadata` is left out.
pub record Card : Type 0 where
  pub id : String
  pub organization_id : String
  pub pipeline_id : String
  pub stage_id : String
  pub title : String
  pub status : CardStatus
  pub contact_id : Option String
  pub conversation_id : Option String
  pub closed_at : Option ℕ
  pub updated_at : ℕ

pub record Contact : Type 0 where
  pub id : String
  pub organization_id : String
  pub name : Option String
  pub phone : Option String

pub record Tables : Type 0 where
  pub pipelines : List Pipeline
  pub stages : List Stage
  pub cards : List Card
  pub contacts : List Contact

-- The id of a new card, the time, and the error of the write, if it fails.
pub record Env : Type 0 where
  pub card_id : String
  pub now : ℕ
  pub write_fault : Option String

-- `AddToPipelineParams`
pub record AddParams : Type 0 where
  pub pipeline_id : String
  pub stage_id : Option String
  pub title : Option String

-- `MovePipelineStageParams`
pub record MoveParams : Type 0 where
  pub to_stage_id : String
  pub pipeline_id : Option String

abbrev pub is_open : CardStatus → Bool
is_open open_card = true
is_open _ = false

abbrev is_normal : StageType → Bool
is_normal normal = true
is_normal _ = false

abbrev pub card_key : Card → String
card_key c = c.id

-- The open cards of a contact in a pipeline.
abbrev pub open_of : String → String → String → Card → Bool
open_of org pipeline contact c =
    c.organization_id == org
    && c.pipeline_id == pipeline
    && same_id c.contact_id (some contact)
    && is_open c.status

abbrev first_stage : List Stage → Option Stage
first_stage [] = none
first_stage (s ∷ ss) = some s

abbrev or_first : Option Stage → List Stage → Option Stage
or_first (some s) stages = some s
or_first none stages = first_stage stages

abbrev stage_named : Option String → List Stage → Option Stage
stage_named (some id) stages = find_first (λ s. s.id == id) stages
stage_named none stages = or_first (find_first (λ s. is_normal s.type) stages) stages

abbrev stages_of : String → Tables → List Stage
stages_of pipeline t = order_by (λ s. s.order) (keep (λ s. s.pipeline_id == pipeline) t.stages)

abbrev contact_title : String → Option Contact → String
contact_title id none = concat ("Lead " ∷ take_text 8 id ∷ [])
contact_title id (some c) =
    or_else c.name (or_else c.phone (concat ("Lead " ∷ take_text 8 id ∷ [])))

-- `create`, or what it throws
abbrev pub write_cards : Option String → List Card → Json → Tables → Reply × Tables
write_cards (some m) cards out t = (refusal "unexpected" m, t)
write_cards none cards out t = (done out, record t { cards = cards })

module _ (env : Env) (p : AddParams) (ctx : Context) where
  abbrev title_in : Tables → String
  title_in t = or_else p.title (
      contact_title (ctx.payload).contact_id (
        find_first
          (λ c. c.id == (ctx.payload).contact_id && c.organization_id == ctx.organization_id)
          t.contacts))

  abbrev pub new_card : Pipeline → Stage → Tables → Card
  new_card pipeline stage t = record {
    id = env.card_id;
    organization_id = ctx.organization_id;
    pipeline_id = pipeline.id;
    stage_id = stage.id;
    title = title_in t;
    status = open_card;
    contact_id = some (ctx.payload).contact_id;
    conversation_id = (ctx.payload).conversation_id;
    closed_at = none;
    updated_at = env.now;
  }

  abbrev pub add_unless : Pipeline → Stage → Option Card → Tables → Reply × Tables
  add_unless pipeline stage (some c) t =
      (done (obj (field "cardId" (str c.id) (field "alreadyExists" (bool true) end))), t)
  add_unless pipeline stage none t =
      write_cards env.write_fault (t.cards ++ new_card pipeline stage t ∷ [])
        (obj (
          field "cardId" (str env.card_id)
            (field "pipelineId" (str pipeline.id) (field "stageId" (str stage.id) end))))
        t

  abbrev pub add_at : Pipeline → Option Stage → Tables → Reply × Tables
  add_at pipeline none t = (refusal "invalid_ref" "pipeline has no usable stage", t)
  add_at pipeline (some stage) t =
      add_unless pipeline stage
        (find_first (open_of ctx.organization_id pipeline.id (ctx.payload).contact_id) t.cards) t

  abbrev pub add_in : Option Pipeline → Tables → Reply × Tables
  add_in none t =
      (refusal "invalid_ref" (concat ("pipeline " ∷ p.pipeline_id ∷ " not found in org" ∷ [])), t)
  add_in (some pipeline) t =
      add_at pipeline (stage_named (truthy p.stage_id) (stages_of pipeline.id t)) t

  -- `AddToPipelineHandler.execute`
  unfoldable pub add_to_pipeline : Tables → Reply × Tables
  add_to_pipeline t =
      add_in
        (find_first
          (λ q. q.id == p.pipeline_id && q.organization_id == ctx.organization_id && not q.archived)
          t.pipelines)
        t

-- `orderBy: { updatedAt: 'desc' }`, of which the first is taken
abbrev newer : Card → Option Card → Option Card
newer c none = some c
newer c (some d) = if leb d.updated_at c.updated_at then some c else some d

unfoldable pub newest : List Card → Option Card
newest [] = none
newest (c ∷ cs) = newer c (newest cs)

-- The `updates` for a card that had this status.
abbrev pub moved_to : ℕ → Stage → StageType → CardStatus → Card → Card
moved_to now stage won_stage old c = record c {
  stage_id = stage.id;
  status = won;
  closed_at = some now;
  updated_at = now;
}
moved_to now stage lost_stage old c = record c {
  stage_id = stage.id;
  status = lost;
  closed_at = some now;
  updated_at = now;
}
moved_to now stage normal open_card c = record c { stage_id = stage.id; updated_at = now }
moved_to now stage normal old c = record c {
  stage_id = stage.id;
  status = open_card;
  closed_at = none;
  updated_at = now;
}

abbrev other_pipeline : Stage → Option String → Bool
other_pipeline stage none = false
other_pipeline stage (some q) = not (stage.pipeline_id == q)

module _ (env : Env) (p : MoveParams) (ctx : Context) where
  abbrev pub move_card : Stage → Option Card → Tables → Reply × Tables
  move_card stage none t = (refusal "no_card" "no open card for this contact in target pipeline", t)
  move_card stage (some c) t =
      if c.stage_id == stage.id
      then (done (obj (field "cardId" (str c.id) (field "alreadyOnStage" (bool true) end))), t)
      else write_cards env.write_fault
          (update_key card_key c.id (moved_to env.now stage stage.type c.status) t.cards)
          (obj (
            field "cardId" (str c.id)
              (field "fromStageId" (str c.stage_id) (field "toStageId" (str stage.id) end))))
          t

  abbrev no_stage : Reply
  no_stage = refusal "invalid_ref" (concat ("stage " ∷ p.to_stage_id ∷ " not found in org" ∷ []))

  abbrev pub move_in : Stage → Option Pipeline → Tables → Reply × Tables
  move_in stage none t = (no_stage, t)
  move_in stage (some q) t =
      if not (q.organization_id == ctx.organization_id)
      then (no_stage, t)
      else if other_pipeline stage (truthy p.pipeline_id)
      then (refusal "invalid_params" "toStageId does not belong to pipelineId", t)
      else move_card stage
          (newest
            (keep (open_of ctx.organization_id stage.pipeline_id (ctx.payload).contact_id) t.cards))
          t

  abbrev pub move_to : Option Stage → Tables → Reply × Tables
  move_to none t = (no_stage, t)
  move_to (some stage) t = move_in stage (find_unique (λ q. q.id) stage.pipeline_id t.pipelines) t

  -- `MovePipelineStageHandler.execute`
  unfoldable pub move_pipeline_stage : Tables → Reply × Tables
  unfolding newest
  move_pipeline_stage t = move_to (find_unique (λ s. s.id) p.to_stage_id t.stages) t
