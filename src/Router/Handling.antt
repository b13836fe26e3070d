-- ===== src/Router/Handling.antt =====
-- When the AI answers: the overrides of the conversation and the channel, the organisation's rules,
-- an agent to answer, and the cap.
use mathlib.Core.Path.{subst}
use chat_intelli_api.Base.{
  ℕ, Bool, true, false, not, ◌&&◌, Option, none, some, ◌≡◌, ◌↔◌, refl, inl, inr, arith, is_none,
  Bool-cases,
}
use chat_intelli_api.Base.Table.{find_first, find_unique}
use chat_intelli_api.Conversation.{Conversation}
use chat_intelli_api.Hours.{Clock, is_within_business_hours}
use chat_intelli_api.Router.{
  Organization, Channel, Database, handle, forced_off, forced_on, override_of, serves, active_id,
  used_tokens, reaches_cap, within_cap, with_agent, by_override, in_organization, should_handle,
}

module _ (clock : Clock) (month : ℕ) (c : Conversation) (db : Database) where
  abbrev channel_of : Option Channel
  channel_of = find_unique (λ ch. ch.id) c.channel_id db.channels

  -- The switch of the conversation decides, else that of the channel, else the organisation's,
  -- which counts within the business hours only.
  abbrev pub switched_on : Option Bool → Option Bool → Organization → Bool
  switched_on (some b) channel org = b
  switched_on none (some b) org = b
  switched_on none none org = org.ai_enabled && is_within_business_hours clock org.ai_business_hours

  abbrev pub has_candidate : Bool
  has_candidate = not (is_none (active_id c) && is_none (find_first (serves c.channel_id) db.links))

  abbrev pub below_cap : Organization → Bool
  below_cap org = not (reaches_cap org.ai_monthly_token_cap (used_tokens org.id month db.runs))

  abbrev pub allows : Organization → Bool
  allows org =
      switched_on c.ai_enabled (override_of channel_of) org && (has_candidate && below_cap org)

  within_cap_iff :
      (o : Organization) → (within_cap clock month o db ≡ handle) ↔ (below_cap o ≡ true)
  unfolding within_cap
  within_cap_iff o = (λ h. ground arith, λ h. ground arith)

  with_agent_iff :
      (o : Organization)
      → (with_agent clock month c o db ≡ handle) ↔ (has_candidate && below_cap o ≡ true)
  unfolding with_agent
  with_agent_iff o = (λ h. ground (arith, within_cap_iff o), λ h. ground (arith, within_cap_iff o))

  by_override_iff :
      (conv channel : Option Bool) (o : Organization)
      → (conv ≡ some false → ⊥)
      → (by_override clock month (forced_on conv) channel c o db ≡ handle)
        ↔ (switched_on conv channel o && (has_candidate && below_cap o) ≡ true)
  unfolding by_override
  by_override_iff (some false) channel o live = absurd (live refl)
  by_override_iff (some true) channel o live = with_agent_iff o
  by_override_iff none (some true) o live = with_agent_iff o
  by_override_iff none (some false) o live =
      (λ h. absurd (ground arith), λ h. absurd (ground arith))
  by_override_iff none none o live =
      (λ h. ground (arith, with_agent_iff o), λ h. ground (arith, with_agent_iff o))

  in_organization_iff :
      (org : Option Organization)
      → (c.ai_enabled ≡ some false → ⊥)
      → (in_organization clock month c org db ≡ handle)
        ↔ ((o : Organization) × (org ≡ some o) × (allows o ≡ true))
  unfolding in_organization
  in_organization_iff none live = (λ h. absurd (ground arith), λ h. absurd (ground arith))
  in_organization_iff (some o) live =
      let (there, back) = by_override_iff c.ai_enabled (override_of channel_of) o live in
      (
        λ h. (o, refl, there h),
        λ (p, e, h). let same : p ≡ o = ground arith in back (subst (λ x. allows x ≡ true) same h),
      )

is_forced_off : (x : Option Bool) → forced_off x ≡ true → x ≡ some false
is_forced_off none h = absurd (ground arith)
is_forced_off (some true) h = absurd (ground arith)
is_forced_off (some false) h = refl

-- The AI answers exactly when the organisation is there, the most specific switch that is set is
-- on (the organisation's counts within its business hours only), the conversation names an active
-- agent (whose row is not looked up) or an agent linked to the channel serves it, and the monthly
-- cap of tokens is not reached.
pub should_handle_iff :
    (clock : Clock) (month : ℕ) (c : Conversation) (db : Database)
    → (should_handle clock month c db ≡ handle) ↔ (
        (o : Organization) × (find_unique (λ o. o.id) c.organization_id db.organizations ≡ some o)
        × (allows clock month c db o ≡ true))
unfolding should_handle
should_handle_iff clock month c db = elim (Bool-cases (forced_off c.ai_enabled)) [
  | inl off ↦
      let is_off = is_forced_off c.ai_enabled off in
      (λ h. absurd (ground arith), λ (o, e, h). absurd (denied o is_off h))
  | inr live ↦ rw live (in_organization_iff clock month c db _ (λ is_off. absurd (ground arith)))
]
  where
    denied : (o : Organization) → c.ai_enabled ≡ some false → allows clock month c db o ≡ true → ⊥
    denied o is_off h = ground arith
