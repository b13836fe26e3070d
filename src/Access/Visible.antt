-- ===== src/Access/Visible.antt =====
-- A member sees a channel by a grant, or by an owner's or an admin's right on one that is open.
use chat_intelli_api.Base.{
  ap, sym, ◌∙◌, eq_iff, String, Bool, true, false, ◌&&◌, ◌||◌, ◌≡◌, refl, some, List, [], ◌∷◌, ◌==◌,
  arith, inl, inr, any, keep, contains, map, is_empty, Bool-cases,
}
use chat_intelli_api.Access.{
  Role, owner, admin, agent, everyone, same_visibility, Channel, Grant, Database, is_bypass_role,
  is_live, is_private, has_grant, open_to, channel_id_of, granted_ids, bypass_access,
  get_accessible_channel_ids, has_access,
}

-- A right to see a channel.
abbrev pub may_see : String → Role → List Grant → Channel → Bool
may_see member role grants c =
    has_grant member grants c.id || (is_bypass_role role && same_visibility c.visibility everyone)

-- A live channel of the organisation with an id.
abbrev pub is_known : String → String → Channel → Bool
is_known org id c = is_live org c && c.id == id

pub contains-granted_ids :
    (member channel : String) (grants : List Grant)
    → contains (granted_ids member grants) channel ≡ has_grant member grants channel
contains-granted_ids member channel [] = refl
contains-granted_ids member channel (g ∷ grants) =
    ground (arith, contains-granted_ids member channel grants)

module _ (member org id : String) (grants : List Grant) where
  abbrev sees : Role → Channel → Bool
  sees role c = is_known org id c && may_see member role grants c

  -- With grants only, a known channel is seen by a grant for its id.
  any-agent :
      (cs : List Channel)
      → any (sees agent) cs ≡ (any (is_known org id) cs && has_grant member grants id)
  any-agent [] = refl
  any-agent (c ∷ cs) = elim (Bool-cases (c.id == id)) [
    | inr other ↦ ground (arith, any-agent cs, other)
    | inl same ↦
        let it : has_grant member grants c.id ≡ has_grant member grants id =
          ap (has_grant member grants) (ground (arith, eq_iff c.id id)) in
        ground (arith, any-agent cs, same, it)
  ]

  -- With a grant for its id, a known channel is seen whatever the role.
  pub any-granted :
      (role : Role) (cs : List Channel)
      → has_grant member grants id ≡ true
      → any (sees role) cs ≡ any (is_known org id) cs
  any-granted role [] granted = refl
  any-granted role (c ∷ cs) granted = elim (Bool-cases (c.id == id)) [
    | inr other ↦ ground (arith, any-granted role cs granted, other)
    | inl same ↦
        let it : has_grant member grants c.id ≡ has_grant member grants id =
          ap (has_grant member grants) (ground (arith, eq_iff c.id id)) in
        ground (arith, any-granted role cs granted, same, it, granted)
  ]

  -- The ids of the slow path are those of the known channels that are seen.
  contains-slow :
      (role : Role) (cs : List Channel)
      → is_bypass_role role ≡ true
      → contains (map channel_id_of (keep (λ c. is_live org c && open_to member grants c) cs)) id
        ≡ any (sees role) cs
  contains-slow role [] bypass = refl
  contains-slow role (c ∷ cs) bypass = ground (arith, contains-slow role cs bypass, bypass)

  -- Without a private channel every known channel is seen.
  any-open :
      (role : Role) (cs : List Channel)
      → is_bypass_role role ≡ true
      → any (λ c. is_live org c && is_private c) cs ≡ false
      → any (is_known org id) cs ≡ true
      → any (sees role) cs ≡ true
  any-open role [] bypass open_all known = absurd (ground arith)
  any-open role (c ∷ cs) bypass open_all known =
      ground (arith, any-open role cs bypass, bypass, open_all, known)

bypass_iff :
    (member org id : String) (role : Role) (db : Database)
    → is_bypass_role role ≡ true
    → any (is_known org id) db.channels ≡ true
    → has_access (bypass_access member org db) id
      ≡ any (sees member org id db.grants role) db.channels
bypass_iff member org id role db bypass known =
    elim (Bool-cases (any (λ c. is_live org c && is_private c) db.channels)) [
      | inl closed ↦ rw closed (contains-slow member org id db.grants role db.channels bypass)
      | inr none_closed ↦
          rw
            (
              none_closed,
              any-open member org id db.grants role db.channels bypass none_closed known,
            )
            refl
    ]

-- For an id of a live channel of the organisation, whose name is not empty: what the service
-- returns lets a member see the channel exactly when the member has a grant for it, or is an owner
-- or an admin and the channel is not private; so a private channel is seen by a grant only.
pub accessible_iff :
    (member org id : String) (role : Role) (db : Database)
    → is_empty org ≡ false
    → any (is_known org id) db.channels ≡ true
    → has_access (get_accessible_channel_ids member role (some org) db) id
      ≡ any (λ c. is_known org id c && may_see member role db.grants c) db.channels
unfolding get_accessible_channel_ids
accessible_iff member org id agent db named known =
    contains-granted_ids member id db.grants
    ∙ sym (
        any-agent member org id db.grants db.channels
        ∙ ap (λ b. b && has_grant member db.grants id) known)
accessible_iff member org id owner db named known =
    rw (named, named) (bypass_iff member org id owner db refl known)
accessible_iff member org id admin db named known =
    rw (named, named) (bypass_iff member org id admin db refl known)
