-- ===== src/Access/Roster.antt =====
-- The grants and the visibility of one channel
-- (src/modules/iam/channel-access/channel-access.service.ts).
use chat_intelli_api.Base.{
  String, Bool, not, ◌&&◌, ◌||◌, Option, none, some, List, [], ◌∷◌, ◌++◌, ◌==◌, any, keep,
  if◌then◌else◌,
}
use chat_intelli_api.Base.Table.{find_first, update_key}
use chat_intelli_api.Base.Exec.{Failure, not_found, Result, ok, err, Exec}
use chat_intelli_api.Access.{
  Role, Visibility, everyone, private_channel, same_visibility, Channel, Member, Grant, Access,
  Database, is_bypass_role, is_live, is_private, is_grant, has_grant, channel_id_of, granted_ids,
  materialize_access, membership,
}

abbrev pub live_channel : String → String → Database → Option Channel
live_channel org channel db = find_first (λ c. c.id == channel && is_live org c) db.channels

abbrev no_channel : Failure
no_channel = not_found "Channel not found"

abbrev no_member : Failure
no_member = not_found "Member not found in this organization"

-- `upsert` with an empty update.
abbrev pub upsert_grant : Grant → List Grant → List Grant
upsert_grant g grants =
    if has_grant g.member_id grants g.channel_id then grants else grants ++ g ∷ []

abbrev add_for : Option Channel → Option Member → String → String → Exec Database String
add_for none member channel by db = (err no_channel, db)
add_for (some c) none channel by db = (err no_member, db)
add_for (some c) (some m) channel by db = (
  ok m.user_id,
  record db {
    grants =
        upsert_grant (record { channel_id = channel; member_id = m.id; granted_by = some by })
          db.grants;
  },
)

-- `addChannelAgent`
pub add_channel_agent : String → String → String → String → Exec Database String
add_channel_agent org channel user by db =
    add_for (live_channel org channel db) (membership org user db) channel by db

abbrev remove_for : Option Member → String → Exec Database String
remove_for none channel db = (err no_member, db)
remove_for (some m) channel db =
    (ok m.user_id, record db { grants = keep (λ g. not (is_grant m.id channel g)) db.grants })

-- `removeChannelAgent`
pub remove_channel_agent : String → String → String → Exec Database String
remove_channel_agent org channel user db = remove_for (membership org user db) channel db

abbrev pub set_visible : Visibility → Channel → Channel
set_visible visibility c = record c { visibility = visibility }

-- The caller's own grant, when the channel becomes private.
abbrev own_grant : Visibility → String → String → List Grant → List Grant
own_grant everyone channel caller grants = grants
own_grant private_channel channel caller grants =
    upsert_grant (record { channel_id = channel; member_id = caller; granted_by = none }) grants

abbrev visibility_for :
    Option Channel → String → Visibility → String → Exec Database (String × Visibility)
visibility_for none channel visibility caller db = (err no_channel, db)
visibility_for (some c) channel visibility caller db = (
  ok (c.id, visibility),
  if same_visibility c.visibility visibility then db else record db {
    channels = update_key channel_id_of channel (set_visible visibility) db.channels;
    grants = own_grant visibility channel caller db.grants;
  },
)

-- `setChannelVisibility`
unfoldable pub set_channel_visibility :
    String → String → Visibility → String → Exec Database (String × Visibility)
set_channel_visibility channel org visibility caller db =
    visibility_for (live_channel org channel db) channel visibility caller db

-- Members who may be given a conversation of the channel.
abbrev is_eligible : String → Channel → List Grant → Member → Bool
is_eligible org c grants m =
    m.organization_id == org
    && (m.is_active
        && ((not (is_private c) && is_bypass_role m.role) || has_grant m.id grants c.id))

abbrev eligible_for : Option Channel → String → Database → Result (List Member)
eligible_for none org db = err no_channel
eligible_for (some c) org db = ok (keep (is_eligible org c db.grants) db.members)

-- `listEligibleAgents`, as the members.
pub list_eligible_agents : String → String → Database → Result (List Member)
list_eligible_agents org channel db = eligible_for (live_channel org channel db) org db

abbrev agents_for : Option Channel → String → Database → Result (List Grant)
agents_for none channel db = err no_channel
agents_for (some c) channel db = ok (keep (λ g. g.channel_id == channel) db.grants)

-- `listChannelAgents`, as the grants.
pub list_channel_agents : String → String → Database → Result (List Grant)
list_channel_agents org channel db = agents_for (live_channel org channel db) channel db

-- What `listMemberChannels` returns.
pub record MemberChannels : Type 0 where
  pub bypass : Bool
  pub role : Role
  pub channel_ids : List String

abbrev channels_for : Option Member → List String → Database → Result MemberChannels
channels_for none scope db = err no_member
channels_for (some m) scope db = ok (record {
  bypass = is_bypass_role m.role;
  role = m.role;
  channel_ids = keep (λ id. any (λ s. s == id) scope) (granted_ids m.id db.grants);
})

-- `listMemberChannels`
pub list_member_channels : String → String → Access → Database → Result MemberChannels
list_member_channels org user access db =
    channels_for (membership org user db) (materialize_access org access db) db
