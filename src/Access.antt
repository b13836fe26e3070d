-- ===== src/Access.antt =====
-- Who may see which channel (src/modules/iam/channel-access/channel-access.service.ts).
pub mod Visible
pub mod Granted
pub mod Roster
pub mod Kept
mod Tests
use chat_intelli_api.Base.{
  ℕ, String, Bool, true, false, not, ◌&&◌, ◌||◌, Option, none, some, List, [], ◌∷◌, ◌++◌, ◌==◌, any,
  all, keep, contains, count_if, eqb, is_empty, is_none, map, if◌then◌else◌,
}
use chat_intelli_api.Base.Table.{find_first, update_many}
use chat_intelli_api.Base.Exec.{Failure, not_found, forbidden, failed, Result, ok, err, Exec}

-- OrgRole
pub data Role : Type 0 where
  owner admin agent : Role

pub data Visibility : Type 0 where
  everyone private_channel : Visibility

abbrev pub same_visibility : Visibility → Visibility → Bool
same_visibility everyone everyone = true
same_visibility private_channel private_channel = true
same_visibility _ _ = false

pub record Channel : Type 0 where
  pub id : String
  pub organization_id : String
  pub visibility : Visibility
  pub is_deleted : Bool

-- A row of UserOrganization; whether its user is active and not deleted.
pub record Member : Type 0 where
  pub id : String
  pub organization_id : String
  pub user_id : String
  pub role : Role
  pub is_active : Bool

-- A row of ChannelAgent, which is unique in channel and member.
pub record Grant : Type 0 where
  pub channel_id : String
  pub member_id : String
  pub granted_by : Option String

pub record Conversation : Type 0 where
  pub id : String
  pub channel_id : String

pub record Database : Type 0 where
  pub channels : List Channel
  pub members : List Member
  pub grants : List Grant
  pub conversations : List Conversation

-- ChannelAccess
pub data Access : Type 0 where
  all_channels : Access
  only : List String → Access

-- `isBypassRole`
abbrev pub is_bypass_role : Role → Bool
is_bypass_role owner = true
is_bypass_role admin = true
is_bypass_role agent = false

abbrev pub is_live : String → Channel → Bool
is_live org c = c.organization_id == org && not c.is_deleted

abbrev pub is_grant : String → String → Grant → Bool
is_grant member channel g = g.member_id == member && g.channel_id == channel

-- Whether a member has a grant for a channel.
abbrev pub has_grant : String → List Grant → String → Bool
has_grant member grants channel = any (is_grant member channel) grants

abbrev pub is_private : Channel → Bool
is_private c = same_visibility c.visibility private_channel

-- The WHERE clause of the slow path.
abbrev open_to : String → List Grant → Channel → Bool
open_to member grants c =
    same_visibility c.visibility everyone || (is_private c && has_grant member grants c.id)

abbrev pub channel_id_of : Channel → String
channel_id_of c = c.id

abbrev pub granted_ids : String → List Grant → List String
granted_ids member grants = map (λ g. g.channel_id) (keep (λ g. g.member_id == member) grants)

-- The fast path, by whether the organisation has private channels.
abbrev bypass_access : String → String → Database → Access
bypass_access member org db =
    if any (λ c. is_live org c && is_private c) db.channels
    then only
        (map channel_id_of (keep (λ c. is_live org c && open_to member db.grants c) db.channels))
    else all_channels

abbrev organization_of : Option Member → Option String
organization_of none = none
organization_of (some m) = some m.organization_id

abbrev known_or_found : Option String → String → Database → Option String
known_or_found none member db = organization_of (find_first (λ m. m.id == member) db.members)
known_or_found (some org) member db =
    if is_empty org then organization_of (find_first (λ m. m.id == member) db.members) else some org

abbrev in_organization : String → Option String → Database → Access
in_organization member none db = only []
in_organization member (some org) db = if is_empty org then only [] else bypass_access member org db

-- `getAccessibleChannelIds`
unfoldable pub get_accessible_channel_ids : String → Role → Option String → Database → Access
get_accessible_channel_ids member role org db =
    if not (is_bypass_role role)
    then only (granted_ids member db.grants)
    else in_organization member (known_or_found org member db) db

-- `hasAccess`
abbrev pub has_access : Access → String → Bool
has_access all_channels channel = true
has_access (only ids) channel = contains ids channel

-- `materializeAccess`
unfoldable pub materialize_access : String → Access → Database → List String
materialize_access org access db =
    keep (λ id. has_access access id) (map channel_id_of (keep (is_live org) db.channels))

-- `getAccessibleChannelIdSet`
pub get_accessible_channel_id_set : String → Role → String → Database → List String
unfolding materialize_access get_accessible_channel_ids
get_accessible_channel_id_set member role org db =
    materialize_access org (get_accessible_channel_ids member role (some org) db) db

-- `assertChannelAccess`
abbrev pub assert_channel_access : Access → String → Result (Unit {0})
assert_channel_access access channel =
    if has_access access channel
    then ok tt
    else err (forbidden "You do not have access to this channel")

abbrev in_channel : Access → Option Conversation → Result (Unit {0})
in_channel access none = err (not_found "Conversation not found")
in_channel access (some c) = assert_channel_access access c.channel_id

-- `assertConversationAccess`
pub assert_conversation_access : Access → String → Database → Result (Unit {0})
assert_conversation_access all_channels conversation db = ok tt
assert_conversation_access (only ids) conversation db =
    in_channel (only ids) (find_first (λ c. c.id == conversation) db.conversations)

-- The query of `getMembership`, which throws if there is no member.
abbrev pub membership : String → String → Database → Option Member
membership org user db = find_first (λ m. m.user_id == user && m.organization_id == org) db.members

-- What `setMemberChannels` returns.
pub record Diff : Type 0 where
  pub added : List String
  pub removed : List String
  pub user_id : String

abbrev distinct : List String → List String
distinct [] = []
distinct (x ∷ xs) = let rest = distinct xs in if contains rest x then rest else x ∷ rest

abbrev pub without : String → List String → List Grant → List Grant
without member ids grants =
    keep (λ g. not (g.member_id == member && contains ids g.channel_id)) grants

-- `channelAgent.create`, which the unique index refuses if the pair is there.
abbrev pub new_grant : String → String → String → Grant
new_grant member by channel = record {
  channel_id = channel;
  member_id = member;
  granted_by = some by;
}

abbrev pub create_grants : String → String → List String → List Grant → Result (List Grant)
create_grants member by [] grants = ok grants
create_grants member by (id ∷ ids) grants =
    let rest = create_grants member by ids (grants ++ new_grant member by id ∷ []) in
    if has_grant member grants id then err (failed "Unique constraint failed") else rest

abbrev written : Diff → Result (List Grant) → Exec Database Diff
written diff (err e) db = (err e, db)
written diff (ok grants) db = (ok diff, record db { grants = grants })

-- The diff, and the transaction that writes it.
abbrev pub diff_of : Member → List String → List String → List Grant → Diff
diff_of m ids scope grants = record {
  added = keep (λ id. not (contains (granted_ids m.id grants) id)) ids;
  removed =
      keep (λ id. contains scope id && not (contains ids id)) (distinct (granted_ids m.id grants));
  user_id = m.user_id;
}

write_diff : Member → String → Diff → Exec Database Diff
write_diff m by diff db =
    written diff (create_grants m.id by diff.added (without m.id diff.removed db.grants)) db

set_in_scope : Member → String → List String → List String → Exec Database Diff
unfolding write_diff
set_in_scope m by ids scope db =
    if any (λ id. not (contains scope id)) ids
    then (err (forbidden "You cannot grant channels you do not have access to."), db)
    else write_diff m by (diff_of m ids scope db.grants) db

set_for : Option Member → String → List String → List String → Exec Database Diff
unfolding set_in_scope
set_for none by ids scope db = (err (not_found "Member not found in this organization"), db)
set_for (some m) by ids scope db = set_in_scope m by ids scope db

-- `setMemberChannels`
unfoldable pub set_member_channels :
    String → String → List String → String → Access → Exec Database Diff
unfolding set_for
set_member_channels org user ids by access db =
    set_for (membership org user db) by ids (materialize_access org access db) db
