-- ===== src/Access/Kept.antt =====
-- Making a channel private does not lock out the member who does it.
use chat_intelli_api.Base.{
  ◌∙◌, eq_refl, String, true, false, ◌&&◌, ◌≡◌, refl, none, some, List, [], ◌∷◌, ◌==◌, arith, inl,
  inr, any, any-append, is_empty, Bool-cases,
}
use chat_intelli_api.Base.Table.{find_first, update_key}
use chat_intelli_api.Access.{
  Role, Visibility, everyone, private_channel, Channel, Grant, Database, is_live, is_grant,
  has_grant, has_access, channel_id_of, get_accessible_channel_ids,
}
use chat_intelli_api.Access.Visible.{is_known, accessible_iff, any-granted}
use chat_intelli_api.Access.Roster.{live_channel, upsert_grant, set_visible, set_channel_visibility}

known_if_found :
    (org id : String) (cs : List Channel) (c : Channel)
    → find_first (λ x. x.id == id && is_live org x) cs ≡ some c
    → any (is_known org id) cs ≡ true
unfolding find_first
known_if_found org id [] c h = absurd (ground arith)
known_if_found org id (x ∷ cs) c h = ground (arith, known_if_found org id cs c)

-- A change of visibility leaves the known channels known.
known_after :
    (org id : String) (v : Visibility) (cs : List Channel)
    → any (is_known org id) (update_key channel_id_of id (set_visible v) cs)
      ≡ any (is_known org id) cs
unfolding update_key
known_after org id v [] = refl
known_after org id v (c ∷ cs) = ground (arith, known_after org id v cs)

has_grant-upsert_grant :
    (g : Grant) (grants : List Grant)
    → has_grant g.member_id (upsert_grant g grants) g.channel_id ≡ true
has_grant-upsert_grant g grants = elim (Bool-cases (has_grant g.member_id grants g.channel_id)) [
  | inl there ↦ rw there there
  | inr new ↦ rw new (
      ground (
        arith,
        any-append (is_grant g.member_id g.channel_id) grants (g ∷ []),
        eq_refl g.member_id,
        eq_refl g.channel_id,
      ))
]

-- Where a live channel of an organisation with a name that is not empty is open, making it private
-- leaves it visible to the member who does it, whatever the member's role.
pub set_channel_visibility-keeps_caller :
    (channel org caller : String) (role : Role) (db : Database) (c : Channel)
    → is_empty org ≡ false
    → live_channel org channel db ≡ some c
    → c.visibility ≡ everyone
    → has_access
        (get_accessible_channel_ids caller role
          (some org)
          (set_channel_visibility channel org private_channel caller db).1)
        channel
      ≡ true
unfolding set_channel_visibility
set_channel_visibility-keeps_caller channel org caller role db c named found was_open =
    let g : Grant = record { channel_id = channel; member_id = caller; granted_by = none } in
    let after : Database = record db {
      channels = update_key channel_id_of channel (set_visible private_channel) db.channels;
      grants = upsert_grant g db.grants;
    } in
    let known : any (is_known org channel) after.channels ≡ true =
      known_after org channel private_channel db.channels
      ∙ known_if_found org channel db.channels c found in
    rw (found, was_open)
      (accessible_iff caller org channel role after named known
        ∙ any-granted caller org channel after.grants role after.channels
            (has_grant-upsert_grant g db.grants)
        ∙ known)
