-- ===== src/Access/Tests.antt =====
-- One organisation with an open and a private channel.
use chat_intelli_api.Base.{
  String, true, false, not, ◌&&◌, ◌≡◌, ◌⊎◌, refl, some, List, [], ◌∷◌, any, contains, ◌==◌,
  if◌then◌else◌,
}
use chat_intelli_api.Base.Exec.{Failure, ok, err}
use chat_intelli_api.Access.{
  owner, everyone, private_channel, Member, Diff, only, Database, get_accessible_channel_ids,
  has_access, has_grant, membership, materialize_access, set_member_channels,
}
use chat_intelli_api.Access.Visible.{is_known, may_see, accessible_iff}
use chat_intelli_api.Access.Granted.{set_member_channels_outcome}

abbrev database : Database
database = record {
  channels =
      record { id = "open"; organization_id = "org"; visibility = everyone; is_deleted = false }
      ∷ record {
        id = "secret";
        organization_id = "org";
        visibility = private_channel;
        is_deleted = false;
      }
      ∷ [];
  members =
      record { id = "m1"; organization_id = "org"; user_id = "bia"; role = owner; is_active = true }
      ∷ [];
  grants = [];
  conversations = [];
}

accessible_iff_example :
    has_access (get_accessible_channel_ids "m1" owner (some "org") database) "secret"
    ≡ any (λ c. is_known "org" "secret" c && may_see "m1" owner [] c) database.channels
accessible_iff_example = accessible_iff "m1" "org" "secret" owner database refl refl

abbrev asked : List String
asked = "open" ∷ []

set_member_channels_outcome_example :
    ((e : Failure) × (set_member_channels "org" "bia" asked "caller" (only asked) database
        ≡ (err e, database)))
    ⊎ ((m : Member) × (d : Diff) × (r : Database) × (membership "org" "bia" database ≡ some m)
        × (set_member_channels "org" "bia" asked "caller" (only asked) database ≡ (ok d, r))
        × (any (λ id. not (contains (materialize_access "org" (only asked) database) id)) asked
            ≡ false)
        × ((q k : String)
            → has_grant q r.grants k ≡ (
                if m.id == q && contains (materialize_access "org" (only asked) database) k
                then contains asked k
                else has_grant q [] k)))
set_member_channels_outcome_example =
    set_member_channels_outcome "org" "bia" asked "caller" (only asked) database
