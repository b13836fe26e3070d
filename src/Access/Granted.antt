-- ===== src/Access/Granted.antt =====
-- Setting the channels of a member sets exactly those that the caller sees.
use chat_intelli_api.Base.{
  ap, eq_iff, String, Bool, true, false, not, ◌&&◌, ◌||◌, ◌≡◌, refl, some, List, [], ◌∷◌, ◌++◌,
  ◌==◌, arith, inl, inr, any, any-append, keep, contains, Bool-cases, Option-cases, ◌⊎◌,
  if◌then◌else◌,
}
use chat_intelli_api.Base.Exec.{Failure, not_found, forbidden, ok, err, Result-cases}
use chat_intelli_api.Access.{
  Member, Grant, Access, Database, Diff, is_grant, has_grant, granted_ids, distinct, without,
  new_grant, create_grants, diff_of, write_diff, set_in_scope, set_for, set_member_channels,
  membership, materialize_access,
}
use chat_intelli_api.Access.Visible.{contains-granted_ids}

contains-keep :
    (p : String → Bool) (xs : List String) (k : String)
    → contains (keep p xs) k ≡ (contains xs k && p k)
contains-keep p [] k = refl
contains-keep p (x ∷ xs) k = elim (Bool-cases (x == k)) [
  | inr other ↦ ground (arith, contains-keep p xs k, other)
  | inl same ↦
      let it : p x ≡ p k = ap p (ground (arith, eq_iff x k)) in
      ground (arith, contains-keep p xs k, same, it)
]

contains-distinct : (xs : List String) (k : String) → contains (distinct xs) k ≡ contains xs k
contains-distinct [] k = refl
contains-distinct (x ∷ xs) k = elim (Bool-cases (x == k)) [
  | inr other ↦ ground (arith, contains-distinct xs k, other)
  | inl same ↦
      let it : contains (distinct xs) x ≡ contains (distinct xs) k =
        ap (contains (distinct xs)) (ground (arith, eq_iff x k)) in
      ground (arith, contains-distinct xs k, same, it)
]

-- The grants that are left when those of a member for some channels are deleted.
has_grant-without :
    (member q : String) (ids : List String) (grants : List Grant) (k : String)
    → has_grant q (without member ids grants) k
      ≡ (has_grant q grants k && not (member == q && contains ids k))
has_grant-without member q ids [] k = refl
has_grant-without member q ids (g ∷ grants) k = elim (Bool-cases (is_grant q k g)) [
  | inr other ↦ ground (arith, has_grant-without member q ids grants k, other)
  | inl same ↦
      let it : contains ids g.channel_id ≡ contains ids k =
        ap (contains ids) (ground (arith, eq_iff g.channel_id k)) in
      ground (
        arith,
        has_grant-without member q ids grants k,
        same,
        it,
        eq_iff g.member_id q,
        eq_iff g.member_id member,
        eq_iff member q,
      )
]

-- The grants that are there when new ones are created.
has_grant-create_grants :
    (member by q : String) (ids : List String) (grants r : List Grant) (k : String)
    → create_grants member by ids grants ≡ ok r
    → has_grant q r k ≡ (has_grant q grants k || (member == q && contains ids k))
has_grant-create_grants member by q [] grants r k h = ground arith
has_grant-create_grants member by q (id ∷ ids) grants r k h =
    elim (Bool-cases (has_grant member grants id)) [
      | inl there ↦ absurd (ground arith)
      | inr new ↦
          let rest =
            has_grant-create_grants member by q ids (grants ++ new_grant member by id ∷ []) r k
              (rw new at h) in
          let added = any-append (is_grant q k) grants (new_grant member by id ∷ []) in
          ground (arith, rest, added)
    ]

-- An id that is asked for is in the scope, if none is outside.
in_scope :
    (ids scope : List String) (k : String)
    → any (λ id. not (contains scope id)) ids ≡ false
    → contains ids k ≡ true
    → contains scope k ≡ true
in_scope [] scope k h asked = absurd (ground arith)
in_scope (x ∷ ids) scope k h asked = elim (Bool-cases (x == k)) [
  | inl same ↦
      let it : contains scope x ≡ contains scope k =
        ap (contains scope) (ground (arith, eq_iff x k)) in
      ground (arith, it, h)
  | inr other ↦ in_scope ids scope k (ground (arith, h)) (ground (arith, asked, other))
]

-- What is had, asked for and in scope.
both :
    (had asked scope : Bool)
    → (asked ≡ true → scope ≡ true)
    → (had && not (had && (scope && not asked)) || (asked && not had))
      ≡ (if scope then asked else had)
both had asked scope inside = ground (arith, inside)

-- The grants behind the diff, for a member and a channel.
has_grant-diff :
    (m : Member) (by q : String) (ids scope : List String) (grants r : List Grant) (k : String)
    → (let d = diff_of m ids scope grants in
        create_grants m.id by d.added (without m.id d.removed grants) ≡ ok r)
    → any (λ id. not (contains scope id)) ids ≡ false
    → has_grant q r k
      ≡ (if m.id == q && contains scope k then contains ids k else has_grant q grants k)
has_grant-diff m by q ids scope grants r k h inside =
    let d = diff_of m ids scope grants in
    let made = has_grant-create_grants m.id by q d.added (without m.id d.removed grants) r k h in
    let left = has_grant-without m.id q d.removed grants k in
    let added = contains-keep (λ id. not (contains (granted_ids m.id grants) id)) ids k in
    let removed =
      contains-keep (λ id. contains scope id && not (contains ids id))
        (distinct (granted_ids m.id grants)) k in
    let asked = in_scope ids scope k inside in
    elim (Bool-cases (m.id == q)) [
      | inr other ↦ ground (arith, made, left, other)
      | inl own ↦
          let it : has_grant m.id grants k ≡ has_grant q grants k =
            ap (λ i. has_grant i grants k) (ground (arith, eq_iff m.id q)) in
          rw (made, left, own)
            (rw (removed, added, contains-distinct (granted_ids m.id grants) k)
              (rw (contains-granted_ids m.id k grants, it)
                (both (has_grant q grants k) (contains ids k) (contains scope k) asked)))
    ]

-- When the channels of a member are set: the call throws and changes nothing, or the member exists,
-- every channel asked for is one that the caller sees, and behind it the member has a grant for a
-- channel that the caller sees just if it was asked for, while grants for other channels, and those
-- of other members, are what they were.
pub set_member_channels_outcome :
    (org user : String) (ids : List String) (by : String) (access : Access) (db : Database)
    → ((e : Failure) × (set_member_channels org user ids by access db ≡ (err e, db)))
      ⊎ ((m : Member) × (d : Diff) × (r : Database) × (membership org user db ≡ some m)
          × (set_member_channels org user ids by access db ≡ (ok d, r))
          × (any (λ id. not (contains (materialize_access org access db) id)) ids ≡ false)
          × ((q k : String)
              → has_grant q r.grants k ≡ (
                  if m.id == q && contains (materialize_access org access db) k
                  then contains ids k
                  else has_grant q db.grants k)))
unfolding set_member_channels set_for set_in_scope write_diff
set_member_channels_outcome org user ids by access db =
    elim (Option-cases (membership org user db)) [
      | inl gone ↦ inl (not_found "Member not found in this organization", rw gone refl)
      | inr (m, found) ↦
          let scope = materialize_access org access db in
          let d = diff_of m ids scope db.grants in
          elim (Bool-cases (any (λ id. not (contains scope id)) ids)) [
            | inl outside ↦ inl (
              forbidden "You cannot grant channels you do not have access to.",
              rw (found, outside) refl,
            )
            | inr inside ↦
                elim (Result-cases
                  (create_grants m.id by d.added (without m.id d.removed db.grants))) [
                    | inl (e, clash) ↦ inl (e, rw (found, inside, clash) refl)
                    | inr (grants, made) ↦ inr (
                      m,
                      d,
                      record db { grants = grants },
                      found,
                      rw (found, inside, made) refl,
                      inside,
                      λ q k. has_grant-diff m by q ids scope db.grants grants k made inside,
                    )
                  ]
          ]
    ]
