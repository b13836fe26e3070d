-- ===== src/Outbox/Dedup.antt =====
-- One row for each key, and what every outcome of `enqueue` leaves in the table.
use chat_intelli_api.Base.{
  String, true, false, ◌≡◌, ◌↔◌, ◌⊎◌, if◌then◌else◌, inl, inr, ◌||◌, Option, none, some, List, [],
  ◌∷◌, ◌++◌, arith, eq_iff, eq_refl, any-append, is_empty, refl, Bool-cases, Option-cases,
}
use chat_intelli_api.Base.Exec.{Failure, failed, ok, err}
use chat_intelli_api.Events.{Payload, trigger_of}
use chat_intelli_api.Outbox.{
  Event, EnqueueOptions, Fresh, derived, derive_dedup_key, insert_event, missing_organization,
  missing_contact, enqueue, new_event, chosen_key, taken, has_key,
}

-- The unique index on `dedup_key`: no later row has the key of an earlier one.
abbrev pub HasUniqueKeys : List Event → Type 0
HasUniqueKeys [] = Unit {0}
HasUniqueKeys (e ∷ es) = (taken e.dedup_key es ≡ false) × HasUniqueKeys es

taken-append :
    (k : Option String) (es fs : List Event) → taken k (es ++ fs) ≡ (taken k es || taken k fs)
taken-append none es fs = refl
taken-append (some k) es fs = any-append (has_key k) es fs

taken-nil : (k : Option String) → taken k [] ≡ false
taken-nil none = refl
taken-nil (some k) = refl

-- An earlier row does not have the key of a row that is new.
taken-swap :
    (j k : Option String) (d e : Event) (es : List Event)
    → d.dedup_key ≡ j
    → e.dedup_key ≡ k
    → taken k (d ∷ es) ≡ false
    → taken j (e ∷ []) ≡ false
taken-swap none k d e es dj ek h = refl
taken-swap (some j) none d e es dj ek h = rw ek
taken-swap (some j) (some k) d e es dj ek h = ground (arith, eq_iff j k, eq_iff k j)

taken-tail :
    (k : Option String) (d : Event) (es : List Event)
    → taken k (d ∷ es) ≡ false
    → taken k es ≡ false
taken-tail none d es h = refl
taken-tail (some k) d es h = ground arith

pub HasUniqueKeys-append :
    (es : List Event) (e : Event)
    → HasUniqueKeys es
    → taken e.dedup_key es ≡ false
    → HasUniqueKeys (es ++ e ∷ [])
HasUniqueKeys-append [] e u h = (taken-nil e.dedup_key, tt)
HasUniqueKeys-append (d ∷ es) e u h = (
  rw (taken-append, u.0) (taken-swap d.dedup_key e.dedup_key d e es refl refl h),
  HasUniqueKeys-append es e u.1 (taken-tail e.dedup_key d es h),
)

-- A successful call leaves the rows as they were if the key of the event is there already, and
-- else adds one row at the end.
pub enqueue_outcome :
    (p : Payload) (o : EnqueueOptions) (f : Fresh) (es : List Event) (r : List Event)
    → enqueue p o f es ≡ ok r
    → ((taken (chosen_key o.dedup_key p) es ≡ true) × (r ≡ es))
      ⊎ ((taken (chosen_key o.dedup_key p) es ≡ false) × (r ≡ es ++ new_event p o f ∷ []))
unfolding enqueue
enqueue_outcome p o f es r h = ground arith

-- Where no two rows have one key, a successful call leaves no two rows with one key.
pub enqueue-HasUniqueKeys :
    (p : Payload) (o : EnqueueOptions) (f : Fresh) (es r : List Event)
    → HasUniqueKeys es
    → enqueue p o f es ≡ ok r
    → HasUniqueKeys r
enqueue-HasUniqueKeys p o f es r u h = elim (enqueue_outcome p o f es r h) [
  | inl (_, same) ↦ rw same u
  | inr (absent, grown) ↦ rw grown (HasUniqueKeys-append es (new_event p o f) u absent)
]

-- The rows after a call that succeeds.
abbrev rows_after : Payload → EnqueueOptions → Fresh → List Event → List Event
rows_after p o f es = if taken (chosen_key o.dedup_key p) es then es else es ++ new_event p o f ∷ []

-- The call succeeds exactly when the payload names an organisation and a contact and the insert
-- does not fail for another reason than a duplicate; the duplicate itself is no failure.
pub enqueue-ok_iff :
    (p : Payload) (o : EnqueueOptions) (f : Fresh) (es : List Event)
    → ((r : List Event) × (enqueue p o f es ≡ ok r))
      ↔ ((is_empty p.organization_id ≡ false) × (is_empty p.contact_id ≡ false) × (f.fault ≡ none))
unfolding enqueue
enqueue-ok_iff p o f es = (λ r. ground (arith, r.1), λ g. (rows_after p o f es, ground arith))

has_key-new : (k : String) (e : Event) → e.dedup_key ≡ some k → has_key k e ≡ true
has_key-new k e h = rw h (eq_refl k)

-- After a successful call the key of its event is taken.
pub taken-enqueue :
    (p : Payload) (o : EnqueueOptions) (f : Fresh) (es r : List Event) (k : String)
    → chosen_key o.dedup_key p ≡ some k
    → enqueue p o f es ≡ ok r
    → taken (some k) r ≡ true
taken-enqueue p o f es r k key h = elim (enqueue_outcome p o f es r h) [
  | inl (there, same) ↦ rw same (rw key at there)
  | inr (absent, grown) ↦
      rw grown (rw any-append (ground (arith, has_key-new k (new_event p o f) key)))
]

-- Behind a call that succeeds, a second call with the same key, for a payload that names an
-- organisation and a contact, and with no fault of the database, succeeds and changes nothing.
pub enqueue_again :
    (p q : Payload) (o u : EnqueueOptions) (f g : Fresh) (es r : List Event) (k : String)
    → chosen_key o.dedup_key p ≡ some k
    → chosen_key u.dedup_key q ≡ some k
    → is_empty q.organization_id ≡ false
    → is_empty q.contact_id ≡ false
    → g.fault ≡ none
    → enqueue p o f es ≡ ok r
    → enqueue q u g r ≡ ok r
unfolding enqueue
enqueue_again p q o u f g es r k kp kq org con fault h =
    rw (org, con, fault, kq, taken-enqueue p o f es r k kp h)

-- An event without a key: whether it is refused, and with which error, does not depend on the rows.
pub enqueue_unkeyed :
    (p : Payload) (f : Fresh)
    → derive_dedup_key p ≡ none
    → ((e : Failure) × ((o : EnqueueOptions) (es : List Event)
          → o.dedup_key ≡ derived
          → enqueue p o f es ≡ err e))
      ⊎ ((o : EnqueueOptions) (es : List Event)
          → o.dedup_key ≡ derived
          → enqueue p o f es ≡ ok (es ++ new_event p o f ∷ []))
unfolding enqueue insert_event
enqueue_unkeyed p f free = elim (Bool-cases (is_empty p.organization_id)) [
  | inl no_org ↦
      inl (failed (missing_organization (trigger_of p.details)), λ o es h. rw no_org refl)
  | inr org ↦ elim (Bool-cases (is_empty p.contact_id)) [
    | inl no_contact ↦
        inl (failed (missing_contact (trigger_of p.details)), λ o es h. rw (org, no_contact) refl)
    | inr who ↦ elim (Option-cases f.fault) [
      | inr (m, broken) ↦ inl (failed m, λ o es h. rw (org, who, broken) refl)
      | inl fine ↦ inr (λ o es h. rw (org, who, fine, h, free) refl)
    ]
  ]
]
