-- ===== src/Outbox/Keys.antt =====
-- The keys of `deriveDedupKey` tell events apart.
use Prim.Native.Char.{Char, code}
use Prim.Native.String
use mathlib.Core.Path.{ap₂}
use mathlib.Core.Bool.{false≢true}
use text.Mathlib.TextLemmas.{nil-append, cons-append, cons-eq-cons, append-nil}
use chat_intelli_api.Base.{
  List, [], ◌∷◌, eq_iff, ◌==◌, false, String, ◌≡◌, ◌≢◌, ◌↔◌, refl, sym, ap, ◌∙◌, arith,
}
use chat_intelli_api.Events.{
  Trigger, TagTarget, Details, Payload, tagged, untagged, received, status_changed, assigned,
  trigger_name, target_name,
}
use chat_intelli_api.Outbox.{derive_dedup_key, join, key_of, tag_key, target_id}

-- The text holds no colon, the separator of the keys.
abbrev pub NoColon : String → Type 0
NoColon String.[] = Unit {0}
NoColon (String.◌∷◌ c s) = (code c ≢ b':') × NoColon s

abbrev colon : Char
colon = ":"

colon-append : (s : String) → String.◌++◌ ":" s ≡ String.◌∷◌ colon s
colon-append s = cons-append colon "" s ∙ ap (λ t. String.◌∷◌ colon t) (nil-append s)

-- A text up to its first colon, and what follows, are determined by the whole.
split_colon :
    (a b s t : String)
    → NoColon a
    → NoColon b
    → String.◌++◌ a (String.◌∷◌ colon s) ≡ String.◌++◌ b (String.◌∷◌ colon t)
    → (a ≡ b) × (s ≡ t)
split_colon String.[] String.[] s t na nb e =
    (refl, (cons-eq-cons.0 (sym (nil-append _) ∙ e ∙ nil-append _)).1)
split_colon String.[] (String.◌∷◌ c b) s t na nb e =
    absurd (nb.0 (sym (ap code (cons-eq-cons.0 (sym (nil-append _) ∙ e ∙ cons-append c b _)).0)))
split_colon (String.◌∷◌ c a) String.[] s t na nb e =
    absurd (na.0 (ap code (cons-eq-cons.0 (sym (cons-append c a _) ∙ e ∙ nil-append _)).0))
split_colon (String.◌∷◌ c a) (String.◌∷◌ d b) s t na nb e =
    let (head, tail) = cons-eq-cons.0 (sym (cons-append c a _) ∙ e ∙ cons-append d b _) in
    let (same_a, same_s) = split_colon a b s t na.1 nb.1 tail in
    (ap₂ String.◌∷◌ head same_a, same_s)

join-colon :
    (a : String) (xs : List String)
    → join (a ∷ ":" ∷ xs) ≡ String.◌++◌ a (String.◌∷◌ colon (join xs))
join-colon a xs = ap (λ t. String.◌++◌ a t) (colon-append (join xs))

join_split :
    (a b : String) (xs ys : List String)
    → NoColon a
    → NoColon b
    → join (a ∷ ":" ∷ xs) ≡ join (b ∷ ":" ∷ ys)
    → (a ≡ b) × (join xs ≡ join ys)
join_split a b xs ys na nb e =
    split_colon a b (join xs) (join ys) na nb (sym (join-colon a xs) ∙ e ∙ join-colon b ys)

join_last : (a b : String) → join (a ∷ []) ≡ join (b ∷ []) → a ≡ b
join_last a b e = sym (append-nil a) ∙ e ∙ append-nil b

NoColon-trigger_name : (t : Trigger) → NoColon (trigger_name t)
NoColon-trigger_name Trigger.tag_added = omega arith
NoColon-trigger_name _ = omega arith

NoColon-target_name : (g : TagTarget) → NoColon (target_name g)
NoColon-target_name TagTarget.conversation = omega arith
NoColon-target_name _ = omega arith

target_name-injective : (g h : TagTarget) → target_name g ≡ target_name h → g ≡ h
target_name-injective TagTarget.conversation TagTarget.contact e =
    absurd (false≢true ((eq_iff "conversation" "contact").1 e))
target_name-injective TagTarget.contact TagTarget.conversation e =
    absurd (false≢true ((eq_iff "contact" "conversation").1 e))
target_name-injective TagTarget.contact TagTarget.contact e = refl
target_name-injective _ _ e = refl

abbrev after_target : TagTarget → String → Payload → List String
after_target g a p = target_id g p ∷ ":" ∷ a ∷ []

abbrev after_trigger : TagTarget → String → Payload → List String
after_trigger g a p = target_name g ∷ ":" ∷ after_target g a p

tag_key-injective :
    (t u : Trigger) (g h : TagTarget) (a b : String) (p q : Payload)
    → NoColon (target_id g p)
    → NoColon (target_id h q)
    → tag_key t g a p ≡ tag_key u h b q
    → (trigger_name t ≡ trigger_name u) × (g ≡ h) × (target_id g p ≡ target_id h q) × (a ≡ b)
tag_key-injective t u g h a b p q np nq e =
    let (names, e₁) =
      join_split (trigger_name t) (trigger_name u) (after_trigger g a p) (after_trigger h b q)
        (NoColon-trigger_name t) (NoColon-trigger_name u) e in
    let (targets, e₂) =
      join_split (target_name g) (target_name h) (after_target g a p) (after_target h b q)
        (NoColon-target_name g) (NoColon-target_name h) e₁ in
    let (ids, e₃) = join_split (target_id g p) (target_id h q) (a ∷ []) (b ∷ []) np nq e₂ in
    (names, target_name-injective g h targets, ids, join_last a b e₃)

-- Whether the trigger has a key at all.
abbrev pub HasKey : Details → Type 0
HasKey (tagged _ _) = Unit
HasKey (untagged _ _) = Unit
HasKey (received _ _ _ _) = Unit
HasKey _ = ⊥

-- The id, inside the key, that a colon could confuse.
abbrev pub subject : Details → Payload → String
subject (tagged _ g) p = target_id g p
subject (untagged _ g) p = target_id g p
subject _ p = ""

-- The two payloads tell of one occurrence: the same tag put on, or taken off, the same target, or
-- the same message.
abbrev pub SameOccurrence : Details → Payload → Details → Payload → Type 0
SameOccurrence (tagged a g) p (tagged b h) q = (g ≡ h) × (target_id g p ≡ target_id h q) × (a ≡ b)
SameOccurrence (untagged a g) p (untagged b h) q =
    (g ≡ h) × (target_id g p ≡ target_id h q) × (a ≡ b)
SameOccurrence (received m _ _ _) p (received n _ _ _) q = m ≡ n
SameOccurrence _ _ _ _ = ⊥

ne_by_test : (a b : String) → (a == b) ≡ false → a ≢ b
ne_by_test a b h e = ground (arith, eq_iff a b)

tag_key-ne-message :
    (t : Trigger) (g : TagTarget) (a m : String) (p : Payload)
    → trigger_name t ≢ "MESSAGE_RECEIVED"
    → tag_key t g a p ≢ join ("MESSAGE_RECEIVED" ∷ ":" ∷ m ∷ [])
tag_key-ne-message t g a m p differ e =
    differ
      (join_split (trigger_name t) "MESSAGE_RECEIVED" (after_trigger g a p) (m ∷ [])
        (NoColon-trigger_name t) (omega arith) e).0

key_of_sound :
    (d e : Details) (p q : Payload)
    → HasKey d
    → NoColon (subject d p)
    → NoColon (subject e q)
    → key_of d p ≡ key_of e q
    → SameOccurrence d p e q
key_of_sound (tagged a g) (tagged b h) p q k np nq e =
    let same = tag_key-injective Trigger.tag_added Trigger.tag_added g h a b p q np nq (cc) in
    (same.1, same.2, same.3)
key_of_sound (untagged a g) (untagged b h) p q k np nq e =
    let same = tag_key-injective Trigger.tag_removed Trigger.tag_removed g h a b p q np nq (cc) in
    (same.1, same.2, same.3)
key_of_sound (tagged a g) (untagged b h) p q k np nq e =
    ne_by_test "TAG_ADDED" "TAG_REMOVED" refl
      (tag_key-injective Trigger.tag_added Trigger.tag_removed g h a b p q np nq (cc)).0
key_of_sound (untagged a g) (tagged b h) p q k np nq e =
    ne_by_test "TAG_REMOVED" "TAG_ADDED" refl
      (tag_key-injective Trigger.tag_removed Trigger.tag_added g h a b p q np nq (cc)).0
key_of_sound (tagged a g) (received m _ _ _) p q k np nq e =
    tag_key-ne-message Trigger.tag_added g a m p (ne_by_test "TAG_ADDED" "MESSAGE_RECEIVED" refl)
      (cc)
key_of_sound (untagged a g) (received m _ _ _) p q k np nq e =
    tag_key-ne-message Trigger.tag_removed g a m p
      (ne_by_test "TAG_REMOVED" "MESSAGE_RECEIVED" refl) (cc)
key_of_sound (received m _ _ _) (tagged b h) p q k np nq e =
    tag_key-ne-message Trigger.tag_added h b m q (ne_by_test "TAG_ADDED" "MESSAGE_RECEIVED" refl)
      (cc)
key_of_sound (received m _ _ _) (untagged b h) p q k np nq e =
    tag_key-ne-message Trigger.tag_removed h b m q
      (ne_by_test "TAG_REMOVED" "MESSAGE_RECEIVED" refl) (cc)
key_of_sound (received m _ _ _) (received n _ _ _) p q k np nq e =
    join_last m n
      (join_split "MESSAGE_RECEIVED" "MESSAGE_RECEIVED" (m ∷ []) (n ∷ []) (omega arith)
        (omega arith) (cc)).1
key_of_sound (status_changed _ _) _ p q k np nq e = absurd k
key_of_sound (assigned _ _) _ p q k np nq e = absurd k
key_of_sound _ _ p q k np nq e = cc

key_of_complete : (d e : Details) (p q : Payload) → SameOccurrence d p e q → key_of d p ≡ key_of e q
key_of_complete (tagged a g) (tagged b h) p q s = cc
key_of_complete (untagged a g) (untagged b h) p q s = cc
key_of_complete (received m _ _ _) (received n _ _ _) p q s = cc
key_of_complete _ _ p q s = absurd s

-- Where the trigger of the first payload has a key (tags and received messages), and the ids of
-- the tagged conversation or contact hold no colon, two payloads have the same key exactly when
-- they tell of the same tag added to the same target, the same tag removed from the same target,
-- or the same message.
pub derive_dedup_key_iff :
    (p q : Payload)
    → HasKey p.details
    → NoColon (subject p.details p)
    → NoColon (subject q.details q)
    → (derive_dedup_key p ≡ derive_dedup_key q) ↔ SameOccurrence p.details p q.details q
unfolding derive_dedup_key
derive_dedup_key_iff p q k np nq =
    (key_of_sound p.details q.details p q k np nq, key_of_complete p.details q.details p q)
