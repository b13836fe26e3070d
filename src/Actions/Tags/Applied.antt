-- ===== src/Actions/Tags/Applied.antt =====
-- What a handler of tags that succeeds has done to the rows.
use mathlib.Core.Path.{subst}
use chat_intelli_api.Base.{
  Bool, String, true, false, not, ◌&&◌, Option, none, some, List, [], ◌∷◌, ◌++◌, ◌≡◌, ◌⊎◌, inl, inr,
  ap, refl, arith, ◌==◌, keep, Bool-cases,
}
use chat_intelli_api.Base.Exec
use chat_intelli_api.Base.Exec.{Failure, Result, ok, err}
use chat_intelli_api.Base.Table.{find_first}
use chat_intelli_api.Json.{Json}
use chat_intelli_api.Events.{TagTarget, Details, tagged, untagged}
use chat_intelli_api.Outbox
use chat_intelli_api.Outbox.{Event, Fresh}
use chat_intelli_api.Automation.{Context, done}
use chat_intelli_api.Actions.{Fault, duplicate, missing, other, Attempt, made, fails, chained}
use chat_intelli_api.Actions.Tags.{
  Tag, Link, Tables, Env, Params, has_link, same_link, links_of, set_links, insert_link,
  delete_link, target_in, owner_in, event_for, with_event, with_links, add_reply, remove_reply,
  add_to, add_found, add_tag, remove_from, remove_tag,
}

pub Attempt-cases {ℓ} :
    {A : Type ℓ} (a : Attempt A) → ((f : Fault) × (a ≡ fails f)) ⊎ ((x : A) × (a ≡ made x))
Attempt-cases (made x) = inr (x, refl)
Attempt-cases (fails f) = inl (f, refl)

abbrev pub Enqueued : Fresh → Context → TagTarget → Details → Tables → List Event → Type 0
Enqueued fresh ctx target details t es =
    Outbox.enqueue (event_for target details ctx) (chained ctx) fresh t.outbox ≡ ok es

-- Whether the transaction is rolled back.
abbrev pub aborted : Context → TagTarget → Details → Tables → Bool
aborted ctx target details t = Outbox.aborts (event_for target details ctx) (chained ctx) t.outbox

-- The links are written, and the outbox is what `enqueue` makes of it.
abbrev pub Written : Fresh → Context → TagTarget → Details → Tables → List Link → Tables → Type 0
Written fresh ctx target details t ls after =
    (es : List Event) × Enqueued fresh ctx target details t es
    × (after ≡ record (set_links target ls t) { outbox = es })

-- The key of the event was taken, and nothing is written.
abbrev pub RolledBack : Fresh → Context → TagTarget → Details → Tables → Tables → Type 0
RolledBack fresh ctx target details t after =
    (es : List Event) × Enqueued fresh ctx target details t es
    × (aborted ctx target details t ≡ true)
    × (after ≡ t)

module _ (fresh : Fresh) (ctx : Context) (target : TagTarget) (details : Details) (t : Tables) where
  abbrev Committed : List Link → Tables → Type 0
  Committed ls after =
      Written fresh ctx target details t ls after ⊎ RolledBack fresh ctx target details t after

  with_event-made :
      (ls : List Link) (b : Bool) (r : Result (List Event)) (after : Tables)
      → aborted ctx target details t ≡ b
      → Outbox.enqueue (event_for target details ctx) (chained ctx) fresh t.outbox ≡ r
      → with_event target ls t b r ≡ made after
      → Committed ls after
  with_event-made ls b (err e) after dup same h = absurd (ground arith)
  with_event-made ls false (ok es) after dup same h = inl (es, same, ground arith)
  with_event-made ls true (ok es) after dup same h = inr (es, same, dup, ground arith)

  pub with_links-made :
      (a : Attempt (List Link)) (after : Tables)
      → with_links fresh ctx target details t a ≡ made after
      → (ls : List Link) × (a ≡ made ls) × Committed ls after
  with_links-made (fails f) after h = absurd (ground arith)
  with_links-made (made ls) after h =
      (ls, refl, with_event-made ls (aborted ctx target details t) _ after refl refl h)

  with_event-fails :
      (ls : List Link) (b : Bool) (r : Result (List Event)) (f : Fault)
      → with_event target ls t b r ≡ fails f
      → (m : String) × (f ≡ other m)
  with_event-fails ls b (err e) f h = (Exec.message e, ground arith)
  with_event-fails ls true (ok es) f h = absurd (ground arith)
  with_event-fails ls false (ok es) f h = absurd (ground arith)

  -- The keys of the links are the only ones that a transaction can break.
  with_links-fails :
      (a : Attempt (List Link)) (f : Fault)
      → with_links fresh ctx target details t a ≡ fails f
      → (a ≡ fails f) ⊎ ((m : String) × (f ≡ other m))
  with_links-fails (fails g) f h = let same : g ≡ f = ground arith in inl (ap fails same)
  with_links-fails (made ls) f h = inr (with_event-fails ls _ _ f h)

pub insert_link-made :
    (fault : Option String) (l : Link) (ls after : List Link)
    → insert_link fault l ls ≡ made after
    → (has_link l ls ≡ false) × (after ≡ ls ++ l ∷ [])
insert_link-made (some m) l ls after h = absurd (ground arith)
insert_link-made none l ls after h = elim (Bool-cases (has_link l ls)) [
  | inl there ↦ absurd (ground arith)
  | inr absent ↦ (absent, ground arith)
]

insert_link-duplicate :
    (fault : Option String) (l : Link) (ls : List Link)
    → insert_link fault l ls ≡ fails duplicate
    → has_link l ls ≡ true
insert_link-duplicate (some m) l ls h = absurd (ground arith)
insert_link-duplicate none l ls h = elim (Bool-cases (has_link l ls)) [
  | inl there ↦ there
  | inr absent ↦ absurd (ground arith)
]

pub delete_link-made :
    (fault : Option String) (l : Link) (ls after : List Link)
    → delete_link fault l ls ≡ made after
    → (has_link l ls ≡ true) × (after ≡ keep (λ k. not (same_link l k)) ls)
delete_link-made (some m) l ls after h = absurd (ground arith)
delete_link-made none l ls after h = elim (Bool-cases (has_link l ls)) [
  | inl there ↦ (there, ground arith)
  | inr absent ↦ absurd (ground arith)
]

delete_link-missing :
    (fault : Option String) (l : Link) (ls : List Link)
    → delete_link fault l ls ≡ fails missing
    → has_link l ls ≡ false
delete_link-missing (some m) l ls h = absurd (ground arith)
delete_link-missing none l ls h = elim (Bool-cases (has_link l ls)) [
  | inl there ↦ absurd (ground arith)
  | inr absent ↦ absent
]

abbrev pub link_for : String → Params → Link
link_for owner p = record { owner_id = owner; tag_id = p.tag_id }

abbrev pub tag_in : Params → Context → Tables → Option Tag
tag_in p ctx t =
    find_first (λ g. g.id == p.tag_id && g.organization_id == ctx.organization_id) t.tags

module _ (env : Env) (p : Params) (ctx : Context) (t : Tables) where
  abbrev pub tagging : Details
  tagging = tagged p.tag_id (target_in p ctx)

  -- The tag of this owner was there and nothing was done; or it is added with its event; or the
  -- event's key was taken, and it is not added.
  abbrev pub IsAdded : String → Tables → Type 0
  IsAdded owner after =
      ((has_link (link_for owner p) (links_of (target_in p ctx) t) ≡ true) × (after ≡ t))
      ⊎ ((has_link (link_for owner p) (links_of (target_in p ctx) t) ≡ false)
          × (Written env.event ctx (target_in p ctx) tagging t
                (links_of (target_in p ctx) t ++ link_for owner p ∷ []) after
              ⊎ RolledBack env.event ctx (target_in p ctx) tagging t after))

  added_rows :
      (owner : String) (ls : List Link) (x after : Tables)
      → x ≡ after
      → ls ≡ links_of (target_in p ctx) t ++ link_for owner p ∷ []
      → Written env.event ctx (target_in p ctx) tagging t ls x
        ⊎ RolledBack env.event ctx (target_in p ctx) tagging t x
      → Written env.event ctx
          (target_in p ctx)
          tagging
          t
          (links_of (target_in p ctx) t ++ link_for owner p ∷ [])
          after
        ⊎ RolledBack env.event ctx (target_in p ctx) tagging t after
  added_rows owner ls x after same longer (inr rolled) =
      inr (subst (λ y. RolledBack env.event ctx (target_in p ctx) tagging t y) same rolled)
  added_rows owner ls x after same longer (inl written) = inl (
      subst
        (λ y.
          Written env.event ctx (target_in p ctx) tagging t
            (links_of (target_in p ctx) t ++ link_for owner p ∷ []) y)
        same (subst (λ zs. Written env.event ctx (target_in p ctx) tagging t zs x) longer written))

  add_reply-done :
      (owner : String) (r : Attempt Tables) (after : Tables) (out : Json)
      → with_links env.event ctx
          (target_in p ctx)
          tagging
          t
          (insert_link env.write_fault (link_for owner p) (links_of (target_in p ctx) t))
        ≡ r
      → add_reply (target_in p ctx) p.tag_id t r ≡ (done out, after)
      → IsAdded owner after
  add_reply-done owner (made x) after out linked h =
      let same : x ≡ after = ground arith in
      let (ls, is_made, committed) =
        with_links-made env.event ctx (target_in p ctx) tagging t _ x linked in
      let (absent, longer) = insert_link-made env.write_fault _ _ ls is_made in
      inr (absent, added_rows owner ls x after same longer committed)
  add_reply-done owner (fails duplicate) after out linked h =
      elim (with_links-fails env.event ctx (target_in p ctx) (tagged p.tag_id (target_in p ctx)) t _
        duplicate linked) [
          | inl broken ↦ inl (insert_link-duplicate env.write_fault _ _ broken, ground arith)
          | inr (m, never) ↦ absurd (ground arith)
        ]
  add_reply-done owner (fails missing) after out linked h = absurd (ground arith)
  add_reply-done owner (fails (other m)) after out linked h = absurd (ground arith)

  add_to-done :
      (owner : Option String) (after : Tables) (out : Json)
      → add_to env p ctx (target_in p ctx) owner t ≡ (done out, after)
      → (o : String) × (owner ≡ some o) × IsAdded o after
  add_to-done none after out h = absurd (ground arith)
  add_to-done (some o) after out h = (o, refl, add_reply-done o _ after out refl h)

  add_found-done :
      (g : Option Tag) (after : Tables) (out : Json)
      → add_found env p ctx g t ≡ (done out, after)
      → ((tag : Tag) × (g ≡ some tag))
        × ((o : String) × (owner_in (target_in p ctx) ctx ≡ some o) × IsAdded o after)
  add_found-done none after out h = absurd (ground arith)
  add_found-done (some tag) after out h = ((tag, refl), add_to-done _ after out h)

  pub add_tag-done :
      (after : Tables) (out : Json)
      → add_tag env p ctx t ≡ (done out, after)
      → ((tag : Tag) × (tag_in p ctx t ≡ some tag))
        × ((o : String) × (owner_in (target_in p ctx) ctx ≡ some o) × IsAdded o after)
  unfolding add_tag
  add_tag-done after out h = add_found-done (tag_in p ctx t) after out h

  abbrev pub untagging : Details
  untagging = untagged p.tag_id (target_in p ctx)

  -- The tag of this owner was not there and nothing was done; or it is removed with an event; or
  -- the event's key was taken, and it is not removed.
  abbrev pub IsRemoved : String → Tables → Type 0
  IsRemoved owner after =
      ((has_link (link_for owner p) (links_of (target_in p ctx) t) ≡ false) × (after ≡ t))
      ⊎ ((has_link (link_for owner p) (links_of (target_in p ctx) t) ≡ true)
          × (Written env.event ctx (target_in p ctx) untagging t
                (keep (λ k. not (same_link (link_for owner p) k)) (links_of (target_in p ctx) t))
                after
              ⊎ RolledBack env.event ctx (target_in p ctx) untagging t after))

  removed_rows :
      (owner : String) (ls : List Link) (x after : Tables)
      → x ≡ after
      → ls ≡ keep (λ k. not (same_link (link_for owner p) k)) (links_of (target_in p ctx) t)
      → Written env.event ctx (target_in p ctx) untagging t ls x
        ⊎ RolledBack env.event ctx (target_in p ctx) untagging t x
      → Written env.event ctx
          (target_in p ctx)
          untagging
          t
          (keep (λ k. not (same_link (link_for owner p) k)) (links_of (target_in p ctx) t))
          after
        ⊎ RolledBack env.event ctx (target_in p ctx) untagging t after
  removed_rows owner ls x after same shorter (inr rolled) =
      inr (subst (λ y. RolledBack env.event ctx (target_in p ctx) untagging t y) same rolled)
  removed_rows owner ls x after same shorter (inl written) = inl (
      subst
        (λ y.
          Written env.event ctx (target_in p ctx) untagging t
            (keep (λ k. not (same_link (link_for owner p) k)) (links_of (target_in p ctx) t)) y)
        same
        (subst (λ zs. Written env.event ctx (target_in p ctx) untagging t zs x) shorter written))

  remove_reply-done :
      (owner : String) (r : Attempt Tables) (after : Tables) (out : Json)
      → with_links env.event ctx
          (target_in p ctx)
          untagging
          t
          (delete_link env.write_fault (link_for owner p) (links_of (target_in p ctx) t))
        ≡ r
      → remove_reply (target_in p ctx) p.tag_id t r ≡ (done out, after)
      → IsRemoved owner after
  remove_reply-done owner (made x) after out linked h =
      let same : x ≡ after = ground arith in
      let (ls, is_made, committed) =
        with_links-made env.event ctx (target_in p ctx) untagging t _ x linked in
      let (there, shorter) = delete_link-made env.write_fault _ _ ls is_made in
      inr (there, removed_rows owner ls x after same shorter committed)
  remove_reply-done owner (fails missing) after out linked h =
      elim (with_links-fails env.event ctx (target_in p ctx) (untagged p.tag_id (target_in p ctx)) t
        _ missing linked) [
          | inl broken ↦ inl (delete_link-missing env.write_fault _ _ broken, ground arith)
          | inr (m, never) ↦ absurd (ground arith)
        ]
  remove_reply-done owner (fails duplicate) after out linked h = absurd (ground arith)
  remove_reply-done owner (fails (other m)) after out linked h = absurd (ground arith)

  remove_from-done :
      (owner : Option String) (after : Tables) (out : Json)
      → remove_from env p ctx (target_in p ctx) owner t ≡ (done out, after)
      → (o : String) × (owner ≡ some o) × IsRemoved o after
  remove_from-done none after out h = absurd (ground arith)
  remove_from-done (some o) after out h = (o, refl, remove_reply-done o _ after out refl h)

  pub remove_tag-done :
      (after : Tables) (out : Json)
      → remove_tag env p ctx t ≡ (done out, after)
      → (o : String) × (owner_in (target_in p ctx) ctx ≡ some o) × IsRemoved o after
  unfolding remove_tag
  remove_tag-done after out h = remove_from-done (owner_in (target_in p ctx) ctx) after out h
