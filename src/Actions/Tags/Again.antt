-- ===== src/Actions/Tags/Again.antt =====
-- Retries of the handlers of tags, and a tag that is added and removed.
use mathlib.Core.Path.{subst}
use chat_intelli_api.Base.{
  String, true, false, not, ◌&&◌, none, some, List, [], ◌∷◌, ◌++◌, ◌≡◌, ◌∙◌, inl, inr, sym, ap,
  refl, arith, ◌==◌, keep, eq_refl,
}
use chat_intelli_api.Base.Table.{find_first}
use chat_intelli_api.Json.{Json, end}
use chat_intelli_api.Events.{TagTarget, conversation, contact}
use chat_intelli_api.Outbox.{Event}
use chat_intelli_api.Automation.{Context, done}
use chat_intelli_api.Outbox.Dedup.{enqueue-ok_iff}
use chat_intelli_api.Actions.{chained}
use chat_intelli_api.Events.{untagged}
use chat_intelli_api.Actions.Tags.{
  event_for, Tag, Link, Tables, Env, Params, has_link, same_link, links_of, set_links, target_in,
  owner_in, add_tag, remove_tag, output, already_applied,
}
use chat_intelli_api.Actions.Tags.Applied.{
  Written, aborted, RolledBack, tagging, untagging, link_for, tag_in, IsAdded, IsRemoved,
  add_tag-done, remove_tag-done,
}

same_link_refl : (l : Link) → same_link l l ≡ true
same_link_refl l = rw (eq_refl l.owner_id, eq_refl l.tag_id) refl

added_link : (l : Link) (ls : List Link) → has_link l (ls ++ l ∷ []) ≡ true
added_link l [] = rw (same_link_refl l) refl
added_link l (k ∷ ls) = rw (added_link l ls) (ground arith)

removed_link : (l : Link) (ls : List Link) → has_link l (keep (λ k. not (same_link l k)) ls) ≡ false
removed_link l [] = refl
removed_link l (k ∷ ls) = ground (arith, removed_link l ls)

-- Nothing else is removed.
kept_links :
    (l : Link) (ls : List Link) → has_link l ls ≡ false → keep (λ k. not (same_link l k)) ls ≡ ls
kept_links l [] h = refl
kept_links l (k ∷ ls) h = ground (arith, kept_links l ls)

undone :
    (l : Link) (ls : List Link)
    → has_link l ls ≡ false
    → keep (λ k. not (same_link l k)) (ls ++ l ∷ []) ≡ ls
undone l [] h = rw (same_link_refl l) refl
undone l (k ∷ ls) h = ground (arith, undone l ls)

module _ (target : TagTarget) (ls : List Link) (es : List Event) where
  links_of-set_links :
      (t : Tables) → links_of target (record (set_links target ls t) { outbox = es }) ≡ ls
  links_of-set_links t = go target
    where
      go : (g : TagTarget) → links_of g (record (set_links g ls t) { outbox = es }) ≡ ls
      go conversation = refl
      go contact = refl

  tags-set_links : (t : Tables) → (set_links target ls t).tags ≡ t.tags
  tags-set_links t = go target
    where
      go : (g : TagTarget) → (set_links g ls t).tags ≡ t.tags
      go conversation = refl
      go contact = refl

module _ (env : Env) (p : Params) (ctx : Context) (t after : Tables) where
  Written-row :
      (o : String)
      → Written env.event ctx
          (target_in p ctx)
          (tagging env p ctx t)
          t
          (links_of (target_in p ctx) t ++ link_for o p ∷ [])
          after
      → (has_link (link_for o p) (links_of (target_in p ctx) after) ≡ true) × (after.tags ≡ t.tags)
  Written-row o (es, enqueued, written) = (
    subst (λ x. has_link (link_for o p) (links_of (target_in p ctx) x) ≡ true) (sym written)
        (subst (λ ls. has_link (link_for o p) ls ≡ true)
          (sym (
            links_of-set_links (target_in p ctx) (links_of (target_in p ctx) t ++ link_for o p ∷ [])
              es t))
          (added_link (link_for o p) (links_of (target_in p ctx) t))),
    ap (λ (x : Tables). x.tags) written
        ∙ tags-set_links (target_in p ctx) (links_of (target_in p ctx) t ++ link_for o p ∷ []) es t,
  )

-- A call on rows that are there, or absent, already.
re_added :
    (env : Env) (p : Params) (ctx : Context) (t : Tables) (g : Tag) (o : String)
    → env.write_fault ≡ none
    → tag_in p ctx t ≡ some g
    → owner_in (target_in p ctx) ctx ≡ some o
    → has_link (link_for o p) (links_of (target_in p ctx) t) ≡ true
    → add_tag env p ctx t ≡ (done (output (target_in p ctx) p.tag_id already_applied), t)
unfolding add_tag
re_added env p ctx t g o fine found owned there = (rw (found, owned, fine, there) refl)

-- A call whose event has a key that is taken.
re_rolled :
    (env retry : Env) (p : Params) (ctx : Context) (t : Tables) (g : Tag) (o : String)
    → retry.write_fault ≡ none
    → retry.event.fault ≡ none
    → tag_in p ctx t ≡ some g
    → owner_in (target_in p ctx) ctx ≡ some o
    → has_link (link_for o p) (links_of (target_in p ctx) t) ≡ false
    → RolledBack env.event ctx (target_in p ctx) (tagging env p ctx t) t t
    → add_tag retry p ctx t ≡ (done (output (target_in p ctx) p.tag_id end), t)
unfolding add_tag
re_rolled env retry p ctx t g o fine works found owned absent (es, enqueued, taken, same) =
    let event = event_for (target_in p ctx) (tagging env p ctx t) ctx in
    let can = (enqueue-ok_iff event (chained ctx) env.event t.outbox).0 (es, enqueued) in
    let (fs, again) =
      (enqueue-ok_iff event (chained ctx) retry.event t.outbox).1 (can.0, can.1, works) in
    rw (found, owned, fine, absent, taken, again) refl

abbrev Repeats : Env → Params → Context → Tables → Type 0
Repeats retry p ctx after = (again : Json) × (add_tag retry p ctx after ≡ (done again, after))

repeats_row :
    (retry : Env) (p : Params) (ctx : Context) (t after : Tables) (g : Tag) (o : String)
    → retry.write_fault ≡ none
    → tag_in p ctx t ≡ some g
    → owner_in (target_in p ctx) ctx ≡ some o
    → (has_link (link_for o p) (links_of (target_in p ctx) after) ≡ true) × (after.tags ≡ t.tags)
    → Repeats retry p ctx after
repeats_row retry p ctx t after g o fine found owned (there, tags) = (
  _,
  re_added retry p ctx after g o fine
      (ap (find_first (λ x. x.id == p.tag_id && x.organization_id == ctx.organization_id)) tags
        ∙ found)
      owned there,
)

repeats :
    (env retry : Env) (p : Params) (ctx : Context) (t after : Tables) (g : Tag) (o : String)
    → retry.write_fault ≡ none
    → retry.event.fault ≡ none
    → tag_in p ctx t ≡ some g
    → owner_in (target_in p ctx) ctx ≡ some o
    → IsAdded env p ctx t o after
    → Repeats retry p ctx after
repeats env retry p ctx t after g o fine works found owned (inl (there, same)) =
    subst (Repeats retry p ctx) (sym same)
      (repeats_row retry p ctx t t g o fine found owned (there, refl))
repeats env retry p ctx t after g o fine works found owned (inr (absent, inl written)) =
    repeats_row retry p ctx t after g o fine found owned (Written-row env p ctx t after o written)
repeats env retry p ctx t after g o fine works found owned
      (inr (absent, inr (es, enqueued, taken, same))) =
    subst (Repeats retry p ctx) (sym same)
      (_, re_rolled env retry p ctx t g o fine works found owned absent (es, enqueued, taken, refl))

-- Behind a call for adding a tag that succeeds, a retry succeeds and changes nothing, the outbox
-- included, as long as neither its write nor its event fails for another reason than a key.
pub add_tag_again :
    (env retry : Env) (p : Params) (ctx : Context) (t after : Tables) (out : Json)
    → retry.write_fault ≡ none
    → retry.event.fault ≡ none
    → add_tag env p ctx t ≡ (done out, after)
    → (again : Json) × (add_tag retry p ctx after ≡ (done again, after))
add_tag_again env retry p ctx t after out fine works adds =
    let ((g, found), (o, owned, added)) = add_tag-done env p ctx t after out adds in
    repeats env retry p ctx t after g o fine works found owned added

-- The links of a target are the ones that a handler for it writes; it leaves the other table alone.
abbrev pub SameLinks : Tables → Tables → Type 0
SameLinks t after =
    (after.conversation_tags ≡ t.conversation_tags) × (after.contact_tags ≡ t.contact_tags)

same_links :
    (target : TagTarget) (ls ks : List Link) (es fs : List Event) (t : Tables)
    → ks ≡ links_of target t
    → SameLinks t (record (set_links target ks (record (set_links target ls t) { outbox = es })) {
      outbox = fs;
    })
same_links conversation ls ks es fs t h = (h, refl)
same_links contact ls ks es fs t h = (refl, h)

SameLinks-refl : (target : TagTarget) (t after : Tables) → after ≡ t → SameLinks t after
SameLinks-refl target t after same =
    (ap (λ (x : Tables). x.conversation_tags) same, ap (λ (x : Tables). x.contact_tags) same)

module _ (env next : Env) (p : Params) (ctx : Context) (t mid after : Tables) (o : String) where
  added_removed :
      has_link (link_for o p) (links_of (target_in p ctx) t) ≡ false
      → aborted ctx (target_in p ctx) (untagging next p ctx mid) mid ≡ false
      → IsAdded env p ctx t o mid
      → IsRemoved next p ctx mid o after
      → SameLinks t after
  added_removed absent free (inl (there, same)) y = absurd (ground arith)
  added_removed absent free x (inr (there, inr (fs, enqueued, taken, same))) = absurd (ground arith)
  added_removed absent free (inr (missed, inl w)) (inl (gone, same)) =
      let (there, tags) = Written-row env p ctx t mid o w in absurd (ground arith)
  added_removed absent free (inr (missed, inr (es, enqueued, taken, same))) (inl (gone, kept)) =
      SameLinks-refl (target_in p ctx) t after (kept ∙ same)
  added_removed absent free (inr (missed, inr (es, enqueued, taken, same))) (inr (there, inl w)) =
      let still =
        subst (λ m. has_link (link_for o p) (links_of (target_in p ctx) m) ≡ true) same there in
      absurd (ground arith)
  added_removed absent free (inr (missed, inl (es, enqueued, written)))
        (inr (there, inl (fs, enqueued2, written2))) =
      subst (SameLinks t) (sym written2) (
        subst
          (λ m.
            SameLinks t
              (record (set_links (target_in p ctx)
                (keep (λ k. not (same_link (link_for o p) k)) (links_of (target_in p ctx) m)) m) {
                  outbox = fs;
                }))
          (sym written)
          (same_links (target_in p ctx) (links_of (target_in p ctx) t ++ link_for o p ∷ []) _ es fs
            t
            (ap (keep (λ k. not (same_link (link_for o p) k))) (
                links_of-set_links (target_in p ctx)
                  (links_of (target_in p ctx) t ++ link_for o p ∷ []) es t)
              ∙ undone (link_for o p) (links_of (target_in p ctx) t) absent)))

-- A tag that was not there, added and then removed, each by a call that succeeds, where the key of
-- the removal's event is not taken: the tags of every conversation and contact are what they were.
pub remove_tag-add_tag :
    (env next : Env) (p : Params) (ctx : Context) (t mid after : Tables) (o : String) (a b : Json)
    → owner_in (target_in p ctx) ctx ≡ some o
    → has_link (link_for o p) (links_of (target_in p ctx) t) ≡ false
    → aborted ctx (target_in p ctx) (untagged p.tag_id (target_in p ctx)) mid ≡ false
    → add_tag env p ctx t ≡ (done a, mid)
    → remove_tag next p ctx mid ≡ (done b, after)
    → SameLinks t after
remove_tag-add_tag env next p ctx t mid after o a b owned absent free adds removes =
    let ((g, found), (o1, owned1, added)) = add_tag-done env p ctx t mid a adds in
    let (o2, owned2, removed) = remove_tag-done next p ctx mid after b removes in
    let first : o1 ≡ o = ground arith in
    let second : o2 ≡ o = ground arith in
    added_removed env next p ctx t mid after o absent free
      (subst (λ x. IsAdded env p ctx t x mid) first added)
      (subst (λ x. IsRemoved next p ctx mid x after) second removed)
