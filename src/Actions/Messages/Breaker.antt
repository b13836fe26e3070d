-- ===== src/Actions/Messages/Breaker.antt =====
-- When the circuit breaker of a channel is open.
pub mod Opens
use Prim.Native.Nat.{◌≤◌, ◌<◌}
use mathlib.Core.Path.{subst}
use chat_intelli_api.Base.{
  ℕ, ◌+◌, String, Bool, true, false, Option, none, some, List, [], ◌∷◌, ◌++◌, ◌≡◌, ◌∙◌, sym, inl,
  inr, ap, refl, arith, ltb, leb, length, Bool-cases, if◌then◌else◌, ◌==◌,
}
use chat_intelli_api.Conversation.{Conversation}
use chat_intelli_api.Automation.{Context, Reply, done, refused, threw}
use chat_intelli_api.Actions.{truthy, refusal}
use chat_intelli_api.Actions.Messages.{
  put, send, add_job, saved, unless_open, ContactChannel, Tables, State, Env, fail_window_ms,
  fail_threshold, cooldown_ms, recent, record_failure, circuit_open, channel_of, conversation_in,
  send_message,
}
use chat_intelli_api.Actions.Messages.Breaker.Opens.{three_failures}

-- The two maps of the process.
abbrev pub Maps : Type 0
Maps = (String → List ℕ) × (String → ℕ)

abbrev pub maps : State → Maps
maps st = (st.failures, st.open_until)

-- What a failure does to them.
abbrev next_maps : ℕ → String → Maps → Maps
next_maps now k (fs, os) =
    if leb fail_threshold (length (recent now (fs k)))
    then (put k [] fs, put k (now + cooldown_ms) os)
    else (put k (recent now (fs k)) fs, os)

maps-record_failure :
    (now : ℕ) (k : String) (st : State) → maps (record_failure now k st) ≡ next_maps now k (maps st)
unfolding record_failure
maps-record_failure now k st =
    elim (Bool-cases (leb fail_threshold (length (recent now (st.failures k))))) [
      | inl trips ↦ rw trips refl
      | inr shut ↦ rw shut refl
    ]

maps_alike :
    (now : ℕ) (k : String) (a b : State)
    → maps a ≡ maps b
    → maps (record_failure now k a) ≡ maps (record_failure now k b)
maps_alike now k a b same =
    maps-record_failure now k a ∙ ap (next_maps now k) same ∙ sym (maps-record_failure now k b)

-- A call of the handler.
pub record Sending : Type 0 where
  pub env : Env
  pub body : String
  pub ctx : Context

-- The call is for a conversation of this channel.
abbrev pub IsFor : String → Sending → Tables → Conversation → Type 0
IsFor k s t talk =
    (id : String) × (truthy (s.ctx.payload).conversation_id ≡ some id)
    × (conversation_in s.env s.body s.ctx id t ≡ some talk)
    × (talk.channel_id ≡ k)

abbrev is_external : Reply → Bool
is_external (refused (some code) m j) = code == "external_error"
is_external (refused none m j) = false
is_external (done j) = false
is_external (threw m) = false

-- It fails, since storing or queueing its message does.
abbrev pub Fails : String → Sending → Tables → State → State → Type 0
Fails k s t st after =
    (m : String) × (talk : Conversation) × IsFor k s t talk
    × (send_message s.env s.body s.ctx t st ≡ (refusal "external_error" m, after))

other_refusal : ¬ (false ≡ true)
other_refusal same = ground arith

module _ (env : Env) (body : String) (ctx : Context) where
  add_job-fails :
      (fault : Option String) (c : Conversation) (cc : ContactChannel) (st after : State)
      (m : String)
      → add_job env body ctx fault c cc st ≡ (refusal "external_error" m, after)
      → after ≡ record_failure env.failed_at c.channel_id st
  add_job-fails (some n) c cc st after m h = ground arith
  add_job-fails none c cc st after m h = absurd (ground arith)

  send-fails :
      (fault : Option String) (c : Conversation) (cc : ContactChannel) (st after : State)
      (m : String)
      → send env body ctx fault c cc st ≡ (refusal "external_error" m, after)
      → maps after ≡ maps (record_failure env.failed_at c.channel_id st)
  send-fails (some n) c cc st after m h =
      let same : after ≡ record_failure env.failed_at c.channel_id st = ground arith in ap maps same
  send-fails none c cc st after m h =
      let stored = record st { messages = st.messages ++ saved env body ctx c ∷ [] } in
      ap maps (add_job-fails env.add_fault c cc stored after m h)
      ∙ maps_alike env.failed_at c.channel_id stored st refl

  unless_open-fails :
      (c : Conversation) (o : Option ContactChannel) (st after : State) (m : String)
      → unless_open env body ctx c o st ≡ (refusal "external_error" m, after)
      → maps after ≡ maps (record_failure env.failed_at c.channel_id st)
  unless_open-fails c none st after m h =
      absurd (other_refusal (ap (λ (x : Reply × State). is_external x.0) h))
  unless_open-fails c (some bound) st after m h =
      elim (Bool-cases (ltb env.now (st.open_until c.channel_id))) [
        | inl cold ↦
            let refused_so : (circuit_open env body ctx c.channel_id, st)
                ≡ (refusal "external_error" m, after) =
              (rw cold at h) in
            absurd (other_refusal (ap (λ (x : Reply × State). is_external x.0) refused_so))
        | inr warm ↦ send-fails env.create_fault c bound st after m (rw warm at h)
      ]

Fails-maps :
    (k : String) (s : Sending) (t : Tables) (st after : State)
    → Fails k s t st after
    → maps after ≡ maps (record_failure s.env.failed_at k st)
unfolding send_message
Fails-maps k s t st after (m, talk, (id, named, found, same), h) =
    subst (λ j. maps after ≡ maps (record_failure s.env.failed_at j st)) same
      (unless_open-fails s.env s.body s.ctx talk (channel_of s.env s.body s.ctx talk t) st after m
        (rw (named, found) at h))

-- Three calls for conversations of one channel, one after the other, fail within a minute, whatever
-- was noted of the channel before: a call for a conversation of the channel, with a contact bound to
-- it, that follows less than 30 seconds after the first failure is refused as `circuit_open`, and
-- stores and queues nothing.
pub send_message-after_failures :
    (k : String) (s1 s2 s3 s : Sending) (t : Tables) (st st1 st2 st3 : State) (talk : Conversation)
    (cc : ContactChannel)
    → Fails k s1 t st st1
    → Fails k s2 t st1 st2
    → Fails k s3 t st2 st3
    → s1.env.failed_at ≤ s2.env.failed_at
    → s2.env.failed_at ≤ s3.env.failed_at
    → s3.env.failed_at < s1.env.failed_at + fail_window_ms
    → IsFor k s t talk
    → channel_of s.env s.body s.ctx talk t ≡ some cc
    → s.env.now < s1.env.failed_at + cooldown_ms
    → send_message s.env s.body s.ctx t st3 ≡ (circuit_open s.env s.body s.ctx k, st3)
unfolding send_message
send_message-after_failures k s1 s2 s3 s t st st1 st2 st3 talk cc f1 f2 f3 ab bc within for bound
      soon =
    let a = s1.env.failed_at in
    let b = s2.env.failed_at in
    let c = s3.env.failed_at in
    let same : maps st3 ≡ maps (record_failure c k (record_failure b k (record_failure a k st))) =
      Fails-maps k s3 t st2 st3 f3
      ∙ maps_alike c k st2 (record_failure b k (record_failure a k st)) (
          Fails-maps k s2 t st1 st2 f2
          ∙ maps_alike b k st1 (record_failure a k st) (Fails-maps k s1 t st st1 f1)) in
    let until : st3.open_until k
        ≡ (record_failure c k (record_failure b k (record_failure a k st))).open_until k =
      ap (λ (x : Maps). x.1 k) same in
    let cold : ltb s.env.now (st3.open_until k) ≡ true =
      ground (arith, until, three_failures a b c k st ab bc within) in
    let (id, named, found, channel) = for in rw (named, found, bound, channel, cold) refl
