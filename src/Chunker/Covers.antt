-- ===== src/Chunker/Covers.antt =====
-- What the chunks hold of a document.
use Prim.Native.Nat.{zero, suc, ◌+◌, ◌-◌, ◌≤◌}
use mathlib.Core.List.{append-nil, append_assoc}
use chat_intelli_api.Base.{
  ℕ, true, false, not, List, [], ◌∷◌, ◌++◌, ◌≡◌, ◌∙◌, sym, ap, refl, ◌⊎◌, inl, inr, arith, map,
  length, ltb, length-append, All, if◌then◌else◌, Bool-cases,
}
use chat_intelli_api.Base.Exec.{ok}
use chat_intelli_api.Base.Order.{All-keep, All-All, All-both}
use chat_intelli_api.Chunker.{
  Text, is_blank, blank_line, drop, trim, Chunk, max_chars, target_chunk_size, overlap_size,
  split_blank, paragraphs, chunk_body, emit, join_to, overlap_text, flushes, finish, chunk_loop,
  chunk_text,
}

-- A text stands in another.
abbrev pub Infix : Text → Text → Type 0
Infix p c = (a b : Text) × (c ≡ a ++ (p ++ b))

Infix-refl : (p : Text) → Infix p p
Infix-refl p = ([], [], sym (append-nil p))

Infix-before : (p c d : Text) → Infix p c → Infix p (c ++ d)
Infix-before p c d (a, b, e) = (
  a,
  b ++ d,
  ap (λ x. x ++ d) e ∙ append_assoc a (p ++ b) d ∙ ap (λ x. a ++ x) (append_assoc p b d),
)

Infix-behind : (p c d : Text) → Infix p c → Infix p (d ++ c)
Infix-behind p c d (a, b, e) = (d ++ a, b, ap (λ x. d ++ x) e ∙ sym (append_assoc d a (p ++ b)))

Infix-length : (p c : Text) → Infix p c → length p ≤ length c
Infix-length p c (a, b, e) = omega (arith, ap length e, length-append a (p ++ b), length-append p b)

length-join_to-le : (a b : Text) → length (join_to a b) ≤ length a + 2 + length b
length-join_to-le a b = elim (Bool-cases (is_blank a)) [
  | inl is ↦ rw is (omega arith)
  | inr other ↦ rw other (omega (arith, length-append a (blank_line ++ b)))
]

Infix-join_to_new : (a p : Text) → Infix p (join_to a p)
Infix-join_to_new a p = elim (Bool-cases (is_blank a)) [
  | inl is ↦ rw is (Infix-refl p)
  | inr other ↦
      rw other (Infix-behind p (blank_line ++ p) a (Infix-behind p p blank_line (Infix-refl p)))
]

blank-length : (a : Text) → is_blank a ≡ true → length a ≡ 0
blank-length [] h = refl
blank-length (c ∷ a) h = absurd (ground arith)

Infix-join_to_old : (q a p : Text) → 1 ≤ length q → Infix q a → Infix q (join_to a p)
Infix-join_to_old q a p some_text h = elim (Bool-cases (is_blank a)) [
  | inl is ↦ absurd (omega (arith, Infix-length q a h, blank-length a is))
  | inr other ↦ rw other (Infix-before q a (blank_line ++ p) h)
]

-- A text stands in one of the chunks.
abbrev pub Held : Text → List Chunk → Type 0
Held q [] = ⊥
Held q (c ∷ cs) = Infix q c.text ⊎ Held q cs

Held-append : (q : Text) (cs ds : List Chunk) → Held q cs → Held q (cs ++ ds)
Held-append q [] ds h = absurd h
Held-append q (c ∷ cs) ds (inl here) = inl here
Held-append q (c ∷ cs) ds (inr there) = inr (Held-append q cs ds there)

Held-last : (q : Text) (cs : List Chunk) (d : Chunk) → Infix q d.text → Held q (cs ++ d ∷ [])
Held-last q [] d h = inl h
Held-last q (c ∷ cs) d h = inr (Held-last q cs d h)

Held-emit :
    (q current : Text) (chunks : List Chunk)
    → length current ≤ max_chars
    → Infix q current
    → Held q (emit current chunks)
Held-emit q current chunks fits h =
    Held-last q chunks _ (elim (Bool-cases (ltb max_chars (length current))) [
      | inl over ↦ absurd (ground arith)
      | inr within ↦ rw within h
    ])

-- The longest paragraph that fits behind an overlap and a blank line.
abbrev pub paragraph_limit : ℕ
paragraph_limit = 32662

abbrev pub IsPlain : Text → Type 0
IsPlain p = (1 ≤ length p) × (length p ≤ paragraph_limit)

length-drop : (n : ℕ) (s : Text) → length (drop n s) ≡ length s - n
unfolding drop
length-drop zero s = omega arith
length-drop (suc n) [] = omega arith
length-drop (suc n) (c ∷ s) = omega (arith, length-drop n s)

overlap_text-le : (s : Text) → length (overlap_text s) ≤ overlap_size
overlap_text-le s = omega (arith, length-drop (length s - overlap_size) s)

abbrev next_current : Text → Text → Text
next_current current p =
    if flushes current p then join_to (overlap_text current) p else join_to current p

abbrev next_chunks : Text → Text → List Chunk → List Chunk
next_chunks current p chunks = if flushes current p then emit current chunks else chunks

next_current-le : (current p : Text) → IsPlain p → length (next_current current p) ≤ max_chars
next_current-le current p plain = elim (Bool-cases (flushes current p)) [
  | inl full ↦
      rw full (
        omega (arith, length-join_to-le (overlap_text current) p, overlap_text-le current, plain.1))
  | inr fits ↦ rw fits (elim (Bool-cases (is_blank current)) [
    | inl first ↦ rw first (omega (arith, plain.1))
    | inr more ↦
        let short : length (join_to current p) ≤ target_chunk_size = ground arith in
        omega (arith, short)
  ])
]

next_current-Infix : (current p : Text) → Infix p (next_current current p)
next_current-Infix current p = elim (Bool-cases (flushes current p)) [
  | inl full ↦ rw full (Infix-join_to_new (overlap_text current) p)
  | inr fits ↦ rw fits (Infix-join_to_new current p)
]

-- What is held so far: in a chunk, or in the current one.
abbrev Sofar : Text → Text → List Chunk → Type 0
Sofar q current chunks = Held q chunks ⊎ Infix q current

next-Sofar :
    (q current p : Text) (chunks : List Chunk)
    → 1 ≤ length q
    → length current ≤ max_chars
    → Sofar q current chunks
    → Sofar q (next_current current p) (next_chunks current p chunks)
next-Sofar q current p chunks some_text fits h = elim (Bool-cases (flushes current p)) [
  | inl full ↦ rw full (elim h [
    | inl held ↦ inl (
        Held-append q chunks (record { text = chunk_body current; index = length chunks } ∷ [])
          held)
    | inr i ↦ inl (Held-emit q current chunks fits i)
  ])
  | inr open_still ↦
      rw open_still
        (elim h [ inl held ↦ inl held | inr i ↦ inr (Infix-join_to_old q current p some_text i) ])
]

finish-Held :
    (q current : Text) (chunks : List Chunk)
    → 1 ≤ length q
    → length current ≤ max_chars
    → Sofar q current chunks
    → Held q (finish current chunks)
finish-Held q current chunks some_text fits (inl held) = elim (Bool-cases (is_blank current)) [
  | inl empty ↦ rw empty held
  | inr more ↦
      rw more (
        Held-append q chunks (record { text = chunk_body current; index = length chunks } ∷ [])
          held)
]
finish-Held q current chunks some_text fits (inr i) = elim (Bool-cases (is_blank current)) [
  | inl empty ↦ absurd (omega (arith, Infix-length q current i, blank-length current empty))
  | inr more ↦ rw more (Held-emit q current chunks fits i)
]

-- What the loop returns holds what was held before it, and all its paragraphs.
abbrev Holds : List Text → Text → List Chunk → List Chunk → Type 0
Holds ps current chunks out =
    ((q : Text) → 1 ≤ length q → Sofar q current chunks → Held q out) × All (λ p. Held p out) ps

chunk_loop-Holds :
    (ps : List Text) (current : Text) (chunks : List Chunk)
    → length current ≤ max_chars
    → All IsPlain ps
    → (out : List Chunk) × (chunk_loop ps current chunks ≡ ok out) × Holds ps current chunks out
unfolding chunk_loop
chunk_loop-Holds [] current chunks fits plain = (
  finish current chunks,
  refl,
  (λ q some_text h. finish-Held q current chunks some_text fits h, tt),
)
chunk_loop-Holds (p ∷ ps) current chunks fits plain =
    let small : ltb max_chars (length p) ≡ false = ground (arith, plain.0) in
    let (out, e, (kept, all)) =
      chunk_loop-Holds ps (next_current current p) (next_chunks current p chunks)
        (next_current-le current p plain.0) plain.1 in
    (
      out,
      rw small e,
      (
        λ q some_text h. kept q some_text (next-Sofar q current p chunks some_text fits h),
        (kept p ((plain.0).0) (inr (next_current-Infix current p)), all),
      ),
    )

filled-length : (p : Text) → not (is_blank p) ≡ true → 1 ≤ length p
filled-length [] h = absurd (ground arith)
filled-length (c ∷ t) h = omega arith

paragraphs-filled : (text : Text) → All (λ p. 1 ≤ length p) (paragraphs text)
unfolding paragraphs
paragraphs-filled text =
    All-keep (λ p. 1 ≤ length p) (λ p. not (is_blank p)) (map trim (split_blank 0 text))
      (All-All (λ p. not (is_blank p) ≡ true → 1 ≤ length p) filled-length
        (map trim (split_blank 0 text)))

-- A document of which no paragraph is longer than 32,662 UTF-16 units is chunked without an error,
-- and every paragraph of it stands whole in one of the chunks.
pub chunk_text-covers :
    (text : Text)
    → All (λ p. length p ≤ paragraph_limit) (paragraphs text)
    → (chunks : List Chunk) × (chunk_text text ≡ ok chunks)
      × All (λ p. Held p chunks) (paragraphs text)
unfolding chunk_text
chunk_text-covers text small =
    let (chunks, e, (kept, all)) = chunk_loop-Holds (paragraphs text) [] [] (ground arith) (
      All-both (λ p. 1 ≤ length p) (λ p. length p ≤ paragraph_limit) (paragraphs text)
        (paragraphs-filled text) small) in
    (chunks, e, all)
