-- ===== src/Chunker/Bounds.antt =====
-- The sizes and the indices of the chunks, and when chunking fails.
use Prim.Native.Nat.{zero, suc, ◌+◌, ◌≤◌}
use chat_intelli_api.Base.{
  ℕ, take, Bool, true, false, List, [], ◌∷◌, ◌++◌, ◌≡◌, refl, ◌⊎◌, inl, inr, arith, length, any,
  ltb, All, All-append, if-holds, if◌then◌else◌, Bool-cases,
}
use chat_intelli_api.Base.Exec.{failed, Result, ok, err}
use chat_intelli_api.Chunker.{
  Text, is_blank, Chunk, max_chars, paragraphs, chunk_body, emit, join_to, overlap_text, flushes,
  too_long, chunk_loop, chunk_text,
}

-- The chunks are numbered from here on.
abbrev pub IsNumbered : ℕ → List Chunk → Type 0
IsNumbered n [] = Unit
IsNumbered n (c ∷ cs) = (c.index ≡ n) × IsNumbered (suc n) cs

abbrev pub IsSmall : Chunk → Type 0
IsSmall c = length c.text ≤ max_chars

IsNumbered-append :
    (n m : ℕ) (cs : List Chunk) (d : Chunk)
    → n + length cs ≡ m
    → d.index ≡ m
    → IsNumbered n cs
    → IsNumbered n (cs ++ d ∷ [])
IsNumbered-append n m [] d e i h = (omega (arith, e, i), tt)
IsNumbered-append n m (c ∷ cs) d e i h =
    (h.0, IsNumbered-append (suc n) m cs d (omega (arith, e)) i h.1)

length-take-le : (n : ℕ) (s : Text) → length (take n s) ≤ n
length-take-le zero s = omega arith
length-take-le (suc n) [] = omega arith
length-take-le (suc n) (c ∷ s) = omega (arith, length-take-le n s)

chunk_body-le : (current : Text) → length (chunk_body current) ≤ max_chars
chunk_body-le current = elim (Bool-cases (ltb max_chars (length current))) [
  | inl over ↦ rw over (length-take-le max_chars current)
  | inr within ↦ rw within (ground arith)
]

abbrev IsGood : List Chunk → Type 0
IsGood cs = All IsSmall cs × IsNumbered 0 cs

emit-IsGood : (current : Text) (chunks : List Chunk) → IsGood chunks → IsGood (emit current chunks)
emit-IsGood current chunks h = (
  All-append IsSmall chunks _ h.0 (chunk_body-le current, tt),
  IsNumbered-append 0 (length chunks) chunks _ (omega arith) refl h.1,
)

abbrev is_long : Text → Bool
is_long p = ltb max_chars (length p)

abbrev Ends : List Text → Result (List Chunk) → Type 0
Ends ps r =
    ((p : Text) × (r ≡ err (failed (too_long p))) × (any is_long ps ≡ true))
    ⊎ ((cs : List Chunk) × (r ≡ ok cs) × (any is_long ps ≡ false) × IsGood cs)

chunk_loop-Ends :
    (ps : List Text) (current : Text) (chunks : List Chunk)
    → IsGood chunks
    → Ends ps (chunk_loop ps current chunks)
unfolding chunk_loop
chunk_loop-Ends [] current chunks h = inr (
  _,
  refl,
  refl,
  if-holds IsGood (is_blank current) chunks (emit current chunks) h (emit-IsGood current chunks h),
)
chunk_loop-Ends (p ∷ ps) current chunks h = elim (Bool-cases (is_long p)) [
  | inl long ↦ rw long (inl (p, refl, refl))
  | inr short ↦ rw short (
      chunk_loop-Ends ps
        (if flushes current p then join_to (overlap_text current) p else join_to current p)
        (if flushes current p then emit current chunks else chunks)
        (if-holds IsGood (flushes current p) (emit current chunks) chunks
          (emit-IsGood current chunks h) h))
]

-- Chunking fails exactly when a paragraph is longer than the limit of the embedding model; else
-- every chunk is within that limit, and the chunks are numbered from 0 on.
pub chunk_text-bounds :
    (text : Text)
    → ((p : Text) × (chunk_text text ≡ err (failed (too_long p)))
        × (any (λ q. ltb max_chars (length q)) (paragraphs text) ≡ true))
      ⊎ ((chunks : List Chunk) × (chunk_text text ≡ ok chunks)
          × (any (λ q. ltb max_chars (length q)) (paragraphs text) ≡ false)
          × All IsSmall chunks
          × IsNumbered 0 chunks)
unfolding chunk_text
chunk_text-bounds text = elim (chunk_loop-Ends (paragraphs text) [] [] (tt, tt)) [
  | inl fails ↦ inl fails
  | inr (chunks, e, none_long, (small, numbered)) ↦ inr (chunks, e, none_long, small, numbered)
]
