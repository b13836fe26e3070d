-- ===== src/Chunker.antt =====
-- Chunks of a document for its embeddings (src/modules/ai-agents/rag/chunker.ts),
-- over the UTF-16 code units of its text.
pub mod Covers
pub mod Bounds
mod Tests
use Prim.Native.Nat.{zero, suc, ◌+◌, ◌-◌, ◌/◌}
use chat_intelli_api.Base.{
  ℕ, String, Bool, true, false, not, ◌&&◌, List, [], ◌∷◌, ◌++◌, map, keep, length, take, eqb, ltb,
  if◌then◌else◌,
}
use chat_intelli_api.Base.Exec.{failed, Result, ok, err}
use chat_intelli_api.Base.Texts.{is_space}
use chat_intelli_api.Json.{concat, shown_number}

-- A text as JavaScript keeps it: its UTF-16 code units.
abbrev pub Text : Type 0
Text = List ℕ

-- `text.length === 0`, and so `!text`
abbrev pub is_blank : Text → Bool
is_blank [] = true
is_blank (c ∷ t) = false

-- `s.slice(n)`
unfoldable pub drop : ℕ → Text → Text
drop zero s = s
drop (suc n) [] = []
drop (suc n) (c ∷ t) = drop n t

-- `s.trim()`
abbrev trim_start : Text → Text
trim_start [] = []
trim_start (c ∷ t) = let rest = trim_start t in if is_space c then rest else c ∷ t

abbrev trim_end : Text → Text
trim_end [] = []
trim_end (c ∷ t) = let rest = trim_end t in if is_blank rest && is_space c then [] else c ∷ rest

unfoldable pub trim : Text → Text
unfolding is_space
trim s = trim_end (trim_start s)

-- A line end is one unit, 10.
abbrev pub blank_line : Text
blank_line = 10 ∷ 10 ∷ []

pub record Chunk : Type 0 where
  pub text : Text
  pub index : ℕ

-- 8191 tokens of 4 characters
abbrev pub max_chars : ℕ
max_chars = 32764

abbrev pub target_chunk_size : ℕ
target_chunk_size = 1000

abbrev pub overlap_size : ℕ
overlap_size = 100

-- The letters of `\s*\n+` at the front of a text, 0 where it does not match: white space up to the
-- last line end of it.
unfoldable pub blank_size : Text → ℕ
unfolding is_space
blank_size [] = 0
blank_size (c ∷ t) =
    let rest = blank_size t in
    if not (is_space c) then 0 else if not (eqb rest 0) then suc rest else if eqb c 10 then 1 else 0

abbrev put_letter : ℕ → List Text → List Text
put_letter c [] = (c ∷ []) ∷ []
put_letter c (piece ∷ pieces) = (c ∷ piece) ∷ pieces

-- `text.split(/\n\s*\n+/)`: a blank line ends a piece, and its letters are skipped.
unfoldable pub split_blank : ℕ → Text → List Text
unfolding blank_size
split_blank n [] = [] ∷ []
split_blank (suc n) (c ∷ t) = split_blank n t
split_blank zero (c ∷ t) = elim (eqb c 10 && not (eqb (blank_size t) 0)) [
  | true ↦ [] ∷ split_blank (blank_size t) t
  | false ↦ put_letter c (split_blank zero t)
]

unfoldable pub paragraphs : Text → List Text
unfolding split_blank
paragraphs text = keep (λ p. not (is_blank p)) (map trim (split_blank 0 text))

-- `estimateTokens`, the length over 4 rounded up
unfoldable pub estimate_tokens : Text → ℕ
estimate_tokens text = (length text + 3) / 4

-- A chunk is cut to the largest size.
abbrev pub chunk_body : Text → Text
chunk_body current = if ltb max_chars (length current) then take max_chars current else current

abbrev pub emit : Text → List Chunk → List Chunk
emit current chunks = chunks ++ record { text = chunk_body current; index = length chunks } ∷ []

-- `${a}\n\n${b}`
abbrev pub joined : Text → Text → Text
joined a b = a ++ (blank_line ++ b)

-- `a ? `${a}\n\n${b}` : b`
abbrev pub join_to : Text → Text → Text
join_to a b = if is_blank a then b else joined a b

-- `s.slice(-100)`
abbrev pub overlap_text : Text → Text
overlap_text s = drop (length s - overlap_size) s

abbrev pub flushes : Text → Text → Bool
flushes current p = not (is_blank current) && ltb target_chunk_size (length (join_to current p))

abbrev pub too_long : Text → String
too_long p = concat (
    "Paragraph exceeds token limit ("
    ∷ shown_number (estimate_tokens p)
    ∷ " tokens). Try breaking it into smaller pieces or remove extremely long paragraphs."
    ∷ [])

abbrev pub finish : Text → List Chunk → List Chunk
finish current chunks = if is_blank current then chunks else emit current chunks

-- The loop over the paragraphs.
unfoldable pub chunk_loop : List Text → Text → List Chunk → Result (List Chunk)
chunk_loop [] current chunks = ok (finish current chunks)
chunk_loop (p ∷ ps) current chunks =
    if ltb max_chars (length p)
    then err (failed (too_long p))
    else chunk_loop ps
        (if flushes current p then join_to (overlap_text current) p else join_to current p)
        (if flushes current p then emit current chunks else chunks)

unfoldable pub chunk_text : Text → Result (List Chunk)
unfolding chunk_loop paragraphs
chunk_text text = chunk_loop (paragraphs text) [] []
