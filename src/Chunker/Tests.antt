-- ===== src/Chunker/Tests.antt =====
-- A document of two paragraphs, and one that holds a character beyond U+FFFF.
use Prim.Native.Nat.{◌≤◌}
use chat_intelli_api.Base.{List, [], ◌∷◌, ◌≡◌, refl, arith, All, any, ltb, length, true, false, ◌⊎◌}
use chat_intelli_api.Base.Exec.{ok, err, failed}
use chat_intelli_api.Base.Texts.{units}
use chat_intelli_api.Chunker.{Text, trim, Chunk, max_chars, too_long, paragraphs, chunk_text}
use chat_intelli_api.Chunker.Covers.{Held, chunk_text-covers}
use chat_intelli_api.Chunker.Bounds.{IsSmall, IsNumbered, chunk_text-bounds}

splits : paragraphs (units "a \n \n\n b\nc\n\n") ≡ units "a" ∷ units "b\nc" ∷ []
unfolding paragraphs trim units
splits = refl

pair : units "a😀" ≡ 97 ∷ 55357 ∷ 56832 ∷ []
unfolding units
pair = refl

abbrev document : Text
document = 97 ∷ 10 ∷ 10 ∷ 55357 ∷ 56832 ∷ []

short : All (λ p. length p ≤ 32662) (paragraphs document)
unfolding paragraphs trim
short = (omega arith, (omega arith, tt))

chunk_text-covers_example :
    (chunks : List Chunk) × (chunk_text document ≡ ok chunks)
    × All (λ p. Held p chunks) (paragraphs document)
chunk_text-covers_example = chunk_text-covers document short

chunk_text-bounds_example :
    ((p : Text) × (chunk_text document ≡ err (failed (too_long p)))
      × (any (λ q. ltb max_chars (length q)) (paragraphs document) ≡ true))
    ⊎ ((chunks : List Chunk) × (chunk_text document ≡ ok chunks)
        × (any (λ q. ltb max_chars (length q)) (paragraphs document) ≡ false)
        × All IsSmall chunks
        × IsNumbered 0 chunks)
chunk_text-bounds_example = chunk_text-bounds document
