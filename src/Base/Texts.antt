-- ===== src/Base/Texts.antt =====
-- Texts as JavaScript's methods read them: `startsWith`, `includes` and `trim`, over code points, and the
-- UTF-16 code units that its `length` counts.
use Prim.Native.Nat.{ℕ, zero, suc, ◌+◌, ◌-◌, ◌/◌, ◌%◌}
use Prim.Native.String.{String}
use Prim.Native.Char.{code}
use mathlib.Core.Bool.{Bool, true, false, ◌&&◌, ◌||◌}
use mathlib.Core.List.{List, [], ◌∷◌}
use chat_intelli_api.Base.Tests.{eqb, ltb, leb, is_empty, if◌then◌else◌}
use chat_intelli_api.Base.Lists.{any}

-- `s.startsWith(t)`, the prefix first.
unfoldable pub is_prefix : String → String → Bool
is_prefix String.[] s = true
is_prefix (String.◌∷◌ c t) String.[] = false
is_prefix (String.◌∷◌ c t) (String.◌∷◌ d s) = eqb (code c) (code d) && is_prefix t s

-- `s.includes(t)`
unfoldable pub includes : String → String → Bool
unfolding is_prefix
includes String.[] t = is_prefix t ""
includes (String.◌∷◌ d s) t = is_prefix t (String.◌∷◌ d s) || includes s t

-- White space and line ends of `trim`.
unfoldable pub is_space : ℕ → Bool
is_space c =
    any (λ d. eqb c d)
      (9 ∷ 10 ∷ 11 ∷ 12 ∷ 13 ∷ 32 ∷ 160 ∷ 5760 ∷ 8232 ∷ 8233 ∷ 8239 ∷ 8287 ∷ 12288 ∷ 65279 ∷ [])
    || (leb 8192 c && leb c 8202)

unfoldable pub trim_start : String → String
unfolding is_space
trim_start String.[] = ""
trim_start (String.◌∷◌ c t) =
    let rest = trim_start t in if is_space (code c) then rest else String.◌∷◌ c t

unfoldable pub trim_end : String → String
unfolding is_space
trim_end String.[] = ""
trim_end (String.◌∷◌ c t) =
    let rest = trim_end t in if is_empty rest && is_space (code c) then "" else String.◌∷◌ c rest

-- `s.trim()`
unfoldable pub trim : String → String
unfolding trim_start trim_end
trim s = trim_end (trim_start s)

-- The code points of a text.
unfoldable pub size : String → ℕ
size String.[] = 0
size (String.◌∷◌ c t) = suc (size t)

-- `s.slice(0, n)`, over code points
unfoldable pub take_text : ℕ → String → String
take_text zero s = ""
take_text (suc n) String.[] = ""
take_text (suc n) (String.◌∷◌ c t) = String.◌∷◌ c (take_text n t)

-- The UTF-16 code units of a text: one for a character up to U+FFFF, else a surrogate pair.
unfoldable pub units : String → List ℕ
units String.[] = []
units (String.◌∷◌ c t) =
    let rest = units t in
    if ltb (code c) 65536
    then code c ∷ rest
    else (55296 + (code c - 65536) / 1024) ∷ (56320 + (code c - 65536) % 1024) ∷ rest
