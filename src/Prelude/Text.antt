-- ===== src/Prelude/Text.antt =====
-- Python's string operations that the program uses, over the native texts.
use Prim.Native.Nat.{ℕ, zero, suc, ◌≤◌}
use Prim.Native.Char.{Char, code}
use Prim.Native.String
use Prim.Native.String.{String}
use mathlib.Core.Bool.{Bool, true, false, ◌||◌, ◌&&◌, not}
use mathlib.Core.List.{List, [], ◌∷◌}
use native.Mathlib.Omega.{arith}
use text.Mathlib.Text.{◌==◌}
use deepticket.Prelude.Tests.{leb, eqb, if◌then◌else◌}

infixr 65 ◌<>◌
-- `f"{a}{b}"`
abbrev pub ◌<>◌ : String → String → String
a <> b = String.◌++◌ a b

-- `bool(s)` for a string
abbrev pub nonempty : String → Bool
nonempty s = not (s == "")

-- `s[:n]`: the first `n` characters
unfoldable pub clip : ℕ → String → String
clip zero s = ""
clip (suc n) String.[] = ""
clip (suc n) (String.◌∷◌ c s) = String.◌∷◌ c (clip n s)

-- `len(s)`
unfoldable pub size : String → ℕ
size String.[] = 0
size (String.◌∷◌ c s) = suc (size s)

pub size-clip_le : (n : ℕ) (s : String) → size (clip n s) ≤ n
unfolding size clip
size-clip_le zero s = omega arith
size-clip_le (suc n) String.[] = omega arith
size-clip_le (suc n) (String.◌∷◌ c s) = omega (arith, size-clip_le n s)

-- `str.isspace` of one character
pub is_space : Char → Bool
is_space c =
    let n = code c in
    (leb 9 n && leb n 13)
    || (leb 28 n && leb n 32)
    || eqb n 0x85
    || eqb n 0xa0
    || eqb n 0x1680
    || (leb 0x2000 n && leb n 0x200a)
    || eqb n 0x2028
    || eqb n 0x2029
    || eqb n 0x202f
    || eqb n 0x205f
    || eqb n 0x3000

lstrip : String → String
lstrip String.[] = ""
lstrip (String.◌∷◌ c s) = let rest = lstrip s in if is_space c then rest else String.◌∷◌ c s

rstrip : String → String
rstrip String.[] = ""
rstrip (String.◌∷◌ c s) =
    let rest = rstrip s in if is_space c && rest == "" then "" else String.◌∷◌ c rest

unfoldable pub strip : String → String
unfolding lstrip rstrip is_space
strip s = rstrip (lstrip s)

-- `s.replace("Z", "+00:00")`
unfoldable pub with_offset : String → String
with_offset String.[] = ""
with_offset (String.◌∷◌ c s) =
    let rest = with_offset s in if eqb (code c) 0x5a then "+00:00" <> rest else String.◌∷◌ c rest

-- `s.startswith(t)`
unfoldable pub starts_with : String → String → Bool
starts_with s String.[] = true
starts_with String.[] (String.◌∷◌ d t) = false
starts_with (String.◌∷◌ c s) (String.◌∷◌ d t) = eqb (code c) (code d) && starts_with s t

-- `s.split()`: `current` is the word that is being read.
abbrev pub flush : String → List String → List String
flush current rest = if nonempty current then current ∷ rest else rest

unfoldable pub words_from : String → String → List String
unfolding is_space
words_from String.[] current = flush current []
words_from (String.◌∷◌ c s) current =
    let rest = words_from s "" in
    let longer = words_from s (current <> String.◌∷◌ c "") in
    if is_space c then flush current rest else longer

abbrev pub split : String → List String
split s = words_from s ""

-- `sep.join(parts)`
unfoldable pub join : String → List String → String
join sep [] = ""
join sep (s ∷ []) = s
join sep (s ∷ t ∷ rest) = s <> sep <> join sep (t ∷ rest)
