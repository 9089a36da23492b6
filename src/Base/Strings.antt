-- ===== src/Base/Strings.antt =====
-- The methods of Python's str that the scripts call, on texts as lists of code points.
pub mod Strip
pub mod Split
use Prim.Native.Nat.{ℕ, zero, suc, ◌+◌, ◌-◌, ◌*◌, ◌/◌, ◌%◌}
use mathlib.Core.Bool.{Bool, true, false, ◌&&◌, ◌||◌, not}
use mathlib.Core.Option.{Option, none, some}
use mathlib.Core.List.{List, [], ◌∷◌, ◌++◌}
use pygt.Base.Tests.{Text, text, ltb, leb, nat_beq, nat_eq, list_eq, ◌==◌, if◌then◌else◌}
use pygt.Base.Lists.{length, strip_prefix}

unfoldable pub is_empty {ℓ} : {A : Type ℓ} → List A → Bool
is_empty [] = true
is_empty (x ∷ xs) = false

-- `c in chars`
unfoldable pub contains : Text → ℕ → Bool
contains [] c = false
contains (x ∷ xs) c = nat_beq x c || contains xs c

-- `c.isspace()`: ASCII and the other code points that Unicode counts as white space.
unfoldable pub is_space : ℕ → Bool
is_space c =
    leb 9 c && leb c 13
    || leb 28 c && leb c 32
    || nat_beq c 133
    || nat_beq c 160
    || nat_beq c 5760
    || leb 8192 c && leb c 8202
    || leb 8232 c && leb c 8233
    || nat_beq c 8239
    || nat_beq c 8287
    || nat_beq c 12288

-- `s.lstrip(...)` and `s.rstrip(...)`, by the characters to take away.
unfoldable pub lstrip : (ℕ → Bool) → Text → Text
lstrip test [] = []
lstrip test (c ∷ cs) = let rest = lstrip test cs in if test c then rest else c ∷ cs

unfoldable pub rstrip : (ℕ → Bool) → Text → Text
unfolding is_empty
rstrip test [] = []
rstrip test (c ∷ cs) = let rest = rstrip test cs in if test c && is_empty rest then [] else c ∷ rest

unfoldable pub strip_of : (ℕ → Bool) → Text → Text
unfolding lstrip rstrip
strip_of test s = rstrip test (lstrip test s)

-- `s.strip()`
unfoldable pub strip : Text → Text
unfolding strip_of is_space
strip s = strip_of is_space s

-- A character before the first piece.
unfoldable pub push_head : ℕ → List Text → List Text
push_head c [] = (c ∷ []) ∷ []
push_head c (piece ∷ pieces) = (c ∷ piece) ∷ pieces

-- `s.split(sep)`, for a separator of one character.
unfoldable pub split_on : ℕ → Text → List Text
unfolding push_head
split_on sep [] = [] ∷ []
split_on sep (c ∷ cs) =
    let rest = split_on sep cs in if nat_beq c sep then [] ∷ rest else push_head c rest

-- `s.rsplit(sep, 1)`, where `sep` occurs: what stands before and behind the last one.
unfoldable pub rsplit_on : ℕ → Text → Option (Text × Text)
rsplit_on sep [] = none
rsplit_on sep (c ∷ cs) = elim (rsplit_on sep cs) [
  | some (before, behind) ↦ some (c ∷ before, behind)
  | none ↦ if nat_beq c sep then some ([], cs) else none
]

unfoldable pub starts_word : Text → Bool
unfolding is_space
starts_word [] = false
starts_word (c ∷ cs) = not (is_space c)

-- `s.split()`
unfoldable pub words : Text → List Text
unfolding starts_word push_head
words [] = []
words (c ∷ cs) =
    let rest = words cs in
    if is_space c then rest else if starts_word cs then push_head c rest else (c ∷ []) ∷ rest

-- `s.replace(pattern, replacement)`, for a pattern that is not empty, on fuel of the text's length.
unfoldable pub replace_fuel : ℕ → Text → Text → Text → Text
replace_fuel zero pattern replacement s = s
replace_fuel (suc f) pattern replacement [] = []
replace_fuel (suc f) pattern replacement (c ∷ cs) = elim (strip_prefix pattern (c ∷ cs)) [
  | some rest ↦ replacement ++ replace_fuel f pattern replacement rest
  | none ↦ c ∷ replace_fuel f pattern replacement cs
]

unfoldable pub replace : Text → Text → Text → Text
unfolding replace_fuel
replace pattern replacement s = replace_fuel (length s) pattern replacement s

-- One hexadecimal digit of either case.
unfoldable pub hex_value : ℕ → Option ℕ
hex_value c =
    if leb 48 c && leb c 57
    then some (c - 48)
    else if leb 65 c && leb c 70
    then some (c - 55)
    else if leb 97 c && leb c 102
    then some (c - 87)
    else none

unfoldable pub parse_hex : ℕ → Text → Option ℕ
unfolding hex_value
parse_hex acc [] = some acc
parse_hex acc (c ∷ cs) = elim (hex_value c) [ none ↦ none | some d ↦ parse_hex (acc * 16 + d) cs ]

-- `int(s, 16)` of a word of hexadecimal digits; `none` where Python raises ValueError. Signs, a prefix
-- 0x and underscores do not occur in the tables.
unfoldable pub int_of_hex : Text → Option ℕ
unfolding parse_hex
int_of_hex [] = none
int_of_hex (c ∷ cs) = parse_hex 0 (c ∷ cs)
