-- ===== src/Scripts/Options/Ranges.antt =====
-- scripts/options-to-json.py: the entry of a setting, its range, and the ranges that are not written as a list.
use pygt.Base.{
  ℕ, zero, suc, ◌+◌, ◌-◌, ◌/◌, ◌%◌, Text, text, Bool, true, ◌&&◌, Option, List, [], ◌∷◌, ◌++◌, ltb,
  nat_beq, ◌==◌, nat_eq, list_eq, if◌then◌else◌, Result, ok, err, value_error, or_raise, ◌>>=◌,
}
use pygt.Base.Dict.{Dict}
use pygt.Base.Int.{ℤ, pos, negsuc, pos_part, neg_part, succ}
use pygt.Base.Strings.{contains, strip, strip_of, split_on}
use pygt.Bytes.{bytes_to_int}
use pygt.Values.{decimal, int_of_text}

pub record Entry : Type 0 where
  pub offset : List ℕ
  pub value_range : List ℕ
  pub bytes : Option ℤ
  pub values : Dict Text ℕ

-- `[f(x) for x in xs]`, for an `f` that may raise ValueError.
unfoldable pub each {ℓ} : {A : Type ℓ} → (A → Option ℕ) → List A → Result (List ℕ)
each f [] = ok []
each f (x ∷ xs) = or_raise (f x) value_error >>= λ n. each f xs >>= λ ns. ok (n ∷ ns)

-- `int(x)`, which takes blanks around the digits and a sign; a `-` cannot stand in a piece of a split at `-`.
unfoldable pub unsigned : Text → Text
unsigned [] = []
unsigned (c ∷ cs) = if nat_beq c b'+' then cs else c ∷ cs

unfoldable pub int_of_piece : Text → Option ℕ
unfolding unsigned
int_of_piece x = int_of_text (unsigned (strip x))

unfoldable pub parse_value_range : Text → Result (List ℕ)
unfolding each int_of_piece
parse_value_range value_range_str =
    each int_of_piece (split_on b'-' (strip_of (contains (text "()")) value_range_str))

unfoldable pub all_bytes : List ℕ → Bool
all_bytes [] = true
all_bytes (b ∷ bs) = ltb b 256 && all_bytes bs

-- `bytes(...)` raises ValueError for a number above 255.
unfoldable pub offset_to_int : List ℕ → Result ℕ
unfolding all_bytes
offset_to_int offset_bytes =
    if all_bytes offset_bytes then ok (bytes_to_int offset_bytes) else err value_error

-- `f"{i}"`
unfoldable pub int_text : ℤ → Text
int_text (pos n) = decimal n
int_text (negsuc n) = b'-' ∷ decimal (suc n)

-- `f"{i / 10}"`: 10 is the one divisor in use, and a tenth prints with one digit behind the point.
unfoldable pub tenths_text : ℤ → Text
tenths_text (pos n) = decimal (n / 10) ++ b'.' ∷ decimal (n % 10)
tenths_text (negsuc n) = b'-' ∷ (decimal (suc n / 10) ++ b'.' ∷ decimal (suc n % 10))

unfoldable pub range_names : ℤ → ℕ → Text → ℕ → Text
unfolding int_text tenths_text
range_names i zero unit divide = []
range_names i (suc count) unit divide =
    (if divide == 1 then int_text i else tenths_text i)
    ++ (unit ++ (text ", " ++ range_names (succ i) count unit divide))

-- `range(begin, end + 1)` has `end + 1 - begin` numbers, or none.
unfoldable pub expand_range : ℤ → ℤ → Text → ℕ → Text
unfolding range_names
expand_range begin end unit divide =
    text "| | | "
    ++ (range_names begin (pos_part end + neg_part begin + 1 - (pos_part begin + neg_part end)) unit
          divide
        ++ text "|")

-- The ranges that are not written as a list of values.
unfoldable pub expand_line : Text → Text
unfolding expand_range
expand_line line =
    if line == text "| | | -20 - 0 - +20 [dB] |"
    then expand_range (negsuc 19) (pos 20) (text "dB") 1
    else if line == text "| | | -50 - 50 |"
    then expand_range (negsuc 49) (pos 50) [] 1
    else if line == text "| | | -10 - 10 |"
    then expand_range (negsuc 9) (pos 10) [] 1
    else if line == text "| | | 0.1s, 0.2s - 10.0s |"
    then expand_range (pos 1) (pos 100) (text "s") 10
    else if line == text "| | | -50 - -1, 0, +1 - +50 |"
    then expand_range (negsuc 49) (pos 50) [] 1
    else line
