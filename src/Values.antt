-- ===== src/Values.antt =====
-- Values that are an int or a str in the program: block ids, parameter values, labels. Numbers are
-- natural: the raw values of the specs and of the wire are never negative.
pub mod Decimal
use pygt.Base.{
  ℕ, zero, suc, ◌+◌, ◌*◌, ◌/◌, ◌%◌, ◌-◌, ◌≡◌, ◌↔◌, Text, Bool, true, false, ◌&&◌, Option, none,
  some, [], ◌∷◌, ◌++◌, ltb, leb, nat_beq, list_beq, list_beq_iff, list_eq, Eq, if◌then◌else◌, arith,
  text,
}

pub data Value : Type 0 where
  int : ℕ → Value
  str : Text → Value

-- `str(n)`, on fuel that is more than the number of digits.
unfoldable pub decimal_fuel : ℕ → ℕ → Text
decimal_fuel zero n = []
decimal_fuel (suc f) n =
    let rest = decimal_fuel f (n / 10) in
    if ltb n 10 then (48 + n) ∷ [] else rest ++ (48 + n % 10) ∷ []

unfoldable pub decimal : ℕ → Text
unfolding decimal_fuel
decimal n = decimal_fuel (suc n) n

-- `str(v)`
unfoldable pub str_of : Value → Text
unfolding decimal
str_of (int n) = decimal n
str_of (str t) = t

-- `str(v)` of a value that may be None.
unfoldable pub str_of_option : Option Text → Text
str_of_option none = text "None"
str_of_option (some t) = t

-- An int and a str are never equal.
unfoldable pub value_beq : Value → Value → Bool
value_beq (int m) (int n) = nat_beq m n
value_beq (int m) (str t) = false
value_beq (str s) (int n) = false
value_beq (str s) (str t) = list_beq s t

pub value_beq_iff : (v w : Value) → (value_beq v w ≡ true) ↔ (v ≡ w)
unfolding value_beq
value_beq_iff (int m) (int n) = ground arith
value_beq_iff (int m) (str t) = ground arith
value_beq_iff (str s) (int n) = ground arith
value_beq_iff (str s) (str t) = ground (arith, list_beq_iff s t)

instance abbrev pub value_eq : Eq Value
value_eq = record { beq = value_beq; beq_iff = value_beq_iff }

-- `int(t)` of a text of decimal digits; `none` where Python raises ValueError. Signs, blanks and
-- underscores do not occur in the specs.
unfoldable pub parse_digits : ℕ → Text → Option ℕ
parse_digits acc [] = some acc
parse_digits acc (c ∷ cs) =
    if leb 48 c && leb c 57 then parse_digits (acc * 10 + (c - 48)) cs else none

unfoldable pub int_of_text : Text → Option ℕ
unfolding parse_digits
int_of_text [] = none
int_of_text (c ∷ cs) = parse_digits 0 (c ∷ cs)
