-- ===== src/Scripts/Options/Cells.antt =====
-- The cells of a setting's row as they are written, and what the script reads in them: an address, and a name with a range.
use pygt.Base.{
  ℕ, ◌+◌, ◌*◌, ◌/◌, ◌%◌, ◌<◌, ◌≡◌, refl, sym, ap, ◌∙◌, Text, text, false, ◌&&◌, ◌||◌, some, [], ◌∷◌,
  ◌++◌, ltb, leb, nat_beq, if◌then◌else◌, arith, append_assoc, All, ok,
}
use pygt.Base.Strings.{
  contains, is_space, strip, strip_of, lstrip, rstrip, split_on, rsplit_on, words, starts_word,
  push_head, hex_value, parse_hex, int_of_hex,
}
use pygt.Base.Strings.Strip.{
  IsTrim, All-IsTrim, lstrip-append, rstrip-append, rstrip-append_blank, strip_blank_right,
  strip_blank_left,
}
use pygt.Base.Strings.Split.{contains-append, split_on-append, split_on_none, rsplit_on-append}
use pygt.Values.{decimal}
use pygt.Values.Decimal.{
  IsDigit, decimal-IsDigit, decimal-ne-nil, int_of_text-decimal, contains-IsDigit, decimal-IsTrim,
  decimal-IsTrim_space,
}
use pygt.Scripts.Options.Ranges.{each, unsigned, int_of_piece, parse_value_range}

-- A digit of the manual's addresses, and a byte as two of them.
abbrev pub hex_digit : ℕ → ℕ
hex_digit d = if ltb d 10 then 48 + d else 55 + d

abbrev pub hex_byte : ℕ → Text
hex_byte b = hex_digit (b / 16) ∷ hex_digit (b % 16) ∷ []

abbrev pub address_cell : ℕ → ℕ → Text
address_cell a b = hex_byte a ++ b' ' ∷ hex_byte b

hex_value-hex_digit : (d : ℕ) → d < 16 → hex_value (hex_digit d) ≡ some d
unfolding hex_value
hex_value-hex_digit d h = ground arith

pub hex_digit_kept : (d : ℕ) → d < 16 → is_space (hex_digit d) ≡ false
unfolding is_space
hex_digit_kept d h = ground arith

parse_hex-hex_digit :
    (acc d : ℕ) (t : Text) → d < 16 → parse_hex acc (hex_digit d ∷ t) ≡ parse_hex (acc * 16 + d) t
unfolding parse_hex
parse_hex-hex_digit acc d t h = rw (hex_value-hex_digit d h, parse_hex)

pub int_of_hex-hex_byte : (b : ℕ) → b < 256 → int_of_hex (hex_byte b) ≡ some b
unfolding int_of_hex parse_hex
int_of_hex-hex_byte b h =
    parse_hex-hex_digit 0 (b / 16) (hex_digit (b % 16) ∷ []) (omega arith)
    ∙ parse_hex-hex_digit (0 * 16 + b / 16) (b % 16) [] (omega arith)
    ∙ ap some {x = (0 * 16 + b / 16) * 16 + b % 16} (omega arith)

words_pair :
    (p q r s : ℕ)
    → is_space p ≡ false
    → is_space q ≡ false
    → is_space r ≡ false
    → is_space s ≡ false
    → words (p ∷ q ∷ b' ' ∷ r ∷ s ∷ []) ≡ (p ∷ q ∷ []) ∷ (r ∷ s ∷ []) ∷ []
unfolding words starts_word push_head
words_pair p q r s hp hq hr hs = rw (hp, hq, hr, hs)

module _ (a b : ℕ) (small_a : a < 256) (small_b : b < 256) where
  pub address_cell-IsTrim : IsTrim is_space (address_cell a b)
  address_cell-IsTrim = record {
    left = unfold lstrip in rw (hex_digit_kept (a / 16) (omega arith)) refl;
    right =
        rstrip-append is_space (hex_byte a ++ b' ' ∷ []) (hex_byte b)
          (All-IsTrim is_space (hex_byte b) (
            hex_digit_kept (b / 16) (omega arith),
            (hex_digit_kept (b % 16) (omega arith), tt),
          )).right
          (λ e. cc);
  }

  pub address_cell_bytes : each int_of_hex (words (address_cell a b)) ≡ ok (a ∷ b ∷ [])
  unfolding each
  address_cell_bytes = rw (
    words_pair (hex_digit (a / 16)) (hex_digit (a % 16)) (hex_digit (b / 16)) (hex_digit (b % 16))
        (hex_digit_kept (a / 16) (omega arith)) (hex_digit_kept (a % 16) (omega arith))
        (hex_digit_kept (b / 16) (omega arith)) (hex_digit_kept (b % 16) (omega arith)),
    int_of_hex-hex_byte a small_a,
    int_of_hex-hex_byte b small_b,
  )

-- `NAME (lo - hi)`
abbrev pub range_text : ℕ → ℕ → Text
range_text lo hi = decimal lo ++ (b' ' ∷ b'-' ∷ b' ' ∷ decimal hi)

abbrev pub name_cell : Text → ℕ → ℕ → Text
name_cell name lo hi = name ++ b' ' ∷ b'(' ∷ (range_text lo hi ++ b')' ∷ [])

unsigned-IsDigit : (s : Text) → All IsDigit s → unsigned s ≡ s
unfolding unsigned
unsigned-IsDigit [] h = refl
unsigned-IsDigit (c ∷ cs) h = ground arith

int_of_piece-decimal : (x : Text) (n : ℕ) → strip x ≡ decimal n → int_of_piece x ≡ some n
unfolding int_of_piece
int_of_piece-decimal x n h =
    rw (h, unsigned-IsDigit (decimal n) (decimal-IsDigit n)) (int_of_text-decimal n)

bracket_kept : (c : ℕ) → IsDigit c → contains (text "()") c ≡ false
unfolding contains
bracket_kept c h = ground arith

range_text-strip :
    (lo hi : ℕ) → strip_of (contains (text "()")) (range_text lo hi ++ b')' ∷ []) ≡ range_text lo hi
unfolding strip_of
range_text-strip lo hi =
    let first = decimal-IsTrim (contains (text "()")) bracket_kept lo in
    let last = decimal-IsTrim (contains (text "()")) bracket_kept hi in
    let test = contains (text "()") in
    ap (rstrip test) (
      ap (lstrip test) (append_assoc (decimal lo) (b' ' ∷ b'-' ∷ b' ' ∷ decimal hi) (b')' ∷ []))
      ∙ lstrip-append test (decimal lo) _ first.left (decimal-ne-nil lo)
      ∙ sym (append_assoc (decimal lo) (b' ' ∷ b'-' ∷ b' ' ∷ decimal hi) (b')' ∷ [])))
    ∙ rstrip-append_blank test (range_text lo hi) b')' (unfold contains in refl)
    ∙ rstrip-append test (decimal lo) (b' ' ∷ b'-' ∷ b' ' ∷ decimal hi)
        (rstrip-append test (b' ' ∷ b'-' ∷ b' ' ∷ []) (decimal hi) last.right (decimal-ne-nil hi))
        (λ e. cc)

contains-decimal : (n c : ℕ) → (leb 48 c && leb c 57) ≡ false → contains (decimal n) c ≡ false
contains-decimal n c h = contains-IsDigit (decimal n) c (decimal-IsDigit n) h

contains-range_text :
    (lo hi c : ℕ)
    → (leb 48 c && leb c 57 || (nat_beq b' ' c || nat_beq b'-' c)) ≡ false
    → contains (range_text lo hi) c ≡ false
unfolding contains
contains-range_text lo hi c h =
    contains-append (decimal lo) (b' ' ∷ b'-' ∷ b' ' ∷ decimal hi) c
    ∙ rw (contains-decimal lo c (ground arith), contains-decimal hi c (ground arith)) (ground arith)

range_text-split :
    (lo hi : ℕ)
    → split_on b'-' (range_text lo hi) ≡ (decimal lo ++ b' ' ∷ []) ∷ (b' ' ∷ decimal hi) ∷ []
range_text-split lo hi =
    ap (split_on b'-') (sym (append_assoc (decimal lo) (b' ' ∷ []) (b'-' ∷ b' ' ∷ decimal hi)))
    ∙ split_on-append b'-' (decimal lo ++ b' ' ∷ []) (b' ' ∷ decimal hi) (
        contains-append (decimal lo) (b' ' ∷ []) b'-'
        ∙ rw (contains-decimal lo b'-' refl) (unfold contains in refl))
    ∙ ap (λ l. (decimal lo ++ b' ' ∷ []) ∷ l)
        (split_on_none b'-' (b' ' ∷ decimal hi) (unfold contains in contains-decimal hi b'-' refl))

pub parse_value_range_lem :
    (lo hi : ℕ) → parse_value_range (range_text lo hi ++ b')' ∷ []) ≡ ok (lo ∷ hi ∷ [])
unfolding parse_value_range each
parse_value_range_lem lo hi = rw (
  range_text-strip lo hi,
  range_text-split lo hi,
  int_of_piece-decimal (decimal lo ++ b' ' ∷ []) lo
      (strip_blank_right (decimal lo) (decimal-IsTrim_space lo) (decimal-ne-nil lo)),
  int_of_piece-decimal (b' ' ∷ decimal hi) hi
      (strip_blank_left (decimal hi) (decimal-IsTrim_space hi)),
)

-- The last bracket is the one before the range, whatever the name holds.
pub name_cell-rsplit :
    (name : Text) (lo hi : ℕ)
    → rsplit_on b'(' (name_cell name lo hi)
      ≡ some (name ++ b' ' ∷ [], range_text lo hi ++ b')' ∷ [])
name_cell-rsplit name lo hi =
    ap (rsplit_on b'(')
      (sym (append_assoc name (b' ' ∷ []) (b'(' ∷ (range_text lo hi ++ b')' ∷ []))))
    ∙ rsplit_on-append b'(' (name ++ b' ' ∷ []) (range_text lo hi ++ b')' ∷ []) (
        contains-append (range_text lo hi) (b')' ∷ []) b'('
        ∙ rw (contains-range_text lo hi b'(' refl) (unfold contains in refl))

pub name_cell-bars :
    (name : Text) (lo hi : ℕ)
    → contains name b'|' ≡ false
    → contains (name_cell name lo hi) b'|' ≡ false
name_cell-bars name lo hi h =
    contains-append name (b' ' ∷ b'(' ∷ (range_text lo hi ++ b')' ∷ [])) b'|'
    ∙ rw h (
        unfold contains in
        (contains-append (range_text lo hi) (b')' ∷ []) b'|'
          ∙ rw (contains-range_text lo hi b'|' refl) (unfold contains in refl)))
