-- ===== src/Scripts/Converters/Places.antt =====
-- The address maps of the manual, and what spec-to-json.py makes of their rows.
use pygt.Base.{
  ℕ, ◌/◌, ◌%◌, ◌<◌, ◌≡◌, ◌≢◌, refl, sym, ap, ◌∙◌, Text, text, false, ok, List, [], ◌∷◌, ◌++◌, map,
  list_eq, nat_eq, length, length-append, All, arith, append_assoc, append-nil,
}
use pygt.Base.Dict.{Dict, has, put, put_new}
use pygt.Base.Keyed.{DistinctBy, dict_of, fresh_after, All-fresh}
use pygt.Base.Strings.{
  contains, is_space, strip, strip_of, lstrip, rstrip, split_on, words, starts_word, push_head,
  replace, int_of_hex,
}
use pygt.Base.Strings.Strip.{
  IsTrim, lstrip-append, rstrip-append, rstrip-append_blank, All-IsTrim, strip_blank_right,
}
use pygt.Base.Strings.Split.{contains-append, split_on-append, split_on_none}
use pygt.Scripts.Options.Ranges.{each}
use pygt.Scripts.Options.Cells.{hex_digit, hex_byte, hex_digit_kept, int_of_hex-hex_byte}
use pygt.Scripts.Tables.Split.{format_row}
use pygt.Scripts.Tables.Rows.{IsCell, split_on-format_row, strip-format_row, strip-padded}
use pygt.Scripts.Converters.Names.{IsShared, shared_table-IsShared}
use pygt.Scripts.Converters.{
  Reference, name_and_table, convert_parts, convert_line, convert_lines, convert_to_json,
}

-- A line of an address map: the bytes of an address, at least one, a name, and the table that it stands for, with the name
-- that this table has in the spec files.
pub record Place : Type 0 where
  pub byte : ℕ
  pub bytes : List ℕ
  pub name : Text
  pub table : Text
  pub shared : Text

abbrev hex_tail : List ℕ → Text
hex_tail [] = []
hex_tail (b ∷ bs) = b' ' ∷ (hex_byte b ++ hex_tail bs)

abbrev pub hex_cell : ℕ → List ℕ → Text
hex_cell b bs = hex_byte b ++ hex_tail bs

abbrev pub name_cell : Text → Text → Text
name_cell name table = name ++ (text " [" ++ (table ++ text "]"))

abbrev pub place_row : Place → Text
place_row p = format_row (hex_cell p.byte p.bytes ∷ name_cell p.name p.table ∷ [])

abbrev pub reference_of : Place → Reference
reference_of p = record { address = p.byte ∷ p.bytes; table = p.shared }

pub record IsPlace (p : Place) : Type 0 where
  pub small : All (λ b. b < 256) (p.byte ∷ p.bytes)
  pub name_trim : IsTrim is_space p.name
  pub named : p.name ≢ []
  pub name_bar : contains p.name b'|' ≡ false
  pub name_bracket : contains p.name b'[' ≡ false
  pub no_star : replace (text "(*)") [] p.name ≡ p.name
  pub table_trim : IsTrim (contains (text "] ")) p.table
  pub tabled : p.table ≢ []
  pub table_bar : contains p.table b'|' ≡ false
  pub table_bracket : contains p.table b'[' ≡ false
  pub of_type : IsShared p.table p.shared

-- The address cell.
first_word :
    (p q : ℕ) (rest : Text)
    → is_space p ≡ false
    → is_space q ≡ false
    → words (p ∷ q ∷ b' ' ∷ rest) ≡ (p ∷ q ∷ []) ∷ words rest
unfolding words starts_word push_head
first_word p q rest hp hq = rw (hp, hq) refl

high_kept : (b : ℕ) → b < 256 → is_space (hex_digit (b / 16)) ≡ false
high_kept b h = hex_digit_kept (b / 16) (omega arith)

low_kept : (b : ℕ) → is_space (hex_digit (b % 16)) ≡ false
low_kept b = hex_digit_kept (b % 16) (omega arith)

words-hex_cell :
    (b : ℕ) (bs : List ℕ)
    → All (λ c. c < 256) (b ∷ bs)
    → words (hex_cell b bs) ≡ hex_byte b ∷ map hex_byte bs
words-hex_cell b [] h =
    (unfold words starts_word push_head in rw (high_kept b h.0, low_kept b) refl)
words-hex_cell b (c ∷ bs) h =
    first_word (hex_digit (b / 16)) (hex_digit (b % 16)) (hex_cell c bs) (high_kept b h.0)
      (low_kept b)
    ∙ ap (λ l. hex_byte b ∷ l) (words-hex_cell c bs h.1)

each-hex_byte : (bs : List ℕ) → All (λ c. c < 256) bs → each int_of_hex (map hex_byte bs) ≡ ok bs
unfolding each
each-hex_byte [] h = refl
each-hex_byte (b ∷ bs) h = rw (int_of_hex-hex_byte b h.0, each-hex_byte bs h.1) refl

rstrip-hex_cell :
    (b : ℕ) (bs : List ℕ)
    → All (λ c. c < 256) (b ∷ bs)
    → rstrip is_space (hex_cell b bs) ≡ hex_cell b bs
rstrip-hex_cell b [] h =
    (All-IsTrim is_space (hex_byte b) (high_kept b h.0, (low_kept b, tt))).right
rstrip-hex_cell b (c ∷ bs) h =
    rstrip-append is_space (hex_byte b ++ b' ' ∷ []) (hex_cell c bs) (rstrip-hex_cell c bs h.1)
      (λ e. cc)

digit_not_bar : (d : ℕ) → d < 16 → contains (hex_digit d ∷ []) b'|' ≡ false
unfolding contains
digit_not_bar d h = ground arith

byte_not_bar : (b : ℕ) → b < 256 → contains (hex_byte b) b'|' ≡ false
byte_not_bar b h =
    contains-append (hex_digit (b / 16) ∷ []) (hex_digit (b % 16) ∷ []) b'|'
    ∙ rw (digit_not_bar (b / 16) (omega arith), digit_not_bar (b % 16) (omega arith)) refl

hex_cell-bars :
    (b : ℕ) (bs : List ℕ) → All (λ c. c < 256) (b ∷ bs) → contains (hex_cell b bs) b'|' ≡ false
hex_cell-bars b [] h = byte_not_bar b h.0
hex_cell-bars b (c ∷ bs) h =
    contains-append (hex_byte b ++ b' ' ∷ []) (hex_cell c bs) b'|'
    ∙ rw (contains-append (hex_byte b) (b' ' ∷ []) b'|', byte_not_bar b h.0, hex_cell-bars c bs h.1)
        (unfold contains in refl)

hex_cell-IsCell : (b : ℕ) (bs : List ℕ) → All (λ c. c < 256) (b ∷ bs) → IsCell (hex_cell b bs)
hex_cell-IsCell b bs h = record {
  bars = hex_cell-bars b bs h;
  trim = record {
    left = unfold lstrip in rw (high_kept b h.0) refl;
    right = rstrip-hex_cell b bs h;
  };
}

module _ (p : Place) (h : IsPlace p) where
  -- The name cell.
  name_cell-parts :
      name_cell p.name p.table ≡ (p.name ++ b' ' ∷ []) ++ b'[' ∷ (p.table ++ b']' ∷ [])
  name_cell-parts = sym (append_assoc p.name (b' ' ∷ []) (b'[' ∷ (p.table ++ b']' ∷ [])))

  name_cell-IsCell : IsCell (name_cell p.name p.table)
  name_cell-IsCell = record {
    bars =
        contains-append p.name (text " [" ++ (p.table ++ text "]")) b'|'
        ∙ rw
            (
              h.name_bar,
              contains-append (text " [") (p.table ++ text "]") b'|',
              contains-append p.table (text "]") b'|',
              h.table_bar,
            )
            (unfold contains in refl);
    trim = record {
      left =
          lstrip-append is_space p.name (text " [" ++ (p.table ++ text "]")) h.name_trim.left
            h.named;
      right =
          rstrip-append is_space p.name (text " [" ++ (p.table ++ text "]"))
            (rstrip-append is_space (text " [") (p.table ++ text "]")
              (rstrip-append is_space p.table (text "]") (unfold rstrip is_space in refl) (λ e. cc))
              (λ e. absurd (omega (arith, length-append p.table (text "]"), ap length e))))
            (λ e. cc);
    };
  }

  name_cell-split :
      name_and_table (split_on b'[' (name_cell p.name p.table))
      ≡ ok (p.name ++ b' ' ∷ [], p.table ++ b']' ∷ [])
  name_cell-split =
      ap (λ t. name_and_table (split_on b'[' t)) name_cell-parts
      ∙ ap name_and_table (
          split_on-append b'[' (p.name ++ b' ' ∷ []) (p.table ++ b']' ∷ [])
            (contains-append p.name (b' ' ∷ []) b'[' ∙ rw h.name_bracket (unfold contains in refl))
          ∙ ap (λ l. (p.name ++ b' ' ∷ []) ∷ l)
              (split_on_none b'[' (p.table ++ b']' ∷ []) (
                contains-append p.table (b']' ∷ []) b'['
                ∙ rw h.table_bracket (unfold contains in refl))))
      ∙ (unfold name_and_table in refl)

  table-strip : strip_of (contains (text "] ")) (p.table ++ b']' ∷ []) ≡ p.table
  unfolding strip_of
  table-strip =
      let test = contains (text "] ") in
      ap (rstrip test) (lstrip-append test p.table (b']' ∷ []) h.table_trim.left h.tabled)
      ∙ rstrip-append_blank test p.table b']' (unfold contains in refl)
      ∙ h.table_trim.right

  convert_line-place_row :
      (d : Dict Text Reference)
      → convert_line (split_on b'|' (strip (place_row p))) d ≡ ok (put d p.name (reference_of p))
  unfolding convert_line convert_parts
  convert_line-place_row d =
      rw
        (
          strip-format_row (hex_cell p.byte p.bytes ∷ name_cell p.name p.table ∷ []),
          split_on-format_row (hex_cell p.byte p.bytes ∷ name_cell p.name p.table ∷ [])
              (hex_cell-IsCell p.byte p.bytes h.small, (name_cell-IsCell, tt)),
          strip-padded (hex_cell p.byte p.bytes) (hex_cell-IsCell p.byte p.bytes h.small).trim,
          strip-padded (name_cell p.name p.table) name_cell-IsCell.trim,
          words-hex_cell p.byte p.bytes h.small,
          each-hex_byte (p.byte ∷ p.bytes) h.small,
          name_cell-split,
          strip_blank_right p.name h.name_trim h.named,
          h.no_star,
          table-strip,
          shared_table-IsShared h.of_type,
        )
        refl

convert_places :
    (ps : List Place) (d : Dict Text Reference)
    → All IsPlace ps
    → All (λ p. has d p.name ≡ false) ps
    → DistinctBy (λ p. p.name) ps
    → convert_lines (map place_row ps) d ≡ ok (d ++ dict_of (λ p. p.name) reference_of ps)
unfolding convert_lines
convert_places [] d h new differ = ap ok (sym (append-nil d))
convert_places (p ∷ ps) d h new differ =
    rw (convert_line-place_row p h.0 d, put_new d p.name (reference_of p) new.0)
      (convert_places ps (d ++ (p.name, reference_of p) ∷ []) h.1
          (fresh_after (λ q. q.name) d p.name (reference_of p) ps new.1 differ.0) differ.1
        ∙ ap ok (
            append_assoc d ((p.name, reference_of p) ∷ []) (dict_of (λ q. q.name) reference_of ps)))

-- Take lines of an address map with bytes for addresses, different names, and names and tables that can stand in a
-- cell. They are converted into one entry each, in order: under the name, the address and the table, which the blocks
-- of a type share.
pub convert_to_json-place_row :
    (ps : List Place)
    → All IsPlace ps
    → DistinctBy (λ p. p.name) ps
    → convert_to_json (map place_row ps) ≡ ok (dict_of (λ p. p.name) reference_of ps)
unfolding convert_to_json
convert_to_json-place_row ps h differ =
    convert_places ps [] h (All-fresh (λ p. p.name) Reference ps) differ
