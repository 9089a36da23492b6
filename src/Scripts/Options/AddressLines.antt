-- ===== src/Scripts/Options/AddressLines.antt =====
-- The lines with an address: the start of a field, its parts, and the setting that closes it.
use pygt.Base.{
  ℕ, ◌/◌, ◌%◌, ◌<◌, ◌≡◌, ◌≢◌, refl, ap, ◌∙◌, Text, text, false, Option, none, some, List, [], ◌∷◌,
  ◌++◌, nat_beq, nat_eq, list_eq, arith, ok,
}
use pygt.Base.Strings.{contains, is_space, is_empty, strip, strip_of, lstrip, rstrip, rsplit_on}
use pygt.Base.Strings.Strip.{lstrip-append, rstrip-append, strip_blank_left, strip_blank_right}
use pygt.Scripts.Options.Reading.{
  Reading, part, marker_line, standard_name, store_setting, named_cell, setting_line, truthy,
  address_line, table_line, process_line,
}
use pygt.Scripts.Options.Cells.{
  hex_digit, hex_byte, address_cell, address_cell-IsTrim, address_cell_bytes, range_text, name_cell,
  parse_value_range_lem, name_cell-rsplit, name_cell-bars,
}
use pygt.Scripts.Tables.Split.{format_cell, format_cells, format_row}
use pygt.Scripts.Tables.Rows.{IsCell, split_on-format_row, strip-padded}
use pygt.Scripts.Options.Lines.{setting_row, marker_row, field_row, empty_cell}

table_line-address :
    (t : Option (Text × List ℕ)) (x : ℕ) (rest : Text) (r : Reading)
    → nat_beq x b'|' ≡ false
    → table_line t (b'|' ∷ b' ' ∷ x ∷ rest) r ≡ address_line (b'|' ∷ b' ' ∷ x ∷ rest) r
unfolding table_line
table_line-address none x rest r h = refl
table_line-address (some current) x rest r h = rw h

-- A line that begins with an address is none of the other kinds.
process_line-address :
    (x : ℕ) (rest : Text) (r : Reading)
    → nat_beq x b'|' ≡ false
    → nat_beq x b':' ≡ false
    → process_line (b'|' ∷ b' ' ∷ x ∷ rest) r ≡ address_line (b'|' ∷ b' ' ∷ x ∷ rest) r
unfolding process_line
process_line-address x rest r h k = rw k (table_line-address (truthy r.current) x rest r h)

format_row_head :
    (x : ℕ) (s : Text) (cells : List Text)
    → nat_beq x b'#' ≡ false
    → format_row ((x ∷ s) ∷ cells) ≡ b'|' ∷ b' ' ∷ x ∷ ((s ++ text " |") ++ format_cells cells)
unfolding format_row format_cells format_cell
format_row_head x s cells h = rw h

digit_not_mark : (d : ℕ) → d < 16 → nat_beq (hex_digit d) b'#' ≡ false
digit_not_mark d h = ground arith

digit_not_colon : (d : ℕ) → d < 16 → nat_beq (hex_digit d) b':' ≡ false
digit_not_colon d h = ground arith

digit_not_bar : (d : ℕ) → d < 16 → nat_beq (hex_digit d) b'|' ≡ false
digit_not_bar d h = ground arith

module _ (a b : ℕ) (bits : Text) (small_a : a < 256) (small_b : b < 256)
    (bits_cell : IsCell bits) where
  address_IsCell : IsCell (address_cell a b)
  unfolding contains
  address_IsCell = record {
    bars =
        rw
          (
            digit_not_bar (a / 16) (omega arith),
            digit_not_bar (a % 16) (omega arith),
            digit_not_bar (b / 16) (omega arith),
            digit_not_bar (b % 16) (omega arith),
          )
          refl;
    trim = address_cell-IsTrim a b small_a small_b;
  }

  row-process :
      (cell : Text) (r : Reading)
      → process_line (format_row (address_cell a b ∷ bits ∷ cell ∷ [])) r
        ≡ address_line (format_row (address_cell a b ∷ bits ∷ cell ∷ [])) r
  row-process cell r =
      rw
        (format_row_head (hex_digit (a / 16)) (hex_digit (a % 16) ∷ b' ' ∷ hex_byte b)
          (bits ∷ cell ∷ []) (digit_not_mark (a / 16) (omega arith)))
        (process_line-address (hex_digit (a / 16)) _ r (digit_not_bar (a / 16) (omega arith))
          (digit_not_colon (a / 16) (omega arith)))

  name_cell-IsCell :
      (name : Text) (lo hi : ℕ) → IsCell name → name ≢ [] → IsCell (name_cell name lo hi)
  unfolding lstrip rstrip is_space
  name_cell-IsCell name lo hi h ne = record {
    bars = name_cell-bars name lo hi h.bars;
    trim = record {
      left = lstrip-append is_space name _ h.trim.left ne;
      right =
          rstrip-append is_space name (b' ' ∷ b'(' ∷ (range_text lo hi ++ b')' ∷ []))
            (rstrip-append is_space (b' ' ∷ b'(' ∷ range_text lo hi) (b')' ∷ []) refl (λ e. cc))
            (λ e. cc);
    };
  }

  named_cell_parts :
      (name : Text) (lo hi : ℕ) (r : Reading)
      → IsCell name
      → name ≢ []
      → named_cell (a ∷ b ∷ []) (some (name ++ b' ' ∷ [], range_text lo hi ++ b')' ∷ [])) r
        ≡ store_setting (standard_name name) (lo ∷ hi ∷ []) (a ∷ b ∷ []) r
  unfolding named_cell
  named_cell_parts name lo hi r h ne =
      rw (parse_value_range_lem lo hi, strip_blank_right name h.trim ne) refl

  address_line-setting_row :
      (name : Text) (lo hi : ℕ) (r : Reading)
      → IsCell name
      → name ≢ []
      → address_line (setting_row a b bits name lo hi) r
        ≡ store_setting (standard_name name) (lo ∷ hi ∷ []) (a ∷ b ∷ []) r
  unfolding address_line setting_line part format_row
  address_line-setting_row name lo hi r h ne =
      let named = name_cell-IsCell name lo hi h ne in
      rw
        (
          split_on-format_row (address_cell a b ∷ bits ∷ name_cell name lo hi ∷ [])
              (address_IsCell, (bits_cell, (named, tt))),
          strip-padded (address_cell a b) address_IsCell.trim,
          address_cell_bytes a b small_a small_b,
        )
        (ap (λ o. named_cell (a ∷ b ∷ []) o r)
            (ap (rsplit_on b'(') (strip-padded (name_cell name lo hi) named.trim)
              ∙ name_cell-rsplit name lo hi)
          ∙ named_cell_parts name lo hi r h ne)

  -- The setting of the row is stored.
  pub process_line-setting_row :
      (name : Text) (lo hi : ℕ) (r : Reading)
      → IsCell name
      → name ≢ []
      → process_line (setting_row a b bits name lo hi) r
        ≡ store_setting (standard_name name) (lo ∷ hi ∷ []) (a ∷ b ∷ []) r
  process_line-setting_row name lo hi r h ne =
      row-process (name_cell name lo hi) r ∙ address_line-setting_row name lo hi r h ne

  -- A row with an address and nothing to name is passed over.
  pub process_line-field_row : (r : Reading) → process_line (field_row a b bits) r ≡ ok r
  unfolding address_line setting_line part format_row named_cell
  process_line-field_row r =
      row-process [] r
      ∙ rw
          (
            split_on-format_row (address_cell a b ∷ bits ∷ [] ∷ [])
                (address_IsCell, (bits_cell, (empty_cell, tt))),
            strip-padded (address_cell a b) address_IsCell.trim,
            address_cell_bytes a b small_a small_b,
          )
          (unfold strip strip_of rstrip lstrip is_space is_empty rsplit_on in refl)

  marker_cell-IsCell : IsCell (b'#' ∷ b' ' ∷ address_cell a b)
  unfolding contains lstrip is_space
  marker_cell-IsCell = record {
    bars = address_IsCell.bars;
    trim = record {
      left = refl;
      right =
          rstrip-append is_space (b'#' ∷ b' ' ∷ []) (address_cell a b) address_IsCell.trim.right
            (λ e. cc);
    };
  }

  marker_mark : lstrip (nat_beq b'#') (b'#' ∷ b' ' ∷ address_cell a b) ≡ b' ' ∷ address_cell a b
  unfolding lstrip
  marker_mark = refl

  -- The start of a field is kept for the row that names it.
  pub process_line-marker_row :
      (r : Reading)
      → process_line (marker_row a b bits) r ≡ ok (record r { pending_start = some (a ∷ b ∷ []) })
  unfolding process_line marker_line part format_row format_cells format_cell
  process_line-marker_row r =
      rw
        (
          split_on-format_row ((b'#' ∷ b' ' ∷ address_cell a b) ∷ bits ∷ [] ∷ [])
              (marker_cell-IsCell, (bits_cell, (empty_cell, tt))),
          strip-padded (b'#' ∷ b' ' ∷ address_cell a b) marker_cell-IsCell.trim,
          marker_mark,
          strip_blank_left (address_cell a b) address_IsCell.trim,
          address_cell_bytes a b small_a small_b,
        )
        refl
