-- ===== src/Scripts/Options/Lines.antt =====
-- What each kind of line does to the table, for the rows of a setting as pdf-to-tables.py writes them.
use pygt.Base.{
  ℕ, ◌+◌, ◌≡◌, refl, ap, ◌∙◌, Text, text, false, none, some, List, [], ◌∷◌, ◌++◌, length, nat_eq,
  list_eq, ◌==◌, All, ok,
}
use pygt.Base.Dict.{Dict, has}
use pygt.Base.Strings.{contains, is_empty, lstrip, rstrip}
use pygt.Scripts.Options.Ranges.{Entry, expand_line}
use pygt.Scripts.Options.Tails.{enumerate_from}
use pygt.Scripts.Options.Reading.{
  Reading, part, add_options, store_options, options_line, process_line,
}
use pygt.Scripts.Options.Cells.{address_cell, name_cell}
use pygt.Scripts.Options.Names.{IsName, join, clean_options-join, add_options_last}
use pygt.Scripts.Tables.Split.{format_cell, format_cells, format_row}
use pygt.Scripts.Tables.Rows.{IsCell, split_on-format_row, strip-padded}

-- The rows of a setting: of its value names, of its name and range, and of the start of its field.
abbrev pub names_row : List Text → Text
names_row os = format_row ([] ∷ [] ∷ join os ∷ [])

abbrev pub setting_row : ℕ → ℕ → Text → Text → ℕ → ℕ → Text
setting_row a b bits name lo hi = format_row (address_cell a b ∷ bits ∷ name_cell name lo hi ∷ [])

abbrev pub marker_row : ℕ → ℕ → Text → Text
marker_row a b bits = format_row ((b'#' ∷ b' ' ∷ address_cell a b) ∷ bits ∷ [] ∷ [])

abbrev pub field_row : ℕ → ℕ → Text → Text
field_row a b bits = format_row (address_cell a b ∷ bits ∷ [] ∷ [])

-- A row of names that the script reads as names: none of the ranges that it expands, and not a bare unit.
pub record IsNamesRow (os : List Text) : Type 0 where
  pub names : All IsName os
  pub cell : IsCell (join os)
  pub plain : expand_line (names_row os) ≡ names_row os
  pub no_unit : (join os == text "[ms]") ≡ false

pub empty_cell : IsCell []
unfolding contains lstrip rstrip
empty_cell = record { bars = refl; trim = record { left = refl; right = refl } }

names_row-store :
    (os : List Text) (name : Text) (bounds : List ℕ) (r : Reading)
    → IsNamesRow os
    → options_line (names_row os) (name, bounds) r ≡ store_options os (name, bounds) r
unfolding options_line part
names_row-store os name bounds r h =
    rw
      (
        h.plain,
        split_on-format_row ([] ∷ [] ∷ join os ∷ []) (empty_cell, (empty_cell, (h.cell, tt))),
        strip-padded (join os) h.cell.trim,
        h.no_unit,
      )
      (ap (λ l. store_options l (name, bounds) r) (clean_options-join os h.names))

-- The state below a setting.
abbrev pub below : Dict Text Entry → Text → ℕ → ℕ → ℕ → Dict Text ℕ → Reading
below d name lo hi offset conflicts = record {
  result = d;
  current = some (name, lo ∷ hi ∷ []);
  offset = offset;
  conflict_count = conflicts;
  pending_start = none;
}

module _ (name : Text) (lo hi : ℕ) (conflicts : Dict Text ℕ) (named : is_empty name ≡ false) where
  -- Below a setting whose name is not empty, the row is read as names.
  names_row-process :
      (os : List Text) (d : Dict Text Entry) (offset : ℕ)
      → process_line (names_row os) (below d name lo hi offset conflicts)
        ≡ options_line (names_row os) (name, lo ∷ hi ∷ []) (below d name lo hi offset conflicts)
  unfolding process_line format_row format_cells format_cell
  names_row-process os d offset = rw named

  -- The names of a row get the values that follow those of the rows before it.
  pub process_line-names_row :
      (os : List Text) (d : Dict Text Entry) (e : Entry) (offset : ℕ)
      → IsNamesRow os
      → has d name ≡ false
      → process_line (names_row os) (below (d ++ (name, e) ∷ []) name lo hi offset conflicts)
        ≡ ok (
            below
              (d ++ (name, record e { values = enumerate_from (lo + offset) os e.values }) ∷ [])
              name
              lo
              hi
              (offset + length os)
              conflicts)
  process_line-names_row os d e offset h new =
      names_row-process os (d ++ (name, e) ∷ []) offset
      ∙ names_row-store os name (lo ∷ hi ∷ [])
          (below (d ++ (name, e) ∷ []) name lo hi offset conflicts) h
      ∙ (unfold store_options add_options in rw (add_options_last os name (lo + offset) d e new))
