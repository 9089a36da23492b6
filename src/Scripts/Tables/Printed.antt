-- ===== src/Scripts/Tables/Printed.antt =====
-- The sections of the manual as they are printed: titles, and rows of cells.
use pygt.Base.{◌≡◌, ◌≢◌, Text, text, false, List, [], ◌∷◌, ◌++◌, map, list_eq, ◌==◌, All}
use pygt.Base.Keyed.{dict_of}
use pygt.Base.Dict.{Dict}
use pygt.Base.Strings.{contains, strip, split_on}
use pygt.Scripts.Tables.Split.{any, is_furniture, format_row}
use pygt.Scripts.Tables.Canonical.{canonical_name}
use pygt.Scripts.Tables.Extract.{is_auxiliary}
use pygt.Scripts.Tables.Rows.{IsTidy}

-- The cells of a row, the first one apart.
abbrev pub Cells : Type 0
Cells = Text × List Text

abbrev pub row_text : Cells → Text
row_text (first, rest) = format_row (first ∷ rest)

-- A section of the manual: what stands in the brackets of its title, the names there, and the rows.
pub record Section : Type 0 where
  pub title : Text
  pub first : Text
  pub others : List Text
  pub rows : List Cells

abbrev pub section_name : Section → Text
section_name s = canonical_name s.first s.others

abbrev pub title_line : Text → Text
title_line title = text "* [" ++ (title ++ text "]")

abbrev pub section_text : List Section → List Text
section_text [] = []
section_text (s ∷ sections) = title_line s.title ∷ (map row_text s.rows ++ section_text sections)

abbrev pub section_tables : List Section → Dict Text (List Text)
section_tables = dict_of section_name (λ s. map row_text s.rows)

-- A row of a table, as the extraction knows it.
pub record IsKept (c : Cells) : Type 0 where
  pub tidy : All IsTidy (c.0 ∷ c.1)
  pub solid : is_furniture (c.0 ∷ c.1) ≡ false
  pub no_total : any (λ t. t == text "Total Size") (c.0 ∷ c.1) ≡ false
  pub no_mark : (c.0 == text "#") ≡ false
  pub no_elision : (c.0 == text ":") ≡ false
  pub placed : is_auxiliary c.0 ≡ false

pub record IsSection (s : Section) : Type 0 where
  pub bracket : contains s.title b']' ≡ false
  pub titled : s.title ≢ []
  pub names : map strip (split_on b',' s.title) ≡ s.first ∷ s.others
  pub some_rows : s.rows ≢ []
  pub kept : All IsKept s.rows
