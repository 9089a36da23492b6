-- ===== src/Scripts/Tables/Extracted.antt =====
-- The rows that the extraction keeps, whatever the text of the manual is.
use pygt.Base.{
  ℕ, ◌≡◌, ◌≢◌, refl, sym, Text, text, Bool, true, false, not, ◌&&◌, ◌||◌, Option, none, some, List,
  [], ◌∷◌, map, length, leb, starts_with, nat_eq, list_eq, ◌==◌, if◌then◌else◌, All,
}
use pygt.Base.Dict.{Dict}
use pygt.Base.Strings.{is_empty, strip, rstrip, is_space, split_on}
use pygt.Scripts.Tables.Split.{
  any, is_hex_bytes, is_hex_bytes_count, is_furniture, format_row, split_cells,
}
use pygt.Scripts.Tables.Canonical.{canonical_name}
use pygt.Scripts.Tables.Titles.{section_names, is_chapter}
use pygt.Scripts.Tables.Extract.{
  Extraction, start_extraction, set_default, section_of, section_line, chapter_line, place_row,
  plain_line, titled_line, is_auxiliary, table_row, map_row, cells_line, extract_line,
  extract_lines, without_empty, parse_tables,
}
use pygt.Scripts.Tables.TableRows.{
  elision, cells, IsTableRow, AreRows, set_default-AreRows, append_row-AreRows,
}

-- What holds on both branches.
if_rule {ℓ κ} :
    {A : Type ℓ} (P : A → Type κ) (b : Bool) (x y : A)
    → (b ≡ true → P x)
    → (b ≡ false → P y)
    → P (if b then x else y)
if_rule P true x y f g = f refl
if_rule P false x y f g = g refl

abbrev KeepsRows : Extraction → Type 0
KeepsRows x = AreRows x.tables

by_cases :
    (empty hex colon : Bool)
    → (not empty && (not colon && not hex)) ≡ false
    → colon ≡ false
    → (empty || hex) ≡ true
by_cases true hex colon h k = refl
by_cases false true colon h k = refl
by_cases false false true h k = sym k
by_cases false false false h k = sym h

and_last : (a b c : Bool) → (a && (b && c)) ≡ true → c ≡ true
and_last true true c h = h
and_last true false c h = cc
and_last false b c h = cc

or_right : (a b : Bool) → b ≡ true → (a || b) ≡ true
or_right true b h = refl
or_right false b h = h

address_first :
    (first : Text)
    → is_auxiliary first ≡ false
    → (first == text ":") ≡ false
    → (is_empty first || is_hex_bytes first) ≡ true
unfolding is_auxiliary
address_first first h k = by_cases (is_empty first) (is_hex_bytes first) (first == text ":") h k

hex_first :
    (first : Text) (n : ℕ)
    → is_hex_bytes_count first n ≡ true
    → (is_empty first || is_hex_bytes first) ≡ true
unfolding is_hex_bytes_count
hex_first first n h =
    or_right (is_empty first) (is_hex_bytes first) (and_last true _ (is_hex_bytes first) h)

module _ (first : Text) (rest : List Text) (x : Extraction) (h : AreRows x.tables)
    (solid : is_furniture (first ∷ rest) ≡ false)
    (inside : any (λ c. c == text "Total Size") (first ∷ rest) ≡ false) where
  table_row-AreRows : (name : Text) → KeepsRows (table_row name first rest x)
  unfolding table_row
  table_row-AreRows name =
      if_rule KeepsRows (is_auxiliary first) _ _ (λ _. h)
        (λ plain.
          if_rule KeepsRows (first == text ":") _ _
            (λ _.
              if_rule KeepsRows (leb 2 (length rest)) _ _
                (λ _. append_row-AreRows name (text "| : | | |") x.tables h (elision refl))
                (λ _. h))
            (λ row.
              append_row-AreRows name (format_row (first ∷ rest)) x.tables h
                (cells first rest refl solid inside (address_first first plain row))))

  map_row-AreRows : KeepsRows (map_row first rest x)
  unfolding map_row
  map_row-AreRows =
      if_rule KeepsRows (x.in_address_map && (leb 1 (length rest) && is_hex_bytes_count first 4)) _
        _
        (λ start.
          append_row-AreRows (text "base-addresses") (format_row (first ∷ rest))
            (set_default (text "base-addresses") x.tables)
            (set_default-AreRows (text "base-addresses") x.tables h)
            (cells first rest refl solid inside (
              hex_first first 4 (
                and_last x.in_address_map (leb 1 (length rest)) (is_hex_bytes_count first 4)
                  start))))
        (λ _. h)

placed_row :
    (first : Text) (rest : List Text) (x : Extraction)
    → KeepsRows x
    → is_furniture (first ∷ rest) ≡ false
    → any (λ c. c == text "Total Size") (first ∷ rest) ≡ false
    → (current : Option Text) → KeepsRows (place_row current first rest x)
unfolding place_row
placed_row first rest x h solid inside none = map_row-AreRows first rest x h solid inside
placed_row first rest x h solid inside (some name) =
    table_row-AreRows first rest x h solid inside name

section_of-KeepsRows :
    (names : List Text) (x : Extraction) → KeepsRows x → KeepsRows (section_of names x)
unfolding section_of
section_of-KeepsRows [] x h = h
section_of-KeepsRows (first ∷ others) x h =
    set_default-AreRows (canonical_name first others) x.tables h

cells_line-KeepsRows :
    (cells : List Text) (x : Extraction)
    → is_furniture cells ≡ false
    → KeepsRows x
    → KeepsRows (cells_line cells x)
unfolding cells_line
cells_line-KeepsRows [] x solid h = h
cells_line-KeepsRows (first ∷ rest) x solid h =
    if_rule KeepsRows (any (λ c. c == text "Total Size") (first ∷ rest)) _ _ (λ _. h)
      (λ inside.
        if_rule KeepsRows (first == text "#") _ _ (λ _. h)
          (λ _.
            if_rule KeepsRows x.aux_skip _ _ (λ _. h)
              (λ _. placed_row first rest x h solid inside x.current)))

section_line-KeepsRows :
    (names : Text) (x : Extraction) → KeepsRows x → KeepsRows (section_line names x)
unfolding section_line
section_line-KeepsRows names x h = section_of-KeepsRows (map strip (split_on b',' names)) x h

plain_line-KeepsRows : (line : Text) (x : Extraction) → KeepsRows x → KeepsRows (plain_line line x)
unfolding plain_line
plain_line-KeepsRows line x h =
    if_rule KeepsRows (is_chapter line) _ _ (λ _. (unfold chapter_line in h))
      (λ _.
        if_rule KeepsRows (not (starts_with line (text "|"))) _ _ (λ _. h)
          (λ _.
            if_rule KeepsRows (is_furniture (split_cells line)) _ _ (λ _. h)
              (λ solid. cells_line-KeepsRows (split_cells line) x solid h)))

titled_line-KeepsRows :
    (title : Option Text) (line : Text) (x : Extraction)
    → KeepsRows x
    → KeepsRows (titled_line title line x)
unfolding titled_line
titled_line-KeepsRows none line x h = plain_line-KeepsRows line x h
titled_line-KeepsRows (some names) line x h = section_line-KeepsRows names x h

extract_line-KeepsRows :
    (line : Text) (x : Extraction) → KeepsRows x → KeepsRows (extract_line line x)
unfolding extract_line
extract_line-KeepsRows line x h = titled_line-KeepsRows (section_names line) line x h

extract_lines-KeepsRows :
    (lines : List Text) (x : Extraction) → KeepsRows x → KeepsRows (extract_lines lines x)
unfolding extract_lines
extract_lines-KeepsRows [] x h = h
extract_lines-KeepsRows (raw ∷ lines) x h =
    extract_lines-KeepsRows lines (extract_line (strip (rstrip is_space raw)) x)
      (extract_line-KeepsRows (strip (rstrip is_space raw)) x h)

-- Tables with rows, and all rows as they should be.
abbrev pub AreTables : Dict Text (List Text) → Type 0
AreTables [] = Unit
AreTables ((name, rows) ∷ tables) = (rows ≢ []) × All IsTableRow rows × AreTables tables

without_empty-AreTables :
    (tables : Dict Text (List Text)) → AreRows tables → AreTables (without_empty tables)
unfolding without_empty is_empty
without_empty-AreTables [] h = tt
without_empty-AreTables ((name, []) ∷ tables) h = without_empty-AreTables tables h.1
without_empty-AreTables ((name, row ∷ rows) ∷ tables) h =
    ((λ e. cc e), h.0, without_empty-AreTables tables h.1)

-- From any lines, every extracted table has rows, and each of its rows is the elision, or is printed from cells
-- that are no furniture, that hold no total size, and of which the first is empty or made of hex bytes.
pub parse_tables-AreTables : (lines : List Text) → AreTables (parse_tables lines)
unfolding parse_tables
parse_tables-AreTables lines =
    without_empty-AreTables (extract_lines lines start_extraction).tables
      (extract_lines-KeepsRows lines start_extraction (unfold start_extraction in tt))
