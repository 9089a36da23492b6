-- ===== src/Scripts/Tables/Extract.antt =====
-- scripts/pdf-to-tables.py, parse_tables: from the lines of the text to the tables.
use pygt.Base.{
  Text, text, Bool, true, false, ◌&&◌, not, Option, none, some, List, [], ◌∷◌, ◌++◌, map, length,
  starts_with, leb, ◌==◌, nat_eq, list_eq, if◌then◌else◌,
}
use pygt.Base.Dict.{Dict, get, has, put}
use pygt.Base.Strings.{is_empty, contains, is_space, strip, rstrip, split_on}
use pygt.Scripts.Tables.Split.{
  split_cells, any, is_hex_bytes, is_hex_bytes_count, is_furniture, format_row,
}
use pygt.Scripts.Tables.Canonical.{canonical_name}
use pygt.Scripts.Tables.Titles.{section_names, is_chapter, lower, occurs}

-- The tables, and the flags of the loop over the lines.
pub record Extraction : Type 0 where
  pub tables : Dict Text (List Text)
  pub current : Option Text
  pub in_address_map : Bool
  pub aux_skip : Bool

unfoldable pub start_extraction : Extraction
start_extraction = record { tables = []; current = none; in_address_map = false; aux_skip = false }

-- `tables.setdefault(name, [])`
unfoldable pub set_default : Text → Dict Text (List Text) → Dict Text (List Text)
set_default name tables = if has tables name then tables else put tables name []

-- `tables[name].append(row)`, of a table that is there.
unfoldable pub append_row : Text → Text → Dict Text (List Text) → Dict Text (List Text)
append_row name row tables = elim (get tables name) [
  | none ↦ tables
  | some rows ↦ put tables name (rows ++ row ∷ [])
]

unfoldable pub section_of : List Text → Extraction → Extraction
unfolding canonical_name set_default
section_of [] x = x
section_of (first ∷ others) x = record {
  tables = set_default (canonical_name first others) x.tables;
  current = some (canonical_name first others);
  in_address_map = false;
  aux_skip = false;
}

unfoldable pub section_line : Text → Extraction → Extraction
unfolding section_of
section_line names x = section_of (map strip (split_on b',' names)) x

unfoldable pub chapter_line : Text → Extraction → Extraction
unfolding occurs lower
chapter_line stripped x = record x {
  current = none;
  in_address_map = occurs (text "address map") (map lower stripped);
  aux_skip = false;
}

-- `if first and first != ":" and not is_hex_bytes(first): continue`
unfoldable pub is_auxiliary : Text → Bool
unfolding is_hex_bytes
is_auxiliary first = not (is_empty first) && (not (first == text ":") && not (is_hex_bytes first))

-- A row inside a table, with its first cell apart.
unfoldable pub table_row : Text → Text → List Text → Extraction → Extraction
unfolding is_auxiliary append_row format_row
table_row name first cells x =
    if is_auxiliary first
    then x
    else if first == text ":"
    then (if leb 2 (length cells)
        then record x { tables = append_row name (text "| : | | |") x.tables }
        else x)
    else record x { tables = append_row name (format_row (first ∷ cells)) x.tables }

-- A row outside every section: the map of the start addresses.
unfoldable pub map_row : Text → List Text → Extraction → Extraction
unfolding is_hex_bytes_count append_row set_default format_row
map_row first cells x =
    if x.in_address_map && (leb 1 (length cells) && is_hex_bytes_count first 4)
    then record x {
      tables =
          append_row (text "base-addresses") (format_row (first ∷ cells))
            (set_default (text "base-addresses") x.tables);
    }
    else x

-- A row, by the section that it stands in.
unfoldable pub place_row : Option Text → Text → List Text → Extraction → Extraction
unfolding table_row map_row
place_row none first cells x = map_row first cells x
place_row (some name) first cells x = table_row name first cells x

-- A row that is no furniture.
unfoldable pub cells_line : List Text → Extraction → Extraction
unfolding any place_row
cells_line [] x = x
cells_line (first ∷ cells) x =
    if any (λ c. c == text "Total Size") (first ∷ cells)
    then x
    else if first == text "#"
    then record x { aux_skip = true }
    else if x.aux_skip
    then x
    else place_row x.current first cells x

-- A line that opens no section.
unfoldable pub plain_line : Text → Extraction → Extraction
unfolding is_chapter chapter_line split_cells is_furniture cells_line
plain_line stripped x =
    if is_chapter stripped
    then chapter_line stripped x
    else if not (starts_with stripped (text "|"))
    then x
    else if is_furniture (split_cells stripped)
    then x
    else cells_line (split_cells stripped) x

unfoldable pub titled_line : Option Text → Text → Extraction → Extraction
unfolding section_line plain_line
titled_line (some names) stripped x = section_line names x
titled_line none stripped x = plain_line stripped x

unfoldable pub extract_line : Text → Extraction → Extraction
unfolding section_names titled_line
extract_line stripped x = titled_line (section_names stripped) stripped x

unfoldable pub extract_lines : List Text → Extraction → Extraction
unfolding extract_line
extract_lines [] x = x
extract_lines (raw ∷ lines) x = extract_lines lines (extract_line (strip (rstrip is_space raw)) x)

unfoldable pub without_empty : Dict Text (List Text) → Dict Text (List Text)
without_empty [] = []
without_empty ((name, rows) ∷ tables) =
    let rest = without_empty tables in if is_empty rows then rest else (name, rows) ∷ rest

unfoldable pub parse_tables : List Text → Dict Text (List Text)
unfolding extract_lines start_extraction without_empty
parse_tables lines = without_empty (extract_lines lines start_extraction).tables

pub data Kind : Type 0 where
  address_map : Kind
  params : Kind

unfoldable pub last_cell : List Text → Text
last_cell [] = []
last_cell (c ∷ []) = c
last_cell (c ∷ d ∷ cs) = last_cell (d ∷ cs)

unfoldable pub table_kind : List Text → Kind
unfolding split_cells last_cell
table_kind [] = params
table_kind (row ∷ rows) =
    let rest = table_kind rows in
    let cells = split_cells row in
    if length cells == 2 && contains (last_cell cells) b'['
    then address_map
    else if leb 3 (length cells)
    then params
    else rest
