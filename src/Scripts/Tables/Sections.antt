-- ===== src/Scripts/Tables/Sections.antt =====
-- A text of sections, each a title and rows, and the tables that are extracted from it.
use pygt.Base.{
  ◌≡◌, ◌≢◌, refl, sym, ap, ◌∙◌, Text, false, some, List, [], ◌∷◌, ◌++◌, map, list_eq, if◌then◌else◌,
  append_assoc, append-nil, All,
}
use pygt.Base.Keyed.{DistinctBy, fresh_after, All-fresh}
use pygt.Base.Dict.{Dict, has, put_new, get_last, put_last}
use pygt.Base.Strings.{is_empty, is_space, strip, rstrip}
use pygt.Scripts.Tables.Split.{is_furniture, format_row, split_cells}
use pygt.Scripts.Tables.Titles.{section_names, is_chapter, after_number}
use pygt.Scripts.Tables.Extract.{
  Extraction, start_extraction, set_default, append_row, section_of, section_line, table_row,
  place_row, cells_line, plain_line, titled_line, extract_line, extract_lines, without_empty,
  parse_tables,
}
use pygt.Scripts.Tables.Rows.{split_cells-format_row, strip-format_row, rstrip-format_row}
use pygt.Scripts.Tables.Printed.{
  Cells, row_text, Section, section_name, title_line, section_text, section_tables, IsKept,
  IsSection,
}
use pygt.Scripts.Tables.TitleLines.{rstrip-title_line, strip-title_line, section_names-title_line}

abbrev inside : Dict Text (List Text) → Text → Extraction
inside tables name = record {
  tables = tables;
  current = some name;
  in_address_map = false;
  aux_skip = false;
}

append_row_last :
    (d : Dict Text (List Text)) (name row : Text) (rows : List Text)
    → has d name ≡ false
    → append_row name row (d ++ (name, rows) ∷ []) ≡ d ++ (name, rows ++ row ∷ []) ∷ []
unfolding append_row
append_row_last d name row rows new =
    rw (get_last d name rows new, append_row) (put_last d name rows (rows ++ row ∷ []) new)

-- A row is no title and no chapter.
row_plain :
    (c : Cells) (x : Extraction)
    → extract_line (row_text c) x ≡ (
        if is_furniture (split_cells (row_text c))
        then x
        else cells_line (split_cells (row_text c)) x)
unfolding extract_line section_names titled_line plain_line is_chapter after_number format_row
row_plain c x = refl

-- One row more for the table of the section.
row_step :
    (c : Cells) (d : Dict Text (List Text)) (name : Text) (rows : List Text)
    → IsKept c
    → has d name ≡ false
    → extract_line (row_text c) (inside (d ++ (name, rows) ∷ []) name)
      ≡ inside (d ++ (name, rows ++ row_text c ∷ []) ∷ []) name
row_step (first, rest) d name rows k new =
    row_plain (first, rest) _
    ∙ (unfold cells_line place_row table_row in
        rw
          (
            split_cells-format_row (first ∷ rest) k.tidy,
            k.solid,
            k.no_total,
            k.no_mark,
            k.placed,
            k.no_elision,
          )
          (ap (λ t. inside t name) (append_row_last d name (row_text (first, rest)) rows new)))

extract_lines-cons :
    (line : Text) (lines : List Text) (x : Extraction)
    → strip (rstrip is_space line) ≡ line
    → extract_lines (line ∷ lines) x ≡ extract_lines lines (extract_line line x)
unfolding extract_lines
extract_lines-cons line lines x e = ap (λ l. extract_lines lines (extract_line l x)) e

row_lines :
    (cs : List Cells) (rest : List Text) (d : Dict Text (List Text)) (name : Text)
    (rows : List Text)
    → All IsKept cs
    → has d name ≡ false
    → extract_lines (map row_text cs ++ rest) (inside (d ++ (name, rows) ∷ []) name)
      ≡ extract_lines rest (inside (d ++ (name, rows ++ map row_text cs) ∷ []) name)
row_lines [] rest d name rows k new =
    ap (λ r. extract_lines rest (inside (d ++ (name, r) ∷ []) name)) (sym (append-nil rows))
row_lines (c ∷ cs) rest d name rows k new =
    extract_lines-cons (row_text c) (map row_text cs ++ rest) (inside (d ++ (name, rows) ∷ []) name)
      (ap strip (rstrip-format_row (c.0 ∷ c.1)) ∙ strip-format_row (c.0 ∷ c.1))
    ∙ ap (extract_lines (map row_text cs ++ rest)) (row_step c d name rows k.0 new)
    ∙ row_lines cs rest d name (rows ++ row_text c ∷ []) k.1 new
    ∙ ap (λ r. extract_lines rest (inside (d ++ (name, r) ∷ []) name))
        (append_assoc rows (row_text c ∷ []) (map row_text cs))

title_step :
    (s : Section) (x : Extraction)
    → IsSection s
    → has x.tables (section_name s) ≡ false
    → extract_line (title_line s.title) x
      ≡ inside (x.tables ++ (section_name s, []) ∷ []) (section_name s)
unfolding extract_line
title_step s x h new =
    ap (λ t. titled_line t (title_line s.title) x)
      (section_names-title_line s.title h.bracket h.titled)
    ∙ (unfold titled_line section_line in ap (λ l. section_of l x) h.names)
    ∙ (unfold section_of set_default in
        rw new (ap (λ t. inside t (section_name s)) (put_new x.tables (section_name s) [] new)))

-- Each section has a table of its own.
abbrev pub DistinctSections : List Section → Type 0
DistinctSections = DistinctBy section_name

sections_step :
    (sections : List Section) (x : Extraction)
    → All IsSection sections
    → All (λ t. has x.tables (section_name t) ≡ false) sections
    → DistinctSections sections
    → (extract_lines (section_text sections) x).tables ≡ x.tables ++ section_tables sections
sections_step [] x h new differ = (unfold extract_lines in sym (append-nil x.tables))
sections_step (s ∷ sections) x h new differ =
    let name = section_name s in
    let rows = map row_text s.rows in
    ap (λ y. y.tables)
      (extract_lines-cons (title_line s.title) (rows ++ section_text sections) x
          (ap strip (rstrip-title_line s.title) ∙ strip-title_line s.title)
        ∙ ap (extract_lines (rows ++ section_text sections)) (title_step s x h.0 new.0)
        ∙ row_lines s.rows (section_text sections) x.tables name [] h.0.kept new.0)
    ∙ sections_step sections (inside (x.tables ++ (name, rows) ∷ []) name) h.1
        (fresh_after section_name x.tables name rows sections new.1 differ.0) differ.1
    ∙ append_assoc x.tables ((name, rows) ∷ []) (section_tables sections)

map_some : (cs : List Cells) → cs ≢ [] → is_empty (map row_text cs) ≡ false
unfolding is_empty
map_some [] ne = absurd (ne refl)
map_some (c ∷ cs) ne = refl

without_empty_kept :
    (sections : List Section)
    → All IsSection sections
    → without_empty (section_tables sections) ≡ section_tables sections
unfolding without_empty
without_empty_kept [] h = refl
without_empty_kept (s ∷ sections) h =
    rw (map_some s.rows h.0.some_rows)
      (ap (λ l. (section_name s, map row_text s.rows) ∷ l) (without_empty_kept sections h.1))

-- Take sections whose title has no closing bracket and whose names give different tables, each with some rows of
-- tidy cells that are no furniture, no elision, no auxiliary row and have no Total Size cell. Printed one after the other, they are
-- extracted as they were: each table has its rows, in order.
pub parse_tables-section_text :
    (sections : List Section)
    → All IsSection sections
    → DistinctSections sections
    → parse_tables (section_text sections) ≡ section_tables sections
unfolding parse_tables start_extraction
parse_tables-section_text sections h differ =
    ap without_empty
      (sections_step sections _ h (All-fresh section_name (List Text) sections) differ)
    ∙ without_empty_kept sections h
