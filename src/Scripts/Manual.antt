-- ===== src/Scripts/Manual.antt =====
-- From the text of the manual to the entries of its settings: pdf-to-tables.py, and the converter that it runs.
use pygt.Base.{
  All-get_elem, subst, ℕ, ◌≡◌, refl, sym, ap, ◌∙◌, Text, Option, none, some, List, [], ◌∷◌, ◌++◌,
  map, length, get_elem?, list_eq, nat_eq, All,
}
use pygt.Base.Dict.{get}
use pygt.Base.Keyed.{get-dict_of}
use pygt.Scripts.Options.Cells.{address_cell, name_cell}
use pygt.Scripts.Options.Names.{join}
use pygt.Scripts.Options.Params.{Address, Param, first_rows, rows_of, rows, IsParam}
use pygt.Scripts.Options.Spans.{settled_entries}
use pygt.Scripts.Options.RoundTrip.{DistinctKeys, process_data-rows}
use pygt.Scripts.Tables.Extract.{parse_tables, table_kind, params}
use pygt.Scripts.Tables.Rows.{split_cells-format_row}
use pygt.Scripts.Tables.Printed.{
  Cells, row_text, Section, section_name, section_text, IsKept, IsSection,
}
use pygt.Scripts.Tables.Sections.{DistinctSections, parse_tables-section_text}
use pygt.Scripts.Check.{rows_to_json, entries}

-- The cells of the rows of settings.
abbrev field_cells : Address → Cells
field_cells a = (address_cell a.high a.low, a.bits ∷ [] ∷ [])

abbrev first_cells : Option Address → List Cells
first_cells none = []
first_cells (some a) = (b'#' ∷ b' ' ∷ address_cell a.high a.low, a.bits ∷ [] ∷ []) ∷ []

abbrev names_cells : List Text → Cells
names_cells os = ([], [] ∷ join os ∷ [])

abbrev setting_cells : Param → Cells
setting_cells p =
    (address_cell p.last.high p.last.low, p.last.bits ∷ name_cell p.name p.low p.high ∷ [])

abbrev cells_of : Param → List Cells
cells_of p =
    first_cells p.first
    ++ (map field_cells p.between ++ (setting_cells p ∷ map names_cells p.names))

abbrev pub all_cells : List Param → List Cells
all_cells [] = []
all_cells (p ∷ ps) = cells_of p ++ all_cells ps

map-append {ℓ κ} :
    {A : Type ℓ} {B : Type κ} (f : A → B) (xs ys : List A) → map f (xs ++ ys) ≡ map f xs ++ map f ys
map-append f [] ys = refl
map-append f (x ∷ xs) ys = ap (λ l. f x ∷ l) (map-append f xs ys)

map-map_row {ℓ} :
    {A : Type ℓ} (f : A → Cells) (xs : List A)
    → map row_text (map f xs) ≡ map (λ x. row_text (f x)) xs
map-map_row f [] = refl
map-map_row f (x ∷ xs) = ap (λ l. row_text (f x) ∷ l) (map-map_row f xs)

first_cells-rows : (a : Option Address) → map row_text (first_cells a) ≡ first_rows a
first_cells-rows none = refl
first_cells-rows (some a) = refl

cells_of-rows : (p : Param) → map row_text (cells_of p) ≡ rows_of p
cells_of-rows p =
    map-append row_text (first_cells p.first)
      (map field_cells p.between ++ (setting_cells p ∷ map names_cells p.names))
    ∙ rw
        (
          first_cells-rows p.first,
          map-append row_text (map field_cells p.between)
              (setting_cells p ∷ map names_cells p.names),
          map-map_row field_cells p.between,
          map-map_row names_cells p.names,
        )
        refl

all_cells-rows : (ps : List Param) → map row_text (all_cells ps) ≡ rows ps
all_cells-rows [] = refl
all_cells-rows (p ∷ ps) =
    map-append row_text (cells_of p) (all_cells ps) ∙ rw (cells_of-rows p, all_cells-rows ps) refl

-- Rows of three cells.
abbrev ThreeCells : List Cells → Type 0
ThreeCells = All (λ c. length c.1 ≡ 2)

ThreeCells-append : (xs ys : List Cells) → ThreeCells xs → ThreeCells ys → ThreeCells (xs ++ ys)
ThreeCells-append [] ys h k = k
ThreeCells-append (x ∷ xs) ys h k = (h.0, ThreeCells-append xs ys h.1 k)

ThreeCells-map {ℓ} :
    {A : Type ℓ} (f : A → Cells) (xs : List A)
    → ((x : A) → length (f x).1 ≡ 2)
    → ThreeCells (map f xs)
ThreeCells-map f [] h = tt
ThreeCells-map f (x ∷ xs) h = (h x, ThreeCells-map f xs h)

first-ThreeCells : (a : Option Address) → ThreeCells (first_cells a)
first-ThreeCells none = tt
first-ThreeCells (some a) = (refl, tt)

all_cells-ThreeCells : (ps : List Param) → ThreeCells (all_cells ps)
all_cells-ThreeCells [] = tt
all_cells-ThreeCells (p ∷ ps) =
    ThreeCells-append (cells_of p) (all_cells ps)
      (ThreeCells-append (first_cells p.first) _ (first-ThreeCells p.first) (
        ThreeCells-append (map field_cells p.between) _
          (ThreeCells-map field_cells p.between (λ a. refl))
          (refl, ThreeCells-map names_cells p.names (λ os. refl))))
      (all_cells-ThreeCells ps)

table_kind-ThreeCells :
    (cs : List Cells) → All IsKept cs → ThreeCells cs → table_kind (map row_text cs) ≡ params
unfolding table_kind
table_kind-ThreeCells [] h three = refl
table_kind-ThreeCells (c ∷ cs) h three =
    rw (split_cells-format_row (c.0 ∷ c.1) h.0.tidy, three.0) refl

-- Take the sections of a manual, as its text prints them, with different tables. The section that the settings of a
-- block are printed in, under different keys, is extracted as a table for the settings' converter, which makes of it
-- one entry for each setting, in order.
pub section_text-rows_to_json :
    (sections : List Section)
    → All IsSection sections
    → DistinctSections sections
    → (i : ℕ) (s : Section) → get_elem? sections i ≡ some s
    → (ps : List Param) → s.rows ≡ all_cells ps
    → All IsParam ps
    → DistinctKeys ps
    → (table : List Text) × (get (parse_tables (section_text sections)) (section_name s)
        ≡ some table)
      × (rows_to_json table (table_kind table) ≡ some (entries (settled_entries ps)))
unfolding rows_to_json
section_text-rows_to_json sections h differ i s at ps printed good keys =
    let extracted =
      ap (λ d. get d (section_name s)) (parse_tables-section_text sections h differ)
      ∙ get-dict_of section_name (λ t. map row_text t.rows) sections i differ at in
    let kind : table_kind (map row_text s.rows) ≡ params =
      table_kind-ThreeCells s.rows (All-get_elem IsSection sections i h at).kept
        (subst ThreeCells (sym printed) (all_cells-ThreeCells ps)) in
    let read = ap (map row_text) printed ∙ all_cells-rows ps in
    (map row_text s.rows, extracted, rw (kind, read, process_data-rows ps good keys) refl)
