-- ===== src/Tests/Sections.antt =====
-- A section of the manual as text, names of table families, and the elements of the chain.
use pygt.Base.{
  ◌≡◌, refl, Text, text, true, false, List, [], ◌∷◌, ◌++◌, map, ok, list_beq, list_eq, All,
}
use pygt.Base.Dict.{Dict}
use pygt.Base.Strings.{contains, is_space, is_empty, strip, lstrip, rstrip, split_on, words}
use pygt.Base.Strings.Strip.{IsTrim}
use pygt.Values.{decimal}
use pygt.Scripts.Options.Names.{Distinct}
use pygt.Scripts.Tables.Split.{starts_space, is_furniture, any}
use pygt.Scripts.Tables.Canonical.{canonical_name}
use pygt.Scripts.Tables.Extract.{is_auxiliary, parse_tables}
use pygt.Scripts.Tables.Rows.{IsTidy, single_blanks}
use pygt.Scripts.Tables.Extracted.{AreTables, parse_tables-AreTables}
use pygt.Scripts.Tables.Families.{family, canonical_name-family}
use pygt.Scripts.Tables.Sections.{parse_tables-section_text}
use pygt.Scripts.Tables.Printed.{Cells, Section, section_text, section_tables, IsKept, IsSection}
use pygt.Scripts.Converters.{elements_of_lines}
use pygt.Scripts.Converters.Elements.{
  Element, line_of, stored, all_keys, IsFound, elements_of_lines-IsFound,
}

abbrev pub sw_cells : Cells
sw_cells = (text "00 00", text "0000 000a" ∷ text "SW (0 - 1)" ∷ [])

abbrev pub names_cells : Cells
names_cells = ([], [] ∷ text "OFF, ON" ∷ [])

abbrev delays : Section
delays = record {
  title = text "PatchDelay1, PatchDelay2";
  first = text "PatchDelay1";
  others = text "PatchDelay2" ∷ [];
  rows = sw_cells ∷ names_cells ∷ [];
}

pub cell-IsTidy :
    (s : Text) → contains s b'|' ≡ false → IsTrim is_space s → single_blanks s ≡ true → IsTidy s
cell-IsTidy s b t o = record { cell = record { bars = b; trim = t }; blanks = o }

pub sw_cells-IsKept : IsKept sw_cells
unfolding contains lstrip rstrip is_space starts_space is_furniture is_auxiliary any list_beq
    is_empty words
sw_cells-IsKept = record {
  tidy = (
    cell-IsTidy (text "00 00") refl (record { left = refl; right = refl }) refl,
    (
      cell-IsTidy (text "0000 000a") refl (record { left = refl; right = refl }) refl,
      (cell-IsTidy (text "SW (0 - 1)") refl (record { left = refl; right = refl }) refl, tt),
    ),
  );
  solid = refl;
  no_total = refl;
  no_mark = refl;
  no_elision = refl;
  placed = refl;
}

pub names_cells-IsKept : IsKept names_cells
unfolding contains lstrip rstrip is_space starts_space is_furniture is_auxiliary any list_beq
    is_empty words
names_cells-IsKept = record {
  tidy = (
    cell-IsTidy [] refl (record { left = refl; right = refl }) refl,
    (
      cell-IsTidy [] refl (record { left = refl; right = refl }) refl,
      (cell-IsTidy (text "OFF, ON") refl (record { left = refl; right = refl }) refl, tt),
    ),
  );
  solid = refl;
  no_total = refl;
  no_mark = refl;
  no_elision = refl;
  placed = refl;
}

delays-IsSection : IsSection delays
unfolding contains split_on strip
delays-IsSection = record {
  bracket = refl;
  titled = λ e. cc;
  names = refl;
  some_rows = λ e. cc;
  kept = (sw_cells-IsKept, (names_cells-IsKept, tt));
}

parse_tables-section_text_example :
    parse_tables (section_text (delays ∷ [])) ≡ section_tables (delays ∷ [])
parse_tables-section_text_example =
    parse_tables-section_text (delays ∷ []) (delays-IsSection, tt) (tt, tt)

-- An address map outside every section, and a section with furniture.
parse_tables-AreTables_example : AreTables (
    parse_tables (
      text "3. System Exclusive Address Map"
      ∷ text "| 00 00 00 00 | common [SystemCommon] |"
      ∷ text "* [PatchLed]"
      ∷ text "| Offset | Description |"
      ∷ text "| 00 00 | COLOR (0 - 7) |"
      ∷ []))
parse_tables-AreTables_example = parse_tables-AreTables (
    text "3. System Exclusive Address Map"
    ∷ text "| 00 00 00 00 | common [SystemCommon] |"
    ∷ text "* [PatchLed]"
    ∷ text "| Offset | Description |"
    ∷ text "| 00 00 | COLOR (0 - 7) |"
    ∷ [])

canonical_name-family_example :
    canonical_name
      (text "PatchFx" ++ b'1' ∷ text "Comp")
      (family (text "PatchFx") (text "Comp") (b'2' ∷ b'3' ∷ []))
    ≡ text "PatchFx" ++ text "Comp"
canonical_name-family_example =
    canonical_name-family (text "PatchFx") (text "Comp") b'1' (b'2' ∷ b'3' ∷ []) refl

abbrev pub chain_elements : List Element
chain_elements =
    record { number = 0; name = text "COMPRESSOR" }
    ∷ record { number = 1; name = text "DISTORTION 1" }
    ∷ []

pub elements-bars : All (λ e. contains (stored e) b'|' ≡ false) chain_elements
unfolding contains
elements-bars = (refl, (refl, tt))

pub elements-Distinct : Distinct (all_keys chain_elements)
unfolding decimal list_beq
elements-Distinct = ((refl, (refl, (refl, tt))), ((refl, (refl, tt)), ((refl, tt), (tt, tt))))

elements_of_lines-IsFound_example :
    (d : Dict Text Text) × (elements_of_lines (map line_of chain_elements) ≡ ok d)
    × All (IsFound d) chain_elements
elements_of_lines-IsFound_example =
    elements_of_lines-IsFound chain_elements elements-bars elements-Distinct
