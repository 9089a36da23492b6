-- ===== src/Tests/Printed.antt =====
-- The compressor's table as the manual prints it, and the same table in the spec files.
use pygt.Base.{
  ℕ, ◌≡◌, refl, text, false, none, some, List, [], ◌∷◌, ok, list_beq, list_eq, Text, nat_eq, ◌+◌,
  arith, All,
}
use pygt.Base.Strings.{contains, is_space, is_empty, lstrip, rstrip}
use pygt.Base.Dict.{get}
use pygt.Base.Strings.{split_on, strip, words}
use pygt.Values.{str, decimal}
use pygt.Scripts.Tables.Split.{starts_space, is_furniture, any}
use pygt.Scripts.Tables.Extract.{is_auxiliary, parse_tables, table_kind}
use pygt.Scripts.Tables.Printed.{Cells, Section, section_text, section_name, IsKept, IsSection}
use pygt.Scripts.Check.{rows_to_json, entries}
use pygt.Scripts.Manual.{all_cells, section_text-rows_to_json}
use pygt.Tests.Sections.{cell-IsTidy, sw_cells, names_cells, sw_cells-IsKept, names_cells-IsKept}
use pygt.AddressMap.{DecodedValue, patch_section, width_of}
use pygt.AddressMap.Encode.{address_for}
use pygt.AddressMap.Decode.{reply, decode}
use pygt.AddressMap.Values.{one_byte}
use pygt.Scripts.Options.Tails.{is_span}
use pygt.Scripts.Options.Reading.{standard_name}
use pygt.Scripts.Options.Names.{Distinct}
use pygt.Scripts.Options.Params.{Param, IsParam}
use pygt.Scripts.Options.Spans.{settled_entries}
use pygt.Scripts.Options.RoundTrip.{DistinctKeys, process_data-rows}
use pygt.Scripts.Pipeline.{AreJson, rows-load-decode}
use pygt.Tests.Data.{a_map, patch_area, comp_area, comp_sw, comp_file, one_type, spec_files}
use pygt.Tests.Maps.{comp_sw-IsSpec, comp_sw-IsLaidOut, a_map-loaded}
use pygt.Tests.Papers.{address, nibble-IsAddress, sw, sw-IsParam}

abbrev sustain : Param
sustain = record {
  first = none;
  between = [];
  last = address 2 (text "0aaa aaaa");
  name = text "SUSTAIN";
  low = 0;
  high = 100;
  names = [];
}

abbrev comp : List Param
comp = sw ∷ sustain ∷ []

sustain-IsParam : IsParam sustain
unfolding contains lstrip rstrip is_space list_beq
sustain-IsParam = record {
  first_address = tt;
  between_addresses = tt;
  last_address =
      nibble-IsAddress 2 (text "0aaa aaaa") (omega arith) refl
        (record { left = refl; right = refl });
  name_cell = record { bars = refl; trim = record { left = refl; right = refl } };
  named = λ e. cc;
  names_rows = tt;
  distinct_names = tt;
}

comp-IsParam : All IsParam comp
comp-IsParam = (sw-IsParam, (sustain-IsParam, tt))

comp-DistinctKeys : DistinctKeys comp
unfolding list_beq standard_name
comp-DistinctKeys = ((refl, tt), (tt, tt))

comp-AreJson : AreJson (settled_entries comp) comp_file
unfolding list_beq standard_name is_span lstrip is_space is_empty
comp-AreJson = (
  refl,
  record { offset = refl; value_range = refl; values = refl; bytes = tt },
  (refl, record { offset = refl; value_range = refl; values = refl; bytes = tt }, tt),
)

off_plain : is_span (text "OFF") ≡ false
unfolding is_span lstrip is_space is_empty
off_plain = refl

off_on-Distinct : Distinct (text "OFF" ∷ text "ON" ∷ [])
unfolding list_beq
off_on-Distinct = ((refl, tt), (tt, tt))

rows-load-decode_example :
    (bs : List ℕ) × (dv : DecodedValue) × (address_for a_map patch_section
        (text "comp")
        (text "SW")
        (some (str (text "ON")))
      ≡ ok (some (16 ∷ 0 ∷ 18 ∷ 0 ∷ bs)))
    × (decode a_map (16 ∷ 0 ∷ 18 ∷ 0 ∷ []) (reply bs) ≡ ok (some dv))
    × (dv.section ≡ patch_section)
    × (dv.name ≡ text "comp")
    × (dv.value_name ≡ text "SW")
    × (dv.int_value ≡ 0 + 1)
    × (dv.str_value ≡ some (text "ON"))
unfolding standard_name list_beq width_of comp_sw-IsSpec
rows-load-decode_example =
    rows-load-decode comp comp-IsParam comp-DistinctKeys 0 sw refl (settled_entries comp)
      (process_data-rows comp comp-IsParam comp-DistinctKeys) one_type spec_files a_map a_map-loaded
      patch_section (text "comp") patch_area comp_area comp_sw 16 0 18 0 comp_sw-IsSpec comp-AreJson
      comp_sw-IsLaidOut (text "OFF") (text "ON" ∷ []) refl off_plain off_on-Distinct 1 (text "ON")
      refl (one_byte (omega arith) (omega arith))

-- The section of the compressor.
abbrev sustain_cells : Cells
sustain_cells = (text "00 02", text "0aaa aaaa" ∷ text "SUSTAIN (0 - 100)" ∷ [])

sustain_cells-IsKept : IsKept sustain_cells
unfolding contains lstrip rstrip is_space starts_space is_furniture is_auxiliary any list_beq
    is_empty words
sustain_cells-IsKept = record {
  tidy = (
    cell-IsTidy (text "00 02") refl (record { left = refl; right = refl }) refl,
    (
      cell-IsTidy (text "0aaa aaaa") refl (record { left = refl; right = refl }) refl,
      (cell-IsTidy (text "SUSTAIN (0 - 100)") refl (record { left = refl; right = refl }) refl, tt),
    ),
  );
  solid = refl;
  no_total = refl;
  no_mark = refl;
  no_elision = refl;
  placed = refl;
}

abbrev comp_section : Section
comp_section = record {
  title = text "PatchComp";
  first = text "PatchComp";
  others = [];
  rows = sw_cells ∷ names_cells ∷ sustain_cells ∷ [];
}

comp_section-IsSection : IsSection comp_section
unfolding contains split_on strip
comp_section-IsSection = record {
  bracket = refl;
  titled = λ e. cc;
  names = refl;
  some_rows = λ e. cc;
  kept = (sw_cells-IsKept, (names_cells-IsKept, (sustain_cells-IsKept, tt)));
}

comp_section-printed : comp_section.rows ≡ all_cells comp
unfolding decimal
comp_section-printed = refl

section_text-rows_to_json_example :
    (table : List Text) × (get
        (parse_tables (section_text (comp_section ∷ [])))
        (section_name comp_section)
      ≡ some table)
    × (rows_to_json table (table_kind table) ≡ some (entries (settled_entries comp)))
section_text-rows_to_json_example =
    section_text-rows_to_json (comp_section ∷ []) (comp_section-IsSection, tt) (tt, tt) 0
      comp_section refl comp comp_section-printed comp-IsParam comp-DistinctKeys
