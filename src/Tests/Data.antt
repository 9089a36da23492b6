-- ===== src/Tests/Data.antt =====
-- Parts of the spec files, and a map that is loaded from them.
use pygt.Base.{Text, text, none, some, List, [], ◌∷◌, Result, ok, err, list_eq, nat_eq}
use pygt.Base.Dict.{Dict}
use pygt.AddressMap.{
  AddressMap, Area, Setting, Table, areas, settings, elements, base_addresses, patch_section,
}
use pygt.AddressMap.Load.{empty_map, load}

abbrev pub patch_area : Area
patch_area = record { address = 16 ∷ 0 ∷ 0 ∷ 0 ∷ []; table = text "Patch" }

abbrev pub comp_area : Area
comp_area = record { address = 0 ∷ 18 ∷ 0 ∷ []; table = text "PatchComp" }

abbrev pub efct_area : Area
efct_area = record { address = 0 ∷ 16 ∷ 0 ∷ []; table = text "PatchEfct" }

abbrev pub comp_sw : Setting
comp_sw = record {
  offset = 0 ∷ 0 ∷ [];
  value_range = (0, 1);
  values = some ((text "OFF", 0) ∷ (text "ON", 1) ∷ []);
  bytes = none;
}

abbrev comp_sustain : Setting
comp_sustain = record {
  offset = 0 ∷ 2 ∷ [];
  value_range = (0, 100);
  values = some [];
  bytes = none;
}

abbrev pub chain_element1 : Setting
chain_element1 = record {
  offset = 0 ∷ 3 ∷ [];
  value_range = (0, 48);
  values = some [];
  bytes = none;
}

abbrev pub base_file : Dict Text Area
base_file = (patch_section, patch_area) ∷ []

abbrev pub patch_file : Dict Text Area
patch_file = (text "efct", efct_area) ∷ (text "comp", comp_area) ∷ []

abbrev pub comp_file : Dict Text Setting
comp_file = (text "SW", comp_sw) ∷ (text "SUSTAIN", comp_sustain) ∷ []

abbrev pub spec_files : List (Text × Table)
spec_files =
    (base_addresses, areas base_file)
    ∷ (text "Patch", areas patch_file)
    ∷ (text "PatchComp", settings comp_file)
    ∷ (text "PatchEfct", settings ((text "CHAIN ELEMENT1", chain_element1) ∷ []))
    ∷ (
      text "ChainElement",
      elements (
          (text "0", text "COMPRESSOR")
          ∷ (text "COMPRESSOR", text "0")
          ∷ (text "1", text "DISTORTION1")
          ∷ (text "DISTORTION1", text "1")
          ∷ []),
    )
    ∷ []

abbrev pub one_type : List Text
one_type = text "comp" ∷ []

abbrev pub map_or_empty : Result AddressMap → AddressMap
map_or_empty (ok m) = m
map_or_empty (err e) = empty_map one_type

abbrev pub a_map : AddressMap
a_map = map_or_empty (load one_type spec_files)
