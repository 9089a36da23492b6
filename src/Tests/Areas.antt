-- ===== src/Tests/Areas.antt =====
-- The section of an address map, and the table that the blocks of a type share.
use pygt.Base.{◌≡◌, refl, text, [], ◌∷◌, map, list_eq}
use pygt.Base.Strings.{replace}
use pygt.Scripts.Converters.{shared_table}
use pygt.Scripts.Converters.Places.{Place}
use pygt.Scripts.Tables.Printed.{Section}
use pygt.Scripts.Maps.{place_cells}

abbrev comp_place : Place
comp_place = record {
  byte = 0;
  bytes = 18 ∷ 0 ∷ [];
  name = text "comp";
  table = text "PatchComp";
  shared = text "PatchComp";
}

abbrev delay_place : Place
delay_place = record {
  byte = 0;
  bytes = 29 ∷ 0 ∷ [];
  name = text "delay 1";
  table = text "PatchDelay1";
  shared = text "PatchDelay";
}

abbrev patch_section : Section
patch_section = record {
  title = text "Patch";
  first = text "Patch";
  others = [];
  rows = map place_cells (comp_place ∷ delay_place ∷ []);
}

delay_shared : shared_table (text "PatchDelay1") ≡ text "PatchDelay"
unfolding shared_table replace
delay_shared = refl
