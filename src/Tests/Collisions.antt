-- ===== src/Tests/Collisions.antt =====
-- Two options of a container with the same middle byte, as Patch3 has them.
use pygt.Base.{ℕ, ◌≡◌, refl, ok, some, text, Text, List, [], ◌∷◌, list_eq, list_beq, nat_eq}
use pygt.Base.Dict.{Dict, get, has, put}
use pygt.AddressMap.{AddressMap, Area, Table, areas}
use pygt.AddressMap.Labels.{is_in}
use pygt.AddressMap.Load.{load}
use pygt.AddressMap.Imports.{last_option}
use pygt.AddressMap.Loaded.{IsFile, load-offsets}
use pygt.Tests.Data.{map_or_empty}

abbrev patch3_file : Dict Text Area
patch3_file =
    (text "fx1Dist", record { address = 0 ∷ 31 ∷ 0 ∷ []; table = text "PatchFxDist" })
    ∷ (text "fx1MasterFx", record { address = 0 ∷ 31 ∷ 64 ∷ []; table = text "PatchFxMasteringFx" })
    ∷ []

abbrev only_patch3 : List (Text × Table)
only_patch3 = (text "Patch3", areas patch3_file) ∷ []

abbrev patch3_map : AddressMap
patch3_map = map_or_empty (load (text "fx" ∷ []) only_patch3)

patch3_map-loaded : load (text "fx" ∷ []) only_patch3 ≡ ok patch3_map
unfolding load is_in list_beq has put get
patch3_map-loaded = refl

patch3-IsFile : IsFile only_patch3 (text "Patch3") (areas patch3_file)
unfolding has list_beq
patch3-IsFile = record {
  before = [];
  after = [];
  split = refl;
  not_before = refl;
  not_after = refl;
}

load-offsets_example :
    (offs : Dict ℕ (Text × Text)) × (get patch3_map.offset_in_patch_tables (text "Patch3")
      ≡ some offs)
    × (get offs 31 ≡ last_option 31 patch3_file)
unfolding is_in list_beq
load-offsets_example =
    load-offsets (text "fx" ∷ []) only_patch3 patch3_map patch3_map-loaded (text "Patch3")
      patch3_file 31 patch3-IsFile refl

-- The first of the two options is lost.
last_option-patch3 :
    last_option 31 patch3_file ≡ some (text "fx1MasterFx", text "PatchFxMasteringFx")
unfolding last_option
last_option-patch3 = refl
