-- ===== src/AddressMap/Blocks.antt =====
-- pygt1000/address_map.py: how many blocks there are of a type, how a block is addressed, and in which
-- section and under which option name it stands.
use pygt.Base.{
  ℕ, Text, text, ◌&&◌, Option, none, some, [], ◌∷◌, ◌++◌, ◌==◌, nat_eq, list_eq, if◌then◌else◌,
  Result, ok, err, key_error, or_raise, ◌>>=◌,
}
use pygt.Base.Dict.{Dict, get, put}
use pygt.Values.{Value, int, str, str_of, value_eq}
use pygt.AddressMap.{AddressMap, patch_section, patch2_section, patch3_section}
use pygt.AddressMap.Names.{fx_to_table_suffix}

unfoldable pub fx_block_count : AddressMap → Text → Result ℕ
fx_block_count m fx_type = or_raise (get m.fx_types_count fx_type) key_error

unfoldable pub set_fx_block_count : Text → ℕ → AddressMap → AddressMap
set_fx_block_count fx_type count m = record m {
  fx_types_count = put m.fx_types_count fx_type count;
}

-- An id that is no text is logged and turned into one.
unfoldable pub start_section : Text → Value → Text
start_section fx_type fx_id =
    if fx_type == text "fx" && str_of fx_id == text "4" then patch3_section else patch_section

abbrev pub fx_section_by_suffix : Dict Text Text
fx_section_by_suffix =
    (text "ChorusBass", patch2_section)
    ∷ (text "FlangerBass", patch2_section)
    ∷ (text "Dist", patch3_section)
    ∷ (text "MasterFx", patch3_section)
    ∷ []

unfoldable pub fx_start_section : Value → Text → Text
fx_start_section fx_id table_suffix =
    if str_of fx_id == text "4"
    then patch3_section
    else elim (get fx_section_by_suffix table_suffix) [
      | some section ↦ section
      | none ↦ patch_section
    ]

unfoldable pub normalize_block : AddressMap → Text → Value → Result (Text × Value)
normalize_block m fx_type fx_id = fx_block_count m fx_type >>= λ count. ok (
  fx_type,
  if count == 1
      then str []
      else if fx_type == text "preamp" && fx_id == int 1
      then str (text "A")
      else if fx_type == text "preamp" && fx_id == int 2
      then str (text "B")
      else fx_id,
)

-- `FX_TO_TABLE_SUFFIX[fx_name]`: a name that is no text is no key.
unfoldable pub suffix_of : Value → Result Text
suffix_of (int n) = err key_error
suffix_of (str name) = or_raise (get fx_to_table_suffix name) key_error

unfoldable pub block_section_option :
    AddressMap → Text → Value → Option Value → Result (Text × Text)
unfolding start_section fx_start_section
block_section_option m fx_type fx_id fx_name =
    normalize_block m fx_type fx_id >>= λ (fx_type', fx_id'). elim fx_name [
      | some name ↦ suffix_of name >>= λ suffix.
          ok (fx_start_section fx_id' suffix, fx_type' ++ (str_of fx_id' ++ suffix))
      | none ↦ ok (start_section fx_type' fx_id', fx_type' ++ str_of fx_id')
    ]
