-- ===== src/AddressMap.antt =====
-- pygt1000/address_map.py: the spec tables as they are loaded, and the registries over them. A spec file
-- is one of three kinds: the areas of a container (`base-addresses`, `Patch`, ...), the settings of a
-- block (`PatchComp`, ...), or the chain elements, which map names and numbers both ways as texts.
pub mod Names
pub mod Blocks
pub mod Encode
pub mod Decode
pub mod Labels
pub mod Load
pub mod Addresses
pub mod Values
pub mod RoundTrip
pub mod Imports
pub mod Registries
pub mod Files
pub mod Loaded
pub mod Specs
use pygt.Base.{
  ℕ, Text, text, Bool, Option, none, some, List, list_eq, Result, ok, err, key_error, type_error,
  attribute_error, or_raise, if◌then◌else◌,
}
use pygt.Base.Dict.{Dict, get, has}

pub record Area : Type 0 where
  pub address : List ℕ
  pub table : Text

pub record Setting : Type 0 where
  pub offset : List ℕ
  pub value_range : ℕ × ℕ
  pub values : Option (Dict Text ℕ)
  pub bytes : Option ℕ

pub data Table : Type 0 where
  areas : Dict Text Area → Table
  settings : Dict Text Setting → Table
  elements : Dict Text Text → Table

pub record AddressMap : Type 0 where
  pub fx_types : List Text
  pub tables : Dict Text Table
  pub first_two_bytes : Dict (List ℕ) (Text × Text)
  pub offset_in_patch_tables : Dict Text (Dict ℕ (Text × Text))
  pub last_byte_option : Dict Text (Dict ℕ (Text × Setting))
  pub fx_tables : Dict Text Text
  pub fx_types_count : Dict Text ℕ

-- An inbound value, as `decode` reads it.
pub record DecodedValue : Type 0 where
  pub section : Text
  pub table : Text
  pub name : Text
  pub patch_table : Text
  pub value_name : Text
  pub str_value : Option Text
  pub int_value : ℕ
  pub fx_type : Option Text
  pub fx_id : Option Text
  pub fx_table_suffix : Option Text
  pub fx_name : Option Text

-- `self._tables[name]`
unfoldable pub table_of : AddressMap → Text → Result Table
table_of m name = or_raise (get m.tables name) key_error

-- `key in table`
unfoldable pub has_key : Table → Text → Bool
has_key (areas d) key = has d key
has_key (settings d) key = has d key
has_key (elements d) key = has d key

-- An entry that is read for its "address" and "table".
unfoldable pub area_at : Table → Text → Result Area
area_at (areas d) key = or_raise (get d key) key_error
area_at (settings d) key = err key_error
area_at (elements d) key = if has d key then err type_error else err key_error

-- An entry that is read for its "offset", "values" or "value_range".
unfoldable pub setting_at : Table → Text → Result Setting
setting_at (areas d) key = err key_error
setting_at (settings d) key = or_raise (get d key) key_error
setting_at (elements d) key = if has d key then err type_error else err key_error

-- `setting_entry.get("bytes", 1)`
unfoldable pub width_of : Setting → ℕ
width_of s = elim s.bytes [ none ↦ 1 | some w ↦ w ]

abbrev pub base_addresses : Text
base_addresses = text "base-addresses"

abbrev pub patch_section : Text
patch_section = text "patch (temporary patch)"

abbrev pub patch2_section : Text
patch2_section = text "patch2 (temporary patch)"

abbrev pub patch3_section : Text
patch3_section = text "patch3 (temporary patch)"
