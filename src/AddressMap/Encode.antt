-- ===== src/AddressMap/Encode.antt =====
-- pygt1000/address_map.py: the address of a setting, with or without the bytes of a value.
use pygt.Base.{
  ℕ, ◌+◌, Text, Bool, true, false, Option, none, some, List, [], ◌∷◌, ◌++◌, list_eq, ltb,
  if◌then◌else◌, Result, ok, err, key_error, type_error, attribute_error, overflow_error, or_raise,
  ◌>>=◌,
}
use pygt.Base.Dict.{Dict, get}
use pygt.Values.{Value, int, str}
use pygt.Bytes.{bytes_to_int, int_to_bytes, pack_nibbles}
use pygt.AddressMap.{
  AddressMap, Area, Setting, Table, areas, settings, elements, table_of, has_key, area_at,
  setting_at, width_of, base_addresses,
}
use pygt.AddressMap.Blocks.{block_section_option}

-- A named value stands for its number; any other value passes through.
unfoldable pub resolve_value : Dict Text ℕ → Value → Value
resolve_value values (int n) = int n
resolve_value values (str name) = elim (get values name) [ some raw ↦ int raw | none ↦ str name ]

-- A setting of several bytes takes a nibble in each; any other takes one byte.
unfoldable pub value_bytes : ℕ → Value → Result (List ℕ)
value_bytes width (int raw) =
    if ltb 1 width
    then ok (pack_nibbles raw width)
    else if ltb raw 256
    then ok (raw ∷ [])
    else err overflow_error
value_bytes width (str name) = if ltb 1 width then err type_error else err attribute_error

unfoldable pub encode_value : Setting → ℕ → Option Value → Result (List ℕ)
unfolding resolve_value
encode_value entry address none = ok (int_to_bytes address)
encode_value entry address (some value) = or_raise entry.values key_error >>= λ values.
    value_bytes (width_of entry) (resolve_value values value) >>= λ bytes.
    ok (int_to_bytes address ++ bytes)

unfoldable pub address_in_table : Table → Text → ℕ → Option Value → Result (Option (List ℕ))
unfolding encode_value
address_in_table table setting base value =
    if has_key table setting
    then (setting_at table setting >>= λ entry.
        encode_value entry (base + bytes_to_int entry.offset) value >>= λ bytes. ok (some bytes))
    else ok none

unfoldable pub address_in_section :
    AddressMap → Area → Text → Text → Option Value → Result (Option (List ℕ))
unfolding address_in_table
address_in_section m section_entry option setting value =
    table_of m section_entry.table >>= λ container.
    if has_key container option
    then (area_at container option >>= λ option_entry. table_of m option_entry.table >>= λ table.
        address_in_table table setting
          (bytes_to_int section_entry.address + bytes_to_int option_entry.address) value)
    else ok none

unfoldable pub address_for :
    AddressMap → Text → Text → Text → Option Value → Result (Option (List ℕ))
unfolding address_in_section
address_for m section option setting value = table_of m base_addresses >>= λ base.
    if has_key base section
    then (area_at base section >>= λ entry. address_in_section m entry option setting value)
    else ok none

unfoldable pub address_for_block :
    AddressMap → Text → Value → Text → Option Value → Option Value → Result (Option (List ℕ))
unfolding address_for
address_for_block m fx_type fx_id setting value fx_name =
    block_section_option m fx_type fx_id fx_name >>= λ (section, option).
    address_for m section option setting value

unfoldable pub is_empty : Text → Bool
is_empty [] = true
is_empty (c ∷ cs) = false

-- `entry.get("bytes", 1) if entry else 1`, for the entry of `setting` in a table.
unfoldable pub width_in_table : Table → Text → Result ℕ
unfolding is_empty
width_in_table (areas d) setting = ok 1
width_in_table (settings d) setting =
    ok (elim (get d setting) [ some entry ↦ width_of entry | none ↦ 1 ])
width_in_table (elements d) setting = elim (get d setting) [
  | some entry ↦ (if is_empty entry then ok 1 else err attribute_error)
  | none ↦ ok 1
]

-- `_setting_entry` and its "bytes", along the same hops as `address_for`.
unfoldable pub setting_bytes : AddressMap → Text → Text → Text → Result ℕ
setting_bytes m section option setting = table_of m base_addresses >>= λ base.
    if has_key base section
    then (area_at base section >>= λ entry. table_of m entry.table >>= λ container.
        if has_key container option
        then (area_at container option >>= λ option_entry.
            table_of m option_entry.table >>= λ table. width_in_table table setting)
        else ok 1)
    else ok 1

unfoldable pub block_setting_bytes : AddressMap → Text → Value → Text → Option Value → Result ℕ
unfolding setting_bytes
block_setting_bytes m fx_type fx_id setting fx_name =
    block_section_option m fx_type fx_id fx_name >>= λ (section, option).
    setting_bytes m section option setting

unfoldable pub value_range : AddressMap → Text → Text → Text → Result (Option (ℕ × ℕ))
value_range m section option setting = table_of m base_addresses >>= λ base.
    if has_key base section
    then (area_at base section >>= λ entry. table_of m entry.table >>= λ container.
        if has_key container option
        then (area_at container option >>= λ option_entry.
            table_of m option_entry.table >>= λ table.
            setting_at table setting >>= λ entry'. ok (some entry'.value_range))
        else ok none)
    else ok none
