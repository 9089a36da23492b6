-- ===== src/AddressMap/Decode.antt =====
-- pygt1000/address_map.py: an address and what arrived from it, read back as a block's setting.
use pygt.Base.{
  ℕ, Text, text, ◌&&◌, Option, none, some, List, [], ◌∷◌, length, take, drop, get_elem?,
  starts_with, remove_all, ltb, ◌==◌, nat_eq, list_eq, if◌then◌else◌, Result, ok, key_error,
  index_error, or_raise, ◌>>=◌,
}
use pygt.Base.Dict.{Dict, get}
use pygt.Bytes.{unpack_nibbles}
use pygt.AddressMap.{AddressMap, Setting, DecodedValue, width_of}
use pygt.AddressMap.Names.{table_suffix_to_name}

-- A single raw byte, or a reply's data.
pub data Raw : Type 0 where
  byte : ℕ → Raw
  reply : List ℕ → Raw

-- Reverse a map of names: the first name of `raw`.
unfoldable pub label_for_raw : Dict Text ℕ → ℕ → Option Text
label_for_raw [] raw = none
label_for_raw ((name, v) ∷ values) raw = if v == raw then some name else label_for_raw values raw

unfoldable pub int_value_of : ℕ → Raw → Result ℕ
int_value_of width (byte v) = ok v
int_value_of width (reply bytes) =
    if ltb 1 width
    then ok (unpack_nibbles (take width bytes))
    else or_raise (get_elem? bytes 0) index_error

-- What the five lookups of `decode` find.
pub record Hops : Type 0 where
  pub section : Text
  pub table : Text
  pub name : Text
  pub patch_table : Text
  pub value_name : Text
  pub value_entry : Setting

infixl 4 ◌>>?◌
abbrev ◌>>?◌ : {A B : Type 0} → Option A → (A → Option B) → Option B
none >>? f = none
some a >>? f = f a

unfoldable pub hops : AddressMap → (a b c d : ℕ) → Option Hops
hops m a b c d = get m.first_two_bytes (a ∷ b ∷ []) >>? λ (section, table).
    get m.offset_in_patch_tables table >>? λ offsets. get offsets c >>? λ (name, patch_table).
    get m.last_byte_option patch_table >>? λ options. get options d >>? λ (value_name, value_entry).
    some (record {
      section = section;
      table = table;
      name = name;
      patch_table = patch_table;
      value_name = value_name;
      value_entry = value_entry;
    })

-- One round of the loop over the fx types.
unfoldable pub match_type : Text → Text → Option Text × Option Text → Option Text × Option Text
match_type name i (fx_type, fx_id) =
    if starts_with name i then (some i, if name == i then some [] else fx_id) else (fx_type, fx_id)

-- The loop: the last type that the name begins with, and the empty id if the name is a type.
unfoldable pub match_types :
    List Text → Text → Option Text × Option Text → Option Text × Option Text
unfolding match_type
match_types [] name found = found
match_types (i ∷ types) name found = match_types types name (match_type name i found)

-- The id of a block from its name, where the loop has not set it.
unfoldable pub id_of_name : Text → Text → Result Text
id_of_name fx_type name =
    if fx_type == text "preamp" && name == text "preampA"
    then ok (text "1")
    else if fx_type == text "preamp" && name == text "preampB"
    then ok (text "2")
    else if fx_type == text "fx"
    then (or_raise (get_elem? name 2) index_error >>= λ c. ok (c ∷ []))
    else ok (remove_all fx_type name)

unfoldable pub fx_id_of : Option Text → Option Text → Text → Result (Option Text)
unfolding id_of_name
fx_id_of none fx_id name = ok fx_id
fx_id_of (some fx_type) (some id) name = ok (some id)
fx_id_of (some fx_type) none name = id_of_name fx_type name >>= λ id. ok (some id)

unfoldable pub suffix_of_name : Option Text → Text → Option Text
suffix_of_name none name = none
suffix_of_name (some fx_type) name =
    if fx_type == text "fx" && ltb 3 (length name) then some (drop 3 name) else none

unfoldable pub name_of_suffix : Option Text → Option Text
name_of_suffix none = none
name_of_suffix (some suffix) = get table_suffix_to_name suffix

unfoldable pub decode_hops : AddressMap → Hops → Raw → Result DecodedValue
unfolding int_value_of match_types fx_id_of suffix_of_name name_of_suffix
decode_hops m h value = int_value_of (width_of h.value_entry) value >>= λ int_value.
    or_raise h.value_entry.values key_error >>= λ values.
    let (fx_type, found_id) = match_types m.fx_types h.name (none, none) in
    fx_id_of fx_type found_id h.name >>= λ fx_id.
    let suffix = suffix_of_name fx_type h.name in
    ok (record {
      section = h.section;
      table = h.table;
      name = h.name;
      patch_table = h.patch_table;
      value_name = h.value_name;
      str_value = label_for_raw values int_value;
      int_value = int_value;
      fx_type = fx_type;
      fx_id = fx_id;
      fx_table_suffix = suffix;
      fx_name = name_of_suffix suffix;
    })

unfoldable pub decode : AddressMap → List ℕ → Raw → Result (Option DecodedValue)
unfolding hops decode_hops
decode m (a ∷ b ∷ c ∷ d ∷ []) value = elim (hops m a b c d) [
  | none ↦ ok none
  | some h ↦ decode_hops m h value >>= λ decoded. ok (some decoded)
]
decode m _ value = ok none
