-- ===== src/AddressMap/Load.antt =====
-- pygt1000/address_map.py: `_import_specs_tables`. The spec files are given as their names and contents,
-- in the order in which the directory lists them.
use pygt.Base.{
  ℕ, ◌+◌, Text, text, ◌&&◌, none, some, List, [], ◌∷◌, get_elem?, starts_with, leb, ◌==◌, list_eq,
  nat_eq, if◌then◌else◌, Result, ok, err, key_error, type_error, index_error, or_raise, ◌>>=◌,
}
use pygt.Base.Dict.{Dict, get, has, put}
use pygt.AddressMap.{AddressMap, Area, Setting, Table, areas, settings, elements, base_addresses}
use pygt.AddressMap.Labels.{is_in}

-- The names that Python's isdigit keeps out, over ASCII.
unfoldable pub without_digits : Text → Text
without_digits [] = []
without_digits (c ∷ cs) =
    let rest = without_digits cs in if leb 48 c && leb c 57 then rest else c ∷ rest

unfoldable pub type_of_key : Text → Text
unfolding without_digits
type_of_key key =
    if is_in key (text "preampA" ∷ text "preampB" ∷ []) then text "preamp" else without_digits key

unfoldable pub no_blocks : List Text → Dict Text ℕ → Dict Text ℕ
no_blocks [] counts = counts
no_blocks (i ∷ types) counts = no_blocks types (put counts i 0)

unfoldable pub empty_map : List Text → AddressMap
unfolding no_blocks
empty_map fx_types = record {
  fx_types = fx_types;
  tables = [];
  first_two_bytes = [];
  offset_in_patch_tables = [];
  last_byte_option = [];
  fx_tables = [];
  fx_types_count = no_blocks fx_types [];
}

-- `self._offset_in_patch_tables[table_name][offset] = (key, table)`
unfoldable pub put_offset : Text → ℕ → Text × Text → AddressMap → AddressMap
put_offset table_name offset entry m = record m {
  offset_in_patch_tables = put m.offset_in_patch_tables table_name (
      put (elim (get m.offset_in_patch_tables table_name) [ some d ↦ d | none ↦ [] ]) offset entry);
}

-- One more block of a type, if the key names one.
unfoldable pub count_block : Text → Text → AddressMap → Result AddressMap
count_block fx_type table m =
    if is_in fx_type m.fx_types
    then (or_raise (get m.fx_types_count fx_type) key_error >>= λ n. ok (record m {
      fx_types_count = put m.fx_types_count fx_type (n + 1);
      fx_tables = put m.fx_tables fx_type table;
    }))
    else ok m

unfoldable pub import_areas : Text → Dict Text Area → AddressMap → Result AddressMap
unfolding put_offset count_block type_of_key
import_areas table_name [] m = ok m
import_areas table_name ((key, area) ∷ rest) m =
    or_raise (get_elem? area.address 1) index_error >>= λ offset.
    count_block (type_of_key key) area.table (put_offset table_name offset (key, area.table) m)
    >>= λ m'. import_areas table_name rest m'

-- The container's registry is made empty if it is not there.
unfoldable pub open_container : Text → AddressMap → AddressMap
open_container table_name m =
    if has m.offset_in_patch_tables table_name
    then m
    else record m { offset_in_patch_tables = put m.offset_in_patch_tables table_name [] }

unfoldable pub import_sections : Dict Text Area → AddressMap → Result AddressMap
import_sections [] m = ok m
import_sections ((section, area) ∷ rest) m =
    or_raise (get_elem? area.address 0) index_error >>= λ a.
    or_raise (get_elem? area.address 1) index_error >>= λ b.
    import_sections rest
      (record m { first_two_bytes = put m.first_two_bytes (a ∷ b ∷ []) (section, area.table) })

unfoldable pub import_options :
    Dict Text Setting → Dict ℕ (Text × Setting) → Result (Dict ℕ (Text × Setting))
import_options [] d = ok d
import_options ((option, entry) ∷ rest) d =
    or_raise (get_elem? entry.offset 1) index_error >>= λ offset.
    import_options rest (put d offset (option, entry))

unfoldable pub set_last_bytes : Text → Dict ℕ (Text × Setting) → AddressMap → AddressMap
set_last_bytes table_name d m = record m { last_byte_option = put m.last_byte_option table_name d }

-- What a file adds to the registries, by its name. A file of another kind than its name says lacks the
-- key that is read of its entries.
unfoldable pub register : Text → Table → AddressMap → Result AddressMap
unfolding import_areas open_container import_sections import_options set_last_bytes
register table_name (areas d) m =
    if is_in table_name (text "Patch" ∷ text "Patch2" ∷ text "Patch3" ∷ [])
    then import_areas table_name d (open_container table_name m)
    else if table_name == base_addresses
    then import_sections d m
    else if starts_with table_name (text "Patch")
    then err key_error
    else ok m
register table_name (settings d) m =
    if is_in table_name (text "Patch" ∷ text "Patch2" ∷ text "Patch3" ∷ [])
    then err key_error
    else if table_name == base_addresses
    then err key_error
    else if starts_with table_name (text "Patch")
    then (import_options d [] >>= λ options. ok (set_last_bytes table_name options m))
    else ok m
register table_name (elements d) m =
    if is_in table_name (text "Patch" ∷ text "Patch2" ∷ text "Patch3" ∷ [])
    then err type_error
    else if table_name == base_addresses
    then err type_error
    else if starts_with table_name (text "Patch")
    then err type_error
    else ok m

unfoldable pub import_files : List (Text × Table) → AddressMap → Result AddressMap
unfolding register
import_files [] m = ok m
import_files ((table_name, table) ∷ files) m = register table_name table m >>= λ m'.
    import_files files (record m' { tables = put m'.tables table_name table })

unfoldable pub load : List Text → List (Text × Table) → Result AddressMap
unfolding empty_map import_files
load fx_types files = import_files files (empty_map fx_types)
