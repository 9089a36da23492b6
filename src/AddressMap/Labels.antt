-- ===== src/AddressMap/Labels.antt =====
-- pygt1000/address_map.py: the names of values, and the tables that hold them.
use pygt.Base.{
  ℕ, suc, ◌-◌, Text, text, Bool, ◌&&◌, ◌||◌, Option, none, some, List, [], ◌∷◌, ◌++◌, map, take,
  drop, leb, ◌==◌, list_eq, if◌then◌else◌, Result, ok, err, key_error, or_raise, ◌>>=◌,
}
use pygt.Base.Dict.{Dict, get, has}
use pygt.Values.{Value, int, str, decimal, int_of_text}
use pygt.AddressMap.{AddressMap, Table, areas, settings, elements, table_of, has_key, setting_at}
use pygt.AddressMap.Decode.{label_for_raw}
use pygt.Base.{type_error, value_error}

-- The value table of a top-level block, and of an effect of the fx block.
unfoldable pub fx_value_table : AddressMap → Text → Result Table
fx_value_table m fx_type = or_raise (get m.fx_tables fx_type) key_error >>= λ name. table_of m name

unfoldable pub fx_name_value_table : AddressMap → Text → Result Table
fx_name_value_table m table_suffix = table_of m (text "PatchFx" ++ table_suffix)

-- An entry of the chain elements. A table of another kind holds no texts.
unfoldable pub element_at : Table → Text → Result Text
element_at (elements d) key = or_raise (get d key) key_error
element_at (areas d) key = if has d key then err type_error else err key_error
element_at (settings d) key = if has d key then err type_error else err key_error

unfoldable pub chain_element_name : AddressMap → ℕ → Result Text
unfolding element_at
chain_element_name m int_value =
    table_of m (text "ChainElement") >>= λ t. element_at t (decimal int_value)

unfoldable pub chain_element_int : AddressMap → Text → Result ℕ
unfolding element_at
chain_element_int m name = table_of m (text "ChainElement") >>= λ t.
    element_at t name >>= λ n. or_raise (int_of_text n) value_error

-- A raw value as its label, or as it is.
unfoldable pub label_or_raw : Option Text → ℕ → Value
label_or_raw none raw = int raw
label_or_raw (some label) raw = str label

unfoldable pub read_label : Table → Text → ℕ → Result Value
unfolding label_or_raw
read_label value_table setting raw = setting_at value_table setting >>= λ entry.
    or_raise entry.values key_error >>= λ values. ok (label_or_raw (label_for_raw values raw) raw)

abbrev pub is_alpha : ℕ → Bool
is_alpha c = (leb 65 c && leb c 90) || (leb 97 c && leb c 122)

abbrev pub to_upper : ℕ → ℕ
to_upper c = if leb 97 c && leb c 122 then c - 32 else c

-- The length of the prefix that ends in the first letter; None if there is none.
unfoldable pub sliceindex : Text → Option ℕ
sliceindex [] = none
sliceindex (c ∷ cs) =
    if is_alpha c then some 1 else elim (sliceindex cs) [ none ↦ none | some i ↦ some (suc i) ]

-- `x[:i].upper() + x[i:]`, where `x[:None]` and `x[None:]` are both the whole of `x`.
unfoldable pub upperfirst : Text → Text
unfolding sliceindex
upperfirst x = elim (sliceindex x) [
  | some i ↦ map to_upper (take i x) ++ drop i x
  | none ↦ map to_upper x ++ x
]

unfoldable pub fx_type_table_name : Text → Text
unfolding upperfirst
fx_type_table_name fx_type = text "Patch" ++ upperfirst fx_type

unfoldable pub value_in_table : Table → Text → Text → Result (Option ℕ)
value_in_table table prop value_name =
    if has_key table prop
    then (setting_at table prop >>= λ entry.
        ok (elim entry.values [ none ↦ none | some values ↦ get values value_name ]))
    else ok none

unfoldable pub value_for : AddressMap → Text → Text → Text → Result (Option ℕ)
unfolding value_in_table fx_type_table_name
value_for m fx_type prop value_name =
    table_of m (fx_type_table_name fx_type) >>= λ table. value_in_table table prop value_name

abbrev pub bass_variants : List Text
bass_variants =
    text "DEFRETTER BASS" ∷ text "OCTAVE BASS" ∷ text "SLOW GEAR BASS" ∷ text "TOUCH WAH BASS" ∷ []

unfoldable pub is_in : Text → List Text → Bool
is_in x [] = Bool.false
is_in x (y ∷ ys) = x == y || is_in x ys

unfoldable pub public_names : Dict Text ℕ → List Text
unfolding is_in
public_names [] = []
public_names ((name, v) ∷ values) =
    let rest = public_names values in if is_in name bass_variants then rest else name ∷ rest

unfoldable pub types_for : AddressMap → Text → Result (Option (List Text))
unfolding public_names fx_type_table_name
types_for m fx_type =
    if is_in fx_type (text "ns" ∷ text "delay" ∷ [])
    then ok (some [])
    else if has m.tables (fx_type_table_name fx_type)
    then (table_of m (fx_type_table_name fx_type) >>= λ table.
        setting_at table (text "TYPE") >>= λ entry.
        or_raise entry.values key_error >>= λ values. ok (some (public_names values)))
    else ok none
