-- ===== src/Scripts/Converters.antt =====
-- scripts/spec-to-json.py and scripts/chain-elements.py: the address maps and the chain elements, from their lines to the
-- dicts that are written as JSON.
pub mod Elements
pub mod Places
pub mod Shared
pub mod Effects
pub mod Names
use pygt.Base.{
  ℕ, ◌+◌, Text, text, Option, none, some, List, [], ◌∷◌, ◌++◌, length, drop, ltb, nat_beq, list_eq,
  if◌then◌else◌, Result, ok, err, index_error, value_error, or_raise, ◌>>=◌, get_elem?,
}
use pygt.Base.Dict.{Dict, put}
use pygt.Base.Strings.{contains, strip, strip_of, split_on, words, replace, int_of_hex}
use pygt.Scripts.Options.Ranges.{each}

pub record Reference : Type 0 where
  pub address : List ℕ
  pub table : Text

-- `table.replace(f"Patch{effect}{i}", f"Patch{effect}")`
unfoldable pub drop_instance : Text → Text → Text → Text
drop_instance effect i table =
    replace (text "Patch" ++ (effect ++ i)) (text "Patch" ++ effect) table

unfoldable pub drop_instances : List Text → Text → Text → Text
unfolding drop_instance
drop_instances [] i table = table
drop_instances (effect ∷ effects) i table = drop_instances effects i (drop_instance effect i table)

unfoldable pub each_instance : List Text → List Text → Text → Text
unfolding drop_instances
each_instance [] effects table = table
each_instance (i ∷ is) effects table = each_instance is effects (drop_instances effects i table)

-- The tables of the blocks of a type are the same.
unfoldable pub shared_table : Text → Text
unfolding each_instance
shared_table table = each_instance (text "A" ∷ text "B" ∷ []) (text "Preamp" ∷ []) (
    each_instance (text "1" ∷ text "2" ∷ text "3" ∷ text "4" ∷ [])
      (text "Dist" ∷ text "Ns" ∷ text "Eq" ∷ text "Fx" ∷ text "Delay" ∷ []) table)

-- `name, table = name_table_str.split("[")`
unfoldable pub name_and_table : List Text → Result (Text × Text)
name_and_table (name ∷ table ∷ []) = ok (name, table)
name_and_table _ = err value_error

-- One line that has an address and a reference. The "hex_address" entry, the address as a text, which nothing
-- reads, is left out.
unfoldable pub convert_parts : Text → Text → Dict Text Reference → Result (Dict Text Reference)
unfolding each name_and_table shared_table
convert_parts address_cell name_cell result =
    each int_of_hex (words (strip address_cell)) >>= λ address.
    name_and_table (split_on b'[' (strip name_cell)) >>= λ (name, table). ok (
      put result (replace (text "(*)") [] (strip name)) (record {
        address = address;
        table = shared_table (strip_of (contains (text "] ")) table);
      }))

unfoldable pub convert_line : List Text → Dict Text Reference → Result (Dict Text Reference)
unfolding convert_parts
convert_line (_ ∷ address_cell ∷ name_cell ∷ _) result = convert_parts address_cell name_cell result
convert_line _ result = ok result

unfoldable pub convert_lines : List Text → Dict Text Reference → Result (Dict Text Reference)
unfolding convert_line
convert_lines [] result = ok result
convert_lines (line ∷ lines) result =
    convert_line (split_on b'|' (strip line)) result >>= λ result'. convert_lines lines result'

unfoldable pub convert_to_json : List Text → Result (Dict Text Reference)
unfolding convert_lines
convert_to_json lines = convert_lines lines []

-- A line of the chain elements: both cells name each other.
unfoldable pub element_cells : Text → List Text
element_cells line = split_on b'|' (drop 1 (strip (replace (text " ") [] line)))

unfoldable pub store_both : List Text → Dict Text Text → Result (Dict Text Text)
store_both (number ∷ name ∷ _) result = ok (put (put result number name) name number)
store_both _ result = err index_error

unfoldable pub read_elements : List Text → Dict Text Text → Result (Dict Text Text)
unfolding element_cells store_both
read_elements [] result = ok result
read_elements (line ∷ lines) result =
    store_both (element_cells line) result >>= λ result'. read_elements lines result'

unfoldable pub elements_of_lines : List Text → Result (Dict Text Text)
unfolding read_elements
elements_of_lines lines = read_elements lines []
