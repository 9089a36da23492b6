-- ===== src/Scripts/Options/Reading.antt =====
-- scripts/options-to-json.py, process_data: from the lines of a table to its entries.
use pygt.Base.{
  ℕ, ◌+◌, Text, text, ◌&&◌, Option, none, some, List, [], ◌∷◌, ◌++◌, length, get_elem?, starts_with,
  ltb, nat_beq, ◌==◌, nat_eq, list_eq, if◌then◌else◌, Result, ok, key_error, index_error, or_raise,
  ◌>>=◌,
}
use pygt.Base.Dict.{Dict, get, has, put}
use pygt.Base.Int.{sub_ℕ}
use pygt.Base.Strings.{is_empty, strip, lstrip, split_on, rsplit_on, words, int_of_hex}
use pygt.Values.{decimal}
use pygt.Scripts.Options.Ranges.{Entry, each, parse_value_range, offset_to_int, expand_line}
use pygt.Scripts.Options.Tails.{fix_span_tails}

-- The variables of the loop over the lines; the name and the range of the current setting are set together.
pub record Reading : Type 0 where
  pub result : Dict Text Entry
  pub current : Option (Text × List ℕ)
  pub offset : ℕ
  pub conflict_count : Dict Text ℕ
  pub pending_start : Option (List ℕ)

unfoldable pub start_reading : Reading
start_reading = record {
  result = [];
  current = none;
  offset = 0;
  conflict_count = [];
  pending_start = none;
}

-- `line.split("|")[i]`
unfoldable pub part : ℕ → Text → Result Text
part i line = or_raise (get_elem? (split_on b'|' line) i) index_error

-- A "|# AA BB |" line: the start of a field of several bytes.
unfoldable pub marker_line : Text → Reading → Result Reading
unfolding part each
marker_line line r = part 1 line >>= λ cell.
    each int_of_hex (words (strip (lstrip (nat_beq b'#') (strip cell)))) >>= λ start.
    ok (record r { pending_start = some start })

-- `[opt.strip() for opt in options if opt.strip()]`
unfoldable pub clean_options : List Text → List Text
clean_options [] = []
clean_options (o ∷ os) =
    let rest = clean_options os in if is_empty (strip o) then rest else strip o ∷ rest

-- `result[name]["values"][option] = value` for each option, with the next value each time.
unfoldable pub add_options : Text → ℕ → List Text → Dict Text Entry → Result (Dict Text Entry)
add_options name value [] result = ok result
add_options name value (o ∷ os) result = or_raise (get result name) key_error >>= λ entry.
    add_options name (value + 1) os
      (put result name (record entry { values = put entry.values o value }))

unfoldable pub store_options : List Text → Text × List ℕ → Reading → Result Reading
unfolding add_options
store_options options (name, value_range) r =
    or_raise (get_elem? value_range 0) index_error >>= λ lo.
    add_options name (lo + r.offset) options r.result >>= λ result.
    ok (record r { result = result; offset = r.offset + length options })

-- A "| | |" line below a setting.
unfoldable pub options_line : Text → Text × List ℕ → Reading → Result Reading
unfolding part clean_options store_options expand_line
options_line line current r = part 3 (expand_line line) >>= λ cell.
    if strip cell == text "[ms]"
    then ok r
    else store_options (clean_options (split_on b',' cell)) current r

unfoldable pub standard_name : Text → Text
standard_name name =
    if name == text "FX SW"
    then text "SW"
    else if name == text "FX1 TYPE"
    then text "TYPE"
    else name

-- The name to store a setting under, and the counts of conflicts after it.
unfoldable pub unique_name : Text → Reading → Text × Dict Text ℕ
unique_name name r =
    let n : ℕ = elim (get r.conflict_count name) [ none ↦ 1 | some c ↦ c + 1 ] in
    if has r.result name
    then (name ++ decimal n, put r.conflict_count name n)
    else (name, r.conflict_count)

-- The entry of a setting: with a width if a marker line came before it.
unfoldable pub new_entry : List ℕ → List ℕ → Option (List ℕ) → Result Entry
unfolding offset_to_int
new_entry offset_bytes value_range none =
    ok (record { offset = offset_bytes; value_range = value_range; bytes = none; values = [] })
new_entry offset_bytes value_range (some start) = offset_to_int offset_bytes >>= λ last.
    offset_to_int start >>= λ first. ok (record {
      offset = start;
      value_range = value_range;
      bytes = some (sub_ℕ (last + 1) first);
      values = [];
    })

unfoldable pub store_setting : Text → List ℕ → List ℕ → Reading → Result Reading
unfolding unique_name new_entry
store_setting name value_range offset_bytes r =
    let (stored, conflicts) = unique_name name r in
    new_entry offset_bytes value_range r.pending_start >>= λ entry. ok (record {
      result = put r.result stored entry;
      current = some (stored, value_range);
      offset = 0;
      conflict_count = conflicts;
      pending_start = none;
    })

-- The cell of a name and its range, split at its last bracket; a cell without one is passed over.
unfoldable pub named_cell : List ℕ → Option (Text × Text) → Reading → Result Reading
unfolding parse_value_range standard_name store_setting
named_cell offset_bytes none r = ok r
named_cell offset_bytes (some (name, value_range)) r = parse_value_range value_range >>= λ bounds.
    store_setting (standard_name (strip name)) bounds offset_bytes r

-- A line with an address, a name and a range.
unfoldable pub setting_line : Text → Reading → Result Reading
unfolding part each named_cell
setting_line line r = part 1 line >>= λ offset_txt.
    each int_of_hex (words (strip offset_txt)) >>= λ offset_bytes.
    part 3 line >>= λ cell. named_cell offset_bytes (rsplit_on b'(' (strip cell)) r

-- The setting that options lines add to: `current_name` must be there and not be the empty text.
unfoldable pub truthy : Option (Text × List ℕ) → Option (Text × List ℕ)
truthy none = none
truthy (some (name, value_range)) = if is_empty name then none else some (name, value_range)

-- A line that is no marker, no elision and no options line.
unfoldable pub address_line : Text → Reading → Result Reading
unfolding setting_line
address_line line r =
    if starts_with line (text "|") && ltb 3 (length (split_on b'|' line))
    then setting_line line r
    else ok r

-- A line that is no marker and no elision, by the setting that it may belong to.
unfoldable pub table_line : Option (Text × List ℕ) → Text → Reading → Result Reading
unfolding options_line address_line
table_line none line r = address_line line r
table_line (some current) line r =
    if starts_with line (text "| | |") then options_line line current r else address_line line r

unfoldable pub process_line : Text → Reading → Result Reading
unfolding marker_line table_line truthy
process_line line r =
    if starts_with line (text "|# ")
    then marker_line line r
    else if starts_with line (text "| : | | |")
    then ok r
    else table_line (truthy r.current) line r

unfoldable pub read_lines : List Text → Reading → Result Reading
unfolding process_line
read_lines [] r = ok r
read_lines (line ∷ lines) r = process_line (strip line) r >>= λ r'. read_lines lines r'

unfoldable pub process_data : List Text → Result (Dict Text Entry)
unfolding read_lines fix_span_tails start_reading
process_data lines = read_lines lines start_reading >>= λ r. fix_span_tails r.result
