-- ===== src/Tests/Papers.antt =====
-- The scripts on whole tables: the settings of a delay as rows and as the table that is read from them, and a section of
-- the manual.
use pygt.Base.{
  ℕ, ◌≡◌, refl, Text, text, true, false, none, some, List, [], ◌∷◌, ok, list_beq, list_eq, length,
  get_elem?, arith, ◌<◌, ◌≤◌, ◌-◌, ◌+◌,
}
use pygt.Base.Dict.{get}
use pygt.Base.Strings.{contains, is_space, is_empty, lstrip, rstrip}
use pygt.Base.Strings.Strip.{IsTrim}
use pygt.Values.{decimal}
use pygt.Scripts.Options.Ranges.{expand_line, Entry}
use pygt.Scripts.Options.Tails.{is_span, keys, fix_entry}
use pygt.Scripts.Options.Reading.{process_data, standard_name}
use pygt.Scripts.Options.Names.{Distinct}
use pygt.Scripts.Options.Lines.{IsNamesRow}
use pygt.Scripts.Options.Params.{Address, Param, rows, IsAddress, IsParam}
use pygt.Scripts.Options.Spans.{settled_entries, fix_entry_tail}
use pygt.Scripts.Options.RoundTrip.{DistinctKeys, process_data-rows}
use pygt.Scripts.Tables.Split.{format_row}

abbrev pub address : ℕ → Text → Address
address low bits = record { high = 0; low = low; bits = bits }

abbrev pub sw : Param
sw = record {
  first = none;
  between = [];
  last = address 0 (text "0000 000a");
  name = text "SW";
  low = 0;
  high = 1;
  names = (text "OFF" ∷ text "ON" ∷ []) ∷ [];
}

abbrev time : Param
time = record {
  first = some (address 1 (text "0000 aaaa"));
  between = address 2 (text "0000 bbbb") ∷ [];
  last = address 3 (text "0000 cccc");
  name = text "TIME";
  low = 1;
  high = 2018;
  names = (text "1ms - 2000ms" ∷ text "32nd" ∷ []) ∷ (text "16th" ∷ []) ∷ [];
}

abbrev delay : List Param
delay = sw ∷ time ∷ []

sw_row-IsNamesRow : IsNamesRow (text "OFF" ∷ text "ON" ∷ [])
unfolding contains lstrip rstrip is_space expand_line format_row list_beq decimal
sw_row-IsNamesRow = record {
  names = (
    record { comma = refl; trim = record { left = refl; right = refl }; some_text = λ e. cc },
    (record { comma = refl; trim = record { left = refl; right = refl }; some_text = λ e. cc }, tt),
  );
  cell = record { bars = refl; trim = record { left = refl; right = refl } };
  plain = refl;
  no_unit = refl;
}

span_row-IsNamesRow : IsNamesRow (text "1ms - 2000ms" ∷ text "32nd" ∷ [])
unfolding contains lstrip rstrip is_space expand_line format_row list_beq decimal
span_row-IsNamesRow = record {
  names = (
    record { comma = refl; trim = record { left = refl; right = refl }; some_text = λ e. cc },
    (record { comma = refl; trim = record { left = refl; right = refl }; some_text = λ e. cc }, tt),
  );
  cell = record { bars = refl; trim = record { left = refl; right = refl } };
  plain = refl;
  no_unit = refl;
}

tail_row-IsNamesRow : IsNamesRow (text "16th" ∷ [])
unfolding contains lstrip rstrip is_space expand_line format_row list_beq decimal
tail_row-IsNamesRow = record {
  names = (
    record { comma = refl; trim = record { left = refl; right = refl }; some_text = λ e. cc },
    tt,
  );
  cell = record { bars = refl; trim = record { left = refl; right = refl } };
  plain = refl;
  no_unit = refl;
}

pub sw-IsParam : IsParam sw
unfolding contains lstrip rstrip is_space list_beq
sw-IsParam = record {
  first_address = tt;
  between_addresses = tt;
  last_address = record {
    high_byte = omega arith;
    low_byte = omega arith;
    bits_cell = record { bars = refl; trim = record { left = refl; right = refl } };
  };
  name_cell = record { bars = refl; trim = record { left = refl; right = refl } };
  named = λ e. cc;
  names_rows = (sw_row-IsNamesRow, tt);
  distinct_names = ((refl, tt), (tt, tt));
}

pub nibble-IsAddress :
    (n : ℕ) (bits : Text)
    → n < 256
    → contains bits b'|' ≡ false
    → IsTrim is_space bits
    → IsAddress (address n bits)
nibble-IsAddress n bits h b t = record {
  high_byte = omega arith;
  low_byte = h;
  bits_cell = record { bars = b; trim = t };
}

time-IsParam : IsParam time
unfolding contains lstrip rstrip is_space list_beq
time-IsParam = record {
  first_address =
      nibble-IsAddress 1 (text "0000 aaaa") (omega arith) refl
        (record { left = refl; right = refl });
  between_addresses = (
    nibble-IsAddress 2 (text "0000 bbbb") (omega arith) refl (record { left = refl; right = refl }),
    tt,
  );
  last_address =
      nibble-IsAddress 3 (text "0000 cccc") (omega arith) refl
        (record { left = refl; right = refl });
  name_cell = record { bars = refl; trim = record { left = refl; right = refl } };
  named = λ e. cc;
  names_rows = (span_row-IsNamesRow, (tail_row-IsNamesRow, tt));
  distinct_names = ((refl, (refl, tt)), ((refl, tt), (tt, tt)));
}

delay-DistinctKeys : DistinctKeys delay
unfolding list_beq standard_name
delay-DistinctKeys = ((refl, tt), (tt, tt))

process_data-rows_example : process_data (rows delay) ≡ ok (settled_entries delay)
process_data-rows_example =
    process_data-rows delay (sw-IsParam, (time-IsParam, tt)) delay-DistinctKeys

-- The names behind the span of the delay's time.
abbrev time_entry : Entry
time_entry = record {
  offset = 0 ∷ 1 ∷ [];
  value_range = 1 ∷ 2018 ∷ [];
  bytes = none;
  values = (text "1ms - 2000ms", 1) ∷ (text "32nd", 2) ∷ (text "16th", 3) ∷ [];
}

time_is_span : is_span (text "1ms - 2000ms") ≡ true
unfolding is_span lstrip is_space is_empty
time_is_span = refl

time_keys-Distinct : Distinct (keys {K = Text} {V = ℕ} ((text "32nd", 2) ∷ (text "16th", 3) ∷ []))
unfolding list_beq keys
time_keys-Distinct = ((refl, tt), (tt, tt))

time_room : 1 + length (keys {K = Text} {V = ℕ} ((text "32nd", 2) ∷ (text "16th", 3) ∷ [])) ≤ 2018
unfolding keys
time_room = omega arith

time_second :
    get_elem? (keys {K = Text} {V = ℕ} ((text "32nd", 2) ∷ (text "16th", 3) ∷ [])) 1
    ≡ some (text "16th")
unfolding keys
time_second = refl

fix_entry_tail_example :
    (e : Entry) × (fix_entry time_entry ≡ ok e)
    × (e.offset ≡ time_entry.offset)
    × (get e.values (text "16th")
        ≡ some (
            2018
            + 1
            - length (keys {K = Text} {V = ℕ} ((text "32nd", 2) ∷ (text "16th", 3) ∷ []))
            + 1))
    × (1
        < 2018
          + 1
          - length (keys {K = Text} {V = ℕ} ((text "32nd", 2) ∷ (text "16th", 3) ∷ []))
          + 1)
    × (2018 + 1 - length (keys {K = Text} {V = ℕ} ((text "32nd", 2) ∷ (text "16th", 3) ∷ [])) + 1
        ≤ 2018)
fix_entry_tail_example =
    fix_entry_tail time_entry 1 2018 (text "1ms - 2000ms") 1
      ((text "32nd", 2) ∷ (text "16th", 3) ∷ []) refl refl time_is_span time_keys-Distinct time_room
      1 (text "16th") time_second
