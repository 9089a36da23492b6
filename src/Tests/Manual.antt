-- ===== src/Tests/Manual.antt =====
-- The scripts that read the tables of the manual, on excerpts of the tables.
use pygt.Base.Dict.{has, get, put}
use pygt.Base.Strings.{strip, split_on, words, int_of_hex, rsplit_on, contains}
use pygt.Values.{int_of_text}
use pygt.Bytes.{bytes_to_int}
use pygt.Base.{list_beq, ◌≡◌, refl, Text, text, none, some, List, [], ◌∷◌, ok}
use pygt.Base.Int.{pos}
use pygt.Scripts.Options.Reading.{process_data}

delay_lines : List Text
delay_lines =
    text "| 00 00 | 0000 000a | SW (0 - 1) |\n"
    ∷ text "| | | OFF, ON |\n"
    ∷ text "|# 00 01 | 0000 aaaa | |\n"
    ∷ text "| 00 02 | 0000 bbbb | |\n"
    ∷ text "| 00 03 | 0000 cccc | TIME (1 - 2018) |\n"
    ∷ text "| | | 1ms - 2000ms, 32nd, 16th |\n"
    ∷ text "| 00 04 | 0aaa aaaa | LEVEL (0 - 100) |\n"
    ∷ []

delay_table :
    process_data delay_lines
    ≡ ok (
        (
          text "SW",
          record {
            offset = 0 ∷ 0 ∷ [];
            value_range = 0 ∷ 1 ∷ [];
            bytes = none;
            values = (text "OFF", 0) ∷ (text "ON", 1) ∷ [];
          },
        )
        ∷ (
          text "TIME",
          record {
            offset = 0 ∷ 1 ∷ [];
            value_range = 1 ∷ 2018 ∷ [];
            bytes = some (pos 3);
            values = (text "32nd", 2017) ∷ (text "16th", 2018) ∷ [];
          },
        )
        ∷ (
          text "LEVEL",
          record { offset = 0 ∷ 4 ∷ []; value_range = 0 ∷ 100 ∷ []; bytes = none; values = [] },
        )
        ∷ [])
unfolding process_data delay_lines strip split_on words int_of_hex rsplit_on contains int_of_text
    has list_beq get put bytes_to_int
delay_table = refl
