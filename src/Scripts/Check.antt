-- ===== src/Scripts/Check.antt =====
-- scripts/pdf-to-tables.py, rows_to_json: the converter for a table, by its kind, and what it makes of the rows.
use pygt.Base.{Text, Option, none, some, List, Result, ok, err}
use pygt.Base.Dict.{Dict}
use pygt.Scripts.Options.Ranges.{Entry}
use pygt.Scripts.Options.Reading.{process_data}
use pygt.Scripts.Tables.Extract.{Kind, address_map, params}
use pygt.Scripts.Converters.{Reference, convert_to_json}

pub data Converted : Type 0 where
  references : Dict Text Reference → Converted
  entries : Dict Text Entry → Converted

unfoldable pub without_error {ℓ κ} : {A : Type ℓ} {B : Type κ} → (A → B) → Result A → Option B
without_error f (ok a) = some (f a)
without_error f (err e) = none

-- None if the converter raises.
unfoldable pub rows_to_json : List Text → Kind → Option Converted
unfolding without_error
rows_to_json rows address_map = without_error references (convert_to_json rows)
rows_to_json rows params = without_error entries (process_data rows)
