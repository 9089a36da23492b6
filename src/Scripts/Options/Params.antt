-- ===== src/Scripts/Options/Params.antt =====
-- The settings of a table of the manual, the rows that they are written in, and the entries that stand for them.
use pygt.Base.{
  ℕ, ◌+◌, ◌*◌, ◌<◌, ◌≢◌, Text, Option, none, some, List, [], ◌∷◌, ◌++◌, map, nat_eq, list_eq, All,
}
use pygt.Base.Dict.{Dict}
use pygt.Base.Int.{ℤ, sub_ℕ}
use pygt.Scripts.Options.Ranges.{Entry}
use pygt.Scripts.Options.Reading.{standard_name}
use pygt.Scripts.Options.Lines.{names_row, setting_row, marker_row, field_row, IsNamesRow}
use pygt.Scripts.Options.Names.{numbered, Distinct}
use pygt.Scripts.Tables.Rows.{IsCell}

-- An address row of the manual: two bytes and the bits.
pub record Address : Type 0 where
  pub high : ℕ
  pub low : ℕ
  pub bits : Text

-- A setting of the manual. A field of several bytes has its first address apart, and the rows up to the last, which names it.
pub record Param : Type 0 where
  pub first : Option Address
  pub between : List Address
  pub last : Address
  pub name : Text
  pub low : ℕ
  pub high : ℕ
  pub names : List (List Text)

abbrev pub field_of : Address → Text
field_of a = field_row a.high a.low a.bits

abbrev pub first_rows : Option Address → List Text
first_rows none = []
first_rows (some a) = marker_row a.high a.low a.bits ∷ []

abbrev pub rows_of : Param → List Text
rows_of p =
    first_rows p.first
    ++ (map field_of p.between
        ++ (setting_row p.last.high p.last.low p.last.bits p.name p.low p.high
            ∷ map names_row p.names))

abbrev pub rows : List Param → List Text
rows [] = []
rows (p ∷ ps) = rows_of p ++ rows ps

abbrev pub concat : List (List Text) → List Text
concat [] = []
concat (os ∷ l) = os ++ concat l

-- What the table says of a setting: its names have the values from the low end of the range on.
abbrev pub key : Param → Text
key p = standard_name p.name

abbrev pub value_of : Address → ℕ
value_of a = a.high * 256 + a.low

abbrev pub offset_of : Option Address → Address → List ℕ
offset_of none last = last.high ∷ last.low ∷ []
offset_of (some a) last = a.high ∷ a.low ∷ []

-- A field of several bytes has its width.
abbrev pub width_of : Option Address → Address → Option ℤ
width_of none last = none
width_of (some a) last = some (sub_ℕ (value_of last + 1) (value_of a))

abbrev pub entry_with : Param → Dict Text ℕ → Entry
entry_with p values = record {
  offset = offset_of p.first p.last;
  value_range = p.low ∷ p.high ∷ [];
  bytes = width_of p.first p.last;
  values = values;
}

abbrev pub entry_of : Param → Entry
entry_of p = entry_with p (numbered p.low (concat p.names))

abbrev pub entries : List Param → Dict Text Entry
entries [] = []
entries (p ∷ ps) = (key p, entry_of p) ∷ entries ps

pub record IsAddress (a : Address) : Type 0 where
  pub high_byte : a.high < 256
  pub low_byte : a.low < 256
  pub bits_cell : IsCell a.bits

abbrev pub IsFirst : Option Address → Type 0
IsFirst none = Unit
IsFirst (some a) = IsAddress a

-- A setting that can stand in a table.
pub record IsParam (p : Param) : Type 0 where
  pub first_address : IsFirst p.first
  pub between_addresses : All IsAddress p.between
  pub last_address : IsAddress p.last
  pub name_cell : IsCell p.name
  pub named : p.name ≢ []
  pub names_rows : All IsNamesRow p.names
  pub distinct_names : Distinct (concat p.names)
