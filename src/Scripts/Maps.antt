-- ===== src/Scripts/Maps.antt =====
-- From the text of the manual to the entries of an address map: pdf-to-tables.py, and the converter that it runs.
use pygt.Base.{[], ◌∷◌, nat_eq, list_eq}
use pygt.Scripts.Tables.Printed.{Cells}
use pygt.Scripts.Converters.Places.{Place, hex_cell, name_cell}

abbrev pub place_cells : Place → Cells
place_cells p = (hex_cell p.byte p.bytes, name_cell p.name p.table ∷ [])
