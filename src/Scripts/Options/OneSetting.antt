-- ===== src/Scripts/Options/OneSetting.antt =====
-- Reading the rows of one setting.
use pygt.Base.{
  ℕ, ◌+◌, ◌*◌, ◌≡◌, ◌≢◌, refl, sym, ap, ◌∙◌, Text, text, true, false, Option, none, some, List, [],
  ◌∷◌, ◌++◌, map, length, length-append, ltb, nat_eq, list_eq, list_beq_iff, arith, append_assoc,
  All, ok,
}
use pygt.Base.Dict.{Dict, has, put_new}
use pygt.Base.Strings.{is_empty}
use pygt.Bytes.{bytes_to_int, from_bytes}
use pygt.Scripts.Options.Ranges.{Entry, all_bytes, offset_to_int}
use pygt.Scripts.Options.Tails.{enumerate_from}
use pygt.Scripts.Options.Reading.{
  Reading, standard_name, unique_name, new_entry, store_setting, process_line, read_lines,
}
use pygt.Scripts.Options.Params.{
  Address, Param, field_of, first_rows, rows_of, concat, key, value_of, offset_of, width_of,
  entry_with, entry_of, IsAddress, IsFirst, IsParam,
}
use pygt.Scripts.Options.Lines.{names_row, setting_row, IsNamesRow, below, process_line-names_row}
use pygt.Scripts.Options.AddressLines.{
  process_line-setting_row, process_line-marker_row, process_line-field_row,
}
use pygt.Scripts.Options.Names.{enumerate_from_new, enumerate_from-append}
use pygt.Scripts.Tables.Split.{format_row}
use pygt.Scripts.Tables.Rows.{strip-format_row}

read_lines-cons :
    (cells lines : List Text) (r : Reading) {r' : Reading}
    → process_line (format_row cells) r ≡ ok r'
    → read_lines (format_row cells ∷ lines) r ≡ read_lines lines r'
unfolding read_lines
read_lines-cons cells lines r h = rw (strip-format_row cells, h)

enumerate_from-nil : (n : ℕ) (d : Dict Text ℕ) → enumerate_from n [] d ≡ d
unfolding enumerate_from
enumerate_from-nil n d = refl

module _ (name : Text) (lo hi : ℕ) (conflicts : Dict Text ℕ) (named : is_empty name ≡ false) where
  read_names :
      (l : List (List Text)) (rest : List Text) (d : Dict Text Entry) (e : Entry) (offset : ℕ)
      → All IsNamesRow l
      → has d name ≡ false
      → read_lines
          (map names_row l ++ rest)
          (below (d ++ (name, e) ∷ []) name lo hi offset conflicts)
        ≡ read_lines rest (
            below
              (d
                ++ (name, record e { values = enumerate_from (lo + offset) (concat l) e.values })
                  ∷ [])
              name
              lo
              hi
              (offset + length (concat l))
              conflicts)
  read_names [] rest d e offset h new =
      ap (λ n. read_lines rest (below (d ++ (name, e) ∷ []) name lo hi n conflicts)) {x = offset}
        (omega arith)
      ∙ ap
          (λ v.
            read_lines rest
              (below (d ++ (name, record e { values = v }) ∷ []) name lo hi (offset + 0) conflicts))
          (sym (enumerate_from-nil (lo + offset) e.values))
  read_names (os ∷ l) rest d e offset h new =
      let values = enumerate_from (lo + offset) os e.values in
      let state = λ (v : Dict Text ℕ) (n : ℕ).
        read_lines rest
          (below (d ++ (name, record e { values = v }) ∷ []) name lo hi n conflicts) in
      read_lines-cons _ (map names_row l ++ rest) _
        (process_line-names_row name lo hi conflicts named os d e offset h.0 new)
      ∙ read_names l rest d (record e { values = values }) (offset + length os) h.1 new
      ∙ ap (λ n. state n (offset + length os + length (concat l)))
          (ap (λ n. enumerate_from n (concat l) values) {x = lo + (offset + length os)}
              (omega arith)
            ∙ sym (enumerate_from-append os (concat l) (lo + offset) e.values))
      ∙ ap (state (enumerate_from (lo + offset) (os ++ concat l) e.values))
          (omega (arith, length-append os (concat l)))

read_between :
    (l : List Address) (rest : List Text) (r : Reading)
    → All IsAddress l
    → read_lines (map field_of l ++ rest) r ≡ read_lines rest r
read_between [] rest r h = refl
read_between (a ∷ l) rest r h =
    read_lines-cons _ (map field_of l ++ rest) r
      (process_line-field_row a.high a.low a.bits h.0.high_byte h.0.low_byte h.0.bits_cell r)
    ∙ read_between l rest r h.1

offset_to_int_lem :
    (a : Address) → IsAddress a → offset_to_int (a.high ∷ a.low ∷ []) ≡ ok (value_of a)
unfolding offset_to_int all_bytes bytes_to_int from_bytes
offset_to_int_lem a h =
    let high : ltb a.high 256 ≡ true = let k = h.high_byte in ground arith in
    let low : ltb a.low 256 ≡ true = let k = h.low_byte in ground arith in
    rw (high, low) (ap ok {x = (0 * 256 + a.high) * 256 + a.low} (omega arith))

abbrev start_of : Option Address → Option (List ℕ)
start_of none = none
start_of (some a) = some (a.high ∷ a.low ∷ [])

new_entry_lem :
    (f : Option Address) (last : Address) (bounds : List ℕ)
    → IsFirst f
    → IsAddress last
    → new_entry (last.high ∷ last.low ∷ []) bounds (start_of f)
      ≡ ok (record {
        offset = offset_of f last;
        value_range = bounds;
        bytes = width_of f last;
        values = [];
      })
unfolding new_entry
new_entry_lem none last bounds h k = refl
new_entry_lem (some a) last bounds h k = rw (offset_to_int_lem last k, offset_to_int_lem a h) refl

-- Between two settings, `start` is the marked start of a field.
abbrev pub between_settings :
    Dict Text Entry → Option (Text × List ℕ) → ℕ → Dict Text ℕ → Option (List ℕ) → Reading
between_settings d current offset conflicts start = record {
  result = d;
  current = current;
  offset = offset;
  conflict_count = conflicts;
  pending_start = start;
}

standard_name-named : (name : Text) → name ≢ [] → is_empty (standard_name name) ≡ false
unfolding standard_name is_empty
standard_name-named [] ne = absurd (ne refl)
standard_name-named (c ∷ cs) ne =
    ground (arith, list_beq_iff (c ∷ cs) (text "FX SW"), list_beq_iff (c ∷ cs) (text "FX1 TYPE"))

module _ (d : Dict Text Entry) (current : Option (Text × List ℕ)) (offset : ℕ)
    (conflicts : Dict Text ℕ) where
  read_first :
      (f : Option Address) (rest : List Text)
      → IsFirst f
      → read_lines (first_rows f ++ rest) (between_settings d current offset conflicts none)
        ≡ read_lines rest (between_settings d current offset conflicts (start_of f))
  read_first none rest h = refl
  read_first (some a) rest h =
      read_lines-cons _ rest _
        (process_line-marker_row a.high a.low a.bits h.high_byte h.low_byte h.bits_cell _)

  store_setting_lem :
      (p : Param)
      → IsParam p
      → has d (key p) ≡ false
      → store_setting
          (key p)
          (p.low ∷ p.high ∷ [])
          (p.last.high ∷ p.last.low ∷ [])
          (between_settings d current offset conflicts (start_of p.first))
        ≡ ok (below (d ++ (key p, entry_with p []) ∷ []) (key p) p.low p.high 0 conflicts)
  unfolding store_setting unique_name
  store_setting_lem p h new =
      rw
        (
          new,
          new_entry_lem p.first p.last (p.low ∷ p.high ∷ []) h.first_address h.last_address,
          put_new d (key p) (entry_with p []) new,
        )
        refl

  -- The rows of one setting, in a table without it.
  pub read_param :
      (p : Param) (rest : List Text)
      → IsParam p
      → has d (key p) ≡ false
      → read_lines (rows_of p ++ rest) (between_settings d current offset conflicts none)
        ≡ read_lines rest (
            below
              (d ++ (key p, entry_of p) ∷ [])
              (key p)
              p.low
              p.high
              (0 + length (concat p.names))
              conflicts)
  read_param p rest h new =
      let names = map names_row p.names in
      let row = setting_row p.last.high p.last.low p.last.bits p.name p.low p.high in
      let start = between_settings d current offset conflicts (start_of p.first) in
      ap (λ l. read_lines l (between_settings d current offset conflicts none))
        (append_assoc (first_rows p.first) (map field_of p.between ++ row ∷ names) rest
          ∙ ap (λ l. first_rows p.first ++ l)
              (append_assoc (map field_of p.between) (row ∷ names) rest))
      ∙ read_first p.first (map field_of p.between ++ (row ∷ names ++ rest)) h.first_address
      ∙ read_between p.between (row ∷ names ++ rest) start h.between_addresses
      ∙ read_lines-cons _ (names ++ rest) start (
          process_line-setting_row p.last.high p.last.low p.last.bits h.last_address.high_byte
            h.last_address.low_byte h.last_address.bits_cell p.name p.low p.high start h.name_cell
            h.named
          ∙ store_setting_lem p h new)
      ∙ read_names (key p) p.low p.high conflicts (standard_name-named p.name h.named) p.names rest
          d (entry_with p []) 0 h.names_rows new
      ∙ ap
          (λ v. read_lines rest (
            below (d ++ (key p, entry_with p v) ∷ []) (key p) p.low p.high
              (0 + length (concat p.names)) conflicts))
          (ap (λ n. enumerate_from n (concat p.names) []) {x = p.low + 0} (omega arith)
            ∙ enumerate_from_new (concat p.names) p.low h.distinct_names)
