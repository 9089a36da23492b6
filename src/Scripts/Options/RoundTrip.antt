-- ===== src/Scripts/Options/RoundTrip.antt =====
-- A whole table: what options-to-json.py makes of the rows that pdf-to-tables.py writes.
use pygt.Base.{
  ok, ℕ, ◌+◌, ◌≡◌, sym, ap, ◌∙◌, Text, false, Option, none, some, List, [], ◌∷◌, ◌++◌, length,
  nat_eq, list_eq, append_assoc, append-nil, All, ◌>>=◌,
}
use pygt.Base.Keyed.{DistinctBy, fresh_after, All-fresh}
use pygt.Base.Dict.{Dict, has}
use pygt.Scripts.Options.Ranges.{Entry}
use pygt.Scripts.Options.Tails.{fix_span_tails}
use pygt.Scripts.Options.Reading.{read_lines, process_data, start_reading}
use pygt.Scripts.Options.Params.{Param, rows, concat, key, entry_of, entries, IsParam}
use pygt.Scripts.Options.Spans.{settled_entries, fix_span_tails_settled}
use pygt.Scripts.Options.OneSetting.{between_settings, read_param}

-- No setting has the name of another.
abbrev pub DistinctKeys : List Param → Type 0
DistinctKeys = DistinctBy key

-- The rows are read into a table that has none of the settings.
read_params :
    (ps : List Param) (d : Dict Text Entry) (current : Option (Text × List ℕ)) (offset : ℕ)
    (conflicts : Dict Text ℕ)
    → All IsParam ps
    → All (λ q. has d (key q) ≡ false) ps
    → DistinctKeys ps
    → (read_lines (rows ps) (between_settings d current offset conflicts none) >>= λ r.
        fix_span_tails r.result)
      ≡ fix_span_tails (d ++ entries ps)
read_params [] d current offset conflicts h new differ =
    (unfold read_lines in ap fix_span_tails (sym (append-nil d)))
read_params (p ∷ ps) d current offset conflicts h new differ =
    ap (λ m. m >>= λ r. fix_span_tails r.result)
      (read_param d current offset conflicts p (rows ps) h.0 new.0)
    ∙ read_params ps (d ++ (key p, entry_of p) ∷ []) (some (key p, p.low ∷ p.high ∷ []))
        (0 + length (concat p.names)) conflicts h.1
        (fresh_after key d (key p) (entry_of p) ps new.1 differ.0) differ.1
    ∙ ap fix_span_tails (append_assoc d ((key p, entry_of p) ∷ []) (entries ps))

-- Take settings with names, ranges and addresses that can stand in a table, under different keys. Their rows are
-- read into one entry each, in order: offset, range and width, and the names numbered from the low end of the
-- range. A first name that is a span is dropped, and the names behind it are numbered up to the high end, unless
-- they do not fit above the low end.
pub process_data-rows :
    (ps : List Param)
    → All IsParam ps
    → DistinctKeys ps
    → process_data (rows ps) ≡ ok (settled_entries ps)
unfolding process_data start_reading
process_data-rows ps h differ =
    read_params ps [] none 0 [] h (All-fresh key Entry ps) differ ∙ fix_span_tails_settled ps h
