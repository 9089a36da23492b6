-- ===== src/Scripts/Tables/Split.antt =====
-- scripts/pdf-to-tables.py: the cells of a row, and the rows that are no data.
use pygt.Base.{
  ℕ, Text, text, Bool, true, false, ◌&&◌, ◌||◌, not, List, [], ◌∷◌, ◌++◌, map, length, leb, nat_beq,
  ◌==◌, nat_eq, list_eq, if◌then◌else◌,
}
use pygt.Base.Strings.{is_empty, contains, is_space, strip, lstrip, split_on, words}

-- `parts[1:-1]`
unfoldable pub without_last : List Text → List Text
without_last [] = []
without_last (p ∷ []) = []
without_last (p ∷ q ∷ ps) = p ∷ without_last (q ∷ ps)

unfoldable pub inner : List Text → List Text
unfolding without_last
inner [] = []
inner (p ∷ ps) = without_last ps

-- `re.sub(r"\s+", " ", p)`: a white space is dropped if another one follows, and else is one blank.
unfoldable pub starts_space : Text → Bool
starts_space [] = false
starts_space (c ∷ cs) = is_space c

unfoldable pub collapse : Text → Text
unfolding starts_space
collapse [] = []
collapse (c ∷ cs) =
    let rest = collapse cs in
    if is_space c then (if starts_space cs then rest else b' ' ∷ rest) else c ∷ rest

unfoldable pub clean_cell : Text → Text
unfolding collapse
clean_cell p = strip (collapse p)

unfoldable pub split_cells : Text → List Text
unfolding inner clean_cell
split_cells line = map clean_cell (inner (split_on b'|' (strip line)))

unfoldable pub all {ℓ} : {A : Type ℓ} → (A → Bool) → List A → Bool
all test [] = true
all test (x ∷ xs) = test x && all test xs

unfoldable pub any {ℓ} : {A : Type ℓ} → (A → Bool) → List A → Bool
any test [] = false
any test (x ∷ xs) = test x || any test xs

unfoldable pub is_digit : ℕ → Bool
is_digit c = leb 48 c && leb c 57

-- HEX_BYTE_RE
unfoldable pub is_hex_byte : Text → Bool
unfolding all is_digit
is_hex_byte token = length token == 2 && all (λ c. is_digit c || leb 65 c && leb c 70) token

-- `is_hex_bytes(cell)`, and with a count.
unfoldable pub is_hex_bytes : Text → Bool
unfolding is_hex_byte
is_hex_bytes cell =
    let toks = words (lstrip (nat_beq b'#') cell) in not (is_empty toks) && all is_hex_byte toks

unfoldable pub is_hex_bytes_count : Text → ℕ → Bool
unfolding is_hex_bytes
is_hex_bytes_count cell count =
    length (words (lstrip (nat_beq b'#') cell)) == count && is_hex_bytes cell

unfoldable pub nonempty : List Text → List Text
nonempty [] = []
nonempty (c ∷ cs) = let rest = nonempty cs in if is_empty c then rest else c ∷ rest

-- HEADER_CELLS
unfoldable pub is_header_cell : Text → Bool
is_header_cell c =
    c == text "Offset" || c == text "Address" || c == text "Description" || c == text "Start"

unfoldable pub is_furniture : List Text → Bool
unfolding all nonempty is_header_cell
is_furniture [] = true
is_furniture (first ∷ rest) =
    let cells = first ∷ rest in
    all (all (contains (text "-+ "))) cells
    || not (is_empty (nonempty cells)) && all is_header_cell (nonempty cells)

-- A cell with the bar behind it.
unfoldable pub format_cell : Text → Text
format_cell [] = text " |"
format_cell (c ∷ cs) =
    if nat_beq c b'#' then (c ∷ cs) ++ text " |" else b' ' ∷ ((c ∷ cs) ++ text " |")

unfoldable pub format_cells : List Text → Text
unfolding format_cell
format_cells [] = []
format_cells (cell ∷ cells) = format_cell cell ++ format_cells cells

unfoldable pub format_row : List Text → Text
unfolding format_cells
format_row cells = b'|' ∷ format_cells cells
