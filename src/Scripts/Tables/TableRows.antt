-- ===== src/Scripts/Tables/TableRows.antt =====
-- The rows that the extraction keeps, in tables that grow by a row.
use pygt.Base.{
  ◌≡◌, sym, subst, Text, text, true, false, ◌||◌, none, some, List, [], ◌∷◌, ◌++◌, nat_eq, list_eq,
  ◌==◌, Bool-cases, Option-cases, inl, inr, All,
}
use pygt.Base.Dict.{Dict, get, has, put}
use pygt.Base.Strings.{is_empty}
use pygt.Scripts.Tables.Split.{any, is_hex_bytes, is_furniture, format_row}
use pygt.Scripts.Tables.Extract.{set_default, append_row}

-- A row that the converters take: an elision, or cells of which the first is empty or holds the bytes of an address.
pub data IsTableRow (row : Text) : Type 0 where
  elision : row ≡ text "| : | | |" → IsTableRow row
  cells :
      (first : Text) (rest : List Text)
      → row ≡ format_row (first ∷ rest)
      → is_furniture (first ∷ rest) ≡ false
      → any (λ c. c == text "Total Size") (first ∷ rest) ≡ false
      → (is_empty first || is_hex_bytes first) ≡ true
      → IsTableRow row

abbrev pub AreRows : Dict Text (List Text) → Type 0
AreRows [] = Unit
AreRows ((name, rows) ∷ tables) = All IsTableRow rows × AreRows tables

All-snoc :
    (rows : List Text) (row : Text)
    → All IsTableRow rows
    → IsTableRow row
    → All IsTableRow (rows ++ row ∷ [])
All-snoc [] row h k = (k, tt)
All-snoc (r ∷ rows) row h k = (h.0, All-snoc rows row h.1 k)

get-AreRows :
    (tables : Dict Text (List Text)) (name : Text) {rows : List Text}
    → AreRows tables
    → get tables name ≡ some rows
    → All IsTableRow rows
unfolding get
get-AreRows [] name h e = absurd (cc e)
get-AreRows ((n, r) ∷ tables) name h e = elim (Bool-cases (n == name)) [
  | inl same ↦ subst (All IsTableRow) (cc (rw same at e)) h.0
  | inr other ↦ get-AreRows tables name h.1 (rw other at e)
]

put-AreRows :
    (tables : Dict Text (List Text)) (name : Text) (rows : List Text)
    → AreRows tables
    → All IsTableRow rows
    → AreRows (put tables name rows)
unfolding put
put-AreRows [] name rows h k = (k, tt)
put-AreRows ((n, r) ∷ tables) name rows h k = elim (Bool-cases (n == name)) [
  | inl same ↦ rw same (k, h.1)
  | inr other ↦ rw other (h.0, put-AreRows tables name rows h.1 k)
]

pub set_default-AreRows :
    (name : Text) (tables : Dict Text (List Text))
    → AreRows tables
    → AreRows (set_default name tables)
unfolding set_default
set_default-AreRows name tables h = elim (Bool-cases (has tables name)) [
  | inl there ↦ rw there h
  | inr new ↦ rw new (put-AreRows tables name [] h tt)
]

append_row_there :
    (name row : Text) (tables : Dict Text (List Text)) {rows : List Text}
    → get tables name ≡ some rows
    → append_row name row tables ≡ put tables name (rows ++ row ∷ [])
unfolding append_row
append_row_there name row tables e = rw (e, append_row)

append_row_missing :
    (name row : Text) (tables : Dict Text (List Text))
    → get tables name ≡ none
    → append_row name row tables ≡ tables
unfolding append_row
append_row_missing name row tables e = rw (e, append_row)

pub append_row-AreRows :
    (name row : Text) (tables : Dict Text (List Text))
    → AreRows tables
    → IsTableRow row
    → AreRows (append_row name row tables)
append_row-AreRows name row tables h k = elim (Option-cases (get tables name)) [
  | inl missing ↦ subst AreRows (sym (append_row_missing name row tables missing)) h
  | inr (rows, there) ↦ subst AreRows (sym (append_row_there name row tables there)) (
      put-AreRows tables name (rows ++ row ∷ []) h
        (All-snoc rows row (get-AreRows tables name h there) k))
]
