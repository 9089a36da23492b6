-- ===== src/Scripts/Tables/Titles.antt =====
-- scripts/pdf-to-tables.py: the titles of sections and chapters, by functions that match its regular expressions.
use pygt.Base.{
  ℕ, ◌+◌, Text, text, Bool, false, ◌&&◌, ◌||◌, not, Option, none, some, [], ◌∷◌, starts_with,
  strip_prefix, leb, nat_beq, nat_eq, list_eq, if◌then◌else◌,
}
use pygt.Base.Strings.{is_empty, is_space, lstrip}
use pygt.Scripts.Tables.Split.{starts_space, is_digit}

-- What stands before the first `]`, if there is one.
unfoldable pub until_bracket : Text → Option Text
until_bracket [] = none
until_bracket (c ∷ cs) =
    let rest = until_bracket cs in
    if nat_beq c b']' then some [] else elim rest [ none ↦ none | some s ↦ some (c ∷ s) ]

unfoldable pub not_empty_text : Text → Option Text
not_empty_text s = if is_empty s then none else some s

-- SECTION_RE: a star, white space, and one or more characters in brackets.
unfoldable pub section_names : Text → Option Text
unfolding until_bracket not_empty_text
section_names s = elim (strip_prefix (text "*") s) [
  | none ↦ none
  | some s1 ↦ elim (strip_prefix (text "[") (lstrip is_space s1)) [
    | none ↦ none
    | some s2 ↦ elim (until_bracket s2) [ none ↦ none | some names ↦ not_empty_text names ]
  ]
]

-- CHAPTER_RE: digits, a point, white space, and something more.
unfoldable pub after_number : Text → Option Text
unfolding is_digit
after_number [] = none
after_number (c ∷ cs) = if is_digit c then some (lstrip is_digit cs) else none

unfoldable pub is_chapter : Text → Bool
unfolding after_number starts_space
is_chapter s = elim (after_number s) [
  | none ↦ false
  | some s1 ↦ elim (strip_prefix (text ".") s1) [
    | none ↦ false
    | some s2 ↦ starts_space s2 && not (is_empty (lstrip is_space s2))
  ]
]

-- `"address map" in stripped.lower()`, with the lower case of ASCII.
unfoldable pub lower : ℕ → ℕ
lower c = if leb 65 c && leb c 90 then c + 32 else c

unfoldable pub occurs : Text → Text → Bool
occurs pattern [] = is_empty pattern
occurs pattern (c ∷ cs) = starts_with (c ∷ cs) pattern || occurs pattern cs
