-- ===== src/Scripts/Tables/TitleLines.antt =====
-- The title of a section, as it is read from its line.
use pygt.Base.{◌≡◌, ◌≢◌, refl, Text, text, false, some, [], ◌∷◌, ◌++◌, list_eq, arith}
use pygt.Base.Strings.{contains, is_empty, is_space, strip, strip_of, lstrip, rstrip}
use pygt.Base.Strings.Strip.{rstrip-append}
use pygt.Scripts.Tables.Titles.{until_bracket, not_empty_text, section_names}
use pygt.Scripts.Tables.Printed.{title_line}

pub rstrip-title_line : (title : Text) → rstrip is_space (title_line title) ≡ title_line title
unfolding rstrip is_space
rstrip-title_line title =
    rstrip-append is_space (text "* [") (title ++ text "]")
      (rstrip-append is_space title (text "]") refl (λ e. cc)) (append-ne-nil title)
  where
    append-ne-nil : (s : Text) → s ++ text "]" ≢ []
    append-ne-nil [] e = cc
    append-ne-nil (c ∷ s) e = cc

pub strip-title_line : (title : Text) → strip (title_line title) ≡ title_line title
unfolding strip strip_of lstrip is_space
strip-title_line title = rstrip-title_line title

until_bracket-title :
    (title : Text) → contains title b']' ≡ false → until_bracket (title ++ text "]") ≡ some title
unfolding until_bracket contains
until_bracket-title [] h = refl
until_bracket-title (c ∷ title) h = ground (arith, until_bracket-title title)

not_empty_text-title : (title : Text) → title ≢ [] → not_empty_text title ≡ some title
unfolding not_empty_text is_empty
not_empty_text-title [] ne = absurd (ne refl)
not_empty_text-title (c ∷ title) ne = refl

pub section_names-title_line :
    (title : Text)
    → contains title b']' ≡ false
    → title ≢ []
    → section_names (title_line title) ≡ some title
unfolding section_names lstrip is_space
section_names-title_line title h ne =
    rw (until_bracket-title title h, section_names) (not_empty_text-title title ne)
