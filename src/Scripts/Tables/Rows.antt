-- ===== src/Scripts/Tables/Rows.antt =====
-- A row of a table as it is written, and as it is split into cells again.
use pygt.Base.{
  ℕ, Text, Bool, true, false, ◌&&◌, List, [], ◌∷◌, ◌++◌, map, append_assoc, ◌≡◌, ◌≢◌, refl, ap, ◌∙◌,
  arith, nat_beq, if◌then◌else◌, inl, inr, append-nil, not, Bool-cases, All,
}
use pygt.Base.Strings.{contains, is_space, is_empty, strip, strip_of, lstrip, rstrip, split_on}
use pygt.Base.Strings.Strip.{
  IsTrim, lstrip_head, rstrip-append, rstrip_tail, strip_blanks, strip_blank_right,
}
use pygt.Base.Strings.Split.{contains-append, split_on-append}
use pygt.Scripts.Tables.Split.{
  without_last, inner, starts_space, collapse, clean_cell, split_cells, format_cell, format_cells,
  format_row,
}

-- A cell as it stands between two bars.
abbrev pub padded : Text → Text
padded [] = b' ' ∷ []
padded (c ∷ cs) = if nat_beq c b'#' then (c ∷ cs) ++ b' ' ∷ [] else b' ' ∷ ((c ∷ cs) ++ b' ' ∷ [])

format_cell-padded : (c : Text) → format_cell c ≡ padded c ++ b'|' ∷ []
unfolding format_cell
format_cell-padded [] = refl
format_cell-padded (c ∷ cs) = ground (arith, append_assoc (c ∷ cs) (b' ' ∷ []) (b'|' ∷ []))

-- A text for a cell: no bar in it, and no blank at an end.
pub record IsCell (c : Text) : Type 0 where
  pub bars : contains c b'|' ≡ false
  pub trim : IsTrim is_space c

contains-padded : (c : Text) → contains c b'|' ≡ false → contains (padded c) b'|' ≡ false
unfolding contains
contains-padded [] h = refl
contains-padded (c ∷ cs) h = ground (arith, contains-append (c ∷ cs) (b' ' ∷ []) b'|')

split_on-format_cells :
    (cells : List Text)
    → All IsCell cells
    → split_on b'|' (format_cells cells) ≡ map padded cells ++ [] ∷ []
unfolding format_cells split_on
split_on-format_cells [] h = refl
split_on-format_cells (c ∷ cells) h =
    let whole : format_cell c ++ format_cells cells ≡ padded c ++ b'|' ∷ format_cells cells =
      ap (λ t. t ++ format_cells cells) (format_cell-padded c)
      ∙ append_assoc (padded c) (b'|' ∷ []) _ in
    rw whole (
      split_on-append b'|' (padded c) (format_cells cells) (contains-padded c h.0.bars)
      ∙ ap (λ l. padded c ∷ l) (split_on-format_cells cells h.1))

pub split_on-format_row :
    (cells : List Text)
    → All IsCell cells
    → split_on b'|' (format_row cells) ≡ [] ∷ (map padded cells ++ [] ∷ [])
unfolding format_row contains
split_on-format_row cells h =
    split_on-append b'|' [] (format_cells cells) refl
    ∙ ap (λ l. [] ∷ l) (split_on-format_cells cells h)

-- A text that ends as stripping leaves it, and is not empty.
record IsEnded (s : Text) : Type 0 where
  ended : rstrip is_space s ≡ s
  some_text : s ≢ []

append_bar-ne-nil : (s : Text) → s ++ b'|' ∷ [] ≢ []
append_bar-ne-nil [] e = cc
append_bar-ne-nil (c ∷ s) e = cc

append-ne-nil : (s t : Text) → s ≢ [] → s ++ t ≢ []
append-ne-nil [] t ne = absurd (ne refl)
append-ne-nil (c ∷ s) t ne = λ e. cc

format_cell-IsEnded : (c : Text) → IsEnded (format_cell c)
unfolding rstrip is_space
format_cell-IsEnded c = rw (format_cell-padded c) (record {
  ended = rstrip-append is_space (padded c) (b'|' ∷ []) refl (λ e. cc);
  some_text = append_bar-ne-nil (padded c);
})

format_cells-IsEnded :
    (s : Text) (cells : List Text) → IsEnded s → IsEnded (s ++ format_cells cells)
unfolding format_cells
format_cells-IsEnded s [] h = rw append-nil h
format_cells-IsEnded s (c ∷ cells) h =
    let cell = format_cell-IsEnded c in
    rw (← append_assoc s (format_cell c) (format_cells cells)) (
      format_cells-IsEnded (s ++ format_cell c) cells (record {
        ended = rstrip-append is_space s (format_cell c) cell.ended cell.some_text;
        some_text = append-ne-nil s (format_cell c) h.some_text;
      }))

pub strip-format_row : (cells : List Text) → strip (format_row cells) ≡ format_row cells
unfolding strip strip_of format_row lstrip rstrip is_space
strip-format_row cells =
    (format_cells-IsEnded (b'|' ∷ []) cells (record { ended = refl; some_text = λ e. cc })).ended

pub rstrip-format_row : (cells : List Text) → rstrip is_space (format_row cells) ≡ format_row cells
unfolding format_row rstrip is_space
rstrip-format_row cells =
    (format_cells-IsEnded (b'|' ∷ []) cells (record { ended = refl; some_text = λ e. cc })).ended

pub strip-padded : (c : Text) → IsTrim is_space c → strip (padded c) ≡ c
unfolding strip strip_of lstrip rstrip is_space
strip-padded [] t = refl
strip-padded (c ∷ cs) t = elim (Bool-cases (nat_beq c b'#')) [
  | inl mark ↦ rw mark (strip_blank_right (c ∷ cs) t (λ e. cc))
  | inr plain ↦ rw plain (strip_blanks (c ∷ cs) t (λ e. cc))
]

last_blank : (x : ℕ) → is_space x ≡ true → rstrip is_space (x ∷ []) ≡ x ∷ [] → ⊥
unfolding rstrip
last_blank x h e = ground arith

-- White space stands only as single blanks.
abbrev pub single_blanks : Text → Bool
single_blanks [] = true
single_blanks (c ∷ cs) =
    (if is_space c then nat_beq c b' ' && not (starts_space cs) else true) && single_blanks cs

starts_space-append_blank :
    (y : ℕ) (c : Text) → starts_space ((y ∷ c) ++ b' ' ∷ []) ≡ starts_space (y ∷ c)
unfolding starts_space
starts_space-append_blank y c = refl

collapse-append_blank :
    (c : Text)
    → rstrip is_space c ≡ c
    → single_blanks c ≡ true
    → collapse (c ++ b' ' ∷ []) ≡ c ++ b' ' ∷ []
unfolding collapse
collapse-append_blank [] e h = (unfold is_space starts_space in refl)
collapse-append_blank (x ∷ []) e h = elim (Bool-cases (is_space x)) [
  | inl blank ↦ absurd (last_blank x blank e)
  | inr kept ↦ rw kept (unfold is_space starts_space in refl)
]
collapse-append_blank (x ∷ y ∷ c) e h = ground (
  arith,
  starts_space-append_blank y c,
  collapse-append_blank (y ∷ c) (rstrip_tail is_space x (y ∷ c) e),
)

blank_is_space : is_space b' ' ≡ true
unfolding is_space
blank_is_space = refl

collapse_head : (s : Text) → starts_space s ≡ false → collapse (b' ' ∷ s) ≡ b' ' ∷ collapse s
unfolding collapse
collapse_head s h = rw (blank_is_space, h)

-- A cell that is written as the manual's cells are cleaned.
pub record IsTidy (c : Text) : Type 0 where
  pub cell : IsCell c
  pub blanks : single_blanks c ≡ true

starts_space-cons : (c : ℕ) (cs : Text) → starts_space (c ∷ cs) ≡ is_space c
unfolding starts_space
starts_space-cons c cs = refl

clean_cell-padded : (c : Text) → IsTidy c → clean_cell (padded c) ≡ c
unfolding clean_cell
clean_cell-padded [] t =
    (unfold collapse is_space starts_space strip strip_of lstrip rstrip is_empty in refl)
clean_cell-padded (c ∷ cs) t =
    let inside = collapse-append_blank (c ∷ cs) t.cell.trim.right t.blanks in
    let first = lstrip_head is_space c cs t.cell.trim.left in
    let cleaned : collapse (padded (c ∷ cs)) ≡ padded (c ∷ cs) =
      elim (Bool-cases (nat_beq c b'#')) [
        | inl mark ↦ rw mark inside
        | inr plain ↦ rw plain (
            collapse_head (c ∷ cs ++ b' ' ∷ []) (starts_space-cons c (cs ++ b' ' ∷ []) ∙ first)
            ∙ ap (λ s. b' ' ∷ s) inside)
      ] in
    ap strip cleaned ∙ strip-padded (c ∷ cs) t.cell.trim

without_last-snoc : (xs : List Text) (x : Text) → without_last (xs ++ x ∷ []) ≡ xs
unfolding without_last
without_last-snoc [] x = refl
without_last-snoc (y ∷ []) x = refl
without_last-snoc (y ∷ z ∷ xs) x = ap (λ l. y ∷ l) (without_last-snoc (z ∷ xs) x)

clean_cells : (cells : List Text) → All IsTidy cells → map clean_cell (map padded cells) ≡ cells
clean_cells [] h = refl
clean_cells (c ∷ cells) h = cc (clean_cell-padded c h.0, clean_cells cells h.1)

IsTidy-IsCell : (cells : List Text) → All IsTidy cells → All IsCell cells
IsTidy-IsCell [] h = tt
IsTidy-IsCell (c ∷ cells) h = (h.0.cell, IsTidy-IsCell cells h.1)

-- A row that is written from tidy cells is split into these cells again.
pub split_cells-format_row :
    (cells : List Text) → All IsTidy cells → split_cells (format_row cells) ≡ cells
unfolding split_cells inner
split_cells-format_row cells h =
    rw
      (
        strip-format_row cells,
        split_on-format_row cells (IsTidy-IsCell cells h),
        without_last-snoc (map padded cells) [],
      )
      (clean_cells cells h)
