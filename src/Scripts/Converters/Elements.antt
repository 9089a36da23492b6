-- ===== src/Scripts/Converters/Elements.antt =====
-- scripts/chain-elements.py: the dict that it writes serves both directions.
use pygt.Base.{
  ℕ, zero, suc, ◌≡◌, refl, sym, ap, ◌∙◌, Text, text, false, some, List, [], ◌∷◌, ◌++◌, map, length,
  drop, nat_beq, list_eq, list_beq_iff, ◌==◌, if◌then◌else◌, arith, append_assoc, All, Bool-cases,
  inl, inr, ok, ◌≤◌,
}
use pygt.Base.Dict.{Dict, get, put, get-put}
use pygt.Base.Strings.{
  contains, is_space, strip, strip_of, lstrip, rstrip, split_on, replace, replace_fuel,
}
use pygt.Base.Strings.Strip.{rstrip-append}
use pygt.Base.Strings.Split.{split_on-append}
use pygt.Values.{decimal}
use pygt.Values.Decimal.{IsDigit, decimal-IsDigit, contains-IsDigit, int_of_text-decimal}
use pygt.AddressMap.{AddressMap, elements, table_of}
use pygt.AddressMap.Labels.{element_at, chain_element_name, chain_element_int}
use pygt.Scripts.Converters.{element_cells, store_both, read_elements, elements_of_lines}
use pygt.Scripts.Options.Names.{Distinct}

-- A text less its blanks.
abbrev pub unblank : Text → Text
unblank [] = []
unblank (c ∷ cs) = if nat_beq c b' ' then unblank cs else c ∷ unblank cs

replace-unblank : (f : ℕ) (s : Text) → length s ≤ f → replace_fuel f (text " ") [] s ≡ unblank s
unfolding replace_fuel
replace-unblank zero [] h = refl
replace-unblank zero (c ∷ cs) h = absurd (omega arith)
replace-unblank (suc f) [] h = refl
replace-unblank (suc f) (c ∷ cs) h = elim (Bool-cases (nat_beq c b' ')) [
  | inl blank ↦ rw (blank, replace_fuel) (replace-unblank f cs (omega arith))
  | inr kept ↦ rw (kept, replace_fuel) (ap (λ t. c ∷ t) (replace-unblank f cs (omega arith)))
]

unblank-append : (s t : Text) → unblank (s ++ t) ≡ unblank s ++ unblank t
unblank-append [] t = refl
unblank-append (c ∷ s) t = ground (arith, unblank-append s t)

unblank-IsDigit : (s : Text) → All IsDigit s → unblank s ≡ s
unblank-IsDigit [] h = refl
unblank-IsDigit (c ∷ s) h = ground (arith, unblank-IsDigit s h.1)

-- An element of the manual: its number and its name, which is stored without blanks.
pub record Element : Type 0 where
  pub number : ℕ
  pub name : Text

abbrev pub line_of : Element → Text
line_of e = text "| " ++ (decimal e.number ++ (text " | " ++ (e.name ++ text " |")))

abbrev pub stored : Element → Text
stored e = unblank e.name

unblank_line :
    (e : Element)
    → unblank (line_of e) ≡ b'|' ∷ (decimal e.number ++ b'|' ∷ (stored e ++ b'|' ∷ []))
unblank_line e =
    ap (λ t. b'|' ∷ t)
      (unblank-append (decimal e.number) (text " | " ++ (e.name ++ text " |"))
        ∙ ap (λ t. t ++ unblank (text " | " ++ (e.name ++ text " |")))
            (unblank-IsDigit (decimal e.number) (decimal-IsDigit e.number))
        ∙ ap (λ t. decimal e.number ++ b'|' ∷ t) (unblank-append e.name (text " |")))

strip_bars : (s : Text) → strip (b'|' ∷ (s ++ b'|' ∷ [])) ≡ b'|' ∷ (s ++ b'|' ∷ [])
unfolding strip strip_of lstrip rstrip is_space
strip_bars s = rstrip-append is_space (b'|' ∷ s) (b'|' ∷ []) refl (λ e. cc)

element_cells-line_of :
    (e : Element)
    → contains (stored e) b'|' ≡ false
    → element_cells (line_of e) ≡ decimal e.number ∷ stored e ∷ [] ∷ []
unfolding element_cells replace
element_cells-line_of e h =
    let inner = decimal e.number ++ b'|' ∷ stored e in
    let bars : b'|' ∷ (decimal e.number ++ b'|' ∷ (stored e ++ b'|' ∷ []))
        ≡ b'|' ∷ (inner ++ b'|' ∷ []) =
      ap (λ t. b'|' ∷ t) (sym (append_assoc (decimal e.number) (b'|' ∷ stored e) (b'|' ∷ []))) in
    ap (λ t. split_on b'|' (drop 1 (strip t)))
      (replace-unblank (length (line_of e)) (line_of e) (omega arith) ∙ unblank_line e ∙ bars)
    ∙ ap (λ t. split_on b'|' (drop 1 t)) (strip_bars inner ∙ sym bars)
    ∙ split_on-append b'|' (decimal e.number) (stored e ++ b'|' ∷ [])
        (contains-IsDigit (decimal e.number) b'|' (decimal-IsDigit e.number) refl)
    ∙ ap (λ l. decimal e.number ∷ l)
        (split_on-append b'|' (stored e) [] h ∙ (unfold split_on in refl))

-- The keys that an element takes, and what is found under them.
abbrev pub all_keys : List Element → List Text
all_keys [] = []
all_keys (e ∷ es) = decimal e.number ∷ stored e ∷ all_keys es

pub record IsFound (d : Dict Text Text) (e : Element) : Type 0 where
  pub by_number : get d (decimal e.number) ≡ some (stored e)
  pub by_name : get d (stored e) ≡ some (decimal e.number)

abbrev store : Element → Dict Text Text → Dict Text Text
store e d = put (put d (decimal e.number) (stored e)) (stored e) (decimal e.number)

turn : (j k : Text) → (j == k) ≡ false → (k == j) ≡ false
turn j k h = ground (arith, h, list_beq_iff j k, list_beq_iff k j)

store_other :
    (e : Element) (d : Dict Text Text) (k : Text)
    → (decimal e.number == k) ≡ false
    → (stored e == k) ≡ false
    → get (store e d) k ≡ get d k
store_other e d k h n =
    get-put (put d (decimal e.number) (stored e)) (stored e) k (decimal e.number)
    ∙ rw n (get-put d (decimal e.number) k (stored e) ∙ rw h refl)

store-IsFound :
    (e : Element) (d : Dict Text Text)
    → (decimal e.number == stored e) ≡ false
    → IsFound (store e d) e
store-IsFound e d h =
    let found = get-put (put d (decimal e.number) (stored e)) (stored e) in
    let other : (stored e == decimal e.number) ≡ false = ground (
      arith,
      h,
      list_beq_iff (decimal e.number) (stored e),
      list_beq_iff (stored e) (decimal e.number),
    ) in
    record {
      by_number =
          found (decimal e.number) (decimal e.number)
          ∙ rw other (
              get-put d (decimal e.number) (decimal e.number) (stored e)
              ∙ rw ((list_beq_iff (decimal e.number) (decimal e.number)).1 refl) refl);
      by_name =
          found (stored e) (decimal e.number)
          ∙ rw ((list_beq_iff (stored e) (stored e)).1 refl) refl;
    }

store_all : List Element → Dict Text Text → Dict Text Text
store_all [] d = d
store_all (e ∷ es) d = store_all es (store e d)

store_all_other :
    (es : List Element) (d : Dict Text Text) (k : Text)
    → All (λ j. (k == j) ≡ false) (all_keys es)
    → get (store_all es d) k ≡ get d k
unfolding store_all
store_all_other [] d k h = refl
store_all_other (e ∷ es) d k h =
    store_all_other es (store e d) k h.1.1
    ∙ store_other e d k (turn k (decimal e.number) h.0) (turn k (stored e) h.1.0)

store_all-IsFound :
    (es : List Element) (d : Dict Text Text)
    → Distinct (all_keys es)
    → All (IsFound (store_all es d)) es
unfolding store_all
store_all-IsFound [] d h = tt
store_all-IsFound (e ∷ es) d h =
    let found = store-IsFound e d h.0.0 in
    (
      record {
        by_number = store_all_other es (store e d) (decimal e.number) h.0.1 ∙ found.by_number;
        by_name = store_all_other es (store e d) (stored e) h.1.0 ∙ found.by_name;
      },
      store_all-IsFound es (store e d) h.1.1,
    )

read_elements-store_all :
    (es : List Element) (d : Dict Text Text)
    → All (λ e. contains (stored e) b'|' ≡ false) es
    → read_elements (map line_of es) d ≡ ok (store_all es d)
unfolding read_elements store_both store_all
read_elements-store_all [] d h = refl
read_elements-store_all (e ∷ es) d h =
    rw (element_cells-line_of e h.0) (read_elements-store_all es (store e d) h.1)

-- Take elements whose names have no bar, such that the numbers and the names less their blanks are all different. Their
-- lines are read without an error into a table in which each number gives the name less its blanks, and each name less its
-- blanks gives the number.
pub elements_of_lines-IsFound :
    (es : List Element)
    → All (λ e. contains (stored e) b'|' ≡ false) es
    → Distinct (all_keys es)
    → (d : Dict Text Text) × (elements_of_lines (map line_of es) ≡ ok d) × All (IsFound d) es
unfolding elements_of_lines
elements_of_lines-IsFound es h differ =
    (store_all es [], read_elements-store_all es [] h, store_all-IsFound es [] differ)

-- The element `e` in a map that holds the table.
pub IsFound-chain_element :
    (m : AddressMap) (d : Dict Text Text) (e : Element)
    → get m.tables (text "ChainElement") ≡ some (elements d)
    → IsFound d e
    → (chain_element_int m (stored e) ≡ ok e.number)
      × (chain_element_name m e.number ≡ ok (stored e))
unfolding chain_element_int chain_element_name element_at table_of
IsFound-chain_element m d e there found =
    (rw (there, found.by_name, int_of_text-decimal e.number) refl, rw (there, found.by_number) refl)
