-- ===== src/Scripts/Options/Spans.antt =====
-- The pass over the value lists that begin with a span: the names behind the span get the last values of the range.
use pygt.Base.{
  All-get_elem, ℕ, zero, suc, ◌+◌, ◌-◌, ◌≤◌, ◌<◌, ◌≡◌, ◌≢◌, refl, ap, ◌∙◌, Text, true, false, some,
  List, [], ◌∷◌, length, leb, list_eq, list_beq_iff, ◌==◌, if◌then◌else◌, arith, All, Bool-cases,
  inl, inr, ok, get_elem?,
}
use pygt.Base.Keyed.{dict_of}
use pygt.Base.Dict.{Dict, get}
use pygt.Scripts.Options.Ranges.{Entry}
use pygt.Scripts.Options.Tails.{is_span, keys, renumber, fix_keys, fix_entry, fix_span_tails}
use pygt.Scripts.Options.Names.{numbered, Distinct, enumerate_from_new}
use pygt.Scripts.Options.Params.{Param, concat, key, entry_with, entry_of, entries, IsParam}

keys-numbered : (os : List Text) (v : ℕ) → keys (numbered v os) ≡ os
unfolding keys
keys-numbered [] v = refl
keys-numbered (o ∷ os) v = ap (λ l. o ∷ l) (keys-numbered os (v + 1))

-- The names behind a span, in a range from `lo` to `hi`: none, or the last values, or too many to move.
abbrev pub tail_values : ℕ → ℕ → Text → List Text → Dict Text ℕ
tail_values lo hi span [] = []
tail_values lo hi span (o ∷ os) =
    if leb (hi + 1) (lo + length (o ∷ os))
    then numbered lo (span ∷ o ∷ os)
    else numbered (hi + 1 - length (o ∷ os)) (o ∷ os)

abbrev pub settled_values : ℕ → ℕ → List Text → Dict Text ℕ
settled_values lo hi [] = []
settled_values lo hi (o ∷ os) = if is_span o then tail_values lo hi o os else numbered lo (o ∷ os)

fix_keys_settled :
    (p : Param) (os : List Text)
    → Distinct os
    → fix_keys os (entry_with p (numbered p.low os))
      ≡ ok (entry_with p (settled_values p.low p.high os))
unfolding fix_keys renumber
fix_keys_settled p [] d = refl
fix_keys_settled p (o ∷ []) d = elim (Bool-cases (is_span o)) [
  | inl span ↦ rw span
  | inr name ↦ rw name
]
fix_keys_settled p (o ∷ q ∷ os) d = elim (Bool-cases (is_span o)) [
  | inr name ↦ rw name
  | inl span ↦ elim (Bool-cases (leb (p.high + 1) (p.low + length (q ∷ os)))) [
    | inl long ↦ rw (span, long)
    | inr fits ↦
        rw (span, fits)
          (ap (λ v. ok (entry_with p v))
            (enumerate_from_new (q ∷ os) (p.high + 1 - length (q ∷ os)) d.1))
  ]
]

-- A setting after the pass.
abbrev pub settled : Param → Entry
settled p = entry_with p (settled_values p.low p.high (concat p.names))

abbrev pub settled_entries : List Param → Dict Text Entry
settled_entries = dict_of key settled

fix_entry-settled : (p : Param) → IsParam p → fix_entry (entry_of p) ≡ ok (settled p)
unfolding fix_entry
fix_entry-settled p h =
    rw (keys-numbered (concat p.names) p.low) (fix_keys_settled p (concat p.names) h.distinct_names)

pub fix_span_tails_settled :
    (ps : List Param) → All IsParam ps → fix_span_tails (entries ps) ≡ ok (settled_entries ps)
unfolding fix_span_tails
fix_span_tails_settled [] h = refl
fix_span_tails_settled (p ∷ ps) h = rw (fix_entry-settled p h.0, fix_span_tails_settled ps h.1) refl

pub numbered-get :
    (os : List Text) (v i : ℕ) {n : Text}
    → Distinct os
    → get_elem? os i ≡ some n
    → get (numbered v os) n ≡ some (v + i)
unfolding get
numbered-get [] v i d h = absurd (cc h)
numbered-get (o ∷ os) v zero {n} d h =
    let same : (o == n) ≡ true = (list_beq_iff o n).1 (cc h) in rw same (ap some (omega arith))
numbered-get (o ∷ os) v (suc i) {n} d h =
    let other : (o == n) ≡ false = All-get_elem (λ m. (o == m) ≡ false) os i d.0 h in
    rw other (numbered-get os (v + 1) i d.1 h ∙ ap some {x = v + 1 + i} (omega arith))

get_elem?-lt : (os : List Text) (i : ℕ) {n : Text} → get_elem? os i ≡ some n → i < length os
get_elem?-lt [] i h = absurd (cc h)
get_elem?-lt (o ∷ os) zero h = omega arith
get_elem?-lt (o ∷ os) (suc i) h = omega (arith, get_elem?-lt os i h)

keys_cons :
    (span : Text) (v : ℕ) (tail : Dict Text ℕ) (entry : Entry)
    → fix_keys (keys ((span, v) ∷ tail)) entry ≡ fix_keys (span ∷ keys tail) entry
unfolding keys
keys_cons span v tail entry = refl

renumber_fits :
    (entry : Entry) (lo hi : ℕ) (os : List Text)
    → lo + length os ≤ hi
    → Distinct os
    → renumber (lo ∷ hi ∷ []) os entry
      ≡ ok (record entry { values = numbered (hi + 1 - length os) os })
unfolding renumber
renumber_fits entry lo hi os fits d =
    let room : leb (hi + 1) (lo + length os) ≡ false = ground arith in
    rw room
      (ap (λ v. ok (record entry { values = v })) (enumerate_from_new os (hi + 1 - length os) d))

fix_keys_span :
    (entry : Entry) (span : Text) (os : List Text)
    → is_span span ≡ true
    → os ≢ []
    → fix_keys (span ∷ os) entry ≡ renumber entry.value_range os entry
unfolding fix_keys
fix_keys_span entry span [] s ne = absurd (ne refl)
fix_keys_span entry span (o ∷ os) s ne = rw s

-- Take a setting whose first name is a span, with different names behind it that fit above the low end of the
-- range. The pass keeps its offset, and the name at each place behind the span stands for a value above the low
-- end and within the range, the last name for the high end.
pub fix_entry_tail :
    (entry : Entry) (lo hi : ℕ) (span : Text) (v : ℕ) (tail : Dict Text ℕ)
    → entry.value_range ≡ lo ∷ hi ∷ []
    → entry.values ≡ (span, v) ∷ tail
    → is_span span ≡ true
    → Distinct (keys tail)
    → lo + length (keys tail) ≤ hi
    → (i : ℕ) (n : Text) → get_elem? (keys tail) i ≡ some n
    → (e : Entry) × (fix_entry entry ≡ ok e)
      × (e.offset ≡ entry.offset)
      × (get e.values n ≡ some (hi + 1 - length (keys tail) + i))
      × (lo < hi + 1 - length (keys tail) + i)
      × (hi + 1 - length (keys tail) + i ≤ hi)
unfolding fix_entry
fix_entry_tail entry lo hi span v tail r h s d fits i n k =
    let below_end = get_elem?-lt (keys tail) i k in
    let fixed : fix_keys (keys entry.values) entry
        ≡ ok (record entry { values = numbered (hi + 1 - length (keys tail)) (keys tail) }) =
      ap (λ vs. fix_keys (keys vs) entry) h
      ∙ keys_cons span v tail entry
      ∙ fix_keys_span entry span (keys tail) s (λ e. absurd (omega (arith, ap length e)))
      ∙ ap (λ b. renumber b (keys tail) entry) r
      ∙ renumber_fits entry lo hi (keys tail) fits d in
    (
      record entry { values = numbered (hi + 1 - length (keys tail)) (keys tail) },
      fixed,
      refl,
      numbered-get (keys tail) (hi + 1 - length (keys tail)) i d k,
      omega arith,
      omega arith,
    )
