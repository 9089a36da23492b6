-- ===== src/Scripts/Options/Tails.antt =====
-- scripts/options-to-json.py, fix_span_tails: the names behind a span.
use pygt.Base.{
  ℕ, ◌+◌, ◌-◌, Text, Bool, false, ◌&&◌, ◌||◌, Option, none, some, List, [], ◌∷◌, length,
  strip_prefix, leb, nat_beq, nat_eq, list_eq, if◌then◌else◌, Result, ok, err, value_error, ◌>>=◌,
}
use pygt.Base.Dict.{Dict, put}
use pygt.Base.Strings.{is_empty, is_space, lstrip}
use pygt.Scripts.Options.Ranges.{Entry}

-- `re.match(r"^[\d.]+\s*[a-zA-Z]*\s*-\s*[\d.]+\s*[a-zA-Z]+$", key)`: each part takes all it can, as the part
-- behind it begins with other characters. The digits are those of ASCII.
unfoldable pub digit_or_dot : ℕ → Bool
digit_or_dot c = leb 48 c && leb c 57 || nat_beq c b'.'

unfoldable pub letter : ℕ → Bool
letter c = leb 65 c && leb c 90 || leb 97 c && leb c 122

-- One or more of the characters: what is left, if there is one.
unfoldable pub some_of : (ℕ → Bool) → Text → Option Text
some_of test [] = none
some_of test (c ∷ cs) = if test c then some (lstrip test cs) else none

-- The next part of the pattern, if the parts before it matched.
abbrev and_then : Option Text → (Text → Option Text) → Option Text
and_then none f = none
and_then (some s) f = f s

unfoldable pub is_span : Text → Bool
unfolding digit_or_dot letter some_of
is_span key =
    let dash =
      and_then (some_of digit_or_dot key)
        (λ s. strip_prefix (b'-' ∷ []) (lstrip is_space (lstrip letter (lstrip is_space s)))) in
    let number = and_then dash (λ s. some_of digit_or_dot (lstrip is_space s)) in
    let unit = and_then number (λ s. some_of letter (lstrip is_space s)) in
    elim unit [ none ↦ false | some rest ↦ is_empty rest ]

-- `{n: start + i for i, n in enumerate(names)}`
unfoldable pub enumerate_from : ℕ → List Text → Dict Text ℕ → Dict Text ℕ
enumerate_from start [] d = d
enumerate_from start (n ∷ names) d = enumerate_from (start + 1) names (put d n start)

unfoldable pub keys {ℓ κ} : {K : Type ℓ} {V : Type κ} → Dict K V → List K
keys [] = []
keys ((k, v) ∷ d) = k ∷ keys d

-- `lo, hi = value_range`, and the names moved to the end of the range if they fit above its first value. `start`
-- is `hi + 1 - len(tail)`, which is compared to `lo` before it is used, as it may be negative.
unfoldable pub renumber : List ℕ → List Text → Entry → Result Entry
unfolding enumerate_from
renumber (lo ∷ hi ∷ []) tail entry =
    if leb (hi + 1) (lo + length tail)
    then ok entry
    else ok (record entry { values = enumerate_from (hi + 1 - length tail) tail [] })
renumber _ tail entry = err value_error

unfoldable pub fix_keys : List Text → Entry → Result Entry
unfolding is_span renumber
fix_keys [] entry = ok entry
fix_keys (first ∷ []) entry = ok (if is_span first then record entry { values = [] } else entry)
fix_keys (first ∷ second ∷ rest) entry =
    if is_span first then renumber entry.value_range (second ∷ rest) entry else ok entry

unfoldable pub fix_entry : Entry → Result Entry
unfolding fix_keys keys
fix_entry entry = fix_keys (keys entry.values) entry

unfoldable pub fix_span_tails : Dict Text Entry → Result (Dict Text Entry)
unfolding fix_entry
fix_span_tails [] = ok []
fix_span_tails ((name, entry) ∷ result) =
    fix_entry entry >>= λ entry'. fix_span_tails result >>= λ result'. ok ((name, entry') ∷ result')
