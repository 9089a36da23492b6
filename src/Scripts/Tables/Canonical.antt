-- ===== src/Scripts/Tables/Canonical.antt =====
-- scripts/pdf-to-tables.py, canonical_name: the name that the tables of a section share. The loops that shorten a
-- text run on fuel of its length.
use pygt.Base.{
  ℕ, zero, suc, ◌+◌, Text, Bool, true, false, List, [], ◌∷◌, ◌++◌, length, starts_with, ltb, nat_eq,
  list_eq, if◌then◌else◌,
}
use mathlib.Core.List.{reverse}

-- `while not n.startswith(prefix): prefix = prefix[:-1]`, on fuel of the length of `prefix`, which is empty at the
-- latest when it is used up.
unfoldable pub drop_last : Text → Text
drop_last [] = []
drop_last (c ∷ []) = []
drop_last (c ∷ d ∷ cs) = c ∷ drop_last (d ∷ cs)

unfoldable pub shorten_prefix : ℕ → Text → Text → Text
unfolding drop_last
shorten_prefix zero n prefix = prefix
shorten_prefix (suc f) n prefix = elim (starts_with n prefix) [
  | true ↦ prefix
  | false ↦ shorten_prefix f n (drop_last prefix)
]

-- `n.endswith(suffix)`
unfoldable pub ends_with : Text → Text → Bool
ends_with n suffix = starts_with (reverse n) (reverse suffix)

unfoldable pub drop_first : Text → Text
drop_first [] = []
drop_first (c ∷ cs) = cs

unfoldable pub shorten_suffix : ℕ → Text → Text → Text
unfolding ends_with drop_first
shorten_suffix zero n suffix = suffix
shorten_suffix (suc f) n suffix = elim (ends_with n suffix) [
  | true ↦ suffix
  | false ↦ shorten_suffix f n (drop_first suffix)
]

unfoldable pub common_prefix : Text → List Text → Text
unfolding shorten_prefix
common_prefix prefix [] = prefix
common_prefix prefix (n ∷ names) = common_prefix (shorten_prefix (length prefix) n prefix) names

unfoldable pub common_suffix : Text → List Text → Text
unfolding shorten_suffix
common_suffix suffix [] = suffix
common_suffix suffix (n ∷ names) = common_suffix (shorten_suffix (length suffix) n suffix) names

-- `min(len(n) for n in names)` of a first name and the others.
unfoldable pub least_length : ℕ → List Text → ℕ
least_length least [] = least
least_length least (n ∷ names) =
    least_length (if ltb (length n) least then length n else least) names

-- Of no name at all, `names[0]` raises; the section pattern gives one name at least.
unfoldable pub canonical_name : Text → List Text → Text
unfolding common_prefix common_suffix least_length
canonical_name first [] = first
canonical_name first (second ∷ rest) =
    let others = second ∷ rest in
    let prefix = common_prefix first others in
    let suffix = common_suffix first others in
    if ltb (least_length (length first) others) (length prefix + length suffix)
    then prefix
    else prefix ++ suffix
