-- ===== src/Scripts/Converters/Names.antt =====
-- scripts/spec-to-json.py: which name a table has in the spec files, described without the replacements of the code.
use pygt.Base.{
  ℕ, ◌≡◌, sym, ap, ◌∙◌, Text, text, none, some, [], ◌∷◌, ◌++◌, All, All-get_elem, get_elem?,
  strip_prefix,
}
use pygt.Scripts.Converters.{shared_table, each_instance}
use pygt.Scripts.Converters.Effects.{
  effects, digits, letters, BeginsWithNone, effects-Keeps, preamp-Keeps, effects-IsOwn, drop_digit,
  drop_letter, no_letter, preamp_apart, digits-IsClear, letters-IsClear,
}
use pygt.Scripts.Converters.Shared.{
  IsClear, Keeps, each_steps, each_steps-IsClear, each_instance-steps, each_steps-none, IsOwn,
  each_instance-IsClear,
}

-- The name of the table of one block, and the name of the table that the blocks of its type share.
pub data IsShared (table shared : Text) : Type 0 where
  of_number :
      (k n : ℕ) (effect i suffix : Text)
      → get_elem? effects k ≡ some effect
      → get_elem? digits n ≡ some i
      → IsClear suffix
      → BeginsWithNone digits suffix
      → table ≡ text "Patch" ++ (effect ++ (i ++ suffix))
      → shared ≡ text "Patch" ++ (effect ++ suffix)
      → IsShared table shared
  of_letter :
      (n : ℕ) (i suffix : Text)
      → get_elem? letters n ≡ some i
      → IsClear suffix
      → BeginsWithNone letters suffix
      → table ≡ text "PatchPreamp" ++ (i ++ suffix)
      → shared ≡ text "PatchPreamp" ++ suffix
      → IsShared table shared
  of_none :
      (z : Text)
      → IsClear z
      → All (λ i. All (λ effect. strip_prefix (effect ++ i) z ≡ none) effects) digits
      → All (λ i. strip_prefix (text "Preamp" ++ i) z ≡ none) letters
      → table ≡ text "Patch" ++ z
      → shared ≡ table
      → IsShared table shared
  of_other : IsClear table → shared ≡ table → IsShared table shared

abbrev renamed : Text → Text
renamed z = each_steps letters (text "Preamp" ∷ []) (each_steps digits effects z)

shared_table-renamed :
    (z : Text) → IsClear z → shared_table (text "Patch" ++ z) ≡ text "Patch" ++ renamed z
unfolding shared_table
shared_table-renamed z h =
    ap (each_instance letters (text "Preamp" ∷ []))
      (each_instance-steps digits effects z effects-Keeps h)
    ∙ each_instance-steps letters (text "Preamp" ∷ []) (each_steps digits effects z) preamp-Keeps
        (each_steps-IsClear digits effects z effects-Keeps h)

shared_table-number :
    (k n : ℕ) (effect i suffix : Text)
    → get_elem? effects k ≡ some effect
    → get_elem? digits n ≡ some i
    → IsClear suffix
    → BeginsWithNone digits suffix
    → shared_table (text "Patch" ++ (effect ++ (i ++ suffix))) ≡ text "Patch" ++ (effect ++ suffix)
shared_table-number k n effect i suffix at at' clear apart =
    let own = All-get_elem (IsOwn effects) effects k effects-IsOwn at in
    let keeps = All-get_elem Keeps effects k effects-Keeps at in
    let dropped =
      All-get_elem (λ j. each_steps digits effects (effect ++ (j ++ suffix)) ≡ effect ++ suffix)
        digits n (drop_digit effect suffix own apart) at' in
    let kept =
      All-get_elem (λ e. each_steps letters (text "Preamp" ∷ []) (e ++ suffix) ≡ e ++ suffix)
        effects k (no_letter suffix) at in
    let clear' =
      keeps (i ++ suffix)
        (All-get_elem (λ j. IsClear (j ++ suffix)) digits n (digits-IsClear suffix clear) at') in
    shared_table-renamed (effect ++ (i ++ suffix)) clear'
    ∙ ap (λ z. text "Patch" ++ each_steps letters (text "Preamp" ∷ []) z) dropped
    ∙ ap (λ z. text "Patch" ++ z) kept

shared_table-letter :
    (n : ℕ) (i suffix : Text)
    → get_elem? letters n ≡ some i
    → IsClear suffix
    → BeginsWithNone letters suffix
    → shared_table (text "PatchPreamp" ++ (i ++ suffix)) ≡ text "PatchPreamp" ++ suffix
shared_table-letter n i suffix at clear apart =
    let clear' =
      preamp-Keeps.0 (i ++ suffix)
        (All-get_elem (λ j. IsClear (j ++ suffix)) letters n (letters-IsClear suffix clear) at) in
    shared_table-renamed (text "Preamp" ++ (i ++ suffix)) clear'
    ∙ ap (λ z. text "Patch" ++ each_steps letters (text "Preamp" ∷ []) z)
        (each_steps-none digits effects (text "Preamp" ++ (i ++ suffix))
          (preamp_apart (i ++ suffix) digits))
    ∙ ap (λ z. text "Patch" ++ z)
        (All-get_elem
          (λ j.
            each_steps letters (text "Preamp" ∷ []) (text "Preamp" ++ (j ++ suffix))
            ≡ text "Preamp" ++ suffix)
          letters n (drop_letter suffix apart) at)

shared_table-none :
    (z : Text)
    → IsClear z
    → All (λ i. All (λ effect. strip_prefix (effect ++ i) z ≡ none) effects) digits
    → All (λ i. strip_prefix (text "Preamp" ++ i) z ≡ none) letters
    → shared_table (text "Patch" ++ z) ≡ text "Patch" ++ z
shared_table-none z clear h k =
    shared_table-renamed z clear
    ∙ ap (λ y. text "Patch" ++ each_steps letters (text "Preamp" ∷ []) y)
        (each_steps-none digits effects z h)
    ∙ ap (λ y. text "Patch" ++ y)
        (each_steps-none letters (text "Preamp" ∷ []) z ((k.0, tt), ((k.1.0, tt), tt)))

shared_table-other : (t : Text) → IsClear t → shared_table t ≡ t
unfolding shared_table
shared_table-other t clear =
    ap (each_instance letters (text "Preamp" ∷ [])) (each_instance-IsClear digits effects t clear)
    ∙ each_instance-IsClear letters (text "Preamp" ∷ []) t clear

-- The converter's replacements give the name that is described.
pub shared_table-IsShared : {t s : Text} → IsShared t s → shared_table t ≡ s
shared_table-IsShared (of_number k n effect i suffix at at' clear apart e e') =
    ap shared_table e ∙ shared_table-number k n effect i suffix at at' clear apart ∙ sym e'
shared_table-IsShared (of_letter n i suffix at clear apart e e') =
    ap shared_table e ∙ shared_table-letter n i suffix at clear apart ∙ sym e'
shared_table-IsShared (of_none z clear h k e e') =
    ap shared_table e ∙ shared_table-none z clear h k ∙ sym e ∙ sym e'
shared_table-IsShared {t} (of_other clear e) = shared_table-other t clear ∙ sym e
