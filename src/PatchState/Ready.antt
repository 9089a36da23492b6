-- ===== src/PatchState/Ready.antt =====
-- pygt1000/patch_state.py, `is_ready`: the count of entries and the scanned types.
use pygt.Base.{
  ℕ, suc, ◌+◌, ◌≡◌, refl, ap, ◌∙◌, Text, Bool, true, false, ◌&&◌, not, List, [], ◌∷◌, length, ◌==◌,
  nat_eq, list_eq, list_beq_iff, if◌then◌else◌, ok, arith, Bool-cases, Option-cases, inl, inr,
}
use pygt.Base.Dict.{Dict, get, has, put, get-put, has-get, map_values}
use pygt.AddressMap.Labels.{is_in}
use pygt.PatchState.{
  PatchState, FxBlock, init, is_ready, record_scan, set_fx, set_sliders, set_fx_name, apply,
  apply_entries, apply_found, entries_of, find_first, ApplyResult,
}
use pygt.AddressMap.{DecodedValue}
use pygt.Values.{str_of_option}
use pygt.PatchState.Layout.{
  Update, local_change, sliders_read, name_resolved, value_received, layout, Update-layout, ids,
}

-- Every one of the types has an entry.
unfoldable pub all_scanned {ℓ} : {V : Type ℓ} → List Text → Dict Text V → Bool
all_scanned [] d = true
all_scanned (t ∷ types) d = has d t && all_scanned types d

unfoldable pub distinct : List Text → Bool
distinct [] = true
distinct (t ∷ types) = not (is_in t types) && distinct types

-- How many of the types have no entry.
pub missing {ℓ} : {V : Type ℓ} → List Text → Dict Text V → ℕ
missing [] d = 0
missing (t ∷ types) d = (if has d t then 0 else 1) + missing types d

pub has-put :
    {V : Type 0} (d : Dict Text V) (t k : Text) (v : V)
    → has (put d t v) k ≡ (if t == k then true else has d k)
has-put d t k v = ground (arith, has-get (put d t v) k, get-put d t k v, has-get d k)

length-put :
    {V : Type 0} (d : Dict Text V) (t : Text) (v : V)
    → length (put d t v) ≡ length d + (if has d t then 0 else 1)
unfolding put has
length-put [] t v = ground arith
length-put ((j, w) ∷ d) t v = ground (arith, length-put d t v)

missing-put_other :
    {V : Type 0} (types : List Text) (d : Dict Text V) (t : Text) (v : V)
    → is_in t types ≡ false
    → missing types (put d t v) ≡ missing types d
unfolding missing is_in
missing-put_other [] d t v h = refl
missing-put_other (u ∷ types) d t v h =
    ground (arith, missing-put_other types d t v, has-put d t u v)

missing-put :
    {V : Type 0} (types : List Text) (d : Dict Text V) (t : Text) (v : V)
    → distinct types ≡ true
    → is_in t types ≡ true
    → missing types (put d t v) + (if has d t then 0 else 1) ≡ missing types d
unfolding missing is_in distinct
missing-put [] d t v dis h = absurd cc
missing-put (u ∷ types) d t v dis h = ground (
  arith,
  missing-put types d t v,
  missing-put_other types d t v,
  has-put d t u v,
  list_beq_iff t u,
)

all_scanned-missing :
    {V : Type 0} (types : List Text) (d : Dict Text V)
    → all_scanned types d ≡ (missing types d == 0)
unfolding all_scanned missing
all_scanned-missing [] d = refl
all_scanned-missing (t ∷ types) d = ground (arith, all_scanned-missing types d)

-- The states that scans of the known types, and whatever happens in between, lead to.
pub data Reaches (types : List Text) : PatchState → Type 0 where
  unscanned : Reaches types (init types)
  scanned :
      {s : PatchState} (t : Text) (blocks : List FxBlock) (ts : ℕ)
      → Reaches types s
      → is_in t types ≡ true
      → Reaches types (record_scan t blocks ts s)
  updated : {s s' : PatchState} → Reaches types s → Update s s' → Reaches types s'

has-map_values :
    {V W : Type 0} (f : V → W) (d : Dict Text V) (k : Text) → has (map_values f d) k ≡ has d k
unfolding map_values has
has-map_values f [] k = refl
has-map_values f ((j, v) ∷ d) k = ground (arith, has-map_values f d k)

length-map_values :
    {V W : Type 0} (f : V → W) (d : Dict Text V) → length (map_values f d) ≡ length d
unfolding map_values
length-map_values f [] = refl
length-map_values f ((k, v) ∷ d) = ap suc (length-map_values f d)

missing-map_values :
    {V W : Type 0} (f : V → W) (types : List Text) (d : Dict Text V)
    → missing types (map_values f d) ≡ missing types d
unfolding missing
missing-map_values f [] d = refl
missing-map_values f (t ∷ types) d =
    ground (arith, missing-map_values f types d, has-map_values f d t)

apply-fx_types :
    (d : DecodedValue) (now : ℕ) (s s' : PatchState) (r : ApplyResult)
    → apply d now s ≡ ok (r, s')
    → s'.fx_types ≡ s.fx_types
unfolding apply apply_entries apply_found
apply-fx_types d now s s' r h = elim (Bool-cases (is_ready s)) [
  | inr e ↦ ground arith
  | inl ready ↦ elim (Option-cases (entries_of d.fx_type s)) [
    | inl e ↦ ground arith
    | inr ((t, es), e) ↦ elim (Option-cases (find_first (str_of_option d.fx_id) es)) [
      | inl e' ↦ ground arith
      | inr (fx, found) ↦ ground arith
    ]
  ]
]

Update-fx_types : {s s' : PatchState} → Update s s' → s'.fx_types ≡ s.fx_types
unfolding set_fx set_sliders set_fx_name
Update-fx_types {s} {s'} (local_change t id field v h) = elim (Option-cases (get s.scans t)) [
  | inl e ↦ absurd (ground arith)
  | inr (es, e) ↦ ground arith
]
Update-fx_types {s} {s'} (sliders_read t id s1 s2 h) = elim (Option-cases (get s.scans t)) [
  | inl e ↦ absurd (ground arith)
  | inr (es, e) ↦ ground arith
]
Update-fx_types (name_resolved id v) = refl
Update-fx_types {s} {s'} (value_received d now r h) = apply-fx_types d now s s' r h

-- As many entries as scanned types.
pub record Balanced (types : List Text) (s : PatchState) : Type 0 where
  pub known : s.fx_types ≡ types
  pub counted : length s.scans + missing types s.scans ≡ length types

Balanced-layout :
    (types : List Text) (s s' : PatchState)
    → layout s' ≡ layout s
    → s'.fx_types ≡ s.fx_types
    → Balanced types s
    → Balanced types s'
Balanced-layout types s s' same fx b = record {
  known = fx ∙ b.known;
  counted =
      let l = ap length same in
      let k = ap (missing types) same in
      omega (
        arith,
        b.counted,
        l,
        k,
        length-map_values ids s.scans,
        length-map_values ids s'.scans,
        missing-map_values ids types s.scans,
        missing-map_values ids types s'.scans,
      );
}

missing-empty : (V : Type 0) (types : List Text) → missing {V = V} types [] ≡ length types
unfolding missing has
missing-empty V [] = refl
missing-empty V (t ∷ types) = omega (arith, missing-empty V types)

pub scan-Balanced :
    (types : List Text) (t : Text) (blocks : List FxBlock) (ts : ℕ) (s : PatchState)
    → distinct types ≡ true
    → is_in t types ≡ true
    → Balanced types s
    → Balanced types (record_scan t blocks ts s)
unfolding record_scan
scan-Balanced types t blocks ts s dis known b = record {
  known = b.known;
  counted =
      ground (
        arith,
        b.counted,
        length-put s.scans t blocks,
        missing-put types s.scans t blocks dis known,
      );
}

pub Reaches-Balanced :
    (types : List Text) {s : PatchState}
    → distinct types ≡ true
    → Reaches types s
    → Balanced types s
Reaches-Balanced types dis unscanned =
    unfold init in
    record { known = refl; counted = omega (arith, missing-empty (List FxBlock) types) }
Reaches-Balanced types dis (scanned {s} t blocks ts r known) =
    scan-Balanced types t blocks ts s dis known (Reaches-Balanced types dis r)
Reaches-Balanced types dis (updated {s} {s'} r u) =
    Balanced-layout types s s' (Update-layout u) (Update-fx_types u) (Reaches-Balanced types dis r)

pub is_ready-Balanced :
    (types : List Text) (s : PatchState) → Balanced types s → is_ready s ≡ all_scanned types s.scans
unfolding is_ready
is_ready-Balanced types s b =
    ground (arith, b.counted, ap length b.known, all_scanned-missing types s.scans)

-- From the empty state, through scans of known types and any updates: the state counts as ready exactly when every type
-- has been scanned, for types that are distinct.
is_ready-all_scanned :
    (types : List Text) {s : PatchState}
    → distinct types ≡ true
    → Reaches types s
    → is_ready s ≡ all_scanned types s.scans
is_ready-all_scanned types {s} dis r = is_ready-Balanced types s (Reaches-Balanced types dis r)
