-- ===== src/PatchState/Layout.antt =====
-- pygt1000/patch_state.py: the ids of the known blocks between two scans.
use pygt.Base.{
  ℕ, ◌≡◌, refl, ap, ◌∙◌, Text, Option, none, some, List, [], ◌∷◌, map, ok, arith, inl, inr,
  Option-cases, list_eq,
}
use pygt.Base.Dict.{Dict, get, put, map_values, map_values-put_same}
use pygt.Values.{Value, str_of, str_of_option}
use pygt.AddressMap.{DecodedValue}
use pygt.PatchState.{
  PatchState, FxBlock, SliderValue, ApplyResult, Field, set_field, set_matching, set_entries,
  set_fx, set_first, with_sliders, set_sliders, fold_block, find_first, apply_found, apply_entries,
  entries_of, apply, set_fx_name,
}

abbrev pub ids : List FxBlock → List Value
ids = map (λ fx. fx.fx_id)

-- The ids of the known blocks, by fx type, in order.
abbrev pub layout : PatchState → Dict Text (List Value)
layout s = map_values ids s.scans

ids-set_matching :
    (id : Value) (f : FxBlock → FxBlock) (es : List FxBlock)
    → ((fx : FxBlock) → (f fx).fx_id ≡ fx.fx_id)
    → ids (set_matching id f es) ≡ ids es
unfolding set_matching
ids-set_matching id f [] keeps = refl
ids-set_matching id f (fx ∷ es) keeps = ground (arith, keeps fx, ids-set_matching id f es keeps)

ids-set_entries :
    (id : Value) (f : FxBlock → FxBlock) (es : List FxBlock)
    → ((fx : FxBlock) → (f fx).fx_id ≡ fx.fx_id)
    → ids (set_entries id f es) ≡ ids es
unfolding set_entries
ids-set_entries id f [] keeps = refl
ids-set_entries id f (fx ∷ []) keeps = ground (arith, keeps fx)
ids-set_entries id f (fx ∷ fx' ∷ es) keeps = ids-set_matching id f (fx ∷ fx' ∷ es) keeps

ids-set_first :
    (id : Text) (f : FxBlock → FxBlock) (es : List FxBlock) (fx : FxBlock)
    → find_first id es ≡ some fx
    → (f fx).fx_id ≡ fx.fx_id
    → ids (set_first id f es) ≡ ids es
unfolding set_first find_first
ids-set_first id f [] fx found keeps = refl
ids-set_first id f (fx' ∷ es) fx found keeps = ground (arith, ids-set_first id f es fx)

pub fold_block-fx_id : (d : DecodedValue) (fx : FxBlock) → (fold_block d fx).0.fx_id ≡ fx.fx_id
unfolding fold_block
fold_block-fx_id d fx = ground arith

set_first-none :
    (id : Text) (f : FxBlock → FxBlock) (es : List FxBlock)
    → find_first id es ≡ none
    → set_first id f es ≡ es
unfolding set_first find_first
set_first-none id f [] h = refl
set_first-none id f (fx ∷ es) h = ground (arith, set_first-none id f es)

ids-set_sliders :
    (id : Text) (s1 s2 : Option SliderValue) (es : List FxBlock)
    → ids (set_first id (with_sliders s1 s2) es) ≡ ids es
unfolding with_sliders
ids-set_sliders id s1 s2 es = elim (Option-cases (find_first id es)) [
  | inl e ↦ ap ids (set_first-none id (with_sliders s1 s2) es e)
  | inr (fx, e) ↦ ids-set_first id (with_sliders s1 s2) es fx e refl
]

ids-set_field :
    (field : Field) (v : Option Value) (fx : FxBlock) → (set_field field v fx).fx_id ≡ fx.fx_id
unfolding set_field
ids-set_field Field.state v fx = refl
ids-set_field Field.name v fx = refl

-- What an update of one type's entries does to the layout, if it keeps their ids.
layout-put :
    (s : PatchState) (t : Text) (es es' : List FxBlock)
    → get s.scans t ≡ some es
    → ids es' ≡ ids es
    → map_values ids (put s.scans t es') ≡ layout s
layout-put s t es es' found same = map_values-put_same ids s.scans t es es' found same

set_fx-layout :
    (t : Text) (id : Value) (field : Field) (v : Option Value) (s s' : PatchState)
    → set_fx t id field v s ≡ ok s'
    → layout s' ≡ layout s
unfolding set_fx
set_fx-layout t id field v s s' h = elim (Option-cases (get s.scans t)) [
  | inl e ↦ ground arith
  | inr (es, e) ↦ ground (
    arith,
    layout-put s t es (set_entries id (set_field field v) es) e
        (ids-set_entries id (set_field field v) es (ids-set_field field v)),
  )
]

set_sliders-layout :
    (t : Text) (id : Value) (s1 s2 : Option SliderValue) (s s' : PatchState)
    → set_sliders t id s1 s2 s ≡ ok s'
    → layout s' ≡ layout s
unfolding set_sliders
set_sliders-layout t id s1 s2 s s' h = elim (Option-cases (get s.scans t)) [
  | inl e ↦ ground arith
  | inr (es, e) ↦ ground (
    arith,
    layout-put s t es (set_first (str_of id) (with_sliders s1 s2) es) e
        (ids-set_sliders (str_of id) s1 s2 es),
  )
]

apply_entries-layout :
    (d : DecodedValue) (t : Text) (now : ℕ) (es : List FxBlock) (s : PatchState)
    → get s.scans t ≡ some es
    → layout (apply_entries d t now es s).1 ≡ layout s
unfolding apply_entries apply_found
apply_entries-layout d t now es s found =
    elim (Option-cases (find_first (str_of_option d.fx_id) es)) [
      | inl e ↦ rw (e, apply_entries)
      | inr (fx, e) ↦
          rw (e, apply_entries)
            (layout-put s t es (set_first (str_of_option d.fx_id) (λ _. (fold_block d fx).0) es)
              found
              (ids-set_first (str_of_option d.fx_id) (λ _. (fold_block d fx).0) es fx e
                (fold_block-fx_id d fx)))
    ]

pub entries_of-get :
    (o : Option Text) (s : PatchState) (t : Text) (es : List FxBlock)
    → entries_of o s ≡ some (t, es)
    → (o ≡ some t) × (get s.scans t ≡ some es)
unfolding entries_of
entries_of-get none s t es h = cc
entries_of-get (some u) s t es h = ground arith

apply-layout :
    (d : DecodedValue) (now : ℕ) (s s' : PatchState) (r : ApplyResult)
    → apply d now s ≡ ok (r, s')
    → layout s' ≡ layout s
unfolding apply
apply-layout d now s s' r h = elim (Option-cases (entries_of d.fx_type s)) [
  | inl e ↦ ground arith
  | inr ((t, es), e) ↦
      ground (arith, apply_entries-layout d t now es s (entries_of-get d.fx_type s t es e).1)
]

-- What changes the state once the blocks are scanned: a local change, a slider re-read, a resolved effect
-- name, and an inbound value.
pub data Update : PatchState → PatchState → Type 0 where
  local_change :
      {s s' : PatchState} (t : Text) (id : Value) (field : Field) (v : Option Value)
      → set_fx t id field v s ≡ ok s'
      → Update s s'
  sliders_read :
      {s s' : PatchState} (t : Text) (id : Value) (s1 s2 : Option SliderValue)
      → set_sliders t id s1 s2 s ≡ ok s'
      → Update s s'
  name_resolved : {s : PatchState} (id : Value) (v : Option Value) → Update s (set_fx_name id v s)
  value_received :
      {s s' : PatchState} (d : DecodedValue) (now : ℕ) (r : ApplyResult)
      → apply d now s ≡ ok (r, s')
      → Update s s'

pub data Updates (s : PatchState) : PatchState → Type 0 where
  here : Updates s s
  next : {t u : PatchState} → Updates s t → Update t u → Updates s u

pub Update-layout : {s s' : PatchState} → Update s s' → layout s' ≡ layout s
unfolding set_fx_name
Update-layout {s} {s'} (local_change t id field v h) = set_fx-layout t id field v s s' h
Update-layout {s} {s'} (sliders_read t id s1 s2 h) = set_sliders-layout t id s1 s2 s s' h
Update-layout (name_resolved id v) = refl
Update-layout {s} {s'} (value_received d now r h) = apply-layout d now s s' r h

-- Whatever changes between two scans, the known blocks are the ones that the scan found: their ids are the
-- same, in every fx type and in the same order.
pub Updates-layout : {s s' : PatchState} → Updates s s' → layout s' ≡ layout s
Updates-layout here = refl
Updates-layout (next us u) = Update-layout u ∙ Updates-layout us
