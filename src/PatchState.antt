-- ===== src/PatchState.antt =====
-- pygt1000/patch_state.py: the one owner of the known device state. The state dict's own key
-- "last_sync_ts" is a field here; every other key is an fx type. The lock makes each method one step.
pub mod Layout
pub mod Apply
pub mod Names
pub mod Ready
use pygt.Base.{
  ℕ, ◌+◌, Text, text, Bool, true, false, ◌||◌, Option, none, some, List, [], ◌∷◌, map, length, ◌==◌,
  nat_eq, list_eq, if◌then◌else◌, Result, ok, err, key_error, or_raise, ◌>>=◌,
}
use pygt.Base.Dict.{Dict, get, put}
use pygt.Values.{Value, str, str_of, str_of_option}
use pygt.AddressMap.{DecodedValue}

pub record SliderValue : Type 0 where
  pub value : Option Value
  pub label : Text
  pub min : ℕ
  pub max : ℕ

pub record FxBlock : Type 0 where
  pub fx_id : Value
  pub state : Option Value
  pub name : Option Value
  pub slider1 : Option SliderValue
  pub slider2 : Option SliderValue

pub record ApplyResult : Type 0 where
  pub matched : Bool
  pub type_changed : Bool

pub record PatchState : Type 0 where
  pub fx_types : List Text
  pub scans : Dict Text (List FxBlock)
  pub last_sync_ts : Dict Text ℕ
  pub fx_names : Dict Text (Option Value)

unfoldable pub init : List Text → PatchState
init fx_types = record { fx_types = fx_types; scans = []; last_sync_ts = []; fx_names = [] }

unfoldable pub is_ready : PatchState → Bool
is_ready s = length s.scans == length s.fx_types

unfoldable pub record_scan : Text → List FxBlock → ℕ → PatchState → PatchState
record_scan fx_type states ts s = record s {
  scans = put s.scans fx_type states;
  last_sync_ts = put s.last_sync_ts fx_type ts;
}

-- The fields that `set_fx` is called with.
pub data Field : Type 0 where
  state name : Field

unfoldable pub set_field : Field → Option Value → FxBlock → FxBlock
set_field Field.state v fx = record fx { state = v }
set_field Field.name v fx = record fx { name = v }

-- The loop over every entry whose id is the same text.
unfoldable pub set_matching : Value → (FxBlock → FxBlock) → List FxBlock → List FxBlock
set_matching fx_id f [] = []
set_matching fx_id f (fx ∷ rest) =
    (if str_of fx.fx_id == str_of fx_id then f fx else fx) ∷ set_matching fx_id f rest

unfoldable pub set_entries : Value → (FxBlock → FxBlock) → List FxBlock → List FxBlock
unfolding set_matching
set_entries fx_id f (fx ∷ []) = f fx ∷ []
set_entries fx_id f entries = set_matching fx_id f entries

unfoldable pub set_fx : Text → Value → Field → Option Value → PatchState → Result PatchState
unfolding set_field set_entries
set_fx fx_type fx_id field value s = or_raise (get s.scans fx_type) key_error >>= λ entries.
    ok
      (record s { scans = put s.scans fx_type (set_entries fx_id (set_field field value) entries) })

unfoldable pub set_fx_name : Value → Option Value → PatchState → PatchState
set_fx_name fx_id effect_name s = record s { fx_names = put s.fx_names (str_of fx_id) effect_name }

unfoldable pub fx_name : Value → PatchState → Result (Option Value)
fx_name fx_id s = or_raise (get s.fx_names (str_of fx_id)) key_error

-- The loop that ends at the first entry of that id.
unfoldable pub set_first : Text → (FxBlock → FxBlock) → List FxBlock → List FxBlock
set_first id f [] = []
set_first id f (fx ∷ rest) = if str_of fx.fx_id == id then f fx ∷ rest else fx ∷ set_first id f rest

unfoldable pub with_sliders : Option SliderValue → Option SliderValue → FxBlock → FxBlock
with_sliders slider1 slider2 fx = record fx { slider1 = slider1; slider2 = slider2 }

unfoldable pub set_sliders :
    Text → Value → Option SliderValue → Option SliderValue → PatchState → Result PatchState
unfolding with_sliders set_first
set_sliders fx_type fx_id slider1 slider2 s =
    or_raise (get s.scans fx_type) key_error >>= λ entries. ok (record s {
      scans = put s.scans fx_type (set_first (str_of fx_id) (with_sliders slider1 slider2) entries);
    })

unfoldable pub has_label : Text → Option SliderValue → Bool
has_label value_name none = false
has_label value_name (some slider) = slider.label == value_name

unfoldable pub with_value : Text → ℕ → Option SliderValue → Option SliderValue
with_value value_name v none = none
with_value value_name v (some slider) =
    if slider.label == value_name
    then some (record slider { value = some (Value.int v) })
    else some slider

unfoldable pub label_value : Option Text → Option Value
label_value none = none
label_value (some t) = some (str t)

-- What `apply` makes of the entry that it found.
unfoldable pub fold_block : DecodedValue → FxBlock → FxBlock × ApplyResult
unfolding has_label with_value label_value
fold_block d fx =
    if d.value_name == text "SW"
    then (
      record fx { state = label_value d.str_value },
      record { matched = true; type_changed = false },
    )
    else if d.value_name == text "TYPE"
    then (
      record fx { name = label_value d.str_value },
      record { matched = true; type_changed = true },
    )
    else (
      record fx {
        slider1 = with_value d.value_name d.int_value fx.slider1;
        slider2 = with_value d.value_name d.int_value fx.slider2;
      },
      record {
        matched = has_label d.value_name fx.slider1 || has_label d.value_name fx.slider2;
        type_changed = false;
      },
    )

-- The first entry of that id.
unfoldable pub find_first : Text → List FxBlock → Option FxBlock
find_first id [] = none
find_first id (fx ∷ rest) = if str_of fx.fx_id == id then some fx else find_first id rest

-- A TYPE change of the fx block also goes to the resolved names.
unfoldable pub names_after : DecodedValue → Text → PatchState → Dict Text (Option Value)
names_after d fx_type s =
    if d.value_name == text "SW"
    then s.fx_names
    else if d.value_name == text "TYPE"
    then (if fx_type == text "fx"
        then put s.fx_names (str_of_option d.fx_id) (label_value d.str_value)
        else s.fx_names)
    else s.fx_names

unfoldable pub apply_found :
    DecodedValue → Text → ℕ → List FxBlock → PatchState → FxBlock → ApplyResult × PatchState
unfolding fold_block set_first names_after
apply_found d fx_type now entries s fx =
    let (fx', result) = fold_block d fx in
    (
      result,
      record s {
        scans = put s.scans fx_type (set_first (str_of_option d.fx_id) (λ _. fx') entries);
        last_sync_ts = if result.matched then put s.last_sync_ts fx_type now else s.last_sync_ts;
        fx_names = names_after d fx_type s;
      },
    )

abbrev pub unmatched : ApplyResult
unmatched = record { matched = false; type_changed = false }

unfoldable pub apply_entries :
    DecodedValue → Text → ℕ → List FxBlock → PatchState → ApplyResult × PatchState
unfolding find_first apply_found
apply_entries d fx_type now entries s = elim (find_first (str_of_option d.fx_id) entries) [
  | none ↦ (unmatched, s)
  | some fx ↦ apply_found d fx_type now entries s fx
]

-- `self._state[decoded.fx_type]`: None is no key.
unfoldable pub entries_of : Option Text → PatchState → Option (Text × List FxBlock)
entries_of none s = none
entries_of (some fx_type) s = elim (get s.scans fx_type) [
  | none ↦ none
  | some es ↦ some (fx_type, es)
]

unfoldable pub apply : DecodedValue → ℕ → PatchState → Result (ApplyResult × PatchState)
unfolding is_ready entries_of apply_entries
apply d now s =
    let folded = or_raise (entries_of d.fx_type s) key_error >>= λ (fx_type, entries).
    ok (apply_entries d fx_type now entries s) in
    if is_ready s then folded else ok (unmatched, s)
