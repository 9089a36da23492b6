-- ===== src/Device/Snapshot.antt =====
-- pygt1000/block_snapshot.py: which two params are a block's sliders, and the presented state of a whole block.
use pygt.Base.{
  ℕ, zero, suc, ◌+◌, Text, text, Bool, true, false, ◌||◌, Option, none, some, List, [], ◌∷◌, ◌++◌,
  ◌==◌, list_eq, if◌then◌else◌, Result, ok, err, type_error, ◌>>=◌, Act, pure, lift, ◌>>>◌,
}
use pygt.Base.Dict.{Dict, get}
use pygt.Values.{Value, int, str, str_of, value_eq}
use pygt.AddressMap.Blocks.{start_section, fx_start_section, fx_block_count, normalize_block}
use pygt.AddressMap.Encode.{value_range, is_empty}
use pygt.PatchState.{SliderValue, FxBlock}
use pygt.Device.{Device}
use pygt.Device.Reader.{read, read_value, suffix_for}

abbrev pub non_fx_slider_params : Dict Text (Option Text × Option Text)
non_fx_slider_params =
    (text "comp", (some (text "SUSTAIN"), some (text "LEVEL")))
    ∷ (text "dist", (some (text "DRIVE"), some (text "LEVEL")))
    ∷ (text "preamp", (some (text "GAIN"), some (text "LEVEL")))
    ∷ (text "ns", (some (text "THRESHOLD"), some (text "RELEASE")))
    ∷ (text "delay", (some (text "EFFECT LEVEL"), some (text "DIRECT LEVEL")))
    ∷ (text "mstDelay", (some (text "EFFECT LEVEL"), some (text "DIRECT LEVEL")))
    ∷ (text "chorus", (some (text "EFFECT LEVEL"), some (text "DIRECT LEVEL")))
    ∷ (text "reverb", (some (text "EFFECT LEVEL"), some (text "DIRECT LEVEL")))
    ∷ (text "pedalFx", (some (text "EFFECT LEVEL"), some (text "DIRECT MIX")))
    ∷ []

abbrev pub fx_name_slider_params : Dict Text (Option Text × Option Text)
fx_name_slider_params =
    (text "AC GUITAR SIM", (some (text "LEVEL"), none))
    ∷ (text "AC RESONANCE", (some (text "LEVEL"), none))
    ∷ (text "AUTO WAH", (some (text "EFFECT LEVEL"), some (text "DIRECT MIX")))
    ∷ (text "CHORUS", (some (text "EFFECT LEVEL"), some (text "DIRECT LEVEL")))
    ∷ (text "CHORUS BASS", (some (text "EFFECT LEVEL"), some (text "DEPTH")))
    ∷ (text "CLASSIC-VIBE", (some (text "EFFECT LEVEL"), some (text "DEPTH")))
    ∷ (text "COMPRESSOR", (some (text "LEVEL"), some (text "DIRECT MIX")))
    ∷ (text "DEFRETTER", (some (text "EFFECT LEVEL"), some (text "DEPTH")))
    ∷ (text "DEFRETTER BASS", (some (text "EFFECT LEVEL"), some (text "DIRECT MIX")))
    ∷ (text "DISTORTION", (some (text "DRIVE"), some (text "LEVEL")))
    ∷ (text "FEEDBACKER", (some (text "FEEDBACK"), some (text "OCT FEEDBACK")))
    ∷ (text "FLANGER", (some (text "EFFECT LEVEL"), some (text "DIRECT MIX")))
    ∷ (text "FLANGER BASS", (some (text "EFFECT LEVEL"), some (text "DIRECT MIX")))
    ∷ (text "HARMONIST", (some (text "HR1:LEVEL"), some (text "DIRECT LEVEL")))
    ∷ (text "HUMANIZER", (some (text "LEVEL"), some (text "DEPTH")))
    ∷ (text "MASTERING FX", (some (text "TONE"), some (text "NATURAL")))
    ∷ (text "OCTAVE", (some (text "OCTAVE LEVEL"), some (text "DIRECT LEVEL")))
    ∷ (text "OCTAVE BASS", (none, none))
    ∷ (text "OVERTONE", (some (text "UPPER LEVEL"), some (text "DIRECT LEVEL")))
    ∷ (text "PAN", (some (text "EFFECT LEVEL"), some (text "DIRECT MIX")))
    ∷ (text "PHASER", (some (text "EFFECT LEVEL"), some (text "DIRECT MIX")))
    ∷ (text "PITCH SHIFTER", (some (text "PS1:LEVEL"), some (text "DIRECT LEVEL")))
    ∷ (text "RING MOD", (some (text "EFFECT LEVEL"), some (text "DIRECT MIX")))
    ∷ (text "ROTARY", (some (text "EFFECT LEVEL"), some (text "DIRECT MIX")))
    ∷ (text "S-BEND", (some (text "FALL TIME"), some (text "RISE TIME")))
    ∷ (text "SITAR SIM", (some (text "EFFECT LEVEL"), some (text "DIRECT MIX")))
    ∷ (text "SLICER", (some (text "EFFECT LEVEL"), some (text "DIRECT MIX")))
    ∷ (text "SLOW GEAR", (some (text "LEVEL"), some (text "SENS")))
    ∷ (text "SLOW GEAR BASS", (some (text "LEVEL"), some (text "SENS")))
    ∷ (text "SOUND HOLD", (some (text "EFFECT LEVEL"), some (text "RISE TIME")))
    ∷ (text "TOUCH WAH", (some (text "EFFECT LEVEL"), some (text "DIRECT MIX")))
    ∷ (text "TOUCH WAH BASS", (none, none))
    ∷ (text "TREMOLO", (some (text "EFFECT LEVEL"), some (text "DIRECT MIX")))
    ∷ (text "VIBRATO", (some (text "EFFECT LEVEL"), some (text "DIRECT MIX")))
    ∷ []

-- `_value_range`
unfoldable pub range_of {ℓ} : {D : Type ℓ} → Device D → Text → Value → Text → Act D (Option (ℕ × ℕ))
range_of dev fx_type fx_id option =
    if fx_type == text "fx"
    then (dev.fx_name_for fx_id >>> λ fx_name. lift (
        suffix_for fx_name >>= λ suffix.
        value_range dev.address_map (fx_start_section fx_id suffix)
          (fx_type ++ (str_of fx_id ++ suffix)) option))
    else lift (
        value_range dev.address_map (start_section fx_type (str (str_of fx_id)))
          (fx_type ++ str_of fx_id) option)

-- The slider of a param, from its range and its value. A range that is None cannot be indexed.
unfoldable pub slider_of : Text → Text → Option (ℕ × ℕ) → Option Value → Result (Option SliderValue)
slider_of fx_type option none none = if fx_type == text "fx" then ok none else err type_error
slider_of fx_type option none (some value) = err type_error
slider_of fx_type option (some (lo, hi)) none =
    if fx_type == text "fx"
    then ok none
    else ok (some (record { value = none; label = option; min = lo; max = hi }))
slider_of fx_type option (some (lo, hi)) (some value) =
    ok (some (record { value = some value; label = option; min = lo; max = hi }))

-- `_resolve`
unfoldable pub resolve {ℓ} :
    {D : Type ℓ} → Device D → Text → Value → Option Text → Act D (Option SliderValue)
unfolding range_of slider_of
resolve dev fx_type fx_id none = pure none
resolve dev fx_type fx_id (some option) = range_of dev fx_type fx_id option >>> λ range.
    read_value dev fx_type fx_id option >>> λ value. lift (slider_of fx_type option range value)

-- A name that is None or an int is no key of the table.
unfoldable pub fx_params : Option Value → Option Text × Option Text
fx_params (some (str name)) = elim (get fx_name_slider_params name) [
  | some params ↦ params
  | none ↦ (none, none)
]
fx_params (some (int n)) = (none, none)
fx_params none = (none, none)

unfoldable pub non_fx_params : Text → Option Text × Option Text
non_fx_params fx_type = elim (get non_fx_slider_params fx_type) [
  | some params ↦ params
  | none ↦ (none, none)
]

unfoldable pub eq_param : Option Value → Text
eq_param none = text "LEVEL"
eq_param (some (int n)) = text "LEVEL"
eq_param (some (str name)) = if name == text "PARAMETRIC" then text "LEVEL1" else text "LEVEL"

unfoldable pub resolve_both {ℓ} :
    {D : Type ℓ}
    → Device D
    → Text
    → Value
    → Option Text × Option Text
    → Act D (Option SliderValue × Option SliderValue)
unfolding resolve
resolve_both dev fx_type fx_id (param1, param2) = resolve dev fx_type fx_id param1 >>> λ slider1.
    resolve dev fx_type fx_id param2 >>> λ slider2. pure (slider1, slider2)

unfoldable pub sliders_for {ℓ} :
    {D : Type ℓ}
    → Device D
    → Text
    → Value
    → Option Value
    → Act D (Option SliderValue × Option SliderValue)
unfolding resolve_both fx_params non_fx_params eq_param
sliders_for dev fx_type fx_id param_name =
    if fx_type == text "eq"
    then resolve_both dev fx_type fx_id (some (eq_param param_name), none)
    else if fx_type == text "fx"
    then (dev.fx_name_for fx_id >>> λ fx_name. resolve_both dev fx_type fx_id (fx_params fx_name))
    else resolve_both dev fx_type fx_id (non_fx_params fx_type)

-- The name of a block: made up for the types with no TYPE.
unfoldable pub block_name {ℓ} : {D : Type ℓ} → Device D → Text → Value → Act D (Option Value)
block_name dev fx_type fx_id =
    if fx_type == text "ns" || fx_type == text "delay"
    then pure (some (str (fx_type ++ str_of fx_id)))
    else read dev fx_type fx_id (text "TYPE") false

-- The resolved name of an fx block is recorded through its owner.
unfoldable pub record_name {ℓ} :
    {D : Type ℓ} → Device D → Text → Value → Option Value → Act {ℓ, 0} D Unit
record_name dev fx_type fx_id name d =
    (ok tt, if fx_type == text "fx" then dev.set_fx_name fx_id name d else d)

unfoldable pub snapshot {ℓ} : {D : Type ℓ} → Device D → Text → Value → Bool → Act D FxBlock
unfolding block_name sliders_for record_name
snapshot dev fx_type fx_id get_sliders = read dev fx_type fx_id (text "SW") false >>> λ state.
    block_name dev fx_type fx_id >>> λ name. record_name dev fx_type fx_id name >>> λ _.
    (if get_sliders then sliders_for dev fx_type fx_id name else pure (none, none))
    >>> λ (slider1, slider2).
        pure (record {
          fx_id = fx_id;
          state = state;
          name = name;
          slider1 = slider1;
          slider2 = slider2;
        })

-- The loop of `snapshot_all` over `count` blocks from number `i`.
unfoldable pub snapshots {ℓ} : {D : Type ℓ} → Device D → ℕ → ℕ → Text → Act D (List FxBlock)
unfolding snapshot
snapshots dev zero i fx_type = pure []
snapshots dev (suc count) i fx_type =
    lift (normalize_block dev.address_map fx_type (int i)) >>> λ (fx_type', fx_id).
    snapshot dev fx_type' fx_id true >>> λ block.
    snapshots dev count (i + 1) fx_type' >>> λ blocks. pure (block ∷ blocks)

unfoldable pub snapshot_all {ℓ} : {D : Type ℓ} → Device D → Text → Act D (List FxBlock)
unfolding snapshots
snapshot_all dev fx_type =
    lift (fx_block_count dev.address_map fx_type) >>> λ count. snapshots dev count 1 fx_type

-- `not fx_id`
unfoldable pub is_falsy : Value → Bool
unfolding is_empty
is_falsy (int zero) = true
is_falsy (int (suc n)) = false
is_falsy (str t) = is_empty t

-- The loop of `snapshot_one`.
unfoldable pub snapshot_match {ℓ} :
    {D : Type ℓ} → Device D → ℕ → ℕ → Text → Value → Bool → Act D (Option FxBlock)
unfolding snapshot is_falsy
snapshot_match dev zero i fx_type fx_id get_sliders = pure none
snapshot_match dev (suc count) i fx_type fx_id get_sliders =
    lift (normalize_block dev.address_map fx_type (int i)) >>> λ (fx_type', id).
    (if is_falsy fx_id || fx_id == id
      then (snapshot dev fx_type' id get_sliders >>> λ block. pure (some block))
      else snapshot_match dev count (i + 1) fx_type' fx_id get_sliders)

unfoldable pub snapshot_one {ℓ} :
    {D : Type ℓ} → Device D → Text → Value → Bool → Act D (Option FxBlock)
unfolding snapshot_match
snapshot_one dev fx_type fx_id get_sliders =
    lift (fx_block_count dev.address_map fx_type) >>> λ count.
    snapshot_match dev count 1 fx_type fx_id get_sliders
