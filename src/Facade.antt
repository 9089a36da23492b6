-- ===== src/Facade.antt =====
-- pygt1000/gt1000.py: the class GT1000, which wires the parts together. The state is that of its parts; the frames that arrive
-- while it waits for each reply, and the clock, come with it.
pub mod Inbound
pub mod Outbound
pub mod Refresh
pub mod Delegates
pub mod Callbacks
pub mod Received
pub mod Turned
use pygt.Base.{
  ℕ, Text, text, Bool, true, false, Option, none, some, List, [], ◌∷◌, ◌++◌, ◌==◌, list_eq,
  if◌then◌else◌, Result, ok, err, key_error, type_error, attribute_error, value_error, or_raise,
  ◌>>=◌, update, Act, pure, lift, ◌>>>◌,
}
use pygt.Base.Dict.{get}
use pygt.Constants.{program_change_offset, patch_names_begin_offset, patch_names_len}
use pygt.Codec.{IdentityReply, encode_rq1}
use pygt.Values.{Value, int, str, int_of_text}
use pygt.AddressMap.{AddressMap, DecodedValue}
use pygt.AddressMap.Blocks.{normalize_block, set_fx_block_count}
use pygt.AddressMap.Encode.{address_for_block, is_empty}
use pygt.AddressMap.Decode.{Raw, decode}
use pygt.AddressMap.Labels.{value_for}
use pygt.PatchState.{
  PatchState, FxBlock, Field, ApplyResult, record_scan, set_fx, set_fx_name, fx_name, set_sliders,
  apply,
}
use pygt.Scheduler.{Task, Scheduler, submit}
use pygt.Link
use pygt.Link.{DeviceLink, send, request}
use pygt.Session.{Arrivals}
use pygt.Device.{Device}
use pygt.Device.Snapshot.{sliders_for, snapshot_all}

pub record Gt1000 : Type 0 where
  pub address_map : AddressMap
  pub state : PatchState
  pub refresh : Scheduler
  pub link : DeviceLink
  pub model : Option Text
  pub arrivals : List Arrivals
  pub clock : ℕ

-- What arrives during the next wait; when nothing is left to come, the wait times out.
unfoldable pub next_arrivals : List Arrivals → Arrivals
next_arrivals [] = record { immediate = []; batches = [] }
next_arrivals (a ∷ _) = a

unfoldable pub later_arrivals : List Arrivals → List Arrivals
later_arrivals [] = []
later_arrivals (_ ∷ rest) = rest

unfoldable pub fetch_mem : List ℕ → List ℕ → Act Gt1000 (Option (List ℕ))
unfolding next_arrivals later_arrivals
fetch_mem offset len gt =
    let a = next_arrivals gt.arrivals in
    let (answer, l) = request a.immediate a.batches offset len none gt.link in
    (or_raise answer key_error, record gt { link = l; arrivals = later_arrivals gt.arrivals })

-- `self._link.set`
unfoldable pub set_link : List ℕ → Gt1000 → Gt1000
set_link address_value gt = record gt { link = Link.set address_value gt.link }

-- The functions that the constructor injects into the readers and the chain codec.
unfoldable pub device_of : Gt1000 → Device Gt1000
unfolding fetch_mem set_link
device_of gt = record {
  address_map = gt.address_map;
  fetch = fetch_mem;
  fx_name_for = λ fx_id gt'. (fx_name fx_id gt'.state, gt');
  set_fx_name = λ fx_id name gt'. record gt' { state = set_fx_name fx_id name gt'.state };
  set = set_link;
}

-- One type of `refresh_state`.
unfoldable pub refresh_type : Text → Gt1000 → Result {0} Unit × Gt1000
unfolding device_of
refresh_type fx_type gt =
    let (states, gt') = snapshot_all (device_of gt) fx_type gt in
    elim states [
      | err e ↦ (err e, gt')
      | ok blocks ↦ (ok tt, record gt' { state = record_scan fx_type blocks gt.clock gt'.state })
    ]

-- `refresh_state` over the types; a stop that was seen ends it.
unfoldable pub refresh_types : List Text → Gt1000 → Result {0} Unit × Gt1000
unfolding refresh_type
refresh_types [] gt = (ok tt, gt)
refresh_types (fx_type ∷ types) gt =
    let (done, gt') = refresh_type fx_type gt in
    let rest = refresh_types types gt' in
    if gt.refresh.stopped then (ok tt, gt) else elim done [ err e ↦ (err e, gt') | ok _ ↦ rest ]

unfoldable pub refresh_state : Gt1000 → Result {0} Unit × Gt1000
unfolding refresh_types
refresh_state gt = refresh_types gt.state.fx_types gt

-- `_refresh_sliders`
unfoldable pub refresh_sliders : Task → Gt1000 → Result {0} Unit × Gt1000
unfolding device_of
refresh_sliders task gt =
    let (sliders, gt') = sliders_for (device_of gt) task.fx_type task.fx_id none gt in
    elim sliders [
      | err e ↦ (err e, gt')
      | ok (slider1, slider2) ↦
          elim (set_sliders task.fx_type task.fx_id slider1 slider2 gt'.state) [
            | err e ↦ (err e, gt')
            | ok s ↦ (ok tt, record gt' { state = s })
          ]
    ]

-- `self._link.set` of an address that may be None.
unfoldable pub write_address : Option (List ℕ) → Act {0, 0} Gt1000 Unit
unfolding set_link
write_address none = lift (err type_error)
write_address (some address_value) = update (set_link address_value)

-- A change of the known state that may raise.
unfoldable pub update_state : (PatchState → Result PatchState) → Act {0, 0} Gt1000 Unit
update_state f gt = elim (f gt.state) [
  | err e ↦ (err e, gt)
  | ok s ↦ (ok tt, record gt { state = s })
]

unfoldable pub toggle_fx_state : Text → Value → Value → Act {0, 0} Gt1000 Unit
unfolding write_address update_state
toggle_fx_state fx_type fx_id state gt =
    (lift (address_for_block gt.address_map fx_type fx_id (text "SW") (some state) none)
        >>> λ address_value. write_address address_value >>> λ _.
            lift (normalize_block gt.address_map fx_type fx_id) >>> λ (fx_type', fx_id').
            update_state (set_fx fx_type' fx_id' Field.state (some state)))
      gt

-- The value is the int that `int(value)` makes.
unfoldable pub set_fx_value : Text → Value → Text → ℕ → Act {0, 0} Gt1000 Unit
unfolding write_address
set_fx_value fx_type fx_id option value gt =
    (lift (if fx_type == text "fx" then fx_name fx_id gt.state else ok none) >>> λ name.
    lift (address_for_block gt.address_map fx_type fx_id option (some (int value)) name)
    >>> λ address_value. write_address address_value)
      gt

-- An unknown type is logged, and its address is sent with no value.
unfoldable pub set_fx_type_type : Text → Value → Text → Act {0, 0} Gt1000 Unit
unfolding write_address
set_fx_type_type fx_type fx_id new_type gt =
    (lift (value_for gt.address_map fx_type (text "TYPE") new_type) >>> λ type_value.
    lift (
      address_for_block gt.address_map fx_type fx_id (text "TYPE")
        (elim type_value [ none ↦ none | some v ↦ some (int v) ]) none)
    >>> λ address_value. write_address address_value)
      gt

unfoldable pub get_patch_names : Gt1000 → Gt1000
get_patch_names gt = record gt {
  link = send (encode_rq1 gt.link.device_id patch_names_begin_offset patch_names_len none) gt.link;
}

-- `_apply_identity`
unfoldable pub apply_identity : IdentityReply → Gt1000 → Gt1000
apply_identity reply gt = elim reply.model [
  | none ↦ gt
  | some name ↦ record gt {
    model = some name;
    address_map =
        if name == text "GT-1000CORE"
        then set_fx_block_count (text "fx") 3 gt.address_map
        else gt.address_map;
  }
]

-- The id of a refresh task: `int(fx_id)`, or the empty text.
unfoldable pub task_id : Option Text → Result Value
task_id none = err type_error
task_id (some fx_id) =
    if is_empty fx_id
    then ok (str [])
    else (or_raise (int_of_text fx_id) value_error >>= λ n. ok (int n))

abbrev pub full_task : Task
full_task = record { type = text "full"; fx_type = []; fx_id = str [] }

-- What follows an applied value: a changed type schedules the sliders of the block, which then has an fx type.
unfoldable pub schedule : DecodedValue → ApplyResult → Act {0, 0} Gt1000 Unit
unfolding task_id
schedule d result =
    if result.type_changed
    then (lift (task_id d.fx_id) >>> λ fx_id. lift (or_raise d.fx_type key_error) >>> λ fx_type.
        update (λ gt. record gt {
          refresh =
              submit (record { type = text "sliders"; fx_type = fx_type; fx_id = fx_id })
                gt.refresh;
        }))
    else pure tt

unfoldable pub apply_state : DecodedValue → Act Gt1000 ApplyResult
apply_state d gt = elim (apply d gt.clock gt.state) [
  | err e ↦ (err e, gt)
  | ok (result, s) ↦ (ok result, record gt { state = s })
]

-- `_process_data_from_unit`
unfoldable pub process_data_from_unit : List ℕ → List ℕ → Act {0, 0} Gt1000 Unit
unfolding apply_state schedule
process_data_from_unit offset values gt =
    if offset == program_change_offset
    then (ok tt, record gt { refresh = submit full_task gt.refresh })
    else (lift (decode gt.address_map offset (Raw.reply values)) >>> λ decoded. elim decoded [
      | none ↦ pure tt
      | some d ↦ apply_state d >>> λ result. schedule d result
    ])
        gt
