-- ===== src/Facade/Delegates.antt =====
-- pygt1000/gt1000.py: the methods that hand over to a part of GT1000, the two worker threads, and the names of the patches.
use pygt.Base.{
  ℕ, ◌≡◌, refl, Text, text, Bool, Option, none, some, List, [], ◌∷◌, get_elem?, Error, Act-cases,
  inl, inr, Result, err, type_error, index_error, or_raise, ◌>>=◌, Act, lift, ◌>>>◌,
}
use pygt.Constants.{patch_names_begin_offset, patch_names_len}
use pygt.Chain.{Blocks}
use pygt.Values.{Value}
use pygt.AddressMap.{AddressMap, DecodedValue}
use pygt.AddressMap.Decode.{Raw, decode}
use pygt.AddressMap.Labels.{types_for, value_for}
use pygt.Device.Chains
use pygt.Device.Snapshot.{snapshot_all, snapshot_one}
use pygt.KeepAlive.Workers
use pygt.KeepAlive.Workers.{KeepAlive}
use pygt.PatchState.{PatchState, FxBlock, init}
use pygt.Scheduler
use pygt.Scheduler.{new_scheduler}
use pygt.Link.{new_link}
use pygt.Session.{Arrivals}
use pygt.Facade.{Gt1000, fetch_mem, device_of}

abbrev pub known_fx_types : List Text
known_fx_types =
    text "comp"
    ∷ text "dist"
    ∷ text "preamp"
    ∷ text "ns"
    ∷ text "eq"
    ∷ text "delay"
    ∷ text "mstDelay"
    ∷ text "chorus"
    ∷ text "fx"
    ∷ text "pedalFx"
    ∷ text "reverb"
    ∷ []

-- The constructor, with the map that is loaded for these types; `self.model` is not set before an identity comes.
unfoldable pub new_gt1000 : AddressMap → ℕ → List Arrivals → Gt1000
new_gt1000 address_map device_id arrivals = record {
  address_map = address_map;
  state = init known_fx_types;
  refresh = new_scheduler;
  link = new_link device_id;
  model = none;
  arrivals = arrivals;
  clock = 0;
}

-- The property `device_id`, which stands for the link's, and its setter.
unfoldable pub device_id : Gt1000 → ℕ
device_id gt = gt.link.device_id

unfoldable pub set_device_id : ℕ → Gt1000 → Gt1000
set_device_id value gt = record gt { link = record gt.link { device_id = value } }

unfoldable pub get_fx_value_from_value_name : Gt1000 → Text → Text → Text → Result (Option ℕ)
get_fx_value_from_value_name gt fx_type prop value_name =
    value_for gt.address_map fx_type prop value_name

unfoldable pub lookup : Gt1000 → List ℕ → Raw → Result (Option DecodedValue)
lookup gt address value = decode gt.address_map address value

-- The facade with its second worker.
pub record Threads : Type 0 where
  pub gt : Gt1000
  pub keepalive : KeepAlive

unfoldable pub start_refresh_thread : Threads → Threads
start_refresh_thread t = record {
  gt = record t.gt { refresh = Scheduler.start t.gt.refresh };
  keepalive = Workers.start t.keepalive;
}

unfoldable pub stop_refresh_thread : Threads → Threads
stop_refresh_thread t = record {
  gt = record t.gt { refresh = Scheduler.stop t.gt.refresh };
  keepalive = Workers.stop t.keepalive;
}

unfoldable pub get_state : Gt1000 → PatchState
get_state gt = gt.state

unfoldable pub get_all_fx_type_states : Text → Act Gt1000 (List FxBlock)
get_all_fx_type_states fx_type gt = snapshot_all (device_of gt) fx_type gt

unfoldable pub get_one_fx_state : Text → Value → Bool → Act Gt1000 (Option FxBlock)
get_one_fx_state fx_type fx_id get_sliders gt =
    snapshot_one (device_of gt) fx_type fx_id get_sliders gt

unfoldable pub get_all_fx_types : Gt1000 → Text → Result (Option (List Text))
get_all_fx_types gt fx_type = types_for gt.address_map fx_type

unfoldable pub read_chain : Act Gt1000 (List Text)
read_chain gt = Chains.read_names (device_of gt) gt

unfoldable pub write_chain_from_txt : List Text → Act {0, 0} Gt1000 Unit
write_chain_from_txt txt_chain gt = Chains.write_names (device_of gt) txt_chain gt

unfoldable pub write_chain_from_obj : Blocks → Act {0, 0} Gt1000 Unit
write_chain_from_obj obj_chain gt = Chains.write (device_of gt) obj_chain gt

-- `int(len(data[1]) / 16)`: an element of the reply is an int, which has no `len`, so the loop is never reached.
unfoldable pub patch_names_count : Option (List ℕ) → Result ℕ
patch_names_count reply = or_raise reply type_error >>= λ bytes.
    or_raise (get_elem? bytes 1) index_error >>= λ second. err type_error

unfoldable pub fetch_patch_names : Act Gt1000 ℕ
unfolding fetch_mem patch_names_count
fetch_patch_names =
    fetch_mem patch_names_begin_offset patch_names_len >>> λ reply. lift (patch_names_count reply)

patch_names_count-raises :
    (reply : Option (List ℕ)) → (e : Error) × (patch_names_count reply ≡ err e)
unfolding patch_names_count
patch_names_count-raises none = (type_error, refl)
patch_names_count-raises (some []) = (index_error, refl)
patch_names_count-raises (some (b ∷ [])) = (index_error, refl)
patch_names_count-raises (some (b ∷ c ∷ bs)) = (type_error, refl)

-- Whatever the device answers, and if it answers nothing, asking for the patch names raises.
fetch_patch_names-raises : (gt : Gt1000) → (e : Error) × ((fetch_patch_names gt).0 ≡ err e)
unfolding fetch_patch_names
fetch_patch_names-raises gt =
    elim (Act-cases (fetch_mem patch_names_begin_offset patch_names_len gt)) [
      | inl (reply, gt', e) ↦ let (x, raised) = patch_names_count-raises reply in (x, rw e raised)
      | inr (x, gt', e) ↦ (x, rw e refl)
    ]
