-- ===== src/Tests/Refreshes.antt =====
-- A full refresh of one block of one type, over frames that answer its two reads.
use pygt.Base.{ℕ, ◌≡◌, refl, ok, none, some, text, [], ◌∷◌, list_eq, list_beq, nat_eq, true}
use pygt.Base.Dict.{get, has, put, pop}
use pygt.Values.{str_of}
use pygt.AddressMap.{
  AddressMap, Setting, areas, settings, base_addresses, patch_section, width_of, table_of, has_key,
  area_at, setting_at,
}
use pygt.AddressMap.Blocks.{block_section_option, normalize_block, fx_block_count, start_section}
use pygt.AddressMap.Decode.{label_for_raw}
use pygt.AddressMap.Labels.{is_in, fx_value_table, read_label, label_or_raw}
use pygt.AddressMap.Encode.{
  address_for, address_for_block, address_in_section, address_in_table, encode_value,
  block_setting_bytes, setting_bytes, width_in_table,
}
use pygt.Bytes.{int_to_bytes, bit_length, bit_length_fuel, to_bytes, bytes_to_int, from_bytes}
use pygt.Codec.{parse_data_reply}
use pygt.Device.Reader.{read, fetch_value, value_of_reply, presented}
use pygt.Device.Snapshot.{
  snapshot_all, snapshots, snapshot, record_name, block_name, sliders_for, resolve_both, resolve,
  non_fx_params,
}
use pygt.PatchState.{init, is_ready}
use pygt.PatchState.Ready.{distinct, all_scanned, unscanned}
use pygt.Scheduler.{new_scheduler}
use pygt.Link.{
  new_link, send, request, exchange, wait, poll, receive, on_receive, negotiate_identity, correlate,
}
use pygt.Session.{Arrivals}
use pygt.Facade.{
  Gt1000, refresh_state, refresh_types, refresh_type, device_of, fetch_mem, next_arrivals,
  later_arrivals,
}
use pygt.Facade.Refresh.{refresh_state-is_ready}
use pygt.Tests.Data.{patch_area}

abbrev on_setting : ℕ → Setting
on_setting last = record {
  offset = 0 ∷ last ∷ [];
  value_range = (0, 1);
  values = some ((text "ON", 1) ∷ []);
  bytes = none;
}

abbrev loop_map : AddressMap
loop_map = record {
  fx_types = text "s" ∷ [];
  tables =
      (base_addresses, areas ((patch_section, patch_area) ∷ []))
      ∷ (
        text "Patch",
        areas ((text "s", record { address = 0 ∷ 18 ∷ 0 ∷ []; table = text "L" }) ∷ []),
      )
      ∷ (text "L", settings ((text "SW", on_setting 0) ∷ (text "TYPE", on_setting 1) ∷ []))
      ∷ [];
  first_two_bytes = [];
  offset_in_patch_tables = [];
  last_byte_option = [];
  fx_tables = (text "s", text "L") ∷ [];
  fx_types_count = (text "s", 1) ∷ [];
}

-- A reply of 1 from the last byte of an address, before the first poll.
abbrev replied : ℕ → Arrivals
replied last = record {
  immediate =
      (0xF0 ∷ 0x41 ∷ 0x10 ∷ 0 ∷ 0 ∷ 0 ∷ 0x4F ∷ 0x12 ∷ 16 ∷ 0 ∷ 18 ∷ last ∷ 1 ∷ 0 ∷ 0xF7 ∷ []) ∷ [];
  batches = [] ∷ [];
}

abbrev fresh_gt : Gt1000
fresh_gt = record {
  address_map = loop_map;
  state = init (text "s" ∷ []);
  refresh = new_scheduler;
  link = new_link 0x10;
  model = none;
  arrivals = replied 0 ∷ replied 1 ∷ [];
  clock = 5;
}

fresh_gt-returned : (refresh_state fresh_gt).0 ≡ ok tt
unfolding refresh_state refresh_types refresh_type device_of fetch_mem next_arrivals later_arrivals
    request exchange wait poll send receive on_receive negotiate_identity correlate parse_data_reply
    new_link init put snapshot_all snapshots snapshot record_name block_name sliders_for
    resolve_both resolve non_fx_params read fetch_value value_of_reply presented fx_value_table
    read_label label_for_raw label_or_raw table_of has_key area_at setting_at address_for_block
    address_for address_in_section address_in_table encode_value block_setting_bytes setting_bytes
    width_in_table width_of block_section_option normalize_block fx_block_count start_section get
    has list_beq str_of int_to_bytes bit_length bit_length_fuel to_bytes bytes_to_int from_bytes pop
fresh_gt-returned = refl

refresh_state-is_ready_example :
    (all_scanned fresh_gt.state.fx_types (refresh_state fresh_gt).1.state.scans ≡ true)
    × (is_ready (refresh_state fresh_gt).1.state ≡ true)
unfolding init distinct is_in
refresh_state-is_ready_example =
    refresh_state-is_ready fresh_gt refl unscanned refl fresh_gt-returned
