-- ===== src/Tests/Devices.antt =====
-- Readers over two devices: one that holds what is written, and one that answers every read with 1.
use pygt.Base.{
  ℕ, ◌+◌, ◌≡◌, refl, ok, none, some, text, List, [], ◌∷◌, list_eq, list_beq, nat_eq, true, arith,
}
use pygt.Base.Dict.{get, has, put}
use pygt.Values.{int, str, str_of}
use pygt.AddressMap.{AddressMap, Setting, areas, settings, base_addresses, patch_section, width_of}
use pygt.AddressMap.Labels.{is_in}
use pygt.AddressMap.Blocks.{block_section_option, normalize_block, fx_block_count}
use pygt.AddressMap.Encode.{address_for_block}
use pygt.AddressMap.Load.{load}
use pygt.AddressMap.Values.{one_byte}
use pygt.AddressMap.{table_of, has_key, area_at, setting_at}
use pygt.AddressMap.Blocks.{start_section}
use pygt.AddressMap.Decode.{label_for_raw}
use pygt.AddressMap.Labels.{fx_value_table, read_label, label_or_raw}
use pygt.AddressMap.Encode.{
  address_for, address_in_section, address_in_table, encode_value, block_setting_bytes,
  setting_bytes, width_in_table,
}
use pygt.Bytes.{int_to_bytes, bit_length, bit_length_fuel, to_bytes, bytes_to_int, from_bytes}
use pygt.Device.Reader.{fetch_value, value_of_reply, presented}
use pygt.Device.Snapshot.{
  snapshots, snapshot, record_name, block_name, sliders_for, resolve_both, resolve, non_fx_params,
}
use pygt.PatchState.{FxBlock}
use pygt.PatchState.Layout.{ids}
use pygt.Device.{Device}
use pygt.Device.Reader.{read}
use pygt.Device.Snapshot.{snapshot_all}
use pygt.Device.Settings.{Remembers, address_for_block-read}
use pygt.Device.Ids.{block_ids, snapshot_all-ids}
use pygt.Tests.Data.{a_map, patch_area, comp_area, comp_sw}
use pygt.Tests.Maps.{comp_sw-IsMapped, comp_sw-IsLaidOut, on_off}
use pygt.Tests.Chains.{recorder}

comp_sw-Remembers : Remembers recorder (16 ∷ 0 ∷ 18 ∷ (0 + 0) ∷ []) (width_of comp_sw)
comp_sw-Remembers = record { answer = λ bytes d. refl }

address_for_block-read_example :
    (bs : List ℕ) × (address_for_block a_map (text "comp") (str []) (text "SW") (some (int 1)) none
      ≡ ok (some (16 ∷ 0 ∷ 18 ∷ (0 + 0) ∷ bs)))
    × ((read recorder (text "comp") (str []) (text "SW") true (16 ∷ 0 ∷ 18 ∷ (0 + 0) ∷ bs)).0
        ≡ ok (some (int 1)))
unfolding block_section_option normalize_block fx_block_count load get is_in list_beq has put
    width_of str_of
address_for_block-read_example =
    address_for_block-read recorder (text "comp") (str []) patch_section (text "comp") (text "SW")
      patch_area comp_area comp_sw 16 0 18 0 0 1 on_off [] refl comp_sw-IsMapped comp_sw-IsLaidOut
      refl (one_byte (omega arith) (omega arith)) comp_sw-Remembers

abbrev loop_setting : ℕ → Setting
loop_setting last = record {
  offset = 0 ∷ last ∷ [];
  value_range = (0, 1);
  values = some ((text "ON", 1) ∷ []);
  bytes = none;
}

-- One block of one type that has no sliders.
abbrev loop_map : AddressMap
loop_map = record {
  fx_types = text "s" ∷ [];
  tables =
      (base_addresses, areas ((patch_section, record { address = 1 ∷ []; table = text "P" }) ∷ []))
      ∷ (text "P", areas ((text "s", record { address = 1 ∷ []; table = text "L" }) ∷ []))
      ∷ (text "L", settings ((text "SW", loop_setting 0) ∷ (text "TYPE", loop_setting 1) ∷ []))
      ∷ [];
  first_two_bytes = [];
  offset_in_patch_tables = [];
  last_byte_option = [];
  fx_tables = (text "s", text "L") ∷ [];
  fx_types_count = (text "s", 1) ∷ [];
}

abbrev constant : Device (List ℕ)
constant = record {
  address_map = loop_map;
  fetch = λ address len d. (ok (some (1 ∷ [])), address);
  fx_name_for = λ fx_id d. (ok none, d);
  set_fx_name = λ fx_id name d. d;
  set = λ address_value d. address_value;
}

abbrev loop_block : FxBlock
loop_block = record {
  fx_id = str [];
  state = some (str (text "ON"));
  name = some (str (text "ON"));
  slider1 = none;
  slider2 = none;
}

loop_block-returned : (snapshot_all constant (text "s") []).0 ≡ ok (loop_block ∷ [])
unfolding snapshot_all snapshots snapshot record_name block_name sliders_for resolve_both resolve
    non_fx_params read fetch_value value_of_reply presented fx_value_table read_label label_for_raw
    label_or_raw table_of has_key area_at setting_at address_for_block address_for
    address_in_section address_in_table encode_value block_setting_bytes setting_bytes
    width_in_table width_of block_section_option normalize_block fx_block_count start_section get
    has list_beq str_of int_to_bytes bit_length bit_length_fuel to_bytes bytes_to_int from_bytes
loop_block-returned = refl

snapshot_all-ids_example : ids (loop_block ∷ []) ≡ block_ids (text "s") 1 1 1
unfolding fx_block_count get list_beq
snapshot_all-ids_example =
    snapshot_all-ids constant (text "s") 1 [] (loop_block ∷ []) refl loop_block-returned
