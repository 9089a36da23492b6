-- ===== src/Tests/Maps.antt =====
-- Addresses and values of the loaded map.
use pygt.Base.{
  ℕ, ◌≡◌, refl, ok, none, some, text, Text, List, [], ◌∷◌, ◌++◌, arith, list_eq, nat_eq, list_beq,
}
use pygt.Base.Dict.{get, has, put}
use pygt.AddressMap.Labels.{is_in}
use pygt.Values.{str, str_of}
use pygt.AddressMap.{DecodedValue, patch_section, width_of}
use pygt.AddressMap.Blocks.{block_section_option}
use pygt.AddressMap.Encode.{address_for}
use pygt.AddressMap.Decode.{reply, decode, label_for_raw}
use pygt.AddressMap.Load.{load}
use pygt.AddressMap.Addresses.{IsMapped, IsLaidOut}
use pygt.AddressMap.Values.{one_byte}
use pygt.AddressMap.Imports.{last_section, last_option, last_setting}
use pygt.AddressMap.Specs.{IsSpec, load-decode-address_for}
use pygt.AddressMap.{areas, base_addresses}
use pygt.AddressMap.Blocks.{normalize_block, fx_block_count}
use pygt.AddressMap.Encode.{resolve_value}
use pygt.Base.Dict.{Dict}
use pygt.PatchState.{init}
use pygt.Scheduler.{new_scheduler}
use pygt.Link.{new_link}
use pygt.Codec.{parse_data_reply}
use pygt.Facade.{Gt1000, set_fx_value}
use pygt.Facade.Outbound.{set_fx_value-frame}
use pygt.Tests.Data.{
  a_map, patch_area, comp_area, comp_sw, one_type, spec_files, base_file, patch_file, comp_file,
}

pub comp_sw-IsMapped :
    IsMapped a_map patch_section (text "comp") (text "SW") patch_area comp_area comp_sw
unfolding load get is_in list_beq has put
comp_sw-IsMapped = record {
  base = _;
  container = _;
  options = _;
  at_base = refl;
  at_section = refl;
  at_container = refl;
  at_option = refl;
  at_table = refl;
  at_setting = refl;
}

pub comp_sw-IsLaidOut : IsLaidOut patch_area comp_area comp_sw 16 0 18 0 0
comp_sw-IsLaidOut = record {
  section_bytes = refl;
  option_bytes = refl;
  setting_bytes = refl;
  a_pos = omega arith;
  a_byte = omega arith;
  b_byte = omega arith;
  c_byte = omega arith;
  no_carry = omega arith;
}

unfoldable pub comp_sw-IsSpec :
    IsSpec spec_files patch_section (text "comp") (text "SW") patch_area comp_area comp_sw 16 0 18 0
unfolding get is_in list_beq has last_section last_option last_setting
comp_sw-IsSpec = record {
  base = base_file;
  container = patch_file;
  options = comp_file;
  base_file = record { before = []; after = _; split = refl; not_before = refl; not_after = refl };
  container_file = record {
    before = (base_addresses, areas base_file) ∷ [];
    after = _;
    split = refl;
    not_before = refl;
    not_after = refl;
  };
  options_file = record {
    before = (base_addresses, areas base_file) ∷ (text "Patch", areas patch_file) ∷ [];
    after = _;
    split = refl;
    not_before = refl;
    not_after = refl;
  };
  in_base = refl;
  in_container = refl;
  in_options = refl;
  is_patch = refl;
  is_block = refl;
  own_bytes = refl;
  own_offset = refl;
  own_last = refl;
}

pub a_map-loaded : load one_type spec_files ≡ ok a_map
unfolding load is_in list_beq has put get
a_map-loaded = refl

abbrev pub on_off : Dict Text ℕ
on_off = (text "OFF", 0) ∷ (text "ON", 1) ∷ []

load-decode-address_for_example :
    (bs : List ℕ) × (d : DecodedValue) × (address_for a_map patch_section
        (text "comp")
        (text "SW")
        (some (str (text "ON")))
      ≡ ok (some (16 ∷ 0 ∷ 18 ∷ 0 ∷ bs)))
    × (decode a_map (16 ∷ 0 ∷ 18 ∷ 0 ∷ []) (reply bs) ≡ ok (some d))
    × (d.section ≡ patch_section)
    × (d.name ≡ text "comp")
    × (d.value_name ≡ text "SW")
    × (d.int_value ≡ 1)
    × (d.str_value ≡ label_for_raw on_off 1)
unfolding resolve_value get list_beq width_of
load-decode-address_for_example =
    load-decode-address_for one_type spec_files a_map a_map-loaded patch_section (text "comp")
      (text "SW") patch_area comp_area comp_sw 16 0 18 0 comp_sw-IsSpec 1 (str (text "ON")) on_off
      comp_sw-IsLaidOut refl refl (one_byte (omega arith) (omega arith))

abbrev a_gt : Gt1000
a_gt = record {
  address_map = a_map;
  state = init one_type;
  refresh = new_scheduler;
  link = new_link 0x10;
  model = none;
  arrivals = [];
  clock = 0;
}

set_fx_value-frame_example :
    (frame offset bytes : List ℕ) × (d : DecodedValue) × (set_fx_value
        (text "comp")
        (str [])
        (text "SW")
        1
        a_gt
      ≡ (ok tt, record a_gt { link = record a_gt.link { sent = a_gt.link.sent ++ frame ∷ [] } }))
    × (parse_data_reply a_gt.link.device_id frame ≡ some (offset, bytes))
    × (decode a_gt.address_map offset (reply bytes) ≡ ok (some d))
    × (d.name ≡ text "comp")
    × (d.value_name ≡ text "SW")
    × (d.int_value ≡ 1)
unfolding block_section_option normalize_block fx_block_count load get is_in list_beq has put
    width_of str_of
set_fx_value-frame_example =
    set_fx_value-frame a_gt (text "comp") (str []) none patch_section (text "comp") (text "SW")
      patch_area comp_area comp_sw 16 0 18 0 1 on_off one_type spec_files a_map-loaded
      comp_sw-IsSpec refl refl comp_sw-IsLaidOut refl (one_byte (omega arith) (omega arith))
