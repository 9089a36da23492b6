-- ===== src/Tests/Knobs.antt =====
-- The compressor that is switched on at the unit.
use pygt.Base.{
  ◌≡◌, refl, text, Text, true, false, none, some, [], ◌∷◌, ◌++◌, ok, list_beq, list_eq, nat_eq,
  ◌==◌, ◌&&◌, if◌then◌else◌, arith,
}
use pygt.Base.Dict.{get, has, put}
use pygt.Values.{str, str_of, str_of_option}
use pygt.AddressMap.Encode.{is_empty}
use pygt.Link.{new_link}
use pygt.Codec.{encode_dt1}
use pygt.AddressMap.{DecodedValue, patch_section, width_of}
use pygt.AddressMap.Decode.{Raw, decode, label_for_raw}
use pygt.AddressMap.Load.{load}
use pygt.AddressMap.Labels.{is_in}
use pygt.PatchState.{PatchState, FxBlock, is_ready, find_first, fold_block}
use pygt.PatchState.Apply.{block}
use pygt.Scheduler.{submit}
use pygt.Facade.{task_id}
use pygt.Facade.Callbacks.{wired, receive_message}
use pygt.Facade.Turned.{sliders_task, receive_message-block}
use pygt.Tests.States.{two_types_gt}

abbrev comp_on : DecodedValue
comp_on = record {
  section = patch_section;
  table = text "Patch";
  name = text "comp";
  patch_table = text "PatchComp";
  value_name = text "SW";
  str_value = some (text "ON");
  int_value = 1;
  fx_type = some (text "comp");
  fx_id = some [];
  fx_table_suffix = none;
  fx_name = none;
}

comp_on-decoded :
    decode two_types_gt.address_map (16 ∷ 0 ∷ 18 ∷ 0 ∷ []) (Raw.reply (1 ∷ [])) ≡ ok (some comp_on)
unfolding decode load is_in list_beq has put get width_of label_for_raw
comp_on-decoded = refl

abbrev comp_block : FxBlock
comp_block = record { fx_id = str []; state = none; name = none; slider1 = none; slider2 = none }

two_types_ready : is_ready two_types_gt.state ≡ true
unfolding is_ready has get list_beq
two_types_ready = refl

comp_found : find_first (str_of_option comp_on.fx_id) (comp_block ∷ []) ≡ some comp_block
unfolding find_first str_of_option str_of list_beq
comp_found = refl

comp_scanned : get two_types_gt.state.scans (text "comp") ≡ some (comp_block ∷ [])
unfolding get list_beq
comp_scanned = refl

comp_numbered : task_id comp_on.fx_id ≡ ok (str [])
unfolding task_id is_empty
comp_numbered = refl

comp_free : has two_types_gt.link.pending (16 ∷ 0 ∷ 18 ∷ 0 ∷ []) ≡ false
unfolding has new_link
comp_free = refl

receive_message-block_example :
    (s' : PatchState) × (receive_message wired
        (encode_dt1 0x10 ((16 ∷ 0 ∷ 18 ∷ 0 ∷ []) ++ 1 ∷ []) none)
        two_types_gt
      ≡ record two_types_gt {
        state = s';
        refresh =
            if (fold_block comp_on comp_block).1.type_changed
            then submit (sliders_task (text "comp") (str [])) two_types_gt.refresh
            else two_types_gt.refresh;
      })
    × ((u j : Text)
        → block u j s' ≡ (
            if text "comp" == u && str_of_option comp_on.fx_id == j
            then some (fold_block comp_on comp_block).0
            else block u j two_types_gt.state))
    × ((u : Text)
        → get s'.last_sync_ts u ≡ (
            if text "comp" == u && (fold_block comp_on comp_block).1.matched
            then some two_types_gt.clock
            else get two_types_gt.state.last_sync_ts u))
unfolding list_beq new_link
receive_message-block_example =
    receive_message-block comp_on (text "comp") (str []) refl comp_numbered two_types_gt
      (16 ∷ 0 ∷ 18 ∷ 0 ∷ []) (1 ∷ []) (comp_block ∷ []) comp_block (λ e. absurd (omega (arith, e)))
      refl comp_free refl comp_on-decoded two_types_ready comp_scanned comp_found
