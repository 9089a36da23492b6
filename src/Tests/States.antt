-- ===== src/Tests/States.antt =====
-- The known state: one type, one block.
use pygt.Base.{
  ℕ, arith, ◌≡◌, refl, ok, none, some, inl, inr, Bool-cases, text, Text, [], ◌∷◌, list_eq, list_beq,
  nat_eq, true,
}
use pygt.Base.Dict.{get, put}
use pygt.Values.{int, str, str_of, str_of_option}
use pygt.AddressMap.{DecodedValue, patch_section}
use pygt.PatchState.{
  PatchState, FxBlock, ApplyResult, find_first, fold_block, set_first, names_after, apply,
  label_value,
}
use pygt.PatchState.Layout.{Updates-layout, layout, here, next, value_received}
use pygt.PatchState.Names.{NamesAgree}
use pygt.Scheduler.{new_scheduler}
use pygt.Link.{new_link}
use pygt.Facade.{Gt1000}
use pygt.Codec.{encode_dt1}
use pygt.Link.{receive}
use pygt.Facade.Callbacks.{wired, receive_messages}
use pygt.Facade.Received.{unreported, receive_messages-NamesAgree, receive_messages-receive}
use pygt.PatchState.Ready.{Reaches, unscanned, scanned}
use pygt.PatchState.{record_scan, init}
use pygt.Base.{List}
use pygt.AddressMap.Labels.{is_in}
use pygt.Tests.Data.{a_map}

abbrev octave : FxBlock
octave = record {
  fx_id = int 1;
  state = some (str (text "OFF"));
  name = some (str (text "OCTAVE"));
  slider1 =
      some (record { value = some (int 10); label = text "OCTAVE LEVEL"; min = 0; max = 100 });
  slider2 = none;
}

abbrev scanned_state : PatchState
scanned_state = record {
  fx_types = text "fx" ∷ [];
  scans = (text "fx", octave ∷ []) ∷ [];
  last_sync_ts = (text "fx", 3) ∷ [];
  fx_names = (text "1", some (str (text "OCTAVE"))) ∷ [];
}

abbrev chorus_type : DecodedValue
chorus_type = record {
  section = patch_section;
  table = text "Patch";
  name = text "fx1";
  patch_table = text "PatchFx";
  value_name = text "TYPE";
  str_value = some (text "CHORUS");
  int_value = 3;
  fx_type = some (text "fx");
  fx_id = some (text "1");
  fx_table_suffix = none;
  fx_name = none;
}

abbrev applied_state : PatchState
applied_state = record scanned_state {
  scans = (text "fx", record octave { name = some (str (text "CHORUS")) } ∷ []) ∷ [];
  last_sync_ts = (text "fx", 7) ∷ [];
  fx_names = (text "1", some (str (text "CHORUS"))) ∷ [];
}

abbrev both_changed : ApplyResult
both_changed = record { matched = true; type_changed = true }

apply-chorus : apply chorus_type 7 scanned_state ≡ ok (both_changed, applied_state)
unfolding apply list_beq str_of str_of_option get put set_first names_after label_value find_first
    fold_block
apply-chorus = refl

scanned-NamesAgree : NamesAgree scanned_state
unfolding find_first list_beq str_of get
scanned-NamesAgree = record {
  agree = λ id. elim (Bool-cases (list_beq (text "1") id)) [
    | inl e ↦ rw e (ground (arith, e))
    | inr e ↦ rw e tt
  ];
}

Updates-layout_example : layout applied_state ≡ layout scanned_state
Updates-layout_example =
    Updates-layout (next here (value_received chorus_type 7 both_changed apply-chorus))

abbrev two_types : PatchState
two_types = record scanned_state {
  fx_types = text "comp" ∷ text "fx" ∷ [];
  scans =
      (
        text "comp",
        record { fx_id = str []; state = none; name = none; slider1 = none; slider2 = none } ∷ [],
      )
      ∷ (text "fx", octave ∷ [])
      ∷ [];
}

two_types-NamesAgree : NamesAgree two_types
unfolding find_first list_beq str_of get
two_types-NamesAgree = record {
  agree = λ id. elim (Bool-cases (list_beq (text "1") id)) [
    | inl e ↦ rw e (ground (arith, e))
    | inr e ↦ rw e tt
  ];
}

abbrev pub two_types_gt : Gt1000
two_types_gt = record {
  address_map = a_map;
  state = two_types;
  refresh = new_scheduler;
  link = new_link 0x10;
  model = none;
  arrivals = [];
  clock = 7;
}

abbrev both_types : List Text
both_types = text "comp" ∷ text "fx" ∷ []

abbrev one_scanned : PatchState
one_scanned = record_scan (text "fx") (octave ∷ []) 3 (init both_types)

one_scanned-Reaches : Reaches both_types one_scanned
unfolding is_in list_beq
one_scanned-Reaches = scanned (text "fx") (octave ∷ []) 3 unscanned refl

-- A value of the compressor, and a message that is none.
abbrev some_messages : List (List ℕ)
some_messages = encode_dt1 0x10 (16 ∷ 0 ∷ 18 ∷ 0 ∷ 1 ∷ []) none ∷ (1 ∷ 2 ∷ []) ∷ []

receive_messages-NamesAgree_example :
    NamesAgree (receive_messages wired some_messages two_types_gt).state
receive_messages-NamesAgree_example =
    receive_messages-NamesAgree some_messages two_types_gt two_types-NamesAgree

receive_messages-receive_example :
    unreported (receive_messages wired some_messages two_types_gt).link
    ≡ unreported (receive some_messages two_types_gt.link)
receive_messages-receive_example = receive_messages-receive some_messages two_types_gt
