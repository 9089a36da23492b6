-- ===== src/Constants.antt =====
-- pygt1000/constants.py: the bytes of the wire format and the addresses of the editor handshake.
-- The table of effect names stands in AddressMap/Names.antt.
use pygt.Base.{ℕ, List, [], ◌∷◌, ◌++◌}

abbrev pub manufacturer_id : List ℕ
manufacturer_id = 0x41 ∷ []

abbrev pub gt1000_family : List ℕ
gt1000_family = 0x4F ∷ 0x03 ∷ []

abbrev pub device_id_bcast : ℕ
device_id_bcast = 0x7F

abbrev pub model_id : List ℕ
model_id = 0x00 ∷ 0x00 ∷ 0x00 ∷ 0x4F ∷ []

abbrev pub rq1_command_id : List ℕ
rq1_command_id = 0x11 ∷ []

abbrev pub dt1_command_id : List ℕ
dt1_command_id = 0x12 ∷ []

abbrev pub dt1_sysex_header : List ℕ
dt1_sysex_header = manufacturer_id ++ ((device_id_bcast ∷ []) ++ (model_id ++ dt1_command_id))

abbrev pub rq1_sysex_header : List ℕ
rq1_sysex_header = manufacturer_id ++ ((device_id_bcast ∷ []) ++ (model_id ++ rq1_command_id))

abbrev pub sysex_start : List ℕ
sysex_start = 0xF0 ∷ []

abbrev pub sysex_end : List ℕ
sysex_end = 0xF7 ∷ []

abbrev pub non_rt_msg : List ℕ
non_rt_msg = 0x7E ∷ []

abbrev pub bcast_dev_id : List ℕ
bcast_dev_id = 0x7F ∷ []

abbrev pub gen_info : List ℕ
gen_info = 0x06 ∷ []

abbrev pub identity_request : List ℕ
identity_request = 0x01 ∷ []

abbrev pub identity_reply : List ℕ
identity_reply = 0x02 ∷ []

abbrev pub one_byte : List ℕ
one_byte = 0x0 ∷ 0x0 ∷ 0x0 ∷ 0x1 ∷ []

abbrev pub program_change_offset : List ℕ
program_change_offset = 0x7F ∷ 0x0 ∷ 0x1 ∷ 0x0 ∷ []

abbrev pub identity_request_msg : List ℕ
identity_request_msg =
    sysex_start ++ (non_rt_msg ++ (bcast_dev_id ++ (gen_info ++ (identity_request ++ sysex_end))))

abbrev pub editor_mode_address_set2 : List ℕ
editor_mode_address_set2 = 0x7F ∷ 0x0 ∷ 0x0 ∷ 0x1 ∷ []

abbrev pub editor_mode_addess_value2 : List ℕ
editor_mode_addess_value2 = 0x1 ∷ []

abbrev pub editor_reply2 : List ℕ
editor_reply2 = editor_mode_addess_value2

abbrev pub editor_mode_address_fetch3 : List ℕ
editor_mode_address_fetch3 = 0x7F ∷ 0x0 ∷ 0x0 ∷ 0x3 ∷ []

abbrev pub editor_mode_address_len3 : List ℕ
editor_mode_address_len3 = one_byte

abbrev pub editor_reply3 : List ℕ
editor_reply3 = 0x0 ∷ []

abbrev pub patch_names_begin_offset : List ℕ
patch_names_begin_offset = 0x52 ∷ 0x0 ∷ 0x0 ∷ 0x0 ∷ []

abbrev pub patch_names_len : List ℕ
patch_names_len = 0x0 ∷ 0x0 ∷ 0x1 ∷ 0x0 ∷ []
