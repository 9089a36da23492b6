-- ===== src/Codec.antt =====
-- pygt1000/sysex_codec.py: the SysEx wire format. Bytes are natural numbers below 256; the codec
-- neither checks nor needs that.
pub mod Checksum
pub mod Frames
use pygt.Base.{
  ℕ, ◌+◌, ◌-◌, ◌%◌, Text, text, Bool, ◌&&◌, Option, none, some, List, [], ◌∷◌, ◌++◌, length, take,
  drop, get_elem?, sum, starts_with, ltb, ◌==◌, nat_eq, if◌then◌else◌,
}
use pygt.Constants.{
  dt1_command_id, dt1_sysex_header, gen_info, gt1000_family, identity_reply, manufacturer_id,
  model_id, non_rt_msg, rq1_sysex_header, sysex_end, sysex_start,
}

pub record IdentityReply : Type 0 where
  pub device_id : ℕ
  pub model : Option Text

unfoldable pub calculate_checksum : List ℕ → List ℕ
unfolding sum
calculate_checksum bytes = let total = sum bytes % 128 in (128 - total) ∷ []

abbrev pub checksum_or : Option (List ℕ) → List ℕ → List ℕ
checksum_or none payload = calculate_checksum payload
checksum_or (some c) payload = c

-- `header[:1] + [device_id] + header[2:]`
abbrev pub with_device : ℕ → List ℕ → List ℕ
with_device device_id header = take 1 header ++ (device_id ∷ drop 2 header)

unfoldable pub frame : ℕ → List ℕ → List ℕ → Option (List ℕ) → List ℕ
frame device_id header payload override_checksum =
    sysex_start
    ++ (with_device device_id header
        ++ (payload ++ (checksum_or override_checksum payload ++ sysex_end)))

unfoldable pub encode_dt1 : ℕ → List ℕ → Option (List ℕ) → List ℕ
unfolding frame
encode_dt1 device_id payload override_checksum =
    frame device_id dt1_sysex_header payload override_checksum

unfoldable pub encode_rq1 : ℕ → List ℕ → List ℕ → Option (List ℕ) → List ℕ
unfolding frame
encode_rq1 device_id address len override_checksum =
    frame device_id rq1_sysex_header (address ++ len) override_checksum

abbrev pub reply_header : ℕ → List ℕ
reply_header device_id =
    sysex_start ++ (manufacturer_id ++ ((device_id ∷ []) ++ (model_id ++ dt1_command_id)))

-- `xs[i : -2]`
abbrev pub slice_to_last_two {ℓ} : {A : Type ℓ} → List A → ℕ → List A
slice_to_last_two xs i = take (length xs - 2 - i) (drop i xs)

unfoldable pub parse_data_reply : ℕ → List ℕ → Option (List ℕ × List ℕ)
parse_data_reply device_id message =
    let header = reply_header device_id in
    let n = length header in
    if ltb (length message) (n + 4)
    then none
    else if starts_with message header
    then some (take 4 (drop n message), slice_to_last_two message (n + 4))
    else none

-- `message[i]`, read only where `i` is in range.
abbrev pub byte_at : List ℕ → ℕ → ℕ
byte_at message i = elim (get_elem? message i) [ some b ↦ b | none ↦ 0 ]

-- The model that the software revision levels 1 and 3 stand for.
unfoldable pub model_of : ℕ → ℕ → Option Text
model_of software_rev_1 software_rev_2 =
    if software_rev_1 == 0x00 && software_rev_2 == 0x01
    then some (text "GT-1000")
    else if software_rev_1 == 0x01 && software_rev_2 == 0x01
    then some (text "GT-1000L")
    else if software_rev_1 == 0x02 && software_rev_2 == 0x00
    then some (text "GT-1000CORE")
    else none

-- The bytes that every identity reply has, but for the device id between the second and the third.
unfoldable pub is_identity : List ℕ → Bool
is_identity m =
    byte_at m 0 == 0xF0
    && byte_at m 1 == byte_at non_rt_msg 0
    && byte_at m 3 == byte_at gen_info 0
    && byte_at m 4 == byte_at identity_reply 0
    && byte_at m 5 == byte_at manufacturer_id 0
    && byte_at m 6 == byte_at gt1000_family 0
    && byte_at m 7 == byte_at gt1000_family 1

unfoldable pub parse_identity_reply : List ℕ → Option IdentityReply
unfolding is_identity model_of
parse_identity_reply m =
    if length m == 15
    then (if is_identity m
        then some
            (record { device_id = byte_at m 2; model = model_of (byte_at m 10) (byte_at m 12) })
        else none)
    else none
