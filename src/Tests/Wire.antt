-- ===== src/Tests/Wire.antt =====
-- Frames, bytes and nibbles.
use pygt.Base.{
  ℕ, ◌≡◌, refl, none, some, text, List, [], ◌∷◌, ◌++◌, arith, length, sum, ◌%◌, ◌≤◌, ◌+◌, ◌*◌, ◌==◌,
  nat_eq,
}
use pygt.Bytes.{bit_length, bit_length_fuel, to_bytes, int_to_bytes}
use pygt.Codec.{
  IdentityReply, calculate_checksum, byte_at, encode_dt1, parse_data_reply, parse_identity_reply,
  model_of, is_identity, reply_header,
}
use pygt.Codec.Checksum.{calculate_checksum_lem}
use pygt.Codec.Frames.{parse_data_reply-encode_dt1, parse_data_reply_sound}

abbrev sw_address : List ℕ
sw_address = 16 ∷ 0 ∷ 18 ∷ 0 ∷ []

parse_data_reply-encode_dt1_example :
    parse_data_reply 0x10 (encode_dt1 0x10 (sw_address ++ 1 ∷ []) none) ≡ some (sw_address, 1 ∷ [])
parse_data_reply-encode_dt1_example = parse_data_reply-encode_dt1 0x10 sw_address (1 ∷ []) refl

abbrev sw_frame : List ℕ
sw_frame = 0xF0 ∷ 0x41 ∷ 0x10 ∷ 0 ∷ 0 ∷ 0 ∷ 0x4F ∷ 0x12 ∷ 16 ∷ 0 ∷ 18 ∷ 0 ∷ 1 ∷ 93 ∷ 0xF7 ∷ []

sw_frame-parsed : parse_data_reply 0x10 sw_frame ≡ some (sw_address, 1 ∷ [])
unfolding parse_data_reply
sw_frame-parsed = refl

parse_data_reply_sound_example :
    (length sw_address ≡ 4)
    × (tail : List ℕ) × (length tail ≡ 2)
    × (sw_frame ≡ reply_header 0x10 ++ (sw_address ++ (1 ∷ [] ++ tail)))
parse_data_reply_sound_example =
    parse_data_reply_sound 0x10 sw_frame sw_address (1 ∷ []) (omega arith) sw_frame-parsed

calculate_checksum_example :
    let c = byte_at (calculate_checksum (1 ∷ 127 ∷ [])) 0 in
    (calculate_checksum (1 ∷ 127 ∷ []) ≡ c ∷ [])
    × (1 ≤ c)
    × (c ≤ 128)
    × ((sum (1 ∷ 127 ∷ []) + c) % 128 ≡ 0)
    × ((c == 128) ≡ (sum (1 ∷ 127 ∷ []) % 128 == 0))
calculate_checksum_example = calculate_checksum_lem (1 ∷ 127 ∷ [])

abbrev identity_frame : List ℕ
identity_frame =
    0xF0 ∷ 0x7E ∷ 0x10 ∷ 0x06 ∷ 0x02 ∷ 0x41 ∷ 0x4F ∷ 0x03 ∷ 0 ∷ 0 ∷ 0x02 ∷ 0 ∷ 0 ∷ 0 ∷ 0xF7 ∷ []

abbrev core_reply : IdentityReply
core_reply = record { device_id = 0x10; model = some (text "GT-1000CORE") }

identity_frame-parsed : parse_identity_reply identity_frame ≡ some core_reply
unfolding parse_identity_reply is_identity model_of
identity_frame-parsed = refl

int_to_bytes-run : int_to_bytes (16 * 16777216 + 18 * 256 + 2) ≡ 16 ∷ 0 ∷ 18 ∷ 2 ∷ []
unfolding int_to_bytes bit_length bit_length_fuel to_bytes
int_to_bytes-run = refl
