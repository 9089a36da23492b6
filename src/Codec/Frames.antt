-- ===== src/Codec/Frames.antt =====
-- pygt1000/sysex_codec.py, the encoders against `parse_data_reply`.
use pygt.Base.{
  ℕ, ◌+◌, ◌-◌, ◌≤◌, ◌≡◌, sym, ap, ◌∙◌, ◌≢◌, true, Option, none, some, List, [], ◌∷◌, ◌++◌, length,
  take, drop, starts_with, length-append, length-take, length-drop, take-append, take-append-drop,
  drop-drop, starts_with-split, arith,
}
use pygt.Codec.{
  calculate_checksum, encode_dt1, encode_rq1, reply_header, slice_to_last_two, parse_data_reply,
}

-- The frame that `encode_dt1` builds for a 4-byte address, byte by byte.
abbrev dt1_bytes : ℕ → (a b c d : ℕ) → List ℕ → ℕ → List ℕ
dt1_bytes dev a b c d values ck =
    0xF0 ∷ 0x41 ∷ dev ∷ 0 ∷ 0 ∷ 0 ∷ 0x4F ∷ 0x12 ∷ a ∷ b ∷ c ∷ d ∷ (values ++ ck ∷ 0xF7 ∷ [])

slice-dt1_bytes :
    (dev a b c d : ℕ) (values : List ℕ) (ck : ℕ)
    → slice_to_last_two (dt1_bytes dev a b c d values ck) 12 ≡ values
slice-dt1_bytes dev a b c d values ck =
    let tail : List ℕ = ck ∷ 0xF7 ∷ [] in
    let n : 12 + length (values ++ tail) - 2 - 12 ≡ length values =
      omega (arith, length-append values tail) in
    ap (λ k. take k (values ++ tail)) (omega (arith, n)) ∙ take-append values tail

parse-dt1_bytes :
    (dev a b c d : ℕ) (values : List ℕ) (ck : ℕ)
    → parse_data_reply dev (dt1_bytes dev a b c d values ck) ≡ some (a ∷ b ∷ c ∷ d ∷ [], values)
unfolding parse_data_reply
parse-dt1_bytes dev a b c d values ck = ground (arith, slice-dt1_bytes dev a b c d values ck)

-- A set message that was framed for a device is read back by that device as its address and its data.
pub parse_data_reply-encode_dt1 :
    (device_id : ℕ) (address values : List ℕ)
    → length address ≡ 4
    → parse_data_reply device_id (encode_dt1 device_id (address ++ values) none)
      ≡ some (address, values)
unfolding encode_dt1 calculate_checksum
parse_data_reply-encode_dt1 dev (a ∷ b ∷ c ∷ d ∷ []) values h = parse-dt1_bytes dev a b c d values _
parse_data_reply-encode_dt1 dev [] values h = absurd (omega arith)
parse_data_reply-encode_dt1 dev (a ∷ []) values h = absurd (omega arith)
parse_data_reply-encode_dt1 dev (a ∷ b ∷ []) values h = absurd (omega arith)
parse_data_reply-encode_dt1 dev (a ∷ b ∷ c ∷ []) values h = absurd (omega arith)
parse_data_reply-encode_dt1 dev (a ∷ b ∷ c ∷ d ∷ e ∷ r) values h = absurd (omega arith)

-- A set message that was framed for another device is no reply.
parse_data_reply-encode_dt1_other :
    (device_id other : ℕ) (payload : List ℕ) (checksum : Option (List ℕ))
    → device_id ≢ other
    → parse_data_reply device_id (encode_dt1 other payload checksum) ≡ none
unfolding parse_data_reply encode_dt1
parse_data_reply-encode_dt1_other dev other payload checksum ne = ground arith

-- A read request is no reply, to any device and whatever it asks for.
parse_data_reply-encode_rq1 :
    (device_id other : ℕ) (address len : List ℕ) (checksum : Option (List ℕ))
    → parse_data_reply device_id (encode_rq1 other address len checksum) ≡ none
unfolding parse_data_reply encode_rq1
parse_data_reply-encode_rq1 dev other address len checksum = ground arith

-- A list of six or more elements: four, the middle, and two.
four_middle_two :
    (xs : List ℕ)
    → 6 ≤ length xs
    → (length (take 4 xs) ≡ 4)
      × (xs ≡ take 4 xs ++ (take (length xs - 6) (drop 4 xs) ++ drop (length xs - 6) (drop 4 xs)))
      × (length (drop (length xs - 6) (drop 4 xs)) ≡ 2)
four_middle_two xs h = (
  length-take 4 xs (omega arith),
  rw take-append-drop (sym (take-append-drop 4 xs)),
  omega (arith, length-drop 4 xs, length-drop (length xs - 6) (drop 4 xs)),
)

parse_data_reply_inv :
    (dev : ℕ) (m offset values : List ℕ)
    → parse_data_reply dev m ≡ some (offset, values)
    → (starts_with m (reply_header dev) ≡ true)
      × (offset ≡ take 4 (drop 8 m))
      × (values ≡ slice_to_last_two m 12)
unfolding parse_data_reply
parse_data_reply_inv dev m offset values h = ground arith

-- What is read as a reply from a message of 14 bytes or more: the message begins with the header for the device, holds the
-- 4-byte address and the data in their places, and ends in two bytes that are not looked at.
pub parse_data_reply_sound :
    (device_id : ℕ) (message offset values : List ℕ)
    → 14 ≤ length message
    → parse_data_reply device_id message ≡ some (offset, values)
    → (length offset ≡ 4)
      × (tail : List ℕ) × (length tail ≡ 2)
      × (message ≡ reply_header device_id ++ (offset ++ (values ++ tail)))
parse_data_reply_sound dev m offset values long h =
    let (head, at_offset, at_values) = parse_data_reply_inv dev m offset values h in
    let (four, split, two) = four_middle_two (drop 8 m) (omega (arith, length-drop 8 m)) in
    let n : length (drop 8 m) - 6 ≡ length m - 2 - 12 = omega (arith, length-drop 8 m) in
    let parts = rw (n, drop-drop 8 4 m) at split in
    rw (at_offset, at_values)
      (
        four,
        drop (length m - 2 - 12) (drop 12 m),
        rw (n, drop-drop 8 4 m) at two,
        starts_with-split m (reply_header dev) head ∙ ap (λ r. reply_header dev ++ r) parts,
      )
