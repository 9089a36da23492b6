-- ===== src/Device/Settings.antt =====
-- pygt1000/block_reader.py, `read`, against `address_for_block`: parameters written and read.
use pygt.Base.{ℕ, ◌+◌, ◌≡◌, Text, true, none, some, List, [], ◌∷◌, ◌++◌, list_eq, ok, ◌>>=◌, arith}
use pygt.Base.Dict.{Dict}
use pygt.Values.{Value, int}
use pygt.AddressMap.{AddressMap, Area, Setting, table_of, has_key, area_at, width_of}
use pygt.AddressMap.Blocks.{block_section_option}
use pygt.AddressMap.Encode.{
  address_for_block, block_setting_bytes, setting_bytes, width_in_table, encode_value,
  resolve_value,
}
use pygt.AddressMap.Decode.{reply, int_value_of}
use pygt.AddressMap.Addresses.{
  IsMapped, IsLaidOut, address_for-IsMapped, address-IsLaidOut, has-some,
}
use pygt.AddressMap.Values.{Fits, int_value_of-value_bytes}
use pygt.Device.{Device}
use pygt.Device.Reader.{value_of_reply, fetch_value, presented, read}

setting_bytes-IsMapped :
    (m : AddressMap) (section option setting : Text) (sa oa : Area) (entry : Setting)
    → IsMapped m section option setting sa oa entry
    → setting_bytes m section option setting ≡ ok (width_of entry)
unfolding setting_bytes table_of has_key area_at width_in_table
setting_bytes-IsMapped m section option setting sa oa entry h = rw (
  h.at_base,
  has-some h.base section sa h.at_section,
  h.at_section,
  h.at_container,
  has-some h.container option oa h.at_option,
  h.at_option,
  h.at_table,
  h.at_setting,
)

value_of_reply-int_value_of :
    (width : ℕ) (bs : List ℕ)
    → value_of_reply width (some bs) ≡ (int_value_of width (reply bs) >>= λ raw. ok (some raw))
unfolding value_of_reply int_value_of
value_of_reply-int_value_of width bs = ground arith

-- A unit that answers a read of `width` bytes at `address` with the bytes that were last written there.
pub record Remembers {ℓ} {D : Type ℓ} (dev : Device D) (address : List ℕ) (width : ℕ) : Type ℓ where
  pub answer :
      (bytes : List ℕ) (d : D)
      → dev.fetch address (0 ∷ 0 ∷ 0 ∷ width ∷ []) (dev.set (address ++ bytes) d)
        ≡ (ok (some bytes), dev.set (address ++ bytes) d)

-- Take a mapped setting of a block, with names, and a number that fits its bytes. The section's address has two bytes and two
-- zeros, the first byte not 0, the option's a zero and two bytes, the offset a zero and one byte, and the last bytes do not carry.
-- What address_for_block builds to write the number, sent to a unit that answers a read there with the bytes last written,
-- makes read, called with just_range, return that number.
pub address_for_block-read {ℓ} :
    {D : Type ℓ} (dev : Device D) (fx_type : Text) (fx_id : Value) (section option setting : Text)
    (sa oa : Area) (entry : Setting) (a b c x e raw : ℕ) (values : Dict Text ℕ) (d : D)
    → block_section_option dev.address_map fx_type fx_id none ≡ ok (section, option)
    → IsMapped dev.address_map section option setting sa oa entry
    → IsLaidOut sa oa entry a b c x e
    → entry.values ≡ some values
    → Fits (width_of entry) raw
    → Remembers dev (a ∷ b ∷ c ∷ (x + e) ∷ []) (width_of entry)
    → (bs : List ℕ) × (address_for_block dev.address_map fx_type fx_id setting (some (int raw)) none
        ≡ ok (some (a ∷ b ∷ c ∷ (x + e) ∷ bs)))
      × ((read dev fx_type fx_id setting true (dev.set (a ∷ b ∷ c ∷ (x + e) ∷ bs) d)).0
          ≡ ok (some (int raw)))
address_for_block-read dev fx_type fx_id section option setting sa oa entry a b c x e raw values d
      placed mapped laid named fits mem =
    let (bs, written, back) = int_value_of-value_bytes (width_of entry) raw fits in
    let at = address-IsLaidOut sa oa entry a b c x e laid in
    let bare =
      address_for-IsMapped dev.address_map section option setting sa oa entry mapped none in
    let full =
      address_for-IsMapped dev.address_map section option setting sa oa entry mapped
        (some (int raw)) in
    let width = setting_bytes-IsMapped dev.address_map section option setting sa oa entry mapped in
    let valued = value_of_reply-int_value_of (width_of entry) bs in
    (
      bs,
      (unfold address_for_block encode_value resolve_value in
          ground (arith, placed, full, at, named, written)),
      (unfold read address_for_block block_setting_bytes fetch_value presented encode_value in
          ground (arith, placed, bare, at, width, valued, back, mem.answer bs d)),
    )
