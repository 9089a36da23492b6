-- ===== src/Device/Reader.antt =====
-- pygt1000/block_reader.py: one setting read from the device.
use pygt.Base.{
  ℕ, Text, text, Bool, true, Option, none, some, List, [], ◌∷◌, take, ltb, get_elem?, ◌==◌, list_eq,
  if◌then◌else◌, Result, ok, err, key_error, index_error, type_error, or_raise, ◌>>=◌, Act, pure,
  lift, ◌>>>◌,
}
use pygt.Values.{Value, int}
use pygt.Bytes.{unpack_nibbles}
use pygt.AddressMap.{AddressMap}
use pygt.AddressMap.Blocks.{suffix_of}
use pygt.AddressMap.Encode.{address_for_block, block_setting_bytes}
use pygt.AddressMap.Labels.{fx_value_table, fx_name_value_table, read_label}
use pygt.Device.{Device}

-- The number that the bytes of a reply stand for.
unfoldable pub value_of_reply : ℕ → Option (List ℕ) → Result (Option ℕ)
value_of_reply width none = ok none
value_of_reply width (some bytes) =
    if ltb 1 width
    then ok (some (unpack_nibbles (take width bytes)))
    else (or_raise (get_elem? bytes 0) index_error >>= λ b. ok (some b))

-- An address that is None fails where the request is framed.
unfoldable pub fetch_value {ℓ} : {D : Type ℓ} → Device D → Option (List ℕ) → ℕ → Act D (Option ℕ)
unfolding value_of_reply
fetch_value dev offset width = lift (or_raise offset type_error) >>> λ address.
    dev.fetch address (0 ∷ 0 ∷ 0 ∷ width ∷ []) >>> λ bytes. lift (value_of_reply width bytes)

unfoldable pub presented : AddressMap → Text → Text → Bool → Option ℕ → Result (Option Value)
presented m fx_type setting just_range none = ok none
presented m fx_type setting just_range (some raw) =
    if just_range
    then ok (some (int raw))
    else (fx_value_table m fx_type >>= λ table.
        read_label table setting raw >>= λ label. ok (some label))

unfoldable pub read {ℓ} :
    {D : Type ℓ} → Device D → Text → Value → Text → Bool → Act D (Option Value)
unfolding fetch_value presented
read dev fx_type fx_id setting just_range =
    lift (address_for_block dev.address_map fx_type fx_id setting none none) >>> λ offset.
    lift (block_setting_bytes dev.address_map fx_type fx_id setting none) >>> λ width.
    fetch_value dev offset width >>> λ raw.
    lift (presented dev.address_map fx_type setting just_range raw)

-- `FX_TO_TABLE_SUFFIX[fx_name]`, for a name that may be None.
unfoldable pub suffix_for : Option Value → Result Text
suffix_for none = err key_error
suffix_for (some name) = suffix_of name

unfoldable pub presented_fx : AddressMap → Option Value → Text → Option ℕ → Result (Option Value)
unfolding suffix_for
presented_fx m fx_name setting none = ok none
presented_fx m fx_name setting (some raw) = suffix_for fx_name >>= λ suffix.
    fx_name_value_table m suffix >>= λ table.
    read_label table setting raw >>= λ label. ok (some label)

unfoldable pub read_fx {ℓ} : {D : Type ℓ} → Device D → Text → Value → Text → Act D (Option Value)
unfolding fetch_value presented_fx
read_fx dev fx_type fx_id setting = dev.fx_name_for fx_id >>> λ fx_name.
    lift (address_for_block dev.address_map fx_type fx_id setting none fx_name) >>> λ offset.
    elim offset [
      | none ↦ pure none
      | some address ↦
          lift (block_setting_bytes dev.address_map fx_type fx_id setting fx_name) >>> λ width.
          fetch_value dev (some address) width >>> λ raw.
          lift (presented_fx dev.address_map fx_name setting raw)
    ]

unfoldable pub read_value {ℓ} : {D : Type ℓ} → Device D → Text → Value → Text → Act D (Option Value)
unfolding read read_fx
read_value dev fx_type fx_id option =
    if fx_type == text "fx"
    then read_fx dev fx_type fx_id option
    else read dev fx_type fx_id option true
