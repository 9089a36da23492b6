-- ===== src/Facade/Outbound.antt =====
-- pygt1000/gt1000.py, `set_fx_value`: what a call that sets a value puts on the wire.
use pygt.Base.{
  ℕ, ◌≡◌, refl, Text, text, ok, list_eq, Result, ◌==◌, if◌then◌else◌, Option, none, some, List, [],
  ◌∷◌, ◌++◌, arith,
}
use pygt.Base.Dict.{Dict}
use pygt.Codec.{encode_dt1, parse_data_reply}
use pygt.Codec.Frames.{parse_data_reply-encode_dt1}
use pygt.Values.{Value, int}
use pygt.AddressMap.{AddressMap, Area, Setting, Table, DecodedValue, width_of}
use pygt.AddressMap.Blocks.{block_section_option}
use pygt.AddressMap.Encode.{address_for, address_for_block, resolve_value}
use pygt.AddressMap.Decode.{reply, decode}
use pygt.AddressMap.Addresses.{IsLaidOut}
use pygt.AddressMap.Load.{load}
use pygt.AddressMap.Specs.{IsSpec, load-decode-address_for}
use pygt.PatchState.{fx_name}
use pygt.AddressMap.Values.{Fits}
use pygt.Link.{send, set}
use pygt.Facade.{Gt1000, set_link, write_address, set_fx_value}

-- The effect that is loaded in an fx block, which decides its table; a block of another type has none.
abbrev pub loaded_effect : Text → Value → Gt1000 → Result (Option Value)
loaded_effect fx_type fx_id gt = if fx_type == text "fx" then fx_name fx_id gt.state else ok none

address_for_block-section :
    (m : AddressMap) (fx_type : Text) (fx_id : Value) (section option setting : Text)
    (value effect : Option Value)
    → block_section_option m fx_type fx_id effect ≡ ok (section, option)
    → address_for_block m fx_type fx_id setting value effect
      ≡ address_for m section option setting value
unfolding address_for_block
address_for_block-section m fx_type fx_id section option setting value effect h = rw h refl

-- With the map that is loaded from the spec files: setting a parameter of a block, of fx or of another type, sends one
-- frame, which the unit it is framed for reads as an address and bytes that are decoded as that parameter, in the option
-- of the block and of its effect, with that number. The block's effect, section and option are found, the parameter is one with
-- names of an option of Patch, Patch2 or Patch3 with an options table of a Patch name, and the three files are the only ones of
-- their names. The section's address has two bytes and two zeros, the first byte not 0, the option's a zero, one byte and a
-- zero (so its last byte is 0), the parameter's offset a zero and one byte, no later section, option or setting has the same
-- byte, and the number fits the parameter's bytes.
pub set_fx_value-frame :
    (gt : Gt1000) (fx_type : Text) (fx_id : Value) (effect : Option Value)
    (section option setting : Text) (sa oa : Area) (entry : Setting) (a b c e raw : ℕ)
    (values : Dict Text ℕ) (fx_types : List Text) (files : List (Text × Table))
    → load fx_types files ≡ ok gt.address_map
    → IsSpec files section option setting sa oa entry a b c e
    → loaded_effect fx_type fx_id gt ≡ ok effect
    → block_section_option gt.address_map fx_type fx_id effect ≡ ok (section, option)
    → IsLaidOut sa oa entry a b c 0 e
    → entry.values ≡ some values
    → Fits (width_of entry) raw
    → (frame offset bytes : List ℕ) × (d : DecodedValue) × (set_fx_value fx_type fx_id setting raw
          gt
        ≡ (ok tt, record gt { link = record gt.link { sent = gt.link.sent ++ frame ∷ [] } }))
      × (parse_data_reply gt.link.device_id frame ≡ some (offset, bytes))
      × (decode gt.address_map offset (reply bytes) ≡ ok (some d))
      × (d.name ≡ option)
      × (d.value_name ≡ setting)
      × (d.int_value ≡ raw)
set_fx_value-frame gt fx_type fx_id effect section option setting sa oa entry a b c e raw values
      fx_types files loaded spec known placed laid named fits =
    let (bs, d, written, decoded, sec, nam, val, num, _) =
      load-decode-address_for fx_types files gt.address_map loaded section option setting sa oa
        entry a b c e spec raw (int raw) values laid named (unfold resolve_value in refl) fits in
    let frame = encode_dt1 gt.link.device_id ((a ∷ b ∷ c ∷ e ∷ []) ++ bs) none in
    let addressed =
      address_for_block-section gt.address_map fx_type fx_id section option setting (some (int raw))
        effect placed in
    (
      frame,
      a ∷ b ∷ c ∷ e ∷ [],
      bs,
      d,
      (unfold set_fx_value write_address set_link set send in
          ground (arith, known, addressed, written)),
      parse_data_reply-encode_dt1 gt.link.device_id (a ∷ b ∷ c ∷ e ∷ []) bs refl,
      decoded,
      nam,
      val,
      num,
    )
