-- ===== src/AddressMap/Addresses.antt =====
-- pygt1000/address_map.py, `address_for`: the address of a setting, byte by byte.
use pygt.Base.{
  ℕ, ◌+◌, ◌*◌, ◌<◌, ◌≡◌, ap, ◌∙◌, Text, true, Option, none, some, [], ◌∷◌, ok, arith, list_eq,
  ◌>>=◌,
}
use pygt.Base.Dict.{Dict, get, has, has-get}
use pygt.Bytes.{bytes_to_int, int_to_bytes}
use pygt.Bytes.Integers.{int_to_bytes-four}
use pygt.Values.{Value}
use pygt.AddressMap.{
  AddressMap, Area, Setting, areas, settings, base_addresses, table_of, has_key, area_at,
  setting_at,
}
use pygt.AddressMap.Encode.{address_for, address_in_section, address_in_table, encode_value}

-- Where a setting stands: the areas of its section and of its option, and its entry.
pub record IsMapped (m : AddressMap) (section option setting : Text)
    (section_area option_area : Area) (entry : Setting) : Type 0 where
  pub base : Dict Text Area
  pub container : Dict Text Area
  pub options : Dict Text Setting
  pub at_base : get m.tables base_addresses ≡ some (areas base)
  pub at_section : get base section ≡ some section_area
  pub at_container : get m.tables section_area.table ≡ some (areas container)
  pub at_option : get container option ≡ some option_area
  pub at_table : get m.tables option_area.table ≡ some (settings options)
  pub at_setting : get options setting ≡ some entry

pub has-some : {V : Type 0} (d : Dict Text V) (k : Text) (v : V) → get d k ≡ some v → has d k ≡ true
has-some d k v h = rw (has-get d k, h)

module _ (m : AddressMap) (section option setting : Text) (sa oa : Area) (entry : Setting)
    (h : IsMapped m section option setting sa oa entry) where
  -- For a setting that is mapped the address is the sum of the three parts, and the value follows it.
  pub address_for-IsMapped :
      (value : Option Value)
      → address_for m section option setting value ≡ (
          encode_value entry
            (bytes_to_int sa.address + bytes_to_int oa.address + bytes_to_int entry.offset)
            value
          >>= λ bytes. ok (some bytes))
  unfolding address_for address_in_section address_in_table table_of has_key area_at setting_at
  address_for-IsMapped value = rw (
    h.at_base,
    has-some h.base section sa h.at_section,
    h.at_section,
    h.at_container,
    has-some h.container option oa h.at_option,
    h.at_option,
    h.at_table,
    has-some h.options setting entry h.at_setting,
    h.at_setting,
  )

-- The addresses of the spec files: the section fills the two high bytes, the option a middle byte and
-- perhaps the last one, the setting the last one, and none runs into the byte above it.
pub record IsLaidOut (sa oa : Area) (entry : Setting) (a b c d e : ℕ) : Type 0 where
  pub section_bytes : sa.address ≡ a ∷ b ∷ 0 ∷ 0 ∷ []
  pub option_bytes : oa.address ≡ 0 ∷ c ∷ d ∷ []
  pub setting_bytes : entry.offset ≡ 0 ∷ e ∷ []
  pub a_pos : 0 < a
  pub a_byte : a < 256
  pub b_byte : b < 256
  pub c_byte : c < 256
  pub no_carry : d + e < 256

sum-IsLaidOut :
    (sa oa : Area) (entry : Setting) (a b c d e : ℕ)
    → IsLaidOut sa oa entry a b c d e
    → bytes_to_int sa.address + bytes_to_int oa.address + bytes_to_int entry.offset
      ≡ a * 16777216 + b * 65536 + c * 256 + (d + e)
unfolding bytes_to_int
sum-IsLaidOut sa oa entry a b c d e l =
    rw (l.section_bytes, l.option_bytes, l.setting_bytes) (omega arith)

pub address-IsLaidOut :
    (sa oa : Area) (entry : Setting) (a b c d e : ℕ)
    → IsLaidOut sa oa entry a b c d e
    → int_to_bytes (bytes_to_int sa.address + bytes_to_int oa.address + bytes_to_int entry.offset)
      ≡ a ∷ b ∷ c ∷ (d + e) ∷ []
address-IsLaidOut sa oa entry a b c d e l =
    ap int_to_bytes (sum-IsLaidOut sa oa entry a b c d e l)
    ∙ int_to_bytes-four a b c (d + e) l.a_pos l.a_byte l.b_byte l.c_byte l.no_carry

-- The address of a mapped setting is the four bytes of its section, its option and its offset, put together.
pub address_for-bytes :
    (m : AddressMap) (section option setting : Text) (sa oa : Area) (entry : Setting)
    (a b c d e : ℕ)
    → IsMapped m section option setting sa oa entry
    → IsLaidOut sa oa entry a b c d e
    → address_for m section option setting none ≡ ok (some (a ∷ b ∷ c ∷ (d + e) ∷ []))
address_for-bytes m section option setting sa oa entry a b c d e h l =
    address_for-IsMapped m section option setting sa oa entry h none
    ∙ (unfold encode_value in ap (λ x. ok (some x)) (address-IsLaidOut sa oa entry a b c d e l))
