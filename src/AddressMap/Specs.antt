-- ===== src/AddressMap/Specs.antt =====
-- pygt1000/address_map.py: from the spec files to the wire and back.
use pygt.Base.{ℕ, ◌≡◌, ◌∙◌, Text, text, true, some, List, [], ◌∷◌, list_eq, nat_eq, starts_with, ok}
use pygt.Base.Dict.{Dict, get}
use pygt.Values.{Value, int}
use pygt.AddressMap.{
  AddressMap, Area, Setting, Table, areas, settings, DecodedValue, base_addresses, width_of,
}
use pygt.AddressMap.Encode.{address_for, resolve_value}
use pygt.AddressMap.Decode.{reply, decode, label_for_raw}
use pygt.AddressMap.Load.{load}
use pygt.AddressMap.Addresses.{IsMapped, IsLaidOut}
use pygt.AddressMap.RoundTrip.{IsRegistered, decode-address_for}
use pygt.AddressMap.Values.{Fits}
use pygt.AddressMap.Imports.{last_option, last_setting, last_section}
use pygt.AddressMap.Registries.{is_container}
use pygt.AddressMap.Loaded.{IsFile, load-tables, load-last_byte, load-offsets, load-sections}

-- Where the spec files have a setting, and that no later section, option or setting has its bytes.
pub record IsSpec (files : List (Text × Table)) (section option setting : Text) (sa oa : Area)
    (entry : Setting) (a b c e : ℕ) : Type 0 where
  pub base : Dict Text Area
  pub container : Dict Text Area
  pub options : Dict Text Setting
  pub base_file : IsFile files base_addresses (areas base)
  pub container_file : IsFile files sa.table (areas container)
  pub options_file : IsFile files oa.table (settings options)
  pub in_base : get base section ≡ some sa
  pub in_container : get container option ≡ some oa
  pub in_options : get options setting ≡ some entry
  pub is_patch : is_container sa.table ≡ true
  pub is_block : starts_with oa.table (text "Patch") ≡ true
  pub own_bytes : last_section a b base ≡ some (section, sa.table)
  pub own_offset : last_option c container ≡ some (option, oa.table)
  pub own_last : last_setting e options ≡ some (setting, entry)

module _ (fx_types : List Text) (files : List (Text × Table)) (m : AddressMap)
    (loaded : load fx_types files ≡ ok m) (section option setting : Text) (sa oa : Area)
    (entry : Setting) (a b c e : ℕ)
    (spec : IsSpec files section option setting sa oa entry a b c e) where
  load-IsMapped : IsMapped m section option setting sa oa entry
  load-IsMapped = record {
    base = spec.base;
    container = spec.container;
    options = spec.options;
    at_base = load-tables fx_types files m loaded base_addresses (areas spec.base) spec.base_file;
    at_section = spec.in_base;
    at_container =
        load-tables fx_types files m loaded sa.table (areas spec.container) spec.container_file;
    at_option = spec.in_container;
    at_table =
        load-tables fx_types files m loaded oa.table (settings spec.options) spec.options_file;
    at_setting = spec.in_options;
  }

  load-IsRegistered : IsRegistered m section option setting sa oa entry a b c e
  load-IsRegistered =
      let (offs, at, found) =
        load-offsets fx_types files m loaded sa.table spec.container c spec.container_file
          spec.is_patch in
      let (r, at', found') =
        load-last_byte fx_types files m loaded oa.table spec.options e spec.options_file
          spec.is_block in
      record {
        offsets = offs;
        options = r;
        at_bytes =
            load-sections fx_types files m loaded spec.base a b spec.base_file ∙ spec.own_bytes;
        at_table = at;
        at_offset = found ∙ spec.own_offset;
        at_patch_table = at';
        at_last = found' ∙ spec.own_last;
      }

  -- Take a setting that stands in three spec files, each the only one of its name: a section of base-addresses, an option of
  -- Patch, Patch2 or Patch3 with an options table of a Patch name, and a setting there with names. The section's address has two bytes
  -- and two zeros, the first byte not 0, the option's a zero, one byte and a zero (so its last byte is 0), the setting's offset
  -- a zero and one byte, and no later section, option or setting has the same byte. In the map that is loaded from the files,
  -- a value that fits the setting's bytes, by number or by name, is encoded at the address made of these bytes, and what is
  -- received from there is decoded as that setting of that option, with that number and the first name of the number.
  pub load-decode-address_for :
      (raw : ℕ) (value : Value) (values : Dict Text ℕ)
      → IsLaidOut sa oa entry a b c 0 e
      → entry.values ≡ some values
      → resolve_value values value ≡ int raw
      → Fits (width_of entry) raw
      → (bs : List ℕ) × (d : DecodedValue) × (address_for m section option setting (some value)
          ≡ ok (some (a ∷ b ∷ c ∷ e ∷ bs)))
        × (decode m (a ∷ b ∷ c ∷ e ∷ []) (reply bs) ≡ ok (some d))
        × (d.section ≡ section)
        × (d.name ≡ option)
        × (d.value_name ≡ setting)
        × (d.int_value ≡ raw)
        × (d.str_value ≡ label_for_raw values raw)
  load-decode-address_for raw value values laid named resolved fits =
      decode-address_for m section option setting sa oa entry a b c e raw value values load-IsMapped
        laid load-IsRegistered named resolved fits
