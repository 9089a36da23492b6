-- ===== src/AddressMap/RoundTrip.antt =====
-- pygt1000/address_map.py, `address_for` against `decode`, given what the registries hold.
use pygt.Base.{
  ℕ, ◌+◌, ◌≡◌, inl, inr, refl, ap, subst, ◌∙◌, ◌&&◌, remove_all, Text, text, true, false,
  Bool-cases, Option, none, some, List, [], ◌∷◌, ◌++◌, ok, arith, list_eq, nat_eq, list_beq,
  list_beq_iff, ◌==◌, get_elem?, starts_with,
}
use pygt.Base.Dict.{Dict, get}
use pygt.Bytes.{bytes_to_int, int_to_bytes}
use pygt.Values.{Value, int}
use pygt.AddressMap.{AddressMap, Area, Setting, DecodedValue, width_of}
use pygt.AddressMap.Encode.{address_for, encode_value, value_bytes, resolve_value}
use pygt.AddressMap.Decode.{
  Raw, reply, label_for_raw, int_value_of, Hops, hops, match_type, match_types, id_of_name,
  fx_id_of, suffix_of_name, name_of_suffix, decode_hops, decode,
}
use pygt.AddressMap.Values.{Fits, int_value_of-value_bytes}
use pygt.AddressMap.Addresses.{IsMapped, IsLaidOut, address_for-IsMapped, address-IsLaidOut}

-- The registries hold what the tables say of a setting: its section by its two high bytes, its option by the third,
-- its entry by the last.
pub record IsRegistered (m : AddressMap) (section option setting : Text) (sa oa : Area)
    (entry : Setting) (a b c e : ℕ) : Type 0 where
  pub offsets : Dict ℕ (Text × Text)
  pub options : Dict ℕ (Text × Setting)
  pub at_bytes : get m.first_two_bytes (a ∷ b ∷ []) ≡ some (section, sa.table)
  pub at_table : get m.offset_in_patch_tables sa.table ≡ some offsets
  pub at_offset : get offsets c ≡ some (option, oa.table)
  pub at_patch_table : get m.last_byte_option oa.table ≡ some options
  pub at_last : get options e ≡ some (setting, entry)

-- What the loop over the types found: without an id, the name begins with the type and is longer.
abbrev IsMatch : Text → Option Text → Option Text → Type 0
IsMatch name none fx_id = Unit {0}
IsMatch name (some t) (some id) = Unit {0}
IsMatch name (some t) none = (starts_with name t ≡ true) × ((name == t) ≡ false)

IsMatch-begins :
    (name i : Text) (id : Option Text)
    → starts_with name i ≡ true
    → (name == i) ≡ false
    → IsMatch name (some i) id
IsMatch-begins name i none e e' = (e, e')
IsMatch-begins name i (some id) e e' = tt

match_type-IsMatch :
    (name i : Text) (found : Option Text × Option Text)
    → IsMatch name found.0 found.1
    → IsMatch name (match_type name i found).0 (match_type name i found).1
unfolding match_type
match_type-IsMatch name i (t, id) h = elim (Bool-cases (starts_with name i)) [
  | inr e ↦ rw e h
  | inl e ↦ elim (Bool-cases (name == i)) [
    | inl e' ↦ rw (e, e') tt
    | inr e' ↦ rw (e, e') (IsMatch-begins name i id e e')
  ]
]

match_types-IsMatch :
    (types : List Text) (name : Text) (found : Option Text × Option Text)
    → IsMatch name found.0 found.1
    → IsMatch name (match_types types name found).0 (match_types types name found).1
unfolding match_types
match_types-IsMatch [] name found h = h
match_types-IsMatch (i ∷ types) name found h =
    match_types-IsMatch types name (match_type name i found) (match_type-IsMatch name i found h)

third_of_fx :
    (name : Text)
    → starts_with name (text "fx") ≡ true
    → (name == text "fx") ≡ false
    → (c : ℕ) × (get_elem? name 2 ≡ some c)
unfolding list_beq
third_of_fx [] b n = cc
third_of_fx (x ∷ []) b n = ground arith
third_of_fx (x ∷ y ∷ []) b n = ground arith
third_of_fx (x ∷ y ∷ z ∷ name) b n = (z, refl)

id_of_name_total :
    (t name : Text)
    → starts_with name t ≡ true
    → (name == t) ≡ false
    → (id : Text) × (id_of_name t name ≡ ok id)
unfolding id_of_name
id_of_name_total t name b n = elim (Bool-cases (t == text "preamp" && name == text "preampA")) [
  | inl e ↦ (text "1", rw e)
  | inr e ↦ elim (Bool-cases (t == text "preamp" && name == text "preampB")) [
    | inl e' ↦ (text "2", rw (e, e'))
    | inr e' ↦ elim (Bool-cases (t == text "fx")) [
      | inr e'' ↦ (remove_all t name, rw (e, e', e''))
      | inl e'' ↦
          let same : t ≡ text "fx" = (list_beq_iff t (text "fx")).0 e'' in
          let (c, third) =
            third_of_fx name (subst (λ u. starts_with name u ≡ true) same b)
              (subst (λ u. (name == u) ≡ false) same n) in
          (c ∷ [], rw (e, e', e'', third))
    ]
  ]
]

fx_id_of_total :
    (name : Text) (t id : Option Text)
    → IsMatch name t id
    → (id' : Option Text) × (fx_id_of t id name ≡ ok id')
unfolding fx_id_of
fx_id_of_total name none id h = (id, refl)
fx_id_of_total name (some t) (some id) h = (some id, refl)
fx_id_of_total name (some t) none h =
    let (id, e) = id_of_name_total t name h.0 h.1 in (some id, rw e)

-- What `decode` returns for an entry that has its names, once its bytes are read.
decode_hops_total :
    (m : AddressMap) (h : Hops) (value : Raw) (raw : ℕ) (values : Dict Text ℕ)
    → int_value_of (width_of h.value_entry) value ≡ ok raw
    → h.value_entry.values ≡ some values
    → (d : DecodedValue) × (decode_hops m h value ≡ ok d)
      × (d.section ≡ h.section)
      × (d.name ≡ h.name)
      × (d.value_name ≡ h.value_name)
      × (d.int_value ≡ raw)
      × (d.str_value ≡ label_for_raw values raw)
unfolding decode_hops
decode_hops_total m h value raw values read named =
    let found = match_types m.fx_types h.name (none, none) in
    let (id, e) =
      fx_id_of_total h.name found.0 found.1
        (match_types-IsMatch m.fx_types h.name (none, none) tt) in
    let suffix = suffix_of_name found.0 h.name in
    let d : DecodedValue = record {
      section = h.section;
      table = h.table;
      name = h.name;
      patch_table = h.patch_table;
      value_name = h.value_name;
      str_value = label_for_raw values raw;
      int_value = raw;
      fx_type = found.0;
      fx_id = id;
      fx_table_suffix = suffix;
      fx_name = name_of_suffix suffix;
    } in
    (d, simp (read, named, e), refl, refl, refl, refl, refl)

hops-IsRegistered :
    (m : AddressMap) (section option setting : Text) (sa oa : Area) (entry : Setting) (a b c e : ℕ)
    → IsRegistered m section option setting sa oa entry a b c e
    → hops m a b c e
      ≡ some (record {
        section = section;
        table = sa.table;
        name = option;
        patch_table = oa.table;
        value_name = setting;
        value_entry = entry;
      })
unfolding hops
hops-IsRegistered m section option setting sa oa entry a b c e r =
    rw (r.at_bytes, r.at_table, r.at_offset, r.at_patch_table, r.at_last)

decode-hops :
    (m : AddressMap) (a b c d : ℕ) (value : Raw) (h : Hops) (decoded : DecodedValue)
    → hops m a b c d ≡ some h
    → decode_hops m h value ≡ ok decoded
    → decode m (a ∷ b ∷ c ∷ d ∷ []) value ≡ ok (some decoded)
unfolding decode
decode-hops m a b c d value h decoded found e = rw (found, decode, e)

encode_value-some :
    (entry : Setting) (address raw : ℕ) (value : Value) (values : Dict Text ℕ) (bs : List ℕ)
    → entry.values ≡ some values
    → resolve_value values value ≡ int raw
    → value_bytes (width_of entry) (int raw) ≡ ok bs
    → encode_value entry address (some value) ≡ ok (int_to_bytes address ++ bs)
unfolding encode_value
encode_value-some entry address raw value values bs named resolved written =
    simp (named, resolved, written)

-- A value that is written to a setting, by number or by name, and then received from the address that it was
-- written to, is decoded as that setting of that option, with the number and with the first name of the number.
pub decode-address_for :
    (m : AddressMap) (section option setting : Text) (sa oa : Area) (entry : Setting)
    (a b c e raw : ℕ) (value : Value) (values : Dict Text ℕ)
    → IsMapped m section option setting sa oa entry
    → IsLaidOut sa oa entry a b c 0 e
    → IsRegistered m section option setting sa oa entry a b c e
    → entry.values ≡ some values
    → resolve_value values value ≡ int raw
    → Fits (width_of entry) raw
    → (bs : List ℕ) × (d : DecodedValue) × (address_for m section option setting (some value)
        ≡ ok (some (a ∷ b ∷ c ∷ e ∷ bs)))
      × (decode m (a ∷ b ∷ c ∷ e ∷ []) (reply bs) ≡ ok (some d))
      × (d.section ≡ section)
      × (d.name ≡ option)
      × (d.value_name ≡ setting)
      × (d.int_value ≡ raw)
      × (d.str_value ≡ label_for_raw values raw)
decode-address_for m section option setting sa oa entry a b c e raw value values mapped laid reg
      named resolved fits =
    let (bs, written, read) = int_value_of-value_bytes (width_of entry) raw fits in
    let h : Hops = record {
      section = section;
      table = sa.table;
      name = option;
      patch_table = oa.table;
      value_name = setting;
      value_entry = entry;
    } in
    let (d, decoded, sec, nam, set, int_v, str_v) =
      decode_hops_total m h (reply bs) raw values read named in
    let sum = bytes_to_int sa.address + bytes_to_int oa.address + bytes_to_int entry.offset in
    let encoded = encode_value-some entry sum raw value values bs named resolved written in
    (
      bs,
      d,
      rw (address_for-IsMapped m section option setting sa oa entry mapped (some value), encoded)
          (ap (λ l. ok (some (l ++ bs)))
            (address-IsLaidOut sa oa entry a b c 0 e laid
              ∙ ap (λ t. a ∷ b ∷ c ∷ t ∷ []) {x = 0 + e} (omega arith))),
      decode-hops m a b c e (reply bs) h d
          (hops-IsRegistered m section option setting sa oa entry a b c e reg) decoded,
      sec,
      nam,
      set,
      int_v,
      str_v,
    )
