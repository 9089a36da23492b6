-- ===== src/Scripts/Pipeline.antt =====
-- From the manual to the wire: a table that options-to-json.py reads, that AddressMap loads, and that a value is set by.
use pygt.Base.{
  ℕ, zero, suc, ◌+◌, ◌≡◌, refl, ap, subst, ◌∙◌, Text, true, false, Option, none, some, List, [],
  ◌∷◌, get_elem?, ◌==◌, list_eq, nat_eq, arith, All, ok, Bool-cases, inl, inr,
}
use pygt.Base.Keyed.{get-dict_of}
use pygt.Base.Dict.{Dict, get}
use pygt.Base.Int.{ℤ, pos, negsuc}
use pygt.Values.{int, str}
use pygt.AddressMap.{AddressMap, Area, Setting, Table, DecodedValue, width_of}
use pygt.AddressMap.Encode.{address_for, resolve_value}
use pygt.AddressMap.Decode.{reply, decode, label_for_raw}
use pygt.AddressMap.Load.{load}
use pygt.AddressMap.Addresses.{IsLaidOut}
use pygt.AddressMap.Values.{Fits}
use pygt.AddressMap.Specs.{IsSpec, load-decode-address_for}
use pygt.Scripts.Options.Ranges.{Entry}
use pygt.Scripts.Options.Tails.{is_span}
use pygt.Scripts.Options.Reading.{process_data}
use pygt.Scripts.Options.Names.{numbered, Distinct}
use pygt.Scripts.Options.Params.{Param, rows, concat, key, IsParam}
use pygt.Scripts.Options.Spans.{settled_values, settled, settled_entries, numbered-get}
use pygt.Scripts.Options.RoundTrip.{DistinctKeys, process_data-rows}

-- The width as it is written, and as the library reads it.
abbrev SameWidth : Option ℤ → Option ℕ → Type 0
SameWidth none none = Unit
SameWidth (some (pos n)) (some m) = n ≡ m
SameWidth none (some m) = ⊥
SameWidth (some i) none = ⊥
SameWidth (some (negsuc n)) (some m) = ⊥

-- The JSON object of an entry, as the library reads it.
pub record IsJson (e : Entry) (s : Setting) : Type 0 where
  pub offset : s.offset ≡ e.offset
  pub value_range : s.value_range.0 ∷ s.value_range.1 ∷ [] ≡ e.value_range
  pub values : s.values ≡ some e.values
  pub bytes : SameWidth e.bytes s.bytes

abbrev pub AreJson : Dict Text Entry → Dict Text Setting → Type 0
AreJson [] [] = Unit
AreJson ((k, e) ∷ d) ((j, s) ∷ t) = (k ≡ j) × IsJson e s × AreJson d t
AreJson [] (_ ∷ t) = ⊥
AreJson (_ ∷ d) [] = ⊥

AreJson-get :
    (d : Dict Text Entry) (t : Dict Text Setting) (k : Text) {e : Entry} {s : Setting}
    → AreJson d t
    → get d k ≡ some e
    → get t k ≡ some s
    → IsJson e s
unfolding get
AreJson-get [] [] k h he hs = absurd (cc he)
AreJson-get [] (_ ∷ t) k h he hs = absurd h
AreJson-get (_ ∷ d) [] k h he hs = absurd h
AreJson-get ((j, e') ∷ d) ((j', s') ∷ t) k {e} {s} h he hs = elim (Bool-cases (j == k)) [
  | inl same ↦
      let same' : (j' == k) ≡ true = subst (λ x. (x == k) ≡ true) h.0 same in
      subst (λ x. IsJson x s) (cc (rw same at he)) (subst (IsJson e') (cc (rw same' at hs)) h.1)
  | inr other ↦
      let other' : (j' == k) ≡ false = subst (λ x. (x == k) ≡ false) h.0 other in
      AreJson-get d t k h.2 (rw other at he) (rw other' at hs)
]

settled_plain :
    (lo hi : ℕ) (o : Text) (os : List Text)
    → is_span o ≡ false
    → settled_values lo hi (o ∷ os) ≡ numbered lo (o ∷ os)
settled_plain lo hi o os h = rw h

-- The name that a value stands for is the one at its place.
label-numbered :
    (os : List Text) (v i : ℕ) {n : Text}
    → get_elem? os i ≡ some n
    → label_for_raw (numbered v os) (v + i) ≡ some n
unfolding label_for_raw
label-numbered [] v i e = absurd (cc e)
label-numbered (o ∷ os) v zero e = let here : (v == v + 0) ≡ true = ground arith in rw here (cc e)
label-numbered (o ∷ os) v (suc i) e =
    let later : (v == v + suc i) ≡ false = ground arith in
    rw later (
      ap (label_for_raw (numbered (v + 1) os)) {x = v + suc i} (omega arith)
      ∙ label-numbered os (v + 1) i e)

resolve-str :
    (values : Dict Text ℕ) (name : Text) {n : ℕ}
    → get values name ≡ some n
    → resolve_value values (str name) ≡ int n
unfolding resolve_value
resolve-str values name e = rw (e, resolve_value) refl

module _ (ps : List Param) (good : All IsParam ps) (differ : DistinctKeys ps) (j : ℕ) (p : Param)
    (there : get_elem? ps j ≡ some p) (d : Dict Text Entry)
    (read : process_data (rows ps) ≡ ok d) where
  read-settled : d ≡ settled_entries ps
  read-settled = cc (process_data-rows ps good differ, read)

  -- The values of the setting, in the table that the library has read.
  setting-numbered :
      (options : Dict Text Setting) (entry : Setting) (o : Text) (os : List Text)
      → AreJson d options
      → get options (key p) ≡ some entry
      → concat p.names ≡ o ∷ os
      → is_span o ≡ false
      → entry.values ≡ some (numbered p.low (o ∷ os))
  setting-numbered options entry o os json found names plain =
      let e : get d (key p) ≡ some (settled p) =
        rw read-settled (get-dict_of key settled ps j differ there) in
      (AreJson-get d options (key p) json e found).values
      ∙ ap (λ l. some (settled_values p.low p.high l)) names
      ∙ ap some (settled_plain p.low p.high o os plain)

  -- Take settings that can stand in a table, under different keys, printed as the rows of a table that is read
  -- without an error, and spec files that hold what is read as the options table of a block and load without an error. Take
  -- a setting with different names, the first no span, of an option of Patch, Patch2 or Patch3 with an options table of a Patch
  -- name, the three files the only ones of their names. The section's address has two bytes and two zeros, the first byte not
  -- 0, the option's a zero, one byte and a zero (so its last byte is 0), the setting's offset a zero and one byte, and no later
  -- section, option or setting has the same byte. A name whose value fits is
  -- encoded as the low end of the range plus its place, at the address of the setting, and what is received from there
  -- decodes to that setting, number and name.
  pub rows-load-decode :
      (fx_types : List Text) (files : List (Text × Table)) (m : AddressMap)
      → load fx_types files ≡ ok m
      → (section option : Text) (sa oa : Area) (entry : Setting) (a b c e : ℕ)
        (spec : IsSpec files section option (key p) sa oa entry a b c e)
      → AreJson d spec.options
      → IsLaidOut sa oa entry a b c 0 e
      → (o : Text) (os : List Text) → concat p.names ≡ o ∷ os
      → is_span o ≡ false
      → Distinct (o ∷ os)
      → (i : ℕ) (name : Text) → get_elem? (o ∷ os) i ≡ some name
      → Fits (width_of entry) (p.low + i)
      → (bs : List ℕ) × (dv : DecodedValue) × (address_for m section option
            (key p)
            (some (str name))
          ≡ ok (some (a ∷ b ∷ c ∷ e ∷ bs)))
        × (decode m (a ∷ b ∷ c ∷ e ∷ []) (reply bs) ≡ ok (some dv))
        × (dv.section ≡ section)
        × (dv.name ≡ option)
        × (dv.value_name ≡ key p)
        × (dv.int_value ≡ p.low + i)
        × (dv.str_value ≡ some name)
  rows-load-decode fx_types files m loaded section option sa oa entry a b c e spec json laid o os
        names plain unique i name at fits =
      let values = numbered p.low (o ∷ os) in
      let listed = setting-numbered spec.options entry o os json spec.in_options names plain in
      let resolved = resolve-str values name (numbered-get (o ∷ os) p.low i unique at) in
      let (bs, dv, sent, decoded, in_section, in_option, in_setting, number, label) =
        load-decode-address_for fx_types files m loaded section option (key p) sa oa entry a b c e
          spec (p.low + i) (str name) values laid listed resolved fits in
      (
        bs,
        dv,
        sent,
        decoded,
        in_section,
        in_option,
        in_setting,
        number,
        label ∙ label-numbered (o ∷ os) p.low i at,
      )
