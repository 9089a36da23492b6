-- ===== src/AddressMap/Loaded.antt =====
-- pygt1000/address_map.py, `_import_specs_tables`: the tables and registries of a map that was loaded.
use pygt.Base.{
  ℕ, ◌≡◌, refl, sym, ap, subst, ◌∙◌, Text, text, true, false, Option, none, some, List, [], ◌∷◌,
  ◌++◌, starts_with, nat_eq, list_eq, list_beq, list_beq_iff, ok, arith,
}
use pygt.Base.Dict.{Dict, get, has, get-put, has-get}
use pygt.AddressMap.{AddressMap, Area, Setting, Table, areas, settings, base_addresses}
use pygt.AddressMap.Labels.{is_in}
use pygt.AddressMap.Load.{open_container, set_last_bytes, import_files, load, empty_map}
use pygt.AddressMap.Imports.{
  last_option, last_setting, last_section, or_else, import_options-get, import_areas-get,
  import_sections-get,
}
use pygt.AddressMap.Registries.{
  SameAt, Registered, container, sections, options, unread, is_container, register-Registered,
}
use pygt.AddressMap.Files.{
  import_files-cons, import_files-SameAt, import_files-append, import_files-sections, with_table,
}

-- A file that is the only one of its name.
pub record IsFile (files : List (Text × Table)) (name : Text) (table : Table) : Type 0 where
  pub before : List (Text × Table)
  pub after : List (Text × Table)
  pub split : files ≡ before ++ (name, table) ∷ after
  pub not_before : has before name ≡ false
  pub not_after : has after name ≡ false

-- The import of one file among the others: what was there before it, and what is there in the end.
record Stage (files : List (Text × Table)) (fx_types : List Text) (name : Text) (table : Table)
    (m : AddressMap) : Type 0 where
  m0 : AddressMap
  m1 : AddressMap
  first : SameAt name (empty_map fx_types) m0
  registered : Registered name m0 m1 table
  last : SameAt name (with_table name table m1) m
  sections_first : name ≡ base_addresses → m0.first_two_bytes ≡ []
  sections_last : name ≡ base_addresses → m.first_two_bytes ≡ m1.first_two_bytes

stage :
    (fx_types : List Text) (files : List (Text × Table)) (name : Text) (table : Table)
    (m : AddressMap)
    → load fx_types files ≡ ok m
    → IsFile files name table
    → Stage files fx_types name table m
unfolding load
stage fx_types files name table m h f =
    let h' : import_files (f.before ++ (name, table) ∷ f.after) (empty_map fx_types) ≡ ok m =
      ap (λ fs. import_files fs (empty_map fx_types)) (sym f.split) ∙ h in
    let (m0, e0, rest) =
      import_files-append f.before ((name, table) ∷ f.after) (empty_map fx_types) m h' in
    let (m1, e1, rest') = import_files-cons name table f.after m0 m rest in
    record {
      m0 = m0;
      m1 = m1;
      first = import_files-SameAt f.before name (empty_map fx_types) m0 f.not_before e0;
      registered = register-Registered name table m0 m1 e1;
      last = import_files-SameAt f.after name (with_table name table m1) m f.not_after rest';
      sections_first = λ e.
          import_files-sections f.before (empty_map fx_types) m0
            (subst (λ n. has f.before n ≡ false) e f.not_before) e0
          ∙ (unfold empty_map in refl);
      sections_last = λ e.
          import_files-sections f.after (with_table name table m1) m
            (subst (λ n. has f.after n ≡ false) e f.not_after) rest';
    }

or_else-none : {A : Type 0} (o : Option A) → or_else o none ≡ o
or_else-none (some a) = refl
or_else-none none = refl

options-last_byte :
    (n : Text) (d : Dict Text Setting) (e : ℕ) (m m' : AddressMap)
    → starts_with n (text "Patch") ≡ true
    → Registered n m m' (settings d)
    → (r : Dict ℕ (Text × Setting)) × (get m'.last_byte_option n ≡ some r)
      × (get r e ≡ last_setting e d)
unfolding set_last_bytes
options-last_byte n d e m m' patch (options _ r c p h same) = (
  r,
  ground (arith, same, get-put m.last_byte_option n n r, list_beq_iff n n),
  import_options-get d [] r e h ∙ (unfold get in or_else-none (last_setting e d)),
)
options-last_byte n d e m m' patch (unread same c p b) = absurd cc

base-not_container : is_container base_addresses ≡ false
unfolding is_in list_beq
base-not_container = refl

container-offsets :
    (n : Text) (d : Dict Text Area) (c : ℕ) (m m' : AddressMap)
    → is_container n ≡ true
    → get m.offset_in_patch_tables n ≡ none
    → Registered n m m' (areas d)
    → (offs : Dict ℕ (Text × Text)) × (get m'.offset_in_patch_tables n ≡ some offs)
      × (get offs c ≡ last_option c d)
unfolding open_container
container-offsets n d c m m' patch fresh (container _ con h) =
    let opened : get (open_container n m).offset_in_patch_tables n ≡ some [] = ground (
      arith,
      has-get m.offset_in_patch_tables n,
      get-put m.offset_in_patch_tables n n [],
      list_beq_iff n n,
    ) in
    let (offs, at, found) = import_areas-get n d (open_container n m) m' [] c opened h in
    (offs, at, found ∙ (unfold get in or_else-none (last_option c d)))
container-offsets n d c m m' patch fresh (sections _ e h) =
    absurd (ground (arith, ap is_container e, base-not_container))
container-offsets n d c m m' patch fresh (unread same con p b) = absurd cc

base-sections :
    (d : Dict Text Area) (a b : ℕ) (m m' : AddressMap)
    → Registered base_addresses m m' (areas d)
    → get m'.first_two_bytes (a ∷ b ∷ [])
      ≡ or_else (last_section a b d) (get m.first_two_bytes (a ∷ b ∷ []))
base-sections d a b m m' (container _ c h) = absurd (ground (arith, base-not_container))
base-sections d a b m m' (sections _ e h) = (import_sections-get d m m' a b h).0
base-sections d a b m m' (unread same c p other) = absurd (other refl)

module _ (fx_types : List Text) (files : List (Text × Table)) (m : AddressMap)
    (loaded : load fx_types files ≡ ok m) where
  -- Each file is a table of the map.
  pub load-tables :
      (name : Text) (table : Table) → IsFile files name table → get m.tables name ≡ some table
  load-tables name table f =
      let s = stage fx_types files name table m loaded f in
      s.last.tables ∙ ground (arith, get-put s.m1.tables name name table, list_beq_iff name name)

  -- Its settings are listed by last byte, the last one of each.
  pub load-last_byte :
      (name : Text) (d : Dict Text Setting) (e : ℕ)
      → IsFile files name (settings d)
      → starts_with name (text "Patch") ≡ true
      → (r : Dict ℕ (Text × Setting)) × (get m.last_byte_option name ≡ some r)
        × (get r e ≡ last_setting e d)
  load-last_byte name d e f patch =
      let s = stage fx_types files name (settings d) m loaded f in
      let (r, at, found) = options-last_byte name d e s.m0 s.m1 patch s.registered in
      (r, s.last.options ∙ at, found)

  -- In the map that is loaded from the spec files, the options of a container file, the only one of its name, are listed by
  -- the middle byte of their address, and of several with the same byte the last one only.
  pub load-offsets :
      (name : Text) (d : Dict Text Area) (c : ℕ)
      → IsFile files name (areas d)
      → is_container name ≡ true
      → (offs : Dict ℕ (Text × Text)) × (get m.offset_in_patch_tables name ≡ some offs)
        × (get offs c ≡ last_option c d)
  unfolding get
  load-offsets name d c f patch =
      let s = stage fx_types files name (areas d) m loaded f in
      let (offs, at, found) =
        container-offsets name d c s.m0 s.m1 patch (unfold empty_map in s.first.offsets)
          s.registered in
      (offs, s.last.offsets ∙ at, found)

  -- The sections are listed by their first two bytes, the last one of each.
  pub load-sections :
      (d : Dict Text Area) (a b : ℕ)
      → IsFile files base_addresses (areas d)
      → get m.first_two_bytes (a ∷ b ∷ []) ≡ last_section a b d
  unfolding get
  load-sections d a b f =
      let s = stage fx_types files base_addresses (areas d) m loaded f in
      let found = base-sections d a b s.m0 s.m1 s.registered in
      ap (λ u. get u (a ∷ b ∷ [])) (s.sections_last refl)
      ∙ found
      ∙ ap (λ u. or_else (last_section a b d) (get u (a ∷ b ∷ []))) (s.sections_first refl)
      ∙ or_else-none (last_section a b d)
