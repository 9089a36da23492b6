-- ===== src/AddressMap/Imports.antt =====
-- pygt1000/address_map.py, `_import_specs_tables`: what one spec file adds to the registries.
use pygt.Base.{
  Result-cases, ℕ, ◌≡◌, ◌≢◌, inl, inr, refl, ◌∙◌, Text, Option, none, some, [], ◌∷◌, get_elem?,
  ◌==◌, list_eq, list_beq_iff, nat_eq, nat_beq_iff, if◌then◌else◌, ok, arith, Option-cases,
  Bool-cases,
}
use pygt.Base.Dict.{Dict, get, put, get-put}
use pygt.AddressMap.{AddressMap, Area, Setting}
use pygt.AddressMap.Labels.{is_in}
use pygt.AddressMap.Load.{
  type_of_key, put_offset, count_block, import_areas, import_sections, import_options,
}

-- The last entry of a container whose address has `c` as its middle byte.
unfoldable pub last_option : ℕ → Dict Text Area → Option (Text × Text)
last_option c [] = none
last_option c ((key, area) ∷ rest) = elim (last_option c rest) [
  | some found ↦ some found
  | none ↦ elim (get_elem? area.address 1) [
    | none ↦ none
    | some b ↦ if b == c then some (key, area.table) else none
  ]
]

-- The last setting of a table whose offset has `e` as its last byte.
unfoldable pub last_setting : ℕ → Dict Text Setting → Option (Text × Setting)
last_setting e [] = none
last_setting e ((key, entry) ∷ rest) = elim (last_setting e rest) [
  | some found ↦ some found
  | none ↦ elim (get_elem? entry.offset 1) [
    | none ↦ none
    | some b ↦ if b == e then some (key, entry) else none
  ]
]

-- The last section whose address begins with `a` and `b`.
unfoldable pub last_section : ℕ → ℕ → Dict Text Area → Option (Text × Text)
last_section a b [] = none
last_section a b ((key, area) ∷ rest) = elim (last_section a b rest) [
  | some found ↦ some found
  | none ↦ elim (get_elem? area.address 0) [
    | none ↦ none
    | some x ↦ elim (get_elem? area.address 1) [
      | none ↦ none
      | some y ↦ if (x ∷ y ∷ []) == (a ∷ b ∷ []) then some (key, area.table) else none
    ]
  ]
]

-- What is found, or else what was there.
abbrev pub or_else {ℓ} : {A : Type ℓ} → Option A → Option A → Option A
or_else (some a) b = some a
or_else none b = b

pub import_options-get :
    (d : Dict Text Setting) (acc r : Dict ℕ (Text × Setting)) (e : ℕ)
    → import_options d acc ≡ ok r
    → get r e ≡ or_else (last_setting e d) (get acc e)
unfolding import_options last_setting
import_options-get [] acc r e h = ground arith
import_options-get ((key, entry) ∷ rest) acc r e h =
    elim (Option-cases (get_elem? entry.offset 1)) [
      | inl n ↦ absurd (ground arith)
      | inr (b, at) ↦ ground (
        arith,
        import_options-get rest (put acc b (key, entry)) r e,
        get-put acc b e (key, entry),
        nat_beq_iff b e,
      )
    ]

pub import_sections-get :
    (d : Dict Text Area) (m m' : AddressMap) (a b : ℕ)
    → import_sections d m ≡ ok m'
    → (get m'.first_two_bytes (a ∷ b ∷ [])
        ≡ or_else (last_section a b d) (get m.first_two_bytes (a ∷ b ∷ [])))
      × (m'.tables ≡ m.tables)
      × (m'.offset_in_patch_tables ≡ m.offset_in_patch_tables)
      × (m'.last_byte_option ≡ m.last_byte_option)
unfolding import_sections last_section
import_sections-get [] m m' a b h = ground arith
import_sections-get ((key, area) ∷ rest) m m' a b h =
    elim (Option-cases (get_elem? area.address 0)) [
      | inl n ↦ absurd (ground arith)
      | inr (x, at0) ↦ elim (Option-cases (get_elem? area.address 1)) [
        | inl n ↦ absurd (ground arith)
        | inr (y, at1) ↦
            let m1 = record m {
              first_two_bytes = put m.first_two_bytes (x ∷ y ∷ []) (key, area.table);
            } in
            let ih = import_sections-get rest m1 m' a b (ground arith) in
            let p = get-put m.first_two_bytes (x ∷ y ∷ []) (a ∷ b ∷ []) (key, area.table) in
            (ground (arith, ih.0, p), ih.1, ih.2, ih.3)
      ]
    ]

-- Two maps with the same tables and the same registries of sections and settings.
pub record SameOthers (m m' : AddressMap) : Type 0 where
  pub tables : m'.tables ≡ m.tables
  pub sections : m'.first_two_bytes ≡ m.first_two_bytes
  pub settings : m'.last_byte_option ≡ m.last_byte_option

count_block-keeps :
    (t table : Text) (m m' : AddressMap)
    → count_block t table m ≡ ok m'
    → SameOthers m m' × (m'.offset_in_patch_tables ≡ m.offset_in_patch_tables)
unfolding count_block
count_block-keeps t table m m' h = elim (Bool-cases (is_in t m.fx_types)) [
  | inr other ↦ (
    record { tables = ground arith; sections = ground arith; settings = ground arith },
    ground arith,
  )
  | inl counts ↦ elim (Option-cases (get m.fx_types_count t)) [
    | inl none_there ↦ absurd (ground arith)
    | inr (n, there) ↦ (
      record { tables = ground arith; sections = ground arith; settings = ground arith },
      ground arith,
    )
  ]
]

-- The registry of a container, empty where there is none.
abbrev pub offsets_of : Text → AddressMap → Dict ℕ (Text × Text)
offsets_of name m = elim (get m.offset_in_patch_tables name) [ some d ↦ d | none ↦ [] ]

put_offset-get :
    (name k : Text) (offset : ℕ) (entry : Text × Text) (m : AddressMap)
    → get (put_offset name offset entry m).offset_in_patch_tables k ≡ (
        if name == k
        then some (put (offsets_of name m) offset entry)
        else get m.offset_in_patch_tables k)
unfolding put_offset
put_offset-get name k offset entry m =
    get-put m.offset_in_patch_tables name k (put (offsets_of name m) offset entry)

pub import_areas-get :
    (name : Text) (d : Dict Text Area) (m m' : AddressMap) (offs : Dict ℕ (Text × Text)) (c : ℕ)
    → get m.offset_in_patch_tables name ≡ some offs
    → import_areas name d m ≡ ok m'
    → (offs' : Dict ℕ (Text × Text)) × (get m'.offset_in_patch_tables name ≡ some offs')
      × (get offs' c ≡ or_else (last_option c d) (get offs c))
unfolding import_areas last_option
import_areas-get name [] m m' offs c there h = (offs, ground arith, refl)
import_areas-get name ((key, area) ∷ rest) m m' offs c there h =
    elim (Option-cases (get_elem? area.address 1)) [
      | inl n ↦ absurd (ground arith)
      | inr (b, at) ↦
          let m1 = put_offset name b (key, area.table) m in
          elim (Result-cases (count_block (type_of_key key) area.table m1)) [
            | inr (e, raised) ↦ absurd (ground arith)
            | inl (m2, counted) ↦
                let (_, same) = count_block-keeps (type_of_key key) area.table m1 m2 counted in
                let there1 : get m2.offset_in_patch_tables name
                    ≡ some (put offs b (key, area.table)) =
                  ground (
                    arith,
                    same,
                    put_offset-get name name b (key, area.table) m,
                    list_beq_iff name name,
                  ) in
                let (offs', there', e) =
                  import_areas-get name rest m2 m' (put offs b (key, area.table)) c there1
                    (ground arith) in
                (
                  offs',
                  there',
                  ground (arith, e, get-put offs b c (key, area.table), nat_beq_iff b c),
                )
          ]
    ]

pub import_areas-keeps :
    (name : Text) (d : Dict Text Area) (m m' : AddressMap)
    → import_areas name d m ≡ ok m'
    → SameOthers m m'
      × ((k : Text) → name ≢ k → get m'.offset_in_patch_tables k ≡ get m.offset_in_patch_tables k)
unfolding import_areas
import_areas-keeps name [] m m' h = (
  record { tables = ground arith; sections = ground arith; settings = ground arith },
  λ k ne. ground arith,
)
import_areas-keeps name ((key, area) ∷ rest) m m' h =
    elim (Option-cases (get_elem? area.address 1)) [
      | inl n ↦ absurd (ground arith)
      | inr (b, at) ↦
          let m1 = put_offset name b (key, area.table) m in
          elim (Result-cases (count_block (type_of_key key) area.table m1)) [
            | inr (e, raised) ↦ absurd (ground arith)
            | inl (m2, counted) ↦
                let (o, same) = count_block-keeps (type_of_key key) area.table m1 m2 counted in
                let (o', same') = import_areas-keeps name rest m2 m' (ground arith) in
                (
                  (unfold put_offset in
                      record {
                        tables = o'.tables ∙ o.tables;
                        sections = o'.sections ∙ o.sections;
                        settings = o'.settings ∙ o.settings;
                      }),
                  λ k ne. ground (
                    arith,
                    same' k ne,
                    same,
                    put_offset-get name k b (key, area.table) m,
                    list_beq_iff name k,
                  ),
                )
          ]
    ]
