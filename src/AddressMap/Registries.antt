-- ===== src/AddressMap/Registries.antt =====
-- pygt1000/address_map.py, `_import_specs_tables`: the cases of one file, and what it leaves alone under other names.
use pygt.Base.{
  Result-cases, ℕ, ◌≡◌, ◌≢◌, inl, inr, refl, ap, ◌∙◌, Text, text, Bool, true, false, [], ◌∷◌,
  starts_with, ◌==◌, list_eq, list_beq_iff, ok, arith, Bool-cases,
}
use pygt.Base.Dict.{Dict, get, has, get-put}
use pygt.AddressMap.{AddressMap, Area, Setting, Table, areas, settings, elements, base_addresses}
use pygt.AddressMap.Labels.{is_in}
use pygt.AddressMap.Load.{
  import_areas, open_container, import_sections, import_options, set_last_bytes, register,
}
use pygt.AddressMap.Imports.{SameOthers, import_areas-keeps, import_sections-get}

-- What a map holds under a file's name: the table, the registry of a container's options, and the settings by last byte.
pub record SameAt (k : Text) (m m' : AddressMap) : Type 0 where
  pub tables : get m'.tables k ≡ get m.tables k
  pub offsets : get m'.offset_in_patch_tables k ≡ get m.offset_in_patch_tables k
  pub options : get m'.last_byte_option k ≡ get m.last_byte_option k

pub SameAt-refl : (k : Text) (m : AddressMap) → SameAt k m m
SameAt-refl k m = record { tables = refl; offsets = refl; options = refl }

pub SameAt-trans :
    (k : Text) (m m1 m2 : AddressMap) → SameAt k m m1 → SameAt k m1 m2 → SameAt k m m2
SameAt-trans k m m1 m2 f g = record {
  tables = g.tables ∙ f.tables;
  offsets = g.offsets ∙ f.offsets;
  options = g.options ∙ f.options;
}

open_container-SameAt : (n k : Text) (m : AddressMap) → n ≢ k → SameAt k m (open_container n m)
unfolding open_container
open_container-SameAt n k m ne = elim (Bool-cases (has m.offset_in_patch_tables n)) [
  | inl h ↦ rw h (SameAt-refl k m)
  | inr h ↦ rw h (record {
    tables = refl;
    offsets = ground (arith, get-put m.offset_in_patch_tables n k [], list_beq_iff n k);
    options = refl;
  })
]

abbrev pub is_container : Text → Bool
is_container n = is_in n (text "Patch" ∷ text "Patch2" ∷ text "Patch3" ∷ [])

-- What `register` does, case by case.
pub data Registered (n : Text) (m m' : AddressMap) : Table → Type 0 where
  container :
      (d : Dict Text Area)
      → is_container n ≡ true
      → import_areas n d (open_container n m) ≡ ok m'
      → Registered n m m' (areas d)
  sections :
      (d : Dict Text Area)
      → n ≡ base_addresses
      → import_sections d m ≡ ok m'
      → Registered n m m' (areas d)
  options :
      (d : Dict Text Setting) (r : Dict ℕ (Text × Setting))
      → is_container n ≡ false
      → starts_with n (text "Patch") ≡ true
      → import_options d [] ≡ ok r
      → m' ≡ set_last_bytes n r m
      → Registered n m m' (settings d)
  unread :
      {t : Table}
      → m' ≡ m
      → is_container n ≡ false
      → starts_with n (text "Patch") ≡ false
      → n ≢ base_addresses
      → Registered n m m' t

pub register-Registered :
    (n : Text) (t : Table) (m m' : AddressMap) → register n t m ≡ ok m' → Registered n m m' t
unfolding register
register-Registered n (areas d) m m' h = elim (Bool-cases (is_container n)) [
  | inl c ↦ container d c (ground arith)
  | inr c ↦ elim (Bool-cases (n == base_addresses)) [
    | inl b ↦ sections d ((list_beq_iff n base_addresses).0 b) (ground arith)
    | inr b ↦ elim (Bool-cases (starts_with n (text "Patch"))) [
      | inl p ↦ absurd (ground arith)
      | inr p ↦
          unread (ground arith) c p (λ e. absurd (ground (arith, e, list_beq_iff n base_addresses)))
    ]
  ]
]
register-Registered n (settings d) m m' h = elim (Bool-cases (is_container n)) [
  | inl c ↦ absurd (ground arith)
  | inr c ↦ elim (Bool-cases (n == base_addresses)) [
    | inl b ↦ absurd (ground arith)
    | inr b ↦ elim (Bool-cases (starts_with n (text "Patch"))) [
      | inl p ↦ elim (Result-cases (import_options d [])) [
        | inl (r, e) ↦ options d r c p e (ground arith)
        | inr (r, e) ↦ absurd (ground arith)
      ]
      | inr p ↦
          unread (ground arith) c p (λ e. absurd (ground (arith, e, list_beq_iff n base_addresses)))
    ]
  ]
]
register-Registered n (elements d) m m' h = elim (Bool-cases (is_container n)) [
  | inl c ↦ absurd (ground arith)
  | inr c ↦ elim (Bool-cases (n == base_addresses)) [
    | inl b ↦ absurd (ground arith)
    | inr b ↦ elim (Bool-cases (starts_with n (text "Patch"))) [
      | inl p ↦ absurd (ground arith)
      | inr p ↦
          unread (ground arith) c p (λ e. absurd (ground (arith, e, list_beq_iff n base_addresses)))
    ]
  ]
]

pub open_container-others : (n : Text) (m : AddressMap) → SameOthers m (open_container n m)
unfolding open_container
open_container-others n m = elim (Bool-cases (has m.offset_in_patch_tables n)) [
  | inl h ↦ rw h (record { tables = refl; sections = refl; settings = refl })
  | inr h ↦ rw h (record { tables = refl; sections = refl; settings = refl })
]

register-tables :
    {n : Text} {t : Table} {m m' : AddressMap} → Registered n m m' t → m'.tables ≡ m.tables
unfolding set_last_bytes
register-tables {n} {m} {m'} (container d c h) =
    (import_areas-keeps n d (open_container n m) m' h).0.tables ∙ (open_container-others n m).tables
register-tables {m} {m'} (sections d e h) = (import_sections-get d m m' 0 0 h).1
register-tables (options d r c p h e) = ap (λ (u : AddressMap). u.tables) e
register-tables (unread e c p b) = ap (λ (u : AddressMap). u.tables) e

pub register-SameAt :
    {n : Text} {t : Table} {m m' : AddressMap} (k : Text)
    → n ≢ k
    → Registered n m m' t
    → SameAt k m m'
unfolding set_last_bytes
register-SameAt {n} {t} {m} {m'} k ne (container d c h) =
    let (same, offs) = import_areas-keeps n d (open_container n m) m' h in
    let o = open_container-SameAt n k m ne in
    record {
      tables = ap (λ u. get u k) same.tables ∙ o.tables;
      offsets = offs k ne ∙ o.offsets;
      options = ap (λ u. get u k) same.settings ∙ o.options;
    }
register-SameAt {m} {m'} k ne (sections d e h) =
    let i = import_sections-get d m m' 0 0 h in
    record {
      tables = ap (λ u. get u k) i.1;
      offsets = ap (λ u. get u k) i.2;
      options = ap (λ u. get u k) i.3;
    }
register-SameAt {n} {m} {m'} k ne (options d r c p h e) = rw e (record {
  tables = refl;
  offsets = refl;
  options = ground (arith, get-put m.last_byte_option n k r, list_beq_iff n k);
})
register-SameAt {m} k ne (unread e c p b) = rw e (SameAt-refl k m)
