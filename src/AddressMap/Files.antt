-- ===== src/AddressMap/Files.antt =====
-- pygt1000/address_map.py, `_import_specs_tables`: the import of a list of spec files, file by file.
use pygt.Base.{
  Result-cases, ◌≡◌, ◌≢◌, inl, inr, refl, ap, subst, ◌∙◌, Text, false, List, [], ◌∷◌, ◌++◌, nat_eq,
  list_eq, list_beq_iff, ok, arith,
}
use pygt.Base.Dict.{has, put, get-put}
use pygt.AddressMap.{AddressMap, Table, base_addresses}
use pygt.AddressMap.Load.{open_container, set_last_bytes, register, import_files}
use pygt.AddressMap.Imports.{import_areas-keeps}
use pygt.AddressMap.Registries.{
  SameAt, SameAt-refl, SameAt-trans, Registered, container, sections, options, unread,
  register-Registered, register-SameAt, open_container-others,
}

-- The map after one file.
abbrev pub with_table : Text → Table → AddressMap → AddressMap
with_table n t m = record m { tables = put m.tables n t }

pub import_files-cons :
    (n : Text) (t : Table) (files : List (Text × Table)) (m m' : AddressMap)
    → import_files ((n, t) ∷ files) m ≡ ok m'
    → (m1 : AddressMap) × (register n t m ≡ ok m1)
      × (import_files files (with_table n t m1) ≡ ok m')
unfolding import_files
import_files-cons n t files m m' h = elim (Result-cases (register n t m)) [
  | inl (m1, e) ↦ (m1, e, ground arith)
  | inr (e, raised) ↦ absurd (ground arith)
]

with_table-SameAt :
    (n k : Text) (t : Table) (m : AddressMap) → n ≢ k → SameAt k m (with_table n t m)
with_table-SameAt n k t m ne = record {
  tables = ground (arith, get-put m.tables n k t, list_beq_iff n k);
  offsets = refl;
  options = refl;
}

has-cons :
    (n k : Text) (t : Table) (files : List (Text × Table))
    → has ((n, t) ∷ files) k ≡ false
    → (n ≢ k) × (has files k ≡ false)
unfolding has
has-cons n k t files h =
    ((λ e. absurd (ground (arith, e, list_beq_iff n k))), ground (arith, list_beq_iff n k))

-- Files of other names change nothing under a name.
pub import_files-SameAt :
    (files : List (Text × Table)) (k : Text) (m m' : AddressMap)
    → has files k ≡ false
    → import_files files m ≡ ok m'
    → SameAt k m m'
import_files-SameAt [] k m m' others h =
    unfold import_files in subst (SameAt k m) (ground arith) (SameAt-refl k m)
import_files-SameAt ((n, t) ∷ files) k m m' others h =
    let (ne, others') = has-cons n k t files others in
    let (m1, e, rest) = import_files-cons n t files m m' h in
    SameAt-trans k m m1 m' (register-SameAt k ne (register-Registered n t m m1 e)) (
      SameAt-trans k m1 (with_table n t m1) m' (with_table-SameAt n k t m1 ne)
        (import_files-SameAt files k (with_table n t m1) m' others' rest))

pub import_files-append :
    (xs ys : List (Text × Table)) (m m' : AddressMap)
    → import_files (xs ++ ys) m ≡ ok m'
    → (m1 : AddressMap) × (import_files xs m ≡ ok m1) × (import_files ys m1 ≡ ok m')
unfolding import_files
import_files-append [] ys m m' h = (m, refl, h)
import_files-append ((n, t) ∷ xs) ys m m' h =
    let (m1, e, rest) = import_files-cons n t (xs ++ ys) m m' h in
    let (m2, e', rest') = import_files-append xs ys (with_table n t m1) m' rest in
    (m2, ground (arith, e, e'), rest')

register-sections :
    {n : Text} {t : Table} {m m' : AddressMap}
    → n ≢ base_addresses
    → Registered n m m' t
    → m'.first_two_bytes ≡ m.first_two_bytes
unfolding set_last_bytes
register-sections {n} {m} {m'} ne (container d c h) =
    (import_areas-keeps n d (open_container n m) m' h).0.sections
    ∙ (open_container-others n m).sections
register-sections ne (sections d e h) = absurd (ne e)
register-sections ne (options d r c p h e) = ap (λ (u : AddressMap). u.first_two_bytes) e
register-sections ne (unread e c p b) = ap (λ (u : AddressMap). u.first_two_bytes) e

pub import_files-sections :
    (files : List (Text × Table)) (m m' : AddressMap)
    → has files base_addresses ≡ false
    → import_files files m ≡ ok m'
    → m'.first_two_bytes ≡ m.first_two_bytes
import_files-sections [] m m' others h = unfold import_files in ground arith
import_files-sections ((n, t) ∷ files) m m' others h =
    let (ne, others') = has-cons n base_addresses t files others in
    let (m1, e, rest) = import_files-cons n t files m m' h in
    import_files-sections files (with_table n t m1) m' others' rest
    ∙ register-sections ne (register-Registered n t m m1 e)
