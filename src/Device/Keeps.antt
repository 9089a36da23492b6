-- ===== src/Device/Keeps.antt =====
-- pygt1000/block_reader.py and pygt1000/block_snapshot.py: the parts of the state that a read or a snapshot leaves alone.
use pygt.Base.{
  Result-cases, ℕ, zero, suc, ◌+◌, ◌≡◌, refl, Text, text, Bool, true, false, Option, none, some,
  List, [], ◌∷◌, list_eq, if◌then◌else◌, arith, Act-cases, pure, inl, inr,
}
use pygt.Values.{Value, int}
use pygt.AddressMap.Blocks.{fx_block_count, normalize_block}
use pygt.AddressMap.Encode.{address_for_block, block_setting_bytes}
use pygt.Device.{Device}
use pygt.Device.Reader.{fetch_value, read, read_fx, read_value}
use pygt.Device.Snapshot.{
  range_of, resolve, resolve_both, sliders_for, fx_params, non_fx_params, eq_param, block_name,
  record_name, snapshot, snapshots, snapshot_all,
}

-- Reads and recorded names do not touch what `view` shows.
pub record Quiet {ℓ κ} {D : Type ℓ} {V : Type κ} (dev : Device D) (view : D → V)
    : Type (ℓ ⊔ κ) where
  pub fetch_keeps : (address len : List ℕ) (d : D) → view (dev.fetch address len d).1 ≡ view d
  pub name_keeps : (fx_id : Value) (d : D) → view (dev.fx_name_for fx_id d).1 ≡ view d
  pub set_keeps :
      (fx_id : Value) (name : Option Value) (d : D) → view (dev.set_fx_name fx_id name d) ≡ view d

module _ {ℓ κ} {D : Type ℓ} {V : Type κ} (dev : Device D) (view : D → V) (q : Quiet dev view) where
  fetch_value-view :
      (offset : Option (List ℕ)) (width : ℕ) (d : D)
      → view (fetch_value dev offset width d).1 ≡ view d
  unfolding fetch_value
  fetch_value-view none width d = refl
  fetch_value-view (some address) width d =
      elim (Act-cases (dev.fetch address (0 ∷ 0 ∷ 0 ∷ width ∷ []) d)) [
        | inl (bytes, d1, e) ↦ ground (arith, e, q.fetch_keeps address (0 ∷ 0 ∷ 0 ∷ width ∷ []) d)
        | inr (x, d1, e) ↦ ground (arith, e, q.fetch_keeps address (0 ∷ 0 ∷ 0 ∷ width ∷ []) d)
      ]

  read-view :
      (t : Text) (id : Value) (setting : Text) (just_range : Bool) (d : D)
      → view (read dev t id setting just_range d).1 ≡ view d
  unfolding read
  read-view t id setting just_range d =
      elim (Result-cases (address_for_block dev.address_map t id setting none none)) [
        | inr (x, e) ↦ ground (arith, e)
        | inl (offset, e) ↦
            elim (Result-cases (block_setting_bytes dev.address_map t id setting none)) [
              | inr (x, e1) ↦ ground (arith, e, e1)
              | inl (width, e1) ↦ elim (Act-cases (fetch_value dev offset width d)) [
                | inr (x, d2, e2) ↦ ground (arith, e, e1, e2, fetch_value-view offset width d)
                | inl (raw, d2, e2) ↦ ground (arith, e, e1, e2, fetch_value-view offset width d)
              ]
            ]
      ]

  read_fx-view :
      (t : Text) (id : Value) (setting : Text) (d : D)
      → view (read_fx dev t id setting d).1 ≡ view d
  unfolding read_fx
  read_fx-view t id setting d = elim (Act-cases (dev.fx_name_for id d)) [
    | inr (x, d1, e) ↦ ground (arith, e, q.name_keeps id d)
    | inl (effect, d1, e) ↦
        elim (Result-cases (address_for_block dev.address_map t id setting none effect)) [
          | inr (x, e1) ↦ ground (arith, e, e1, q.name_keeps id d)
          | inl (none, e1) ↦ ground (arith, e, e1, q.name_keeps id d)
          | inl (some address, e1) ↦
              elim (Result-cases (block_setting_bytes dev.address_map t id setting effect)) [
                | inr (x, e2) ↦ ground (arith, e, e1, e2, q.name_keeps id d)
                | inl (width, e2) ↦ elim (Act-cases (fetch_value dev (some address) width d1)) [
                  | inr (x, d3, e3) ↦ ground (
                    arith,
                    e,
                    e1,
                    e2,
                    e3,
                    q.name_keeps id d,
                    fetch_value-view (some address) width d1,
                  )
                  | inl (raw, d3, e3) ↦ ground (
                    arith,
                    e,
                    e1,
                    e2,
                    e3,
                    q.name_keeps id d,
                    fetch_value-view (some address) width d1,
                  )
                ]
              ]
        ]
  ]

  read_value-view :
      (t : Text) (id : Value) (option : Text) (d : D)
      → view (read_value dev t id option d).1 ≡ view d
  unfolding read_value
  read_value-view t id option d =
      ground (arith, read_fx-view t id option d, read-view t id option true d)

  range_of-view :
      (t : Text) (id : Value) (option : Text) (d : D) → view (range_of dev t id option d).1 ≡ view d
  unfolding range_of
  range_of-view t id option d = elim (Act-cases (dev.fx_name_for id d)) [
    | inr (x, d1, e) ↦ ground (arith, e, q.name_keeps id d)
    | inl (effect, d1, e) ↦ ground (arith, e, q.name_keeps id d)
  ]

  resolve-view :
      (t : Text) (id : Value) (option : Option Text) (d : D)
      → view (resolve dev t id option d).1 ≡ view d
  unfolding resolve
  resolve-view t id none d = refl
  resolve-view t id (some option) d = elim (Act-cases (range_of dev t id option d)) [
    | inr (x, d1, e) ↦ ground (arith, e, range_of-view t id option d)
    | inl (range, d1, e) ↦ elim (Act-cases (read_value dev t id option d1)) [
      | inr (x, d2, e2) ↦
          ground (arith, e, e2, range_of-view t id option d, read_value-view t id option d1)
      | inl (value, d2, e2) ↦
          ground (arith, e, e2, range_of-view t id option d, read_value-view t id option d1)
    ]
  ]

  resolve_both-view :
      (t : Text) (id : Value) (params : Option Text × Option Text) (d : D)
      → view (resolve_both dev t id params d).1 ≡ view d
  unfolding resolve_both
  resolve_both-view t id (param1, param2) d = elim (Act-cases (resolve dev t id param1 d)) [
    | inr (x, d1, e) ↦ ground (arith, e, resolve-view t id param1 d)
    | inl (slider1, d1, e) ↦ elim (Act-cases (resolve dev t id param2 d1)) [
      | inr (x, d2, e2) ↦
          ground (arith, e, e2, resolve-view t id param1 d, resolve-view t id param2 d1)
      | inl (slider2, d2, e2) ↦
          ground (arith, e, e2, resolve-view t id param1 d, resolve-view t id param2 d1)
    ]
  ]

  sliders_for-view :
      (t : Text) (id : Value) (name : Option Value) (d : D)
      → view (sliders_for dev t id name d).1 ≡ view d
  unfolding sliders_for
  sliders_for-view t id name d = elim (Act-cases (dev.fx_name_for id d)) [
    | inr (x, d1, e) ↦ ground (
      arith,
      e,
      q.name_keeps id d,
      resolve_both-view t id (some (eq_param name), none) d,
      resolve_both-view t id (non_fx_params t) d,
    )
    | inl (effect, d1, e) ↦ ground (
      arith,
      e,
      q.name_keeps id d,
      resolve_both-view t id (some (eq_param name), none) d,
      resolve_both-view t id (non_fx_params t) d,
      resolve_both-view t id (fx_params effect) d1,
    )
  ]

  block_name-view : (t : Text) (id : Value) (d : D) → view (block_name dev t id d).1 ≡ view d
  unfolding block_name
  block_name-view t id d = ground (arith, read-view t id (text "TYPE") false d)

  snapshot-view :
      (t : Text) (id : Value) (get_sliders : Bool) (d : D)
      → view (snapshot dev t id get_sliders d).1 ≡ view d
  unfolding snapshot record_name
  snapshot-view t id get_sliders d = elim (Act-cases (read dev t id (text "SW") false d)) [
    | inr (x, d1, e) ↦ ground (arith, e, read-view t id (text "SW") false d)
    | inl (state, d1, e) ↦ elim (Act-cases (block_name dev t id d1)) [
      | inr (x, d2, e2) ↦
          ground (arith, e, e2, read-view t id (text "SW") false d, block_name-view t id d1)
      | inl (name, d2, e2) ↦
          let d3 = (record_name dev t id name d2).1 in
          let sliders = (if get_sliders then sliders_for dev t id name else pure (none, none)) d3 in
          elim (Act-cases sliders) [
            | inr (x, d4, e4) ↦ ground (
              arith,
              e,
              e2,
              e4,
              read-view t id (text "SW") false d,
              block_name-view t id d1,
              q.set_keeps id name d2,
              sliders_for-view t id name d3,
            )
            | inl (both, d4, e4) ↦ ground (
              arith,
              e,
              e2,
              e4,
              read-view t id (text "SW") false d,
              block_name-view t id d1,
              q.set_keeps id name d2,
              sliders_for-view t id name d3,
            )
          ]
    ]
  ]

  snapshots-view : (n i : ℕ) (t : Text) (d : D) → view (snapshots dev n i t d).1 ≡ view d
  unfolding snapshots
  snapshots-view zero i t d = refl
  snapshots-view (suc n) i t d = elim (Result-cases (normalize_block dev.address_map t (int i))) [
    | inr (x, e) ↦ ground (arith, e)
    | inl ((t', id), e) ↦ elim (Act-cases (snapshot dev t' id true d)) [
      | inr (x, d1, e1) ↦ ground (arith, e, e1, snapshot-view t' id true d)
      | inl (block, d1, e1) ↦ elim (Act-cases (snapshots dev n (i + 1) t' d1)) [
        | inr (x, d2, e2) ↦
            ground (arith, e, e1, e2, snapshot-view t' id true d, snapshots-view n (i + 1) t' d1)
        | inl (rest, d2, e2) ↦
            ground (arith, e, e1, e2, snapshot-view t' id true d, snapshots-view n (i + 1) t' d1)
      ]
    ]
  ]

  -- A snapshot of a type, whether it returns or raises, keeps what reads and recorded names keep.
  pub snapshot_all-view : (t : Text) (d : D) → view (snapshot_all dev t d).1 ≡ view d
  unfolding snapshot_all
  snapshot_all-view t d = elim (Result-cases (fx_block_count dev.address_map t)) [
    | inr (x, e) ↦ ground (arith, e)
    | inl (count, e) ↦ ground (arith, e, snapshots-view count 1 t d)
  ]
