-- ===== src/Device/Ids.antt =====
-- pygt1000/block_snapshot.py, `snapshot_all`: the ids of the blocks.
use pygt.Base.{
  ℕ, zero, suc, ◌+◌, ◌≡◌, ap, Text, text, Bool, true, false, Option, none, List, [], ◌∷◌, ◌==◌,
  nat_eq, list_eq, if◌then◌else◌, ok, arith, Act, Act-cases, pure, inl, inr,
}
use pygt.Values.{Value, int, str, value_eq, value_beq_iff}
use pygt.AddressMap.{AddressMap}
use pygt.AddressMap.Blocks.{fx_block_count, normalize_block}
use pygt.PatchState.{FxBlock, SliderValue}
use pygt.PatchState.Layout.{ids}
use pygt.Device.{Device}
use pygt.Device.Reader.{read}
use pygt.Device.Snapshot.{block_name, record_name, sliders_for, snapshot, snapshots, snapshot_all}

-- The id of block number `i` of `count`: the only block of its type has the empty id, and preamps have letters.
unfoldable pub block_id : Text → ℕ → ℕ → Value
block_id fx_type count i =
    if count == 1
    then str []
    else if fx_type == text "preamp"
    then (if i == 1 then str (text "A") else if i == 2 then str (text "B") else int i)
    else int i

-- The ids of `n` blocks from number `i`.
unfoldable pub block_ids : Text → ℕ → ℕ → ℕ → List Value
unfolding block_id
block_ids fx_type count zero i = []
block_ids fx_type count (suc n) i = block_id fx_type count i ∷ block_ids fx_type count n (i + 1)

-- The sliders of a snapshot, if they are wanted.
abbrev wanted {ℓ} :
    {D : Type ℓ}
    → Device D
    → Text
    → Value
    → Option Value
    → Bool
    → Act D (Option SliderValue × Option SliderValue)
wanted dev fx_type fx_id name get_sliders =
    if get_sliders then sliders_for dev fx_type fx_id name else pure (none, none)

snapshot-fx_id {ℓ} :
    {D : Type ℓ} (dev : Device D) (fx_type : Text) (fx_id : Value) (get_sliders : Bool) (d : D)
    (block : FxBlock)
    → (snapshot dev fx_type fx_id get_sliders d).0 ≡ ok block
    → block.fx_id ≡ fx_id
unfolding snapshot record_name
snapshot-fx_id dev fx_type fx_id get_sliders d block h =
    elim (Act-cases (read dev fx_type fx_id (text "SW") false d)) [
      | inr (e, d1, e1) ↦ absurd (ground (arith, e1))
      | inl (state, d1, e1) ↦ elim (Act-cases (block_name dev fx_type fx_id d1)) [
        | inr (e, d2, e2) ↦ absurd (ground (arith, e1, e2))
        | inl (name, d2, e2) ↦
            let d3 = (record_name dev fx_type fx_id name d2).1 in
            elim (Act-cases (wanted dev fx_type fx_id name get_sliders d3)) [
              | inr (e, d4, e3) ↦ absurd (ground (arith, e1, e2, e3))
              | inl (sliders, d4, e3) ↦ ground (arith, e1, e2, e3)
            ]
      ]
    ]

normalize_block-block_id :
    (m : AddressMap) (fx_type : Text) (count i : ℕ)
    → fx_block_count m fx_type ≡ ok count
    → normalize_block m fx_type (int i) ≡ ok (fx_type, block_id fx_type count i)
unfolding normalize_block block_id
normalize_block-block_id m fx_type count i h =
    ground (arith, value_beq_iff (int i) (int 1), value_beq_iff (int i) (int 2))

snapshots-ids {ℓ} :
    {D : Type ℓ} (dev : Device D) (count n i : ℕ) (fx_type : Text) (d : D) (blocks : List FxBlock)
    → fx_block_count dev.address_map fx_type ≡ ok count
    → (snapshots dev n i fx_type d).0 ≡ ok blocks
    → ids blocks ≡ block_ids fx_type count n i
unfolding snapshots block_ids
snapshots-ids dev count zero i fx_type d blocks c h = ground arith
snapshots-ids dev count (suc n) i fx_type d blocks c h =
    let id = block_id fx_type count i in
    let norm = normalize_block-block_id dev.address_map fx_type count i c in
    elim (Act-cases (snapshot dev fx_type id true d)) [
      | inr (e, d1, e1) ↦ absurd (ground (arith, norm, e1))
      | inl (block, d1, e1) ↦ elim (Act-cases (snapshots dev n (i + 1) fx_type d1)) [
        | inr (e, d2, e2) ↦ absurd (ground (arith, norm, e1, e2))
        | inl (rest, d2, e2) ↦ ground (
          arith,
          norm,
          e1,
          e2,
          snapshot-fx_id dev fx_type id true d block (ap (λ p. p.0) e1),
          snapshots-ids dev count n (i + 1) fx_type d1 rest c (ap (λ p. p.0) e2),
        )
      ]
    ]

-- When snapshot_all of a type returns, it returns as many blocks as the type has, in order: with the empty id for the only
-- block of its type, with the ids A and B for the first two preamps, and else with the numbers from 1.
pub snapshot_all-ids {ℓ} :
    {D : Type ℓ} (dev : Device D) (fx_type : Text) (count : ℕ) (d : D) (blocks : List FxBlock)
    → fx_block_count dev.address_map fx_type ≡ ok count
    → (snapshot_all dev fx_type d).0 ≡ ok blocks
    → ids blocks ≡ block_ids fx_type count count 1
unfolding snapshot_all
snapshot_all-ids dev fx_type count d blocks c h =
    snapshots-ids dev count count 1 fx_type d blocks c (ground arith)
