-- ===== src/PatchState/Apply.antt =====
-- pygt1000/patch_state.py, `apply`: an inbound value and the blocks.
use pygt.Base.{
  ℕ, ◌≡◌, ap, Text, true, ◌&&◌, Option, none, some, List, [], ◌∷◌, ok, arith, list_eq, list_beq_iff,
  ◌==◌, if◌then◌else◌,
}
use pygt.Base.Dict.{get, get-put}
use pygt.Values.{str_of, str_of_option}
use pygt.AddressMap.{DecodedValue}
use pygt.PatchState.{
  PatchState, FxBlock, set_first, fold_block, find_first, apply_found, apply_entries, entries_of,
  apply, is_ready,
}
use pygt.PatchState.Layout.{fold_block-fx_id}

-- The first known block of an fx type with that id.
abbrev pub block : Text → Text → PatchState → Option FxBlock
block t id s = elim (get s.scans t) [ none ↦ none | some es ↦ find_first id es ]

find_first-set_first :
    (id j : Text) (fx fx' : FxBlock) (es : List FxBlock)
    → find_first id es ≡ some fx
    → fx'.fx_id ≡ fx.fx_id
    → find_first j (set_first id (λ _. fx') es) ≡ (if id == j then some fx' else find_first j es)
unfolding find_first set_first
find_first-set_first id j fx fx' [] found same = cc
find_first-set_first id j fx fx' (fx0 ∷ es) found same = ground (
  arith,
  ap str_of same,
  list_beq_iff id j,
  list_beq_iff (str_of fx0.fx_id) id,
  list_beq_iff (str_of fx0.fx_id) j,
  list_beq_iff (str_of fx'.fx_id) j,
  find_first-set_first id j fx fx' es,
)

module _ (d : DecodedValue) (now : ℕ) (s : PatchState) (t : Text) (es : List FxBlock) (fx : FxBlock)
    (ready : is_ready s ≡ true) (typed : d.fx_type ≡ some t) (scanned : get s.scans t ≡ some es)
    (found : find_first (str_of_option d.fx_id) es ≡ some fx) where
  entries-found : entries_of d.fx_type s ≡ some (t, es)
  unfolding entries_of
  entries-found = ground arith

  apply_entries-found : apply_entries d t now es s ≡ apply_found d t now es s fx
  unfolding apply_entries apply_found
  apply_entries-found = rw (found, apply_entries)

  apply-found : apply d now s ≡ ok (apply_found d t now es s fx)
  unfolding apply
  apply-found = rw (ready, entries-found, apply_entries-found)

  pub blocks-found :
      (u j : Text)
      → block u j (apply_found d t now es s fx).1
        ≡ (if t == u && str_of_option d.fx_id == j then some (fold_block d fx).0 else block u j s)
  unfolding apply_found
  blocks-found u j =
      let folded : FxBlock = (fold_block d fx).0 in
      rw (get-put s.scans t u (set_first (str_of_option d.fx_id) (λ _. folded) es), block)
        (ground (
          arith,
          list_beq_iff t u,
          find_first-set_first (str_of_option d.fx_id) j fx folded es found (fold_block-fx_id d fx),
        ))

  times-found :
      (u : Text)
      → get (apply_found d t now es s fx).1.last_sync_ts u
        ≡ (if t == u && (fold_block d fx).1.matched then some now else get s.last_sync_ts u)
  unfolding apply_found
  times-found u = ground (arith, get-put s.last_sync_ts t u now)

  -- An inbound value for a known block, once every type is scanned: the block becomes what `fold_block` makes
  -- of it, every other block of every type stays, and the time of the last sync is that of this value exactly
  -- if it matched a field of the block.
  pub apply-block :
      (s' : PatchState) × (apply d now s ≡ ok ((fold_block d fx).1, s'))
      × ((u j : Text)
          → block u j s' ≡ (
              if t == u && str_of_option d.fx_id == j
              then some (fold_block d fx).0
              else block u j s))
      × ((u : Text)
          → get s'.last_sync_ts u
            ≡ (if t == u && (fold_block d fx).1.matched then some now else get s.last_sync_ts u))
  unfolding apply_found
  apply-block =
      ((apply_found d t now es s fx).1, apply-found, λ u j. blocks-found u j, λ u. times-found u)
