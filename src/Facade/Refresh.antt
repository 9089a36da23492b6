-- ===== src/Facade/Refresh.antt =====
-- pygt1000/gt1000.py, `refresh_state`: what a full refresh leaves known.
use pygt.Base.{
  ◌≡◌, refl, sym, ap, subst, ◌∙◌, Text, Bool, true, false, ◌&&◌, List, [], ◌∷◌, list_eq,
  list_beq_iff, ok, arith, Result-cases, Act-cases, inl, inr,
}
use pygt.Base.Dict.{Dict, has, put}
use pygt.AddressMap.Labels.{is_in}
use pygt.PatchState.{PatchState, FxBlock, record_scan, is_ready, set_fx_name}
use pygt.PatchState.Ready.{
  all_scanned, distinct, Balanced, scan-Balanced, has-put, is_ready-Balanced, Reaches,
  Reaches-Balanced,
}
use pygt.Scheduler.{Scheduler}
use pygt.Device.Snapshot.{snapshot_all}
use pygt.Device.Keeps.{Quiet, snapshot_all-view}
use pygt.Facade.{Gt1000, device_of, fetch_mem, refresh_type, refresh_types, refresh_state}

-- The scans, the types, and the scheduler.
abbrev view : Gt1000 → Dict Text (List FxBlock) × (List Text × Scheduler)
view gt = (gt.state.scans, (gt.state.fx_types, gt.refresh))

device_of-Quiet : (gt : Gt1000) → Quiet (device_of gt) view
unfolding device_of fetch_mem set_fx_name
device_of-Quiet gt = record {
  fetch_keeps = λ address len d. refl;
  name_keeps = λ fx_id d. refl;
  set_keeps = λ fx_id name d. refl;
}

refresh_type-ok :
    (t : Text) (gt : Gt1000)
    → (refresh_type t gt).0 ≡ ok tt
    → (blocks : List FxBlock) × (s : PatchState) × (view gt ≡ (s.scans, (s.fx_types, gt.refresh)))
      × ((refresh_type t gt).1.state ≡ record_scan t blocks gt.clock s)
      × ((refresh_type t gt).1.refresh ≡ gt.refresh)
unfolding refresh_type
refresh_type-ok t gt h = elim (Act-cases (snapshot_all (device_of gt) t gt)) [
  | inr (x, gt', e) ↦ absurd (ground (arith, e))
  | inl (blocks, gt', e) ↦
      let same : view gt' ≡ view gt =
        ap (λ p. view p.1) (sym e)
        ∙ snapshot_all-view (device_of gt) view (device_of-Quiet gt) t gt in
      (blocks, gt'.state, ground (arith, same), ground (arith, e), ground (arith, e, same))
]

-- Every one of some types is among the known ones.
abbrev all_in : List Text → List Text → Bool
all_in [] types = true
all_in (t ∷ ts) types = is_in t types && all_in ts types

all_in_self :
    (ts types : List Text)
    → ((t : Text) → is_in t ts ≡ true → is_in t types ≡ true)
    → all_in ts types ≡ true
unfolding is_in
all_in_self [] types h = refl
all_in_self (t ∷ ts) types h = ground (
  arith,
  h t (ground (arith, list_beq_iff t t)),
  all_in_self ts types (λ u i. h u (ground (arith, i))),
)

record Refreshed (types ts : List Text) (gt end : Gt1000) : Type 0 where
  balanced : Balanced types end.state
  scanned : all_scanned ts end.state.scans ≡ true
  kept : (k : Text) → has gt.state.scans k ≡ true → has end.state.scans k ≡ true

Balanced-same :
    (types : List Text) (s s' : PatchState)
    → s'.scans ≡ s.scans
    → s'.fx_types ≡ s.fx_types
    → Balanced types s
    → Balanced types s'
Balanced-same types s s' scans fx b = record {
  known = fx ∙ b.known;
  counted = ground (arith, scans, b.counted);
}

refresh_types-ok :
    (types ts : List Text) (gt : Gt1000)
    → distinct types ≡ true
    → all_in ts types ≡ true
    → gt.refresh.stopped ≡ false
    → Balanced types gt.state
    → (refresh_types ts gt).0 ≡ ok tt
    → Refreshed types ts gt (refresh_types ts gt).1
unfolding refresh_types all_scanned
refresh_types-ok types [] gt dis sub run b h = record {
  balanced = b;
  scanned = refl;
  kept = λ k there. there;
}
refresh_types-ok types (t ∷ ts) gt dis sub run b h = elim (Result-cases (refresh_type t gt).0) [
  | inr (x, e) ↦ absurd (ground arith)
  | inl (tt, e) ↦
      let gt1 = (refresh_type t gt).1 in
      let (blocks, s, same, state, refresh) = refresh_type-ok t gt e in
      let b' =
        Balanced-same types gt.state s (sym (ap (λ p. p.0) same)) (sym (ap (λ p. p.1.0) same)) b in
      let b1 =
        subst (Balanced types) (sym state)
          (scan-Balanced types t blocks gt.clock s dis (ground (arith, sub)) b') in
      let scans1 : gt1.state.scans ≡ put s.scans t blocks =
        unfold record_scan in ap (λ (u : PatchState). u.scans) state in
      let end_same : (refresh_types (t ∷ ts) gt).1 ≡ (refresh_types ts gt1).1 =
        ground (arith, e, run) in
      let r =
        refresh_types-ok types ts gt1 dis (ground (arith, sub))
          (ap (λ (u : Scheduler). u.stopped) refresh ∙ run) b1 (ground (arith, e, run, h)) in
      subst (Refreshed types (t ∷ ts) gt) (sym end_same) (record {
        balanced = r.balanced;
        scanned = ground (
          arith,
          r.scanned,
          r.kept t (ground (arith, scans1, has-put s.scans t t blocks, list_beq_iff t t)),
        );
        kept = λ k there.
            r.kept k
              (ground (arith, scans1, has-put s.scans t k blocks, ap (λ p. p.0) same, there));
      })
]

-- From a state that scans and updates lead to, with distinct types and no stop: when refresh_state returns, every type has
-- been scanned and the state counts as ready.
pub refresh_state-is_ready :
    (gt : Gt1000)
    → distinct gt.state.fx_types ≡ true
    → Reaches gt.state.fx_types gt.state
    → gt.refresh.stopped ≡ false
    → (refresh_state gt).0 ≡ ok tt
    → (all_scanned gt.state.fx_types (refresh_state gt).1.state.scans ≡ true)
      × (is_ready (refresh_state gt).1.state ≡ true)
unfolding refresh_state
refresh_state-is_ready gt dis reached run h =
    let types = gt.state.fx_types in
    let r =
      refresh_types-ok types types gt dis (all_in_self types types (λ t i. i)) run
        (Reaches-Balanced types dis reached) h in
    (r.scanned, is_ready-Balanced types (refresh_types types gt).1.state r.balanced ∙ r.scanned)
