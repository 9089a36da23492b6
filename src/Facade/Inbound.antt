-- ===== src/Facade/Inbound.antt =====
-- pygt1000/gt1000.py, `_process_data_from_unit`: what the unit emits on its own, and the known state.
use pygt.Base.{
  Result-cases, proceed, subst, sym, ℕ, ◌≡◌, Bool-cases, inl, inr, ◌⊎◌, list_eq, ◌==◌, none, some,
  List, arith,
}
use pygt.Constants.{program_change_offset}
use pygt.AddressMap.{DecodedValue}
use pygt.AddressMap.Decode.{Raw, decode}
use pygt.PatchState.{ApplyResult, apply}
use pygt.PatchState.Names.{NamesAgree, apply-NamesAgree}
use pygt.Facade.{Gt1000, apply_state, schedule, process_data_from_unit}

schedule-state :
    (d : DecodedValue) (r : ApplyResult) (gt : Gt1000) → (schedule d r gt).1.state ≡ gt.state
unfolding schedule
schedule-state d r gt = ground arith

proceed_apply-state :
    (d : DecodedValue) (gt : Gt1000)
    → (proceed (apply_state d gt) (λ r. schedule d r)).1.state ≡ (apply_state d gt).1.state
proceed_apply-state d gt = elim (Result-cases (apply d gt.clock gt.state)) [
  | inl ((r, s), e) ↦
      unfold apply_state in ground (arith, schedule-state d r (record gt { state = s }))
  | inr (e, h) ↦ unfold apply_state in ground arith
]

apply_state-NamesAgree :
    (d : DecodedValue) (gt : Gt1000) → NamesAgree gt.state → NamesAgree (apply_state d gt).1.state
apply_state-NamesAgree d gt a = elim (Result-cases (apply d gt.clock gt.state)) [
  | inl ((r, s), e) ↦
      let same : s ≡ (apply_state d gt).1.state = (unfold apply_state in ground arith) in
      subst NamesAgree same (apply-NamesAgree d gt.clock gt.state s r e a)
  | inr (e, h) ↦
      let same : gt.state ≡ (apply_state d gt).1.state = (unfold apply_state in ground arith) in
      subst NamesAgree same a
]

process_data_from_unit-state :
    (offset values : List ℕ) (gt : Gt1000)
    → ((process_data_from_unit offset values gt).1.state ≡ gt.state)
      ⊎ ((d : DecodedValue) × ((process_data_from_unit offset values gt).1.state
            ≡ (apply_state d gt).1.state))
unfolding process_data_from_unit
process_data_from_unit-state offset values gt =
    elim (Bool-cases (offset == program_change_offset)) [
      | inl h ↦ inl (ground arith)
      | inr h ↦ elim (Result-cases (decode gt.address_map offset (Raw.reply values))) [
        | inr (e, h') ↦ inl (ground arith)
        | inl (none, h') ↦ inl (ground arith)
        | inl (some d, h') ↦ inr (d, ground (arith, proceed_apply-state d gt))
      ]
    ]

-- Whatever the unit emits, and whether or not handling it raises, the resolved effect names stay those of the fx blocks.
pub process_data_from_unit-NamesAgree :
    (offset values : List ℕ) (gt : Gt1000)
    → NamesAgree gt.state
    → NamesAgree (process_data_from_unit offset values gt).1.state
process_data_from_unit-NamesAgree offset values gt a =
    elim (process_data_from_unit-state offset values gt) [
      | inl e ↦ subst NamesAgree (sym e) a
      | inr (d, e) ↦ subst NamesAgree (sym e) (apply_state-NamesAgree d gt a)
    ]
