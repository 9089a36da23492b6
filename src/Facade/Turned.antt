-- ===== src/Facade/Turned.antt =====
-- A knob that is turned on the unit: from the frame that it sends to the known state and the refresh queue.
use pygt.Base.{
  ℕ, ◌≡◌, ◌≢◌, refl, ◌∙◌, Text, text, true, false, ◌&&◌, none, some, List, ◌++◌, length, ok, nat_eq,
  nat_beq_iff, list_eq, ◌==◌, if◌then◌else◌, arith, Bool-cases, inl, inr,
}
use pygt.Base.Dict.{get, has}
use pygt.Constants.{device_id_bcast, program_change_offset}
use pygt.Values.{Value, str_of_option}
use pygt.Codec.{encode_dt1}
use pygt.Codec.Frames.{parse_data_reply-encode_dt1}
use pygt.AddressMap.{DecodedValue}
use pygt.AddressMap.Decode.{Raw, decode}
use pygt.PatchState.{PatchState, FxBlock, ApplyResult, apply, is_ready, find_first, fold_block}
use pygt.PatchState.Apply.{block, apply-block}
use pygt.Scheduler.{Task, submit}
use pygt.Facade.{Gt1000, task_id, schedule, apply_state, process_data_from_unit}
use pygt.Facade.Callbacks.{wired, hand_on, call_unsolicited, receive_message}

-- The re-read of a block's sliders.
abbrev pub sliders_task : Text → Value → Task
sliders_task fx_type fx_id = record { type = text "sliders"; fx_type = fx_type; fx_id = fx_id }

-- A data frame of the own device at an address that nobody waits for goes to the handler of GT1000.
receive_message-own_frame :
    (gt : Gt1000) (address values : List ℕ)
    → gt.link.device_id ≢ device_id_bcast
    → length address ≡ 4
    → has gt.link.pending address ≡ false
    → receive_message wired (encode_dt1 gt.link.device_id (address ++ values) none) gt
      ≡ (process_data_from_unit address values gt).1
unfolding receive_message hand_on wired call_unsolicited
receive_message-own_frame gt address values ne four free =
    let own : (gt.link.device_id == device_id_bcast) ≡ false =
      ground (arith, nat_beq_iff gt.link.device_id device_id_bcast) in
    rw (own, hand_on, parse_data_reply-encode_dt1 gt.link.device_id address values four, free) refl

apply_state-ok :
    (d : DecodedValue) (gt : Gt1000) (r : ApplyResult) (s' : PatchState)
    → apply d gt.clock gt.state ≡ ok (r, s')
    → apply_state d gt ≡ (ok r, record gt { state = s' })
unfolding apply_state
apply_state-ok d gt r s' e = rw (e, apply_state) refl

module _ (d : DecodedValue) (t : Text) (id : Value) (typed : d.fx_type ≡ some t)
    (numbered : task_id d.fx_id ≡ ok id) where
  schedule-task :
      (r : ApplyResult) (gt : Gt1000)
      → (schedule d r gt).1 ≡ record gt {
        refresh = if r.type_changed then submit (sliders_task t id) gt.refresh else gt.refresh;
      }
  unfolding schedule
  schedule-task r gt = elim (Bool-cases r.type_changed) [
    | inl changed ↦ rw (changed, numbered, typed) refl
    | inr same ↦ rw same refl
  ]

  -- While a device id is in place and every type is scanned, take a frame of the own device at a 4-byte address that
  -- nobody waits for, other than the one of a program change, that decodes to a value of a known block. It changes
  -- that block as fold_block says and no other, the sync time of its type exactly if a field matched, and the queue
  -- of the refreshes exactly if the type of the block changed: by one task, which re-reads the sliders of the block.
  pub receive_message-block :
      (gt : Gt1000) (address values : List ℕ) (es : List FxBlock) (fx : FxBlock)
      → gt.link.device_id ≢ device_id_bcast
      → length address ≡ 4
      → has gt.link.pending address ≡ false
      → (address == program_change_offset) ≡ false
      → decode gt.address_map address (Raw.reply values) ≡ ok (some d)
      → is_ready gt.state ≡ true
      → get gt.state.scans t ≡ some es
      → find_first (str_of_option d.fx_id) es ≡ some fx
      → (s' : PatchState) × (receive_message wired
            (encode_dt1 gt.link.device_id (address ++ values) none)
            gt
          ≡ record gt {
            state = s';
            refresh =
                if (fold_block d fx).1.type_changed
                then submit (sliders_task t id) gt.refresh
                else gt.refresh;
          })
        × ((u j : Text)
            → block u j s' ≡ (
                if t == u && str_of_option d.fx_id == j
                then some (fold_block d fx).0
                else block u j gt.state))
        × ((u : Text)
            → get s'.last_sync_ts u ≡ (
                if t == u && (fold_block d fx).1.matched
                then some gt.clock
                else get gt.state.last_sync_ts u))
  unfolding process_data_from_unit
  receive_message-block gt address values es fx ne four free unlike decoded ready scanned found =
      let (s', applied, blocks, times) =
        apply-block d gt.clock gt.state t es fx ready typed scanned found in
      (
        s',
        receive_message-own_frame gt address values ne four free
            ∙ rw
                (
                  unlike,
                  decoded,
                  apply_state-ok d gt (fold_block d fx).1 s' applied,
                  schedule-task (fold_block d fx).1 (record gt { state = s' }),
                )
                refl,
        blocks,
        times,
      )
