-- ===== src/Transport/RtMidi.antt =====
-- pygt1000/transport.py, RtMidiTransport. The ports that rtmidi lists, and whether it opens them, are those of a moment:
-- an argument of each call. `K` is the callback that a message is handed to.
use pygt.Base.{
  ℕ, Text, Bool, true, false, Option, none, some, List, [], ◌∷◌, ◌++◌, starts_with, if◌then◌else◌,
  Result, ok, err, attribute_error,
}

-- What rtmidi finds: the names of the ports, and whether opening one ends well or by an EOFError or KeyboardInterrupt.
pub record World : Type 0 where
  pub inputs : List Text
  pub outputs : List Text
  pub output_opens : Bool
  pub input_opens : Bool

-- An open input: whether rtmidi drops SysEx messages, as it does before `ignore_types`, and the callback that its handler
-- was made with.
pub record InputPort {ℓ} (K : Type ℓ) : Type ℓ where
  pub port : Text
  pub is_open : Bool
  pub ignores_sysex : Bool
  pub handler : Option K

pub record OutputPort : Type 0 where
  pub port : Text
  pub is_open : Bool
  pub messages : List (List ℕ)

pub record RtMidiTransport {ℓ} (K : Type ℓ) : Type ℓ where
  pub in_portname : Text
  pub out_portname : Text
  pub midi_in : Option (InputPort K)
  pub midi_out : Option OutputPort
  pub on_receive : Option K

-- The last port whose name begins with `prefix`, or else `found`.
unfoldable pub exact_name : Text → Option Text → List Text → Option Text
exact_name prefix found [] = found
exact_name prefix found (name ∷ names) =
    exact_name prefix (if starts_with name prefix then some name else found) names

unfoldable pub given_or : Option Text → Text → Text
given_or none name = name
given_or (some given) name = given

-- `_get_midi_exact_port_names`
unfoldable pub exact_port_names : World → Text → Text → Option Text × Option Text
unfolding exact_name
exact_port_names w in_portname out_portname =
    (exact_name in_portname none w.inputs, exact_name out_portname none w.outputs)

module _ {ℓ} {K : Type ℓ} where
  unfoldable pub new_transport : Text → Text → RtMidiTransport K
  new_transport in_portname out_portname = record {
    in_portname = in_portname;
    out_portname = out_portname;
    midi_in = none;
    midi_out = none;
    on_receive = none;
  }

  unfoldable pub set_on_receive : K → RtMidiTransport K → RtMidiTransport K
  set_on_receive callback t = record t { on_receive = some callback }

  unfoldable pub open_input : World → Text → RtMidiTransport K → Bool × RtMidiTransport K
  open_input w in_portname t =
      if w.input_opens
      then (
        true,
        record t {
          midi_in = some (record {
            port = in_portname;
            is_open = true;
            ignores_sysex = false;
            handler = t.on_receive;
          });
        },
      )
      else (false, t)

  unfoldable pub open_output : World → Text → RtMidiTransport K → Bool × RtMidiTransport K
  open_output w out_portname t =
      if w.output_opens
      then (
        true,
        record t {
          midi_out = some (record { port = out_portname; is_open = true; messages = [] });
        },
      )
      else (false, t)

  -- The exact names replace the names that were looked for.
  unfoldable pub open_exact :
      World → Option Text × Option Text → RtMidiTransport K → Bool × RtMidiTransport K
  unfolding open_input open_output
  open_exact w (none, _) t = (false, t)
  open_exact w (some in_name, none) t = (false, t)
  open_exact w (some in_name, some out_name) t =
      let (out_up, t') =
        open_output w out_name (record t { in_portname = in_name; out_portname = out_name }) in
      if out_up then open_input w in_name t' else (false, t')

  unfoldable pub open_ports :
      World → Option Text → Option Text → RtMidiTransport K → Bool × RtMidiTransport K
  unfolding given_or exact_port_names open_exact
  open_ports w in_portname out_portname t =
      let in_name = given_or in_portname t.in_portname in
      let out_name = given_or out_portname t.out_portname in
      open_exact w (exact_port_names w in_name out_name)
        (record t { in_portname = in_name; out_portname = out_name })

  -- `close_port()` of None raises; the output is closed by then.
  unfoldable pub close_in :
      Option (InputPort K) → RtMidiTransport K → Result (Unit {0}) × RtMidiTransport K
  close_in none t = (err attribute_error, t)
  close_in (some p) t = (ok tt, record t { midi_in = some (record p { is_open = false }) })

  unfoldable pub close_out :
      Option OutputPort → RtMidiTransport K → Result (Unit {0}) × RtMidiTransport K
  unfolding close_in
  close_out none t = (err attribute_error, t)
  close_out (some p) t =
      close_in t.midi_in (record t { midi_out = some (record p { is_open = false }) })

  unfoldable pub close : RtMidiTransport K → Result (Unit {0}) × RtMidiTransport K
  unfolding close_out
  close t = close_out t.midi_out t

  unfoldable pub send_to :
      Option OutputPort → List ℕ → RtMidiTransport K → Result (Unit {0}) × RtMidiTransport K
  send_to none message t = (err attribute_error, t)
  send_to (some p) message t =
      (ok tt, record t { midi_out = some (record p { messages = p.messages ++ message ∷ [] }) })

  unfoldable pub send : List ℕ → RtMidiTransport K → Result (Unit {0}) × RtMidiTransport K
  unfolding send_to
  send message t = send_to t.midi_out message t

  -- The handler of the open input, for a message that rtmidi does not drop: the callback that it goes to, with the message.
  unfoldable pub handled : Option (InputPort K) → List ℕ → Option (K × List ℕ)
  handled none message = none
  handled (some p) message = elim p.handler [
    | none ↦ none
    | some callback ↦ some (callback, message)
  ]
