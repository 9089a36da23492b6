-- ===== src/Tests/Wiring.antt =====
-- The ports of the transport, and the threads of the keepalive.
use pygt.Base.{ℕ, ◌≡◌, ◌≤◌, refl, Text, text, true, false, none, some, [], ◌∷◌, ◌&&◌}
use pygt.Transport.RtMidi.{World, RtMidiTransport, given_or, open_ports}
use pygt.Transport.Ports.{listed, IsOpened, open_ports-IsOpened, open_ports-true}
use pygt.KeepAlive.Workers.{
  KeepAlive, sleeping, checking, new_keepalive, start, stop, join, schedule, alive, last_thread,
  has_ended, step_at, worker_step,
}
use pygt.KeepAlive.Restart.{Careful, fresh, start_joined, stop_any, step_any, Careful-alive}

-- The ports of one moment, and of a later one, at which the number in the name is another.
abbrev ports : Text → World
ports name = record {
  inputs = text "Midi Through" ∷ name ∷ [];
  outputs = name ∷ [];
  output_opens = true;
  input_opens = true;
}

abbrev unopened : RtMidiTransport ℕ
unopened = record {
  in_portname = text "GT-1000:GT-1000 MIDI 1";
  out_portname = text "GT-1000:GT-1000 MIDI 1";
  midi_in = none;
  midi_out = none;
  on_receive = some 7;
}

abbrev first_ports : World
first_ports = ports (text "GT-1000:GT-1000 MIDI 1 20:0")

abbrev later_ports : World
later_ports = ports (text "GT-1000:GT-1000 MIDI 1 24:0")

first_opens : (open_ports first_ports none none unopened).0 ≡ true
unfolding open_ports
first_opens = refl

open_ports-IsOpened_example :
    IsOpened first_ports unopened.in_portname unopened.out_portname unopened
      (open_ports first_ports none none unopened).1
unfolding given_or
open_ports-IsOpened_example = open_ports-IsOpened first_ports none none unopened first_opens

open_ports-true_example : (open_ports later_ports none (some (text "GT-1000")) unopened).0 ≡ (
    listed later_ports.inputs (given_or none unopened.in_portname)
    && (listed later_ports.outputs (given_or (some (text "GT-1000")) unopened.out_portname)
        && (later_ports.output_opens && later_ports.input_opens)))
open_ports-true_example = open_ports-true later_ports none (some (text "GT-1000")) unopened

-- Started, stopped, run to its end, and started again.
abbrev restarted : KeepAlive
restarted = start (schedule 0 (stop (start (new_keepalive 10))))

joined : join (schedule 0 (stop (start (new_keepalive 10)))) ≡ true
unfolding join schedule stop start new_keepalive last_thread has_ended step_at worker_step
joined = refl

fresh_joined : join (new_keepalive 10) ≡ true
unfolding join new_keepalive
fresh_joined = refl

restarted-Careful : Careful 10 restarted
restarted-Careful =
    start_joined (step_any 0 (stop_any (start_joined (fresh (new_keepalive 10) refl) fresh_joined)))
      joined

Careful-alive_example : alive restarted.threads ≤ 1
Careful-alive_example = Careful-alive 10 restarted restarted-Careful

-- Two threads in the sleep of a chunk when stop comes, of which one sees the flag before the start.
abbrev sleeper : KeepAlive
sleeper = record { chunks = 10; stopped = false; threads = sleeping 4 ∷ checking ∷ [] }
