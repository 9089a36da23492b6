-- ===== src/Transport.antt =====
-- pygt1000/transport.py: the transport of the tests, and the one over rtmidi. What rtmidi finds and opens is passed in.
pub mod Fake
pub mod RtMidi
pub mod Ports
