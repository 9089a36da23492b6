-- ===== src/Lib.antt =====
-- pygt1000, a Python library that talks to a Boss GT-1000 guitar processor over MIDI SysEx.
--
-- The program, from the wire up: a transport carries frames; SysExCodec frames set (DT1) and request (RQ1) messages and
-- reads replies; DeviceLink sends a request, waits for the reply at the same address, and hands every other data frame
-- to a callback; EditorSession brings the device up with an identity request and two exchanges; AddressMap turns
-- sections, options and settings into addresses and bytes and back, from tables in spec files; BlockReader,
-- BlockSnapshot and ChainCodec read and write through an injected fetch and set; PatchState owns what is known of the
-- device; RefreshScheduler and KeepAlive are the two background workers; GT1000 wires all of it together. Beside the library,
-- the scripts make its spec files: pdf-to-tables extracts the rows of the manual's tables, and options-to-json,
-- spec-to-json and chain-elements turn rows into the tables that AddressMap loads.
--
-- The files:
--   Base            shared helpers: Boolean tests, lists, Python's dict as an association list in insertion order,
--                   exceptions as values (Result), and calls that change a state and may raise (Act); Base/Int has
--                   the integers over these numbers, Base/Strings the methods of str, Base/Keyed dicts made of lists
--   Constants       pygt1000/constants.py
--   Bytes           the number helpers of pygt1000/address_map.py: bytes_to_int, pack_nibbles, unpack_nibbles, and the
--                   to_bytes of address_for; Bytes/Nibbles and Bytes/Integers relate them
--   Codec           pygt1000/sysex_codec.py; Codec/Checksum, Codec/Frames
--   Values          a value that is an int or a str, with str() and int(), which Values/Decimal relates
--   AddressMap      pygt1000/address_map.py: the tables and registries; Names (FX_TO_TABLE_SUFFIX), Blocks
--                   (normalize_block, sections), Encode (address_for), Decode (decode), Labels (labels and types), Load
--                   (the import of the spec files); Addresses, Values and RoundTrip are about the way out and back;
--                   Imports, Registries, Files and Loaded about what the import leaves in the registries; Specs joins them
--   PatchState      pygt1000/patch_state.py; Apply, Names, Layout, Ready
--   Scheduler       pygt1000/refresh_scheduler.py; Steps is the step relation of all threads (the one looked at, and
--                   the others, whose turn can come at each step; start and stop are a step for each write), Safety,
--                   Progress and Drain are about its runs
--   KeepAlive       pygt1000/keepalive.py; Polls. Workers has start, stop and join and the threads step by step, and
--                   Restart is about them
--   Transport       pygt1000/transport.py: Fake is FakeTransport, RtMidi is RtMidiTransport; Ports is about the opening of
--                   the MIDI ports
--   Link            pygt1000/device_link.py; Receive, Exchange, and Race for two requests at once
--   Session         pygt1000/editor_session.py; Handshake
--   Chain           parse_chain, parse_divider and serialize_chain of pygt1000/chain.py; Total, RoundTrip, Structure
--   Device          the functions that GT1000 injects, as a record over any state; Reader is pygt1000/block_reader.py,
--                   Snapshot pygt1000/block_snapshot.py, Chains the class ChainCodec of pygt1000/chain.py; Settings, Ids
--                   and Keeps are about the three, and Trip about the chain with the table of chain-elements
--   Facade          pygt1000/gt1000.py, with the methods that hand over to a part in Delegates; Inbound, Outbound, Refresh.
--                   Callbacks registers the callbacks of device_link.py and runs them on what arrives; Received
--                   and Turned are about that
--   Scripts         Options is scripts/options-to-json.py, modelled in Ranges, Tails and Reading; Params, Lines and the
--                   others say how settings are printed and that they are read back. Tables is scripts/pdf-to-tables.py,
--                   modelled in Split, Canonical, Titles and Extract; Rows, Families, Extracted and Sections are about
--                   them, and Check is rows_to_json. Converters is scripts/spec-to-json.py and
--                   scripts/chain-elements.py, with Places and Elements; Shared, Effects and Names
--                   are about the name of a table that blocks share. Manual and Maps join the text of the manual to
--                   the entries of settings and of address maps, and Pipeline the settings to the address map
--   Tests           each theorem at a concrete input, on excerpts of the spec files; PremiumDrive is examples/chain.py
--
-- How state and time are modelled: a method takes the object's state, a record, and returns the new one. Numbers are
-- natural; texts are lists of code points; None is an Option; exceptions are errors of a Result, and for DeviceLink,
-- whose only exception is a KeyError, an outer Option. What a thread waits for is an argument: the frames that arrive in
-- each sleep of a wait, whether the transport opens, at which time a stop is asked for. Interleavings are step relations
-- where they matter: the scheduler's, and two exchanges at once.
--
-- The scripts' functions go from lines to dicts. The rows that options-to-json and spec-to-json are given have no line
-- end or have it stripped; the digits and letters of the regular expressions, the blanks and the lower case are those of
-- ASCII, which the manual keeps to.
--
-- Fuel: parse_chain takes the number of tokens plus one: each round and each nested call uses one, and takes a token or
-- ends. decimal takes the number plus one, more than it has digits; bit_length takes the number itself, of which each
-- step halves a part; the poll worker of KeepAlive takes fuel above the number of its checks. The loops that shorten a
-- common prefix or suffix take its length, as each round drops one character and the empty text ends them; replace takes
-- the length of the text, of which each step takes a character at least.
--
-- Not modelled: what the packages rtmidi and pypdf do, which is passed in; logging and printing, deep copies, and the
-- command lines of the scripts with their files, the comparison of pdf-to-tables with the committed files included; the
-- entry hex_address of spec-to-json, which nothing reads; what fetch_patch_names never reaches; and GT1000's own
-- open_ports and close_ports, which are those of Session. In Link the two callbacks of DeviceLink are recorded instead of
-- run; Facade/Callbacks runs them.
--
-- A refresh runs with the stop flag as it was when it began, and the clock stands still during it.
pub mod Base
pub mod Constants
pub mod Bytes
pub mod Values
pub mod AddressMap
pub mod PatchState
pub mod Scheduler
pub mod Scripts
pub mod KeepAlive
pub mod Link
pub mod Codec
pub mod Chain
pub mod Session
pub mod Device
pub mod Facade
pub mod Transport
pub mod Tests
