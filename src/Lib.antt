-- ===== src/Lib.antt =====
-- The verification of rsezsp, a host library for Ember Zigbee network co-processors (NCP). Bytes
-- of a serial line become ASH frames; the ASH connection turns them into EZSP payloads, once and
-- in order; the EZSP layer reads their headers and matches responses to commands; the runtime
-- drives all of it: it sends a command and pumps arriving bytes until the answer, the loss of
-- the connection or the deadline.
--
-- Parts and files. Prelude is shared: tests on the native numbers, lists, results, binary
-- digits, little-endian words. Ash is src/ash: Ash.Error is error.rs; Ash.Frame is frame.rs
-- (AshFrame, control, body, from_parts, next_sequence; the constructor of a data frame is
-- data_frame); Ash.Codec is codec.rs (crc16, randomise, encode, and Decoder with push, finish
-- and feed); Ash.Connection is state.rs (Connection with begin_reset, send_data, on_frame,
-- on_decode_failure, retransmit_oldest, retire_acknowledged). Types is src/types: Status,
-- Network, Aps and Security hold the field types of status.rs, network.rs, aps.rs and
-- security.rs with their codecs, Signed the casts between u8 and i8. Ezsp is src/ezsp: Version,
-- Error, Codec.Reader and Codec.Writer (codec.rs), FrameId and Frame (frame.rs), Correlation
-- (correlation.rs), Callback (callback.rs), and Command (command.rs), where Interface is the
-- trait and Setup, Network, Messages and Keys hold the commands by theme. Ncp is src/ncp.rs:
-- Runtime (consume, dispatch, pump_until, poll), Command (command) and Startup (reset,
-- negotiate, connect), over the trait of src/transport/mod.rs, which Ncp.Transport holds.
-- Transport is the rest of src/transport: Error (mod.rs), Fake (fake.rs) and Serial (serial.rs).
-- StartupExample is examples/startup.rs, a client of the runtime: Checklist, Bringup, Joining
-- and Sending hold its steps, Steps what they share, Main the arguments and their order.
-- Ash.Link joins two connections by a line that loses and garbles frames, with the runs of both
-- as a step relation, and Ncp.Dialogue describes what an NCP sends while commands are under way;
-- neither models code, both state what the code is up against. The timer of a link's sender
-- calls retransmit_oldest, as state.rs documents it; the runtime of ncp.rs has no such timer.
-- The other files below a part hold theorems; the files called Examples, and those below them,
-- hold tests and the theorems at concrete inputs.
--
-- Correspondence. A byte, a u16 or a usize is a native number; wrap-around and saturation are
-- written out, and where a value must fit in its width a hypothesis says so. An i8 is an
-- integer. A method with &mut self returns the object that it leaves behind with its result, the
-- object first in the ASH layer and in classify; elsewhere a method that may fail is a state and
-- error monad (Ezsp.Exec), in which a failure keeps what was changed before it. A loop over
-- bytes is a recursion on the list; the eight rounds of crc16 and the attempts of a reset count
-- down. Lists stand for vectors, slices and arrays. A newtype over a number is that number. A
-- command is a value of the trait's record; a command or a response with one field is that
-- field, and one with none is Unit; the three responses to a sent message, which are alike, are
-- one record. usize is taken to have 64 bits.
--
-- The transport is a parameter: its write works on a state of its own. Its read and the timers
-- are a list, which holds what the reads of one pump give before the deadline; the end of the
-- list is the deadline. So pump_until is a recursion on that list, and no loop needs fuel. An
-- error of the transport is its text. The operations of the serial port, and in the startup
-- example the parsing and the formatting of a number, are parameters too.
--
-- Not modelled: log lines and what they redact, Display and Debug but for the errors of a
-- transport, what the startup example prints, and the named constants of src/types that neither
-- a codec nor the startup example reads.
pub mod Prelude
pub mod Ash
pub mod Types
pub mod Ezsp
pub mod Ncp
pub mod Transport
pub mod StartupExample
