-- ===== src/Ncp/Examples.antt =====
-- The runtime over a transport that keeps what is written to it.
pub mod Oversized
use rsezsp.Prelude.{
  ℕ, ◌+◌, length, zero, suc, List, [], ◌∷◌, ◌++◌, true, false, some, ok, err, ◌≡◌, refl, arith,
}
use rsezsp.Types.Network.{decode_eui64}
use rsezsp.Types.Aps.{direct, encode_aps_frame, encode_unicast_type}
use rsezsp.Ash.Frame.{data_frame, error, next_sequence, rst_ack, control, body}
use rsezsp.Ash.Codec.{
  encode, wire_body, stuff, is_reserved, crc16_all, crc16_from, crc16, crc16_rounds, crc16_round,
  randomise, randomise_from, lfsr_next,
}
use rsezsp.Ash.Connection
use rsezsp.Ash.Connection.{Connection, connected}
use rsezsp.Ezsp.FrameId
use rsezsp.Ezsp.Error.{sequence_mismatch, payload_too_long, ash, timeout, ncp_reset}
use rsezsp.Ezsp.Frame.{Frame, parse, from_low_byte, write_header}
use rsezsp.Ezsp.Codec.Reader
use rsezsp.Ezsp.Codec.Writer
use rsezsp.Ezsp.Command.Setup.{get_eui64_command}
use rsezsp.Ezsp.Command.Messages.{
  SendUnicast, send_unicast_command, encode_send_unicast, put_message_tag,
}
use rsezsp.Ncp.Transport.{Transport, Arrival, arrived}
use rsezsp.Ncp.Runtime.{Ncp, consume}
use rsezsp.Ezsp.Exec.{◌>>◌}
use rsezsp.Ncp.Chunking.{consume_append}
use rsezsp.Ncp.Silence.{CanSend, Left, command_unanswered}
use rsezsp.Ncp.Filling.{AlwaysSends, IsStuck, silence_fills}
use rsezsp.Ncp.Command.{command, request, read_answer, format_for}
use rsezsp.Ncp.Startup.{fresh, reset}
use rsezsp.Ncp.Failures.{command_sticks}
use rsezsp.Ncp.Recovery.{IsRecovered, reset_answered, reset_recovers}
use rsezsp.Ncp.Exchange.{IsReady, pending_for, command_answered}
use rsezsp.Ncp.Lost.{command_rst_ack, command_error}
use rsezsp.Ncp.Oversized.{command_unsendable}
use rsezsp.Ash.Error.{too_long}

abbrev pub Tape : Type 0
Tape = List (List ℕ)

abbrev pub recorder : Transport Tape
recorder = record { write = λ bytes tape. (ok tt, tape ++ bytes ∷ []) }

-- Version 13, connected, between commands.
abbrev pub ready : Ncp Tape
ready = record (fresh []) {
  ash = record Connection.new { state = connected };
  version = 13;
  initial_version_sent = true;
}

pub is_ready : IsReady ready
is_ready = record {
  fresh = refl;
  up = refl;
  room = omega arith;
  numbered = omega arith;
  free = refl;
  empty = refl;
}

-- The response to `getEui64`.
abbrev pub reply_payload : List ℕ
reply_payload = 0 ∷ 0x80 ∷ 1 ∷ 0x26 ∷ 0 ∷ 0x5c ∷ 0x6e ∷ 0xd9 ∷ 0xfe ∷ 0xff ∷ 0x81 ∷ 0xa0 ∷ 0x94 ∷ []

abbrev pub reply_wire : List ℕ
reply_wire =
    1 ∷ 66 ∷ 161 ∷ 169 ∷ 114 ∷ 42 ∷ 73 ∷ 220 ∷ 128 ∷ 106 ∷ 181 ∷ 164 ∷ 10 ∷ 193 ∷ 232 ∷ 241 ∷ 126
    ∷ []

reply_sent : encode (data_frame 0 1 false reply_payload) ≡ ok reply_wire
unfolding encode control wire_body body crc16_all crc16_from crc16 crc16_rounds crc16_round stuff
    is_reserved randomise randomise_from lfsr_next
reply_sent = refl

abbrev pub reply_frame : Frame
reply_frame = record {
  sequence = 0;
  control = from_low_byte 0x80;
  frame_id = FrameId.get_eui64;
  parameters = 0x5c ∷ 0x6e ∷ 0xd9 ∷ 0xfe ∷ 0xff ∷ 0x81 ∷ 0xa0 ∷ 0x94 ∷ [];
}

reply_parsed : parse reply_payload (format_for FrameId.get_eui64 ready) ≡ ok reply_frame
unfolding parse format_for
reply_parsed = refl

pub question :
    request get_eui64_command tt 0 (format_for FrameId.get_eui64 ready) 13
    ≡ ok (0 ∷ 0 ∷ 1 ∷ 0x26 ∷ 0 ∷ [])
unfolding request format_for write_header Writer.u8 Writer.u16
question = refl

eui64_read : read_answer get_eui64_command reply_frame.parameters 13 ≡ ok 0x94a081fffed96e5c
unfolding read_answer decode_eui64 Reader.array Reader.is_empty
eui64_read = refl

command_answered_example :
    (command recorder get_eui64_command tt (arrived reply_wire ∷ []) ready).0
    ≡ read_answer get_eui64_command reply_frame.parameters 13
unfolding from_low_byte
command_answered_example =
    command_answered recorder get_eui64_command (λ bytes tape. refl) tt ready
      (0 ∷ 0 ∷ 1 ∷ 0x26 ∷ 0 ∷ []) 1 false reply_payload reply_wire [] reply_frame is_ready refl
      question (omega arith) reply_parsed
      (record { own = refl; back = refl; same_sequence = refl; same_id = refl }) (omega arith)
      reply_sent

abbrev pub rstack : List ℕ
rstack = 0xc1 ∷ 0x02 ∷ 0x0b ∷ 0x0a ∷ 0x52 ∷ 0x7e ∷ []

pub rstack_sent : encode (rst_ack 2 0x0b) ≡ ok rstack
unfolding encode control wire_body body crc16_all crc16_from crc16 stuff is_reserved
rstack_sent = refl

command_rst_ack_example :
    (command recorder get_eui64_command tt (arrived rstack ∷ []) ready).0
    ≡ err (timeout FrameId.get_eui64)
command_rst_ack_example =
    command_rst_ack recorder get_eui64_command (λ bytes tape. refl) tt ready
      (0 ∷ 0 ∷ 1 ∷ 0x26 ∷ 0 ∷ []) 2 0x0b rstack is_ready refl question (omega arith) rstack_sent

abbrev error_wire : List ℕ
error_wire = 0xc2 ∷ 0x02 ∷ 0x51 ∷ 0xa8 ∷ 0xbd ∷ 0x7e ∷ []

error_sent : encode (error 2 0x51) ≡ ok error_wire
unfolding encode control wire_body body crc16_all crc16_from crc16 stuff is_reserved
error_sent = refl

command_error_example :
    (command recorder get_eui64_command tt (arrived error_wire ∷ []) ready).0
    ≡ err (ncp_reset FrameId.get_eui64)
command_error_example =
    command_error recorder get_eui64_command (λ bytes tape. refl) tt ready
      (0 ∷ 0 ∷ 1 ∷ 0x26 ∷ 0 ∷ []) 2 0x51 error_wire [] is_ready refl question (omega arith)
      error_sent

-- The RSTACK answers the first attempt.
abbrev pub answers : ℕ → List Arrival
answers k = arrived rstack ∷ []

answered_once : (reset recorder answers (fresh [])).0 ≡ ok tt
answered_once =
    reset_answered recorder (λ bytes tape. refl) (fresh []) answers 2 0x0b rstack [] (omega arith)
      rstack_sent refl

reset_recovers_example : IsRecovered (reset recorder answers (fresh [])).1
reset_recovers_example = reset_recovers recorder answers (fresh []) answered_once

-- Garbage, and then a response.
consume_append_example :
    ((consume recorder (1 ∷ 66 ∷ []) ready).0 ≡ ok tt
      → consume recorder ((1 ∷ 66 ∷ []) ++ reply_wire) ready
        ≡ (consume recorder (1 ∷ 66 ∷ []) >> consume recorder reply_wire) ready)
    × ((consume recorder ((1 ∷ 66 ∷ []) ++ reply_wire) ready).0
        ≡ ((consume recorder (1 ∷ 66 ∷ []) >> consume recorder reply_wire) ready).0)
consume_append_example = consume_append recorder (1 ∷ 66 ∷ []) reply_wire ready

ready-CanSend : CanSend ready
ready-CanSend = record { up = refl; room = omega arith; free = refl; empty = refl }

command_unanswered_example :
    (wire : List ℕ) × (encode (data_frame 0 0 false (0 ∷ 0 ∷ 1 ∷ 0x26 ∷ 0 ∷ [])) ≡ ok wire)
    × Left recorder get_eui64_command ready
        (0 ∷ 0 ∷ 1 ∷ 0x26 ∷ 0 ∷ [])
        wire
        (command recorder get_eui64_command tt [] ready)
command_unanswered_example =
    command_unanswered recorder (λ bytes tape. refl) get_eui64_command tt ready
      (0 ∷ 0 ∷ 1 ∷ 0x26 ∷ 0 ∷ []) ready-CanSend refl question (omega arith)

eui64-AlwaysSends : AlwaysSends get_eui64_command tt 13
unfolding request write_header Writer.u8 Writer.u16
eui64-AlwaysSends sequence = (sequence ∷ 0 ∷ 1 ∷ 0x26 ∷ 0 ∷ [], refl, omega arith)

silence_fills_example : IsStuck recorder get_eui64_command 7 tt ready
silence_fills_example =
    silence_fills recorder (λ bytes tape. refl) get_eui64_command 7 tt ready refl refl refl
      (omega arith) refl refl eui64-AlwaysSends
