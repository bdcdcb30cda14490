-- ===== src/Ncp/Dialogue/Examples.antt =====
-- A command behind a callback and a late response.
pub mod Connecting
use rsezsp.Prelude.{[], ◌∷◌, false, ok, err, ◌≡◌, refl, arith}
use rsezsp.Prelude.Words.{from_le_bytes}
use rsezsp.Ash.Frame.{control, body, next_sequence}
use rsezsp.Ash.Codec.{
  encode, wire_body, stuff, is_reserved, crc16_all, crc16_from, crc16, crc16_rounds, crc16_round,
  randomise, randomise_from, lfsr_next,
}
use rsezsp.Ezsp.FrameId
use rsezsp.Ezsp.Version.{preferred}
use rsezsp.Ezsp.Error.{unsupported_version}
use rsezsp.Ezsp.Frame.{Frame, legacy, extended, parse, from_low_byte}
use rsezsp.Ezsp.Command.Setup.{get_eui64_command}
use rsezsp.Ncp.Transport.{arrived}
use rsezsp.Ncp.Runtime.{Ncp}
use rsezsp.Ncp.Command.{command, format_for}
use rsezsp.Ncp.Startup.{connect}
use rsezsp.Ncp.Examples.{
  Tape, recorder, ready, reply_payload, reply_frame, question, rstack, rstack_sent, answers,
}
use rsezsp.Ncp.Dialogue.{Incoming, IsSent, reads, Passes, IsIdle}
use rsezsp.Ncp.Dialogue.Answering.{IsFinished, command_dialogue}
use rsezsp.Ncp.Dialogue.Negotiation.{IsReply, version_bytes}
use rsezsp.Ncp.Dialogue.Connecting.{connect-preferred, connect_older, connect_refused}

pub idle : IsIdle ready
idle = record {
  fresh = refl;
  up = refl;
  nothing_sent = refl;
  rx = omega arith;
  tx = omega arith;
  free = refl;
  empty = refl;
}

-- The stack comes up, and the response to a command of sequence number 7 is late.
abbrev pub stack_up : Incoming
stack_up = record {
  ack_num = 0;
  retransmit = false;
  payload = 0 ∷ 144 ∷ 1 ∷ 25 ∷ 0 ∷ 144 ∷ [];
  wire = 0 ∷ 66 ∷ 177 ∷ 169 ∷ 77 ∷ 42 ∷ 133 ∷ 250 ∷ 12 ∷ 126 ∷ [];
}

pub stack_up-IsSent : IsSent 0 stack_up
unfolding encode control wire_body body crc16_all crc16_from crc16 crc16_rounds crc16_round stuff
    is_reserved randomise randomise_from lfsr_next
stack_up-IsSent = record { short = omega arith; sent = refl }

abbrev pub late : Incoming
late = record {
  ack_num = 1;
  retransmit = false;
  payload = 7 ∷ 128 ∷ 1 ∷ 38 ∷ 0 ∷ [];
  wire = 125 ∷ 49 ∷ 69 ∷ 161 ∷ 169 ∷ 114 ∷ 42 ∷ 55 ∷ 215 ∷ 126 ∷ [];
}

pub late-IsSent : IsSent 1 late
unfolding encode control wire_body body crc16_all crc16_from crc16 crc16_rounds crc16_round stuff
    is_reserved randomise randomise_from lfsr_next
late-IsSent = record { short = omega arith; sent = refl }

abbrev pub reply : Incoming
reply = record {
  ack_num = 1;
  retransmit = false;
  payload = reply_payload;
  wire =
      33 ∷ 66 ∷ 161 ∷ 169 ∷ 114 ∷ 42 ∷ 73 ∷ 220 ∷ 128 ∷ 106 ∷ 181 ∷ 164 ∷ 10 ∷ 193 ∷ 117 ∷ 62 ∷ 126
      ∷ [];
}

pub reply-IsSent : IsSent 2 reply
unfolding encode control wire_body body crc16_all crc16_from crc16 crc16_rounds crc16_round stuff
    is_reserved randomise randomise_from lfsr_next
reply-IsSent = record { short = omega arith; sent = refl }

noise-Passes :
    Passes 0 FrameId.get_eui64 (format_for FrameId.get_eui64 ready) (stack_up ∷ late ∷ [])
unfolding parse from_low_byte format_for
noise-Passes = (λ r. ground (arith, r.own), (λ r. omega (arith, r.same_sequence), tt))

reply-parsed : parse reply_payload (format_for FrameId.get_eui64 ready) ≡ ok reply_frame
unfolding parse format_for
reply-parsed = refl

command_dialogue_example :
    IsFinished get_eui64_command ready (stack_up ∷ late ∷ []) reply reply_frame (
      command recorder get_eui64_command tt
        (reads (stack_up ∷ late ∷ []) (arrived reply.wire ∷ []))
        ready)
unfolding from_low_byte next_sequence
command_dialogue_example =
    command_dialogue recorder (λ bytes tape. refl) get_eui64_command tt ready
      (0 ∷ 0 ∷ 1 ∷ 0x26 ∷ 0 ∷ []) (stack_up ∷ late ∷ []) reply [] reply_frame idle refl question
      (omega arith) (stack_up-IsSent, (late-IsSent, tt)) noise-Passes reply-IsSent reply-parsed
      (record { own = refl; back = refl; same_sequence = refl; same_id = refl }) refl
