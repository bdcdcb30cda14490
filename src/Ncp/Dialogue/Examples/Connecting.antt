-- ===== src/Ncp/Dialogue/Examples/Connecting.antt =====
-- Three ways to connect.
use rsezsp.Prelude.{[], ◌∷◌, false, ok, err, ◌≡◌, refl, arith}
use rsezsp.Prelude.Words.{from_le_bytes}
use rsezsp.Ash.Frame.{control, body, next_sequence}
use rsezsp.Ash.Codec.{
  encode, wire_body, stuff, is_reserved, crc16_all, crc16_from, crc16, crc16_rounds, crc16_round,
  randomise, randomise_from, lfsr_next,
}
use rsezsp.Ezsp.FrameId
use rsezsp.Ezsp.Version.{preferred}
use rsezsp.Ezsp.Error.{unsupported_version}
use rsezsp.Ezsp.Frame.{Frame, legacy, extended, parse, from_low_byte}
use rsezsp.Ncp.Transport.{arrived}
use rsezsp.Ncp.Runtime.{Ncp}
use rsezsp.Ncp.Startup.{connect}
use rsezsp.Ncp.Examples.{Tape, recorder, rstack, rstack_sent, answers}
use rsezsp.Ncp.Dialogue.{Incoming, IsSent, IsIdle}
use rsezsp.Ncp.Dialogue.Negotiation.{IsReply, version_bytes}
use rsezsp.Ncp.Dialogue.Connecting.{connect-preferred, connect_older, connect_refused}

abbrev runs_13 : Incoming
runs_13 = record {
  ack_num = 1;
  retransmit = false;
  payload = 0 ∷ 128 ∷ 0 ∷ 13 ∷ 2 ∷ 16 ∷ 116 ∷ [];
  wire = 1 ∷ 66 ∷ 161 ∷ 168 ∷ 89 ∷ 40 ∷ 5 ∷ 198 ∷ 168 ∷ 119 ∷ 126 ∷ [];
}

runs_13-IsSent : IsSent 0 runs_13
unfolding encode control wire_body body crc16_all crc16_from crc16 crc16_rounds crc16_round stuff
    is_reserved randomise randomise_from lfsr_next
runs_13-IsSent = record { short = omega arith; sent = refl }

abbrev runs_13_frame : Frame
runs_13_frame = record {
  sequence = 0;
  control = from_low_byte 0x80;
  frame_id = FrameId.version;
  parameters = 13 ∷ 2 ∷ 16 ∷ 116 ∷ [];
}

runs_13-IsReply : IsReply 0 1 0 legacy [] runs_13 runs_13_frame (version_bytes 13 2 16 116)
unfolding parse from_low_byte
runs_13-IsReply = record {
  before = tt;
  passes = tt;
  last = runs_13-IsSent;
  parsed = refl;
  is = record { own = refl; back = refl; same_sequence = refl; same_id = refl };
  acks = refl;
  content = refl;
}

abbrev runs_19 : Incoming
runs_19 = record {
  ack_num = 1;
  retransmit = false;
  payload = 0 ∷ 128 ∷ 0 ∷ 19 ∷ 2 ∷ 0 ∷ 128 ∷ [];
  wire = 1 ∷ 66 ∷ 161 ∷ 168 ∷ 71 ∷ 40 ∷ 21 ∷ 50 ∷ 189 ∷ 98 ∷ 126 ∷ [];
}

runs_19-IsSent : IsSent 0 runs_19
unfolding encode control wire_body body crc16_all crc16_from crc16 crc16_rounds crc16_round stuff
    is_reserved randomise randomise_from lfsr_next
runs_19-IsSent = record { short = omega arith; sent = refl }

abbrev runs_19_frame : Frame
runs_19_frame = record {
  sequence = 0;
  control = from_low_byte 0x80;
  frame_id = FrameId.version;
  parameters = 19 ∷ 2 ∷ 0 ∷ 128 ∷ [];
}

runs_19-IsReply : IsReply 0 1 0 legacy [] runs_19 runs_19_frame (version_bytes 19 2 0 128)
unfolding parse from_low_byte
runs_19-IsReply = record {
  before = tt;
  passes = tt;
  last = runs_19-IsSent;
  parsed = refl;
  is = record { own = refl; back = refl; same_sequence = refl; same_id = refl };
  acks = refl;
  content = refl;
}

abbrev runs_9 : Incoming
runs_9 = record {
  ack_num = 1;
  retransmit = false;
  payload = 0 ∷ 128 ∷ 0 ∷ 9 ∷ 2 ∷ 0 ∷ 105 ∷ [];
  wire = 1 ∷ 66 ∷ 161 ∷ 168 ∷ 93 ∷ 40 ∷ 21 ∷ 219 ∷ 162 ∷ 105 ∷ 126 ∷ [];
}

runs_9-IsSent : IsSent 0 runs_9
unfolding encode control wire_body body crc16_all crc16_from crc16 crc16_rounds crc16_round stuff
    is_reserved randomise randomise_from lfsr_next
runs_9-IsSent = record { short = omega arith; sent = refl }

abbrev runs_9_frame : Frame
runs_9_frame = record {
  sequence = 0;
  control = from_low_byte 0x80;
  frame_id = FrameId.version;
  parameters = 9 ∷ 2 ∷ 0 ∷ 105 ∷ [];
}

runs_9-IsReply : IsReply 0 1 0 legacy [] runs_9 runs_9_frame (version_bytes 9 2 0 105)
unfolding parse from_low_byte
runs_9-IsReply = record {
  before = tt;
  passes = tt;
  last = runs_9-IsSent;
  parsed = refl;
  is = record { own = refl; back = refl; same_sequence = refl; same_id = refl };
  acks = refl;
  content = refl;
}

abbrev again_13 : Incoming
again_13 = record {
  ack_num = 2;
  retransmit = false;
  payload = 1 ∷ 128 ∷ 1 ∷ 0 ∷ 0 ∷ 13 ∷ 2 ∷ 16 ∷ 116 ∷ [];
  wire = 18 ∷ 67 ∷ 161 ∷ 169 ∷ 84 ∷ 42 ∷ 125 ∷ 56 ∷ 176 ∷ 73 ∷ 224 ∷ 228 ∷ 143 ∷ 126 ∷ [];
}

again_13-IsSent : IsSent 1 again_13
unfolding encode control wire_body body crc16_all crc16_from crc16 crc16_rounds crc16_round stuff
    is_reserved randomise randomise_from lfsr_next
again_13-IsSent = record { short = omega arith; sent = refl }

abbrev again_13_frame : Frame
again_13_frame = record {
  sequence = 1;
  control = from_low_byte 0x80;
  frame_id = FrameId.version;
  parameters = 13 ∷ 2 ∷ 16 ∷ 116 ∷ [];
}

again_13-IsReply :
    IsReply (next_sequence 0) 2 1 extended [] again_13 again_13_frame (version_bytes 13 2 0x10 0x74)
unfolding parse from_low_byte next_sequence
again_13-IsReply = record {
  before = tt;
  passes = tt;
  last = again_13-IsSent;
  parsed = refl;
  is = record { own = refl; back = refl; same_sequence = refl; same_id = refl };
  acks = refl;
  content = refl;
}

connect-preferred_example :
    (n : Ncp Tape) × (connect recorder [] answers (arrived runs_19.wire ∷ []) [] ≡ ok n)
    × IsIdle n
    × (n.version ≡ preferred)
    × (n.stack_version ≡ from_le_bytes (0 ∷ 0x80 ∷ []))
connect-preferred_example =
    connect-preferred recorder (λ bytes tape. refl) [] answers 2 0x0b rstack [] rstack_sent refl []
      runs_19 runs_19_frame [] [] 0 0x80 runs_19-IsReply

connect_older_example :
    (n : Ncp Tape) × (connect recorder [] answers
        (arrived runs_13.wire ∷ [])
        (arrived again_13.wire ∷ [])
      ≡ ok n)
    × IsIdle n
    × (n.version ≡ 13)
    × (n.stack_version ≡ from_le_bytes (0x10 ∷ 0x74 ∷ []))
connect_older_example =
    connect_older recorder (λ bytes tape. refl) [] answers 2 0x0b rstack [] rstack_sent refl []
      runs_13 runs_13_frame [] 13 0x10 0x74 [] again_13 again_13_frame [] 2 0x10 0x74 (omega arith)
      refl runs_13-IsReply again_13-IsReply

connect_refused_example :
    connect recorder [] answers (arrived runs_9.wire ∷ []) [] ≡ err (unsupported_version 9)
connect_refused_example =
    connect_refused recorder (λ bytes tape. refl) [] answers 2 0x0b rstack [] rstack_sent refl []
      runs_9 runs_9_frame [] [] 9 2 0 0x69 refl runs_9-IsReply
