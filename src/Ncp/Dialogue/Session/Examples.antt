-- ===== src/Ncp/Dialogue/Session/Examples.antt =====
-- Two commands: the first behind a callback and a late response, the second at once.
use rsezsp.Prelude.{List, [], ◌∷◌, false, ◌≡◌, refl, arith}
use rsezsp.Ash.Frame.{control, body, next_sequence}
use rsezsp.Ash.Codec.{
  encode, wire_body, stuff, is_reserved, crc16_all, crc16_from, crc16, crc16_rounds, crc16_round,
  randomise, randomise_from, lfsr_next,
}
use rsezsp.Ezsp.FrameId
use rsezsp.Types.Status
use rsezsp.Ezsp.Codec.Reader
use rsezsp.Ezsp.Codec.Writer
use rsezsp.Ezsp.Frame.{Frame, parse, from_low_byte, write_header}
use rsezsp.Ezsp.Callback.{stack_status, decode, read_stack_status}
use rsezsp.Ezsp.Command.Setup.{get_eui64_command}
use rsezsp.Ezsp.Command.Network.{permit_joining_command}
use rsezsp.Ncp.Command.{request}
use rsezsp.Ncp.Examples.{recorder, ready, reply_frame}
use rsezsp.Ncp.Dialogue.{Incoming, IsSent, IsIdle}
use rsezsp.Ncp.Dialogue.Examples.{
  idle, stack_up, stack_up-IsSent, late, late-IsSent, reply, reply-IsSent,
}
use rsezsp.Ncp.Dialogue.Session.{
  Turn, turn, IsTurn, AreTurns, AllAnswered, session, heard, session_answered,
}

abbrev joining : Incoming
joining = record {
  ack_num = 2;
  retransmit = false;
  payload = 1 ∷ 128 ∷ 1 ∷ 0x22 ∷ 0 ∷ 0 ∷ [];
  wire = 50 ∷ 67 ∷ 161 ∷ 169 ∷ 118 ∷ 42 ∷ 21 ∷ 52 ∷ 117 ∷ 126 ∷ [];
}

joining-IsSent : IsSent 3 joining
unfolding encode control wire_body body crc16_all crc16_from crc16 crc16_rounds crc16_round stuff
    is_reserved randomise randomise_from lfsr_next
joining-IsSent = record { short = omega arith; sent = refl }

abbrev joining_frame : Frame
joining_frame = record {
  sequence = 1;
  control = from_low_byte 0x80;
  frame_id = FrameId.permit_joining;
  parameters = 0 ∷ [];
}

abbrev turns : List Turn
turns =
    turn get_eui64_command tt (0 ∷ 0 ∷ 1 ∷ 0x26 ∷ 0 ∷ []) (stack_up ∷ late ∷ []) reply reply_frame
    ∷ turn permit_joining_command 60 (1 ∷ 0 ∷ 1 ∷ 0x22 ∷ 0 ∷ 60 ∷ []) [] joining joining_frame
    ∷ []

first :
    IsTurn 13 0 0 0 get_eui64_command tt
      (0 ∷ 0 ∷ 1 ∷ 0x26 ∷ 0 ∷ [])
      (stack_up ∷ late ∷ [])
      reply
      reply_frame
unfolding request write_header Writer.u8 Writer.u16 parse from_low_byte next_sequence
first = record {
  other = refl;
  available = refl;
  asked = refl;
  short = omega arith;
  before = (stack_up-IsSent, (late-IsSent, tt));
  passes = (λ r. ground (arith, r.own), (λ r. omega (arith, r.same_sequence), tt));
  last = reply-IsSent;
  parsed = refl;
  is = record { own = refl; back = refl; same_sequence = refl; same_id = refl };
  acked = refl;
}

second :
    IsTurn 13 1 3 1 permit_joining_command 60
      (1 ∷ 0 ∷ 1 ∷ 0x22 ∷ 0 ∷ 60 ∷ [])
      []
      joining
      joining_frame
unfolding request write_header Writer.u8 Writer.u16 parse from_low_byte next_sequence
second = record {
  other = refl;
  available = refl;
  asked = refl;
  short = omega arith;
  before = tt;
  passes = tt;
  last = joining-IsSent;
  parsed = refl;
  is = record { own = refl; back = refl; same_sequence = refl; same_id = refl };
  acked = refl;
}

heard_test : heard 13 turns ≡ stack_status 0x90 ∷ []
unfolding parse from_low_byte decode read_stack_status Status.decode Reader.u8
heard_test = refl

turns-AreTurns : AreTurns 13 0 0 0 turns
unfolding next_sequence
turns-AreTurns = (first, (second, tt))

session_answered_example :
    AllAnswered recorder 13 turns ready
    × IsIdle (session recorder turns ready)
    × ((session recorder turns ready).callbacks ≡ heard 13 turns)
session_answered_example =
    session_answered recorder (λ bytes tape. refl) turns ready idle turns-AreTurns
