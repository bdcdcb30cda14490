-- ===== src/Ncp/Examples/Oversized.antt =====
-- Requests that are too long: for the prefix of a message, and for a data frame.
use rsezsp.Prelude.{ℕ, ◌+◌, length, zero, suc, List, [], ◌∷◌, some, ok, err, ◌≡◌, refl, arith}
use rsezsp.Types.Aps.{direct, encode_aps_frame, encode_unicast_type}
use rsezsp.Ash.Frame.{next_sequence}
use rsezsp.Ezsp.FrameId
use rsezsp.Ezsp.Error.{sequence_mismatch, payload_too_long, ash}
use rsezsp.Ezsp.Frame.{write_header}
use rsezsp.Ezsp.Codec.Writer
use rsezsp.Ezsp.Command.Setup.{get_eui64_command}
use rsezsp.Ezsp.Command.Messages.{
  SendUnicast, send_unicast_command, encode_send_unicast, put_message_tag,
}
use rsezsp.Ncp.Transport.{arrived}
use rsezsp.Ncp.Command.{command, request, format_for}
use rsezsp.Ncp.Failures.{command_sticks}
use rsezsp.Ncp.Exchange.{pending_for}
use rsezsp.Ncp.Oversized.{command_unsendable}
use rsezsp.Ash.Error.{too_long}
use rsezsp.Ncp.Examples.{recorder, ready, reply_wire, is_ready}

repeat : ℕ → List ℕ
repeat zero = []
repeat (suc n) = 0x55 ∷ repeat n

-- A message of 256 bytes.
abbrev oversized : SendUnicast
oversized = record {
  unicast_type = direct;
  index_or_destination = 0x3a41;
  aps_frame = record {
    profile_id = 0x0104;
    cluster_id = 0x0006;
    source_endpoint = 1;
    destination_endpoint = 1;
    options = 0x0140;
    group_id = 0;
    sequence = 0;
  };
  message_tag = 1;
  message = repeat 256;
}

oversized_fails :
    request send_unicast_command oversized 0 (format_for FrameId.send_unicast ready) 13
    ≡ err (payload_too_long 256 255)
unfolding request format_for write_header encode_send_unicast encode_unicast_type encode_aps_frame
    put_message_tag Writer.length_prefixed Writer.u8 Writer.u16 repeat
oversized_fails = refl

command_sticks_example :
    ((command recorder send_unicast_command oversized [] ready).0 ≡ err (payload_too_long 256 255))
    × ((command recorder get_eui64_command tt
          (arrived reply_wire ∷ [])
          (command recorder send_unicast_command oversized [] ready).1).0
        ≡ err (sequence_mismatch 0))
command_sticks_example =
    command_sticks recorder send_unicast_command oversized get_eui64_command tt []
      (arrived reply_wire ∷ []) ready (payload_too_long 256 255) refl refl refl oversized_fails

-- A message of 120 bytes makes a request of 141.
abbrev long_message : SendUnicast
long_message = record oversized { message = repeat 120 }

abbrev long_request : List ℕ
long_request =
    0
    ∷ 0
    ∷ 1
    ∷ 0x34
    ∷ 0
    ∷ 0
    ∷ 0x41
    ∷ 0x3a
    ∷ 4
    ∷ 1
    ∷ 6
    ∷ 0
    ∷ 1
    ∷ 1
    ∷ 0x40
    ∷ 1
    ∷ 0
    ∷ 0
    ∷ 0
    ∷ 1
    ∷ 120
    ∷ repeat 120

long_question :
    request send_unicast_command long_message 0 (format_for FrameId.send_unicast ready) 13
    ≡ ok long_request
unfolding request format_for write_header encode_send_unicast encode_unicast_type encode_aps_frame
    put_message_tag Writer.length_prefixed Writer.put_bytes Writer.u8 Writer.u16 repeat
long_question = refl

command_unsendable_example :
    let (r, n') = command recorder send_unicast_command long_message [] ready in
    (r ≡ err (ash (too_long (length long_request + 3) 133)))
    × (n'.transport ≡ [])
    × (n'.ash.in_flight ≡ record { frame_num = 0; payload = long_request; sends = 1 } ∷ [])
    × (n'.ash.next_tx_frame ≡ next_sequence 0)
    × (n'.correlator.pending ≡ some (pending_for send_unicast_command ready))
unfolding repeat
command_unsendable_example =
    command_unsendable recorder send_unicast_command long_message [] ready long_request is_ready
      refl long_question (omega arith) (omega arith)
