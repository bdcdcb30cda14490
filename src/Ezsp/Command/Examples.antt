-- ===== src/Ezsp/Command/Examples.antt =====
-- Commands, responses and callbacks on concrete values.
use rsezsp.Prelude.{ℕ, ◌%◌, List, [], ◌∷◌, ◌++◌, ok, if◌then◌else◌, ◌≡◌, refl, arith}
use rsezsp.Types.Signed.{negsuc, as_u8}
use rsezsp.Types.Network.{encode_node_id}
use rsezsp.Types.Aps.{ApsFrame, encode_aps_frame, direct, raw, encode_unicast_type}
use rsezsp.Types.Status
use rsezsp.Ezsp.FrameId.{stack_status_handler}
use rsezsp.Ezsp.Version.{has_wide_message_tag}
use rsezsp.Ezsp.Codec.Reader
use rsezsp.Ezsp.Codec.Writer
use rsezsp.Ezsp.Command.Setup.{AddEndpoint, encode_add_endpoint, put_clusters}
use rsezsp.Ezsp.Command.Messages.{SendUnicast, encode_send_unicast, put_message_tag}
use rsezsp.Ezsp.Command.Requests.{read_unicast, send_unicast_read, read_endpoint, add_endpoint_read}
use rsezsp.Ezsp.Callback.{
  Callback, stack_status, incoming_message, decode, frame_id, read_stack_status,
}
use rsezsp.Ezsp.Callback.Layout.{put_callback}
use rsezsp.Ezsp.Callback.Decoding.{decode-put_callback}

abbrev aps : ApsFrame
aps = record {
  profile_id = 0x0104;
  cluster_id = 0x0006;
  source_endpoint = 1;
  destination_endpoint = 1;
  options = 0x0140;
  group_id = 0;
  sequence = 0;
}

-- Two bytes to a device, with a tag that needs two bytes.
abbrev unicast : SendUnicast
unicast = record {
  unicast_type = direct;
  index_or_destination = 0x3a41;
  aps_frame = aps;
  message_tag = 0x0102;
  message = 0x01 ∷ 0x02 ∷ [];
}

abbrev sent_unicast : List ℕ
sent_unicast = (encode_send_unicast unicast (Writer.new 13)).1.bytes

send_unicast_read_example :
    (read_unicast (Reader.new (sent_unicast ++ []) 13)).0
    ≡ ok (record {
      kind = raw direct;
      destination = 0x3a41;
      frame = aps;
      tag = if has_wide_message_tag 13 then 0x0102 else 0x0102 % 256;
      payload = 0x01 ∷ 0x02 ∷ [];
    })
unfolding encode_send_unicast encode_unicast_type raw encode_aps_frame put_message_tag
    Writer.length_prefixed Writer.put_bytes Writer.u8 Writer.u16
send_unicast_read_example =
    send_unicast_read 13 unicast []
      (omega arith, (omega arith, omega arith, omega arith, omega arith), omega arith, omega arith)
      (omega arith)

abbrev endpoint : AddEndpoint
endpoint = record {
  endpoint = 1;
  profile_id = 0x0104;
  device_id = 0x0005;
  app_flags = 0;
  input_clusters = 0x0000 ∷ 0x0006 ∷ [];
  output_clusters = 0x0019 ∷ [];
}

abbrev sent_endpoint : List ℕ
sent_endpoint = (encode_add_endpoint endpoint (Writer.new 14)).1.bytes

sent_endpoint_test : sent_endpoint ≡ 1 ∷ 4 ∷ 1 ∷ 5 ∷ 0 ∷ 0 ∷ 2 ∷ 1 ∷ 0 ∷ 0 ∷ 6 ∷ 0 ∷ 0x19 ∷ 0 ∷ []
unfolding encode_add_endpoint put_clusters Writer.u8 Writer.u16
sent_endpoint_test = refl

add_endpoint_read_example : (read_endpoint (Reader.new (sent_endpoint ++ []) 14)).0 ≡ ok endpoint
unfolding encode_add_endpoint put_clusters Writer.u8 Writer.u16
add_endpoint_read_example =
    add_endpoint_read 14 endpoint []
      (
        omega arith,
        omega arith,
        (omega arith, (omega arith, tt)),
        (omega arith, tt),
        omega arith,
        omega arith,
      )
      (omega arith)

-- Received at -60 dBm.
abbrev heard : Callback
heard = incoming_message 0 aps 0xff (negsuc 59) 0x3a41 0xff 0xff (0x18 ∷ 0x01 ∷ [])

abbrev heard_parameters : List ℕ
heard_parameters = (put_callback heard (Writer.new 13)).1.bytes ++ []

decode-put_callback_example : decode (frame_id heard) heard_parameters 13 ≡ ok heard
unfolding put_callback as_u8 encode_aps_frame encode_node_id Writer.length_prefixed Writer.put_bytes
    Writer.u8 Writer.u16
decode-put_callback_example =
    decode-put_callback 13 heard []
      ((omega arith, omega arith, omega arith, omega arith), omega arith, omega arith, omega arith)
      (omega arith)

up : decode stack_status_handler (0x90 ∷ []) 13 ≡ ok (stack_status 0x90)
unfolding decode read_stack_status Status.decode Reader.u8 Reader.take_bytes
up = refl
