-- ===== src/Ezsp/Command/Messages.antt =====
-- The commands that send a message. The tag is one byte below version 14 and two from there on.
use rsezsp.Prelude.{ℕ, List, if◌then◌else◌, bit_and}
use rsezsp.Types.Status.{SlStatus}
use rsezsp.Types.Status
use rsezsp.Types.Network.{NodeId}
use rsezsp.Types.Aps.{ApsFrame, encode_aps_frame, UnicastType, encode_unicast_type}
use rsezsp.Ezsp.FrameId
use rsezsp.Ezsp.Version.{is_supported, has_wide_message_tag}
use rsezsp.Ezsp.Exec.{Exec, pure, ◌>>=◌, ◌>>◌}
use rsezsp.Ezsp.Codec.Reader
use rsezsp.Ezsp.Codec.Reader.{Reader}
use rsezsp.Ezsp.Codec.Writer
use rsezsp.Ezsp.Codec.Writer.{Writer, version_of}
use rsezsp.Ezsp.Command.Interface.{Command}

-- The narrow tag loses its high byte.
unfoldable pub put_message_tag : ℕ → Exec Writer (Unit {0})
put_message_tag tag w =
    if has_wide_message_tag w.version then Writer.u16 tag w else Writer.u8 (bit_and tag 0xff) w

-- The response to all three: a status and the APS sequence number that the NCP chose.
pub record SendResponse : Type 0 where
  pub status : SlStatus
  pub aps_sequence : ℕ

unfoldable pub decode_send_response : Exec Reader SendResponse
decode_send_response = do
  status ← Status.decode
  aps_sequence ← Reader.u8
  pure (record { status = status; aps_sequence = aps_sequence })

pub record SendUnicast : Type 0 where
  pub unicast_type : UnicastType
  pub index_or_destination : ℕ
  pub aps_frame : ApsFrame
  pub message_tag : ℕ
  pub message : List ℕ

unfoldable pub encode_send_unicast : SendUnicast → Exec Writer (Unit {0})
unfolding put_message_tag
encode_send_unicast c = do
  encode_unicast_type c.unicast_type
  Writer.u16 c.index_or_destination
  encode_aps_frame c.aps_frame
  put_message_tag c.message_tag
  Writer.length_prefixed c.message

abbrev pub send_unicast_command : Command SendUnicast SendResponse
send_unicast_command = record {
  id = FrameId.send_unicast;
  is_available = is_supported;
  encode = encode_send_unicast;
  decode = decode_send_response;
}

pub record SendBroadcast : Type 0 where
  pub destination : NodeId
  pub aps_frame : ApsFrame
  pub radius : ℕ
  pub message_tag : ℕ
  pub message : List ℕ

unfoldable pub encode_send_broadcast : SendBroadcast → Exec Writer (Unit {0})
unfolding put_message_tag
encode_send_broadcast c = do
  Writer.u16 c.destination
  encode_aps_frame c.aps_frame
  Writer.u8 c.radius
  put_message_tag c.message_tag
  Writer.length_prefixed c.message

abbrev pub send_broadcast_command : Command SendBroadcast SendResponse
send_broadcast_command = record {
  id = FrameId.send_broadcast;
  is_available = is_supported;
  encode = encode_send_broadcast;
  decode = decode_send_response;
}

pub record SendMulticast : Type 0 where
  pub aps_frame : ApsFrame
  pub hops : ℕ
  pub nonmember_radius : ℕ
  pub message_tag : ℕ
  pub message : List ℕ

unfoldable pub encode_send_multicast : SendMulticast → Exec Writer (Unit {0})
unfolding put_message_tag
encode_send_multicast c = do
  encode_aps_frame c.aps_frame
  Writer.u8 c.hops
  Writer.u8 c.nonmember_radius
  put_message_tag c.message_tag
  Writer.length_prefixed c.message

abbrev pub send_multicast_command : Command SendMulticast SendResponse
send_multicast_command = record {
  id = FrameId.send_multicast;
  is_available = is_supported;
  encode = encode_send_multicast;
  decode = decode_send_response;
}
