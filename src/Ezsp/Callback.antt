-- ===== src/Ezsp/Callback.antt =====
-- src/ezsp/callback.rs: the messages that the NCP sends unasked.
pub mod Layout
pub mod Decoding
use rsezsp.Prelude.{ℕ, List, ◌==◌, if◌then◌else◌, Result, ok}
use rsezsp.Types.Signed.{ℤ, as_i8}
use rsezsp.Types.Status.{SlStatus}
use rsezsp.Types.Status
use rsezsp.Types.Network.{NodeId, decode_node_id, Eui64, decode_eui64}
use rsezsp.Types.Aps.{ApsFrame, decode_aps_frame}
use rsezsp.Ezsp.FrameId.{
  FrameId, stack_status_handler, trust_center_join_handler, message_sent_handler,
  incoming_message_handler,
}
use rsezsp.Ezsp.Error.{EzspError}
use rsezsp.Ezsp.Version.{ProtocolVersion, has_wide_message_tag}
use rsezsp.Ezsp.Exec.{Exec, pure, ◌>>=◌}
use rsezsp.Ezsp.Codec.Reader
use rsezsp.Ezsp.Codec.Reader.{Reader}

pub data Callback : Type 0 where
  stack_status : (code : SlStatus) → Callback
  trust_center_join :
      (node_id : NodeId) (eui64 : Eui64) (device_update decision : ℕ) (parent_node_id : NodeId)
      → Callback
  incoming_message :
      (message_type : ℕ) (aps_frame : ApsFrame) (last_hop_lqi : ℕ) (last_hop_rssi : ℤ)
      (sender : NodeId) (binding_index address_index : ℕ) (payload : List ℕ)
      → Callback
  message_sent :
      (message_type index_or_destination : ℕ) (aps_frame : ApsFrame) (message_tag : ℕ)
      (code : SlStatus) (payload : List ℕ)
      → Callback
  unknown : (id : FrameId) (parameters : List ℕ) → Callback

unfoldable pub read_stack_status : Exec Reader Callback
read_stack_status = do code ← Status.decode; pure (stack_status code)

unfoldable pub read_trust_center_join : Exec Reader Callback
read_trust_center_join = do
  node_id ← decode_node_id
  eui64 ← decode_eui64
  device_update ← Reader.u8
  decision ← Reader.u8
  parent_node_id ← decode_node_id
  pure (trust_center_join node_id eui64 device_update decision parent_node_id)

-- One byte below version 14, two from there on.
unfoldable pub read_message_tag : Exec Reader ℕ
read_message_tag r = if has_wide_message_tag r.version then Reader.u16 r else Reader.u8 r

unfoldable pub read_message_sent : Exec Reader Callback
unfolding read_message_tag
read_message_sent = do
  message_type ← Reader.u8
  index_or_destination ← Reader.u16
  aps_frame ← decode_aps_frame
  message_tag ← read_message_tag
  code ← Status.decode
  payload ← Reader.length_prefixed
  pure (message_sent message_type index_or_destination aps_frame message_tag code payload)

unfoldable pub read_incoming_message : Exec Reader Callback
read_incoming_message = do
  message_type ← Reader.u8
  aps_frame ← decode_aps_frame
  last_hop_lqi ← Reader.u8
  last_hop_rssi ← Reader.u8
  sender ← decode_node_id
  binding_index ← Reader.u8
  address_index ← Reader.u8
  payload ← Reader.length_prefixed
  pure (
      incoming_message message_type aps_frame last_hop_lqi (as_i8 last_hop_rssi) sender
        binding_index address_index payload)

-- Bytes behind the last field are left unread, and no error.
unfoldable pub decode : FrameId → List ℕ → ProtocolVersion → Result Callback EzspError
unfolding read_stack_status read_trust_center_join read_message_sent read_incoming_message
decode id parameters version =
    let input = Reader.new parameters version in
    if id == stack_status_handler
    then (read_stack_status input).0
    else if id == trust_center_join_handler
    then (read_trust_center_join input).0
    else if id == message_sent_handler
    then (read_message_sent input).0
    else if id == incoming_message_handler
    then (read_incoming_message input).0
    else ok (unknown id parameters)

unfoldable pub frame_id : Callback → FrameId
frame_id (stack_status code) = stack_status_handler
frame_id (trust_center_join node_id eui64 device_update decision parent_node_id) =
    trust_center_join_handler
frame_id (incoming_message t f lqi rssi sender binding_index address_index payload) =
    incoming_message_handler
frame_id (message_sent t d f tag code payload) = message_sent_handler
frame_id (unknown id parameters) = id
