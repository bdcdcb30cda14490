-- ===== src/Types/Network.antt =====
-- src/types/network.rs: addresses, network parameters and network state.
use rsezsp.Prelude.{ℕ, List, Bool, ◌==◌, ◌||◌, bit_or}
use rsezsp.Prelude.Words.{to_le_bytes, from_le_bytes}
use rsezsp.Types.Signed.{ℤ, as_u8, as_i8}
use rsezsp.Ezsp.Exec.{Exec, pure, ◌>>=◌, ◌>>◌}
use rsezsp.Ezsp.Codec.Reader
use rsezsp.Ezsp.Codec.Reader.{Reader}
use rsezsp.Ezsp.Codec.Writer
use rsezsp.Ezsp.Codec.Writer.{Writer}

-- A 64-bit address.
abbrev pub Eui64 : Type 0
Eui64 = ℕ

abbrev pub to_wire : Eui64 → List ℕ
to_wire address = to_le_bytes 8 address

abbrev pub from_wire : List ℕ → Eui64
from_wire bytes = from_le_bytes bytes

unfoldable pub encode_eui64 : Eui64 → Exec Writer (Unit {0})
encode_eui64 address = Writer.put_bytes (to_wire address)

unfoldable pub decode_eui64 : Exec Reader Eui64
decode_eui64 = do bytes ← Reader.array 8; pure (from_wire bytes)

abbrev pub NodeId : Type 0
NodeId = ℕ

unfoldable pub encode_node_id : NodeId → Exec Writer (Unit {0})
encode_node_id node = Writer.u16 node

unfoldable pub decode_node_id : Exec Reader NodeId
decode_node_id = Reader.u16

abbrev pub NetworkInitBitmask : Type 0
NetworkInitBitmask = ℕ

unfoldable pub encode_network_init_bitmask : NetworkInitBitmask → Exec Writer (Unit {0})
encode_network_init_bitmask bitmask = Writer.u16 bitmask

abbrev pub ConfigId : Type 0
ConfigId = ℕ

abbrev pub PolicyId : Type 0
PolicyId = ℕ

abbrev pub ValueId : Type 0
ValueId = ℕ

abbrev pub Decision : Type 0
Decision = ℕ

abbrev pub union : Decision → Decision → Decision
union a b = bit_or a b

pub record NetworkParameters : Type 0 where
  pub extended_pan_id : List ℕ
  pub pan_id : ℕ
  pub radio_tx_power : ℤ
  pub radio_channel : ℕ
  pub join_method : ℕ
  pub nwk_manager_id : ℕ
  pub nwk_update_id : ℕ
  pub channels : ℕ

unfoldable pub encode_network_parameters : NetworkParameters → Exec Writer (Unit {0})
encode_network_parameters p = do
  Writer.put_bytes p.extended_pan_id
  Writer.u16 p.pan_id
  Writer.u8 (as_u8 p.radio_tx_power)
  Writer.u8 p.radio_channel
  Writer.u8 p.join_method
  Writer.u16 p.nwk_manager_id
  Writer.u8 p.nwk_update_id
  Writer.u32 p.channels

unfoldable pub decode_network_parameters : Exec Reader NetworkParameters
decode_network_parameters = do
  extended_pan_id ← Reader.array 8
  pan_id ← Reader.u16
  radio_tx_power ← Reader.u8
  radio_channel ← Reader.u8
  join_method ← Reader.u8
  nwk_manager_id ← Reader.u16
  nwk_update_id ← Reader.u8
  channels ← Reader.u32
  pure (record {
    extended_pan_id = extended_pan_id;
    pan_id = pan_id;
    radio_tx_power = as_i8 radio_tx_power;
    radio_channel = radio_channel;
    join_method = join_method;
    nwk_manager_id = nwk_manager_id;
    nwk_update_id = nwk_update_id;
    channels = channels;
  })

abbrev pub NetworkStatus : Type 0
NetworkStatus = ℕ

abbrev pub joined_network : NetworkStatus
joined_network = 0x02

abbrev pub joined_network_no_parent : NetworkStatus
joined_network_no_parent = 0x03

abbrev pub is_joined : NetworkStatus → Bool
is_joined s = s == joined_network || s == joined_network_no_parent
