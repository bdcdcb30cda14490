-- ===== src/Ezsp/Command/Network.antt =====
-- The commands that start, form and open a network.
use rsezsp.Prelude.{ℕ, ltb, if◌then◌else◌}
use rsezsp.Types.Status.{SlStatus}
use rsezsp.Types.Status
use rsezsp.Types.Network.{
  NetworkInitBitmask, encode_network_init_bitmask, NetworkParameters, encode_network_parameters,
  decode_network_parameters, NetworkStatus,
}
use rsezsp.Ezsp.FrameId
use rsezsp.Ezsp.Version.{is_supported}
use rsezsp.Ezsp.Exec.{Exec, pure, ◌>>=◌}
use rsezsp.Ezsp.Codec.Reader
use rsezsp.Ezsp.Codec.Reader.{Reader}
use rsezsp.Ezsp.Codec.Writer
use rsezsp.Ezsp.Command.Interface.{Command}

abbrev pub network_init_command : Command NetworkInitBitmask SlStatus
network_init_command = record {
  id = FrameId.network_init;
  is_available = is_supported;
  encode = encode_network_init_bitmask;
  decode = Status.decode;
}

abbrev pub max_duration : ℕ
max_duration = 254

-- The duration that `PermitJoining::for_seconds` asks for.
unfoldable pub for_seconds : ℕ → ℕ
for_seconds seconds = if ltb max_duration seconds then max_duration else seconds

abbrev pub permit_joining_command : Command ℕ SlStatus
permit_joining_command = record {
  id = FrameId.permit_joining;
  is_available = is_supported;
  encode = λ duration. Writer.u8 duration;
  decode = Status.decode;
}

pub record GetNetworkParametersResponse : Type 0 where
  pub status : SlStatus
  pub node_type : ℕ
  pub parameters : NetworkParameters

unfoldable pub decode_get_network_parameters : Exec Reader GetNetworkParametersResponse
decode_get_network_parameters = do
  status ← Status.decode
  node_type ← Reader.u8
  parameters ← decode_network_parameters
  pure (record { status = status; node_type = node_type; parameters = parameters })

abbrev pub get_network_parameters_command : Command (Unit {0}) GetNetworkParametersResponse
get_network_parameters_command = record {
  id = FrameId.get_network_parameters;
  is_available = is_supported;
  encode = λ _. pure tt;
  decode = decode_get_network_parameters;
}

abbrev pub form_network_command : Command NetworkParameters SlStatus
form_network_command = record {
  id = FrameId.form_network;
  is_available = is_supported;
  encode = encode_network_parameters;
  decode = Status.decode;
}

abbrev pub network_state_command : Command (Unit {0}) NetworkStatus
network_state_command = record {
  id = FrameId.network_state;
  is_available = is_supported;
  encode = λ _. pure tt;
  decode = Reader.u8;
}
