-- ===== src/Ezsp/Command/Setup.antt =====
-- Version, configuration, policies and endpoints.
use rsezsp.Prelude.{ℕ, List, [], ◌∷◌, true, length, ltb, if◌then◌else◌}
use rsezsp.Types.Status.{SlStatus}
use rsezsp.Types.Status
use rsezsp.Types.Network.{Eui64, decode_eui64, ConfigId, PolicyId, ValueId, Decision}
use rsezsp.Ezsp.FrameId
use rsezsp.Ezsp.Error.{payload_too_long}
use rsezsp.Ezsp.Version.{ProtocolVersion, is_supported}
use rsezsp.Ezsp.Exec.{Exec, pure, raise, ◌>>=◌, ◌>>◌}
use rsezsp.Ezsp.Codec.Reader
use rsezsp.Ezsp.Codec.Reader.{Reader}
use rsezsp.Ezsp.Codec.Writer
use rsezsp.Ezsp.Codec.Writer.{Writer}
use rsezsp.Ezsp.Command.Interface.{Command}

pub record VersionResponse : Type 0 where
  pub protocol_version : ProtocolVersion
  pub stack_type : ℕ
  pub stack_version : ℕ

unfoldable pub decode_version_response : Exec Reader VersionResponse
decode_version_response = do
  protocol_version ← Reader.u8
  stack_type ← Reader.u8
  stack_version ← Reader.u16
  pure (record {
    protocol_version = protocol_version;
    stack_type = stack_type;
    stack_version = stack_version;
  })

-- Available at every version, since it is what finds the version out.
abbrev pub version_command : Command ProtocolVersion VersionResponse
version_command = record {
  id = FrameId.version;
  is_available = λ _. true;
  encode = λ desired. Writer.u8 desired;
  decode = decode_version_response;
}

abbrev pub get_eui64_command : Command (Unit {0}) Eui64
get_eui64_command = record {
  id = FrameId.get_eui64;
  is_available = is_supported;
  encode = λ _. pure tt;
  decode = decode_eui64;
}

pub record SetConfigurationValue : Type 0 where
  pub config_id : ConfigId
  pub value : ℕ

abbrev pub set_configuration_value_command : Command SetConfigurationValue SlStatus
set_configuration_value_command = record {
  id = FrameId.set_configuration_value;
  is_available = is_supported;
  encode = λ c. (do Writer.u8 c.config_id; Writer.u16 c.value);
  decode = Status.decode;
}

pub record SetPolicy : Type 0 where
  pub policy_id : PolicyId
  pub decision : Decision

abbrev pub set_policy_command : Command SetPolicy SlStatus
set_policy_command = record {
  id = FrameId.set_policy;
  is_available = is_supported;
  encode = λ c. (do Writer.u8 c.policy_id; Writer.u8 c.decision);
  decode = Status.decode;
}

pub record AddEndpoint : Type 0 where
  pub endpoint : ℕ
  pub profile_id : ℕ
  pub device_id : ℕ
  pub app_flags : ℕ
  pub input_clusters : List ℕ
  pub output_clusters : List ℕ

-- `u8::try_from(len)`.
abbrev pub count_of : List ℕ → Exec Writer ℕ
count_of xs =
    if ltb 255 (length xs) then raise (payload_too_long (length xs) 255) else pure (length xs)

unfoldable pub put_clusters : List ℕ → Exec Writer (Unit {0})
put_clusters [] = pure tt
put_clusters (cluster ∷ rest) = do Writer.u16 cluster; put_clusters rest

-- Both counts come before the lists.
unfoldable pub encode_add_endpoint : AddEndpoint → Exec Writer (Unit {0})
unfolding put_clusters
encode_add_endpoint c = do
  Writer.u8 c.endpoint
  Writer.u16 c.profile_id
  Writer.u16 c.device_id
  Writer.u8 c.app_flags
  inputs ← count_of c.input_clusters
  outputs ← count_of c.output_clusters
  Writer.u8 inputs
  Writer.u8 outputs
  put_clusters c.input_clusters
  put_clusters c.output_clusters

abbrev pub add_endpoint_command : Command AddEndpoint SlStatus
add_endpoint_command = record {
  id = FrameId.add_endpoint;
  is_available = is_supported;
  encode = encode_add_endpoint;
  decode = Status.decode;
}

pub record GetConfigurationValueResponse : Type 0 where
  pub status : SlStatus
  pub value : ℕ

unfoldable pub decode_configuration_value : Exec Reader GetConfigurationValueResponse
decode_configuration_value = do
  status ← Status.decode
  value ← Reader.u16
  pure (record { status = status; value = value })

abbrev pub get_configuration_value_command : Command ConfigId GetConfigurationValueResponse
get_configuration_value_command = record {
  id = FrameId.get_configuration_value;
  is_available = is_supported;
  encode = λ config_id. Writer.u8 config_id;
  decode = decode_configuration_value;
}

pub record GetValueResponse : Type 0 where
  pub status : SlStatus
  pub value : List ℕ

unfoldable pub decode_value : Exec Reader GetValueResponse
decode_value = do
  status ← Status.decode
  value ← Reader.length_prefixed
  pure (record { status = status; value = value })

abbrev pub get_value_command : Command ValueId GetValueResponse
get_value_command = record {
  id = FrameId.get_value;
  is_available = is_supported;
  encode = λ value_id. Writer.u8 value_id;
  decode = decode_value;
}

abbrev pub set_manufacturer_code_command : Command ℕ (Unit {0})
set_manufacturer_code_command = record {
  id = FrameId.set_manufacturer_code;
  is_available = is_supported;
  encode = λ code. Writer.u16 code;
  decode = pure tt;
}
