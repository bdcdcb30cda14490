-- ===== src/Ezsp/Command/Keys.antt =====
-- The commands about keys. Their statuses are four bytes at every version.
use rsezsp.Prelude.{ℕ, Bool, not, ◌==◌, if◌then◌else◌}
use rsezsp.Types.Status.{SlStatus}
use rsezsp.Types.Status
use rsezsp.Types.Network.{Eui64, encode_eui64}
use rsezsp.Types.Security.{
  SecurityKey, encode_security_key, decode_security_key, SecurityManFlags, SecurityManContext,
  encode_security_man_context, InitialSecurityState, encode_initial_security_state,
}
use rsezsp.Ezsp.FrameId
use rsezsp.Ezsp.Version.{is_supported, has_transient_key_flags}
use rsezsp.Ezsp.Exec.{Exec, pure, ◌>>=◌, ◌>>◌}
use rsezsp.Ezsp.Codec.Reader
use rsezsp.Ezsp.Codec.Reader.{Reader}
use rsezsp.Ezsp.Codec.Writer
use rsezsp.Ezsp.Codec.Writer.{Writer}
use rsezsp.Ezsp.Command.Interface.{Command}

pub record ImportTransientKey : Type 0 where
  pub eui64 : Eui64
  pub key : SecurityKey
  pub flags : SecurityManFlags

-- The flags were dropped at version 14.
unfoldable pub put_flags : SecurityManFlags → Exec Writer (Unit {0})
put_flags flags w = if has_transient_key_flags w.version then Writer.u8 flags w else pure tt w

unfoldable pub encode_import_transient_key : ImportTransientKey → Exec Writer (Unit {0})
unfolding put_flags
encode_import_transient_key c = do
  encode_eui64 c.eui64
  encode_security_key c.key
  put_flags c.flags

abbrev pub import_transient_key_command : Command ImportTransientKey SlStatus
import_transient_key_command = record {
  id = FrameId.import_transient_key;
  is_available = is_supported;
  encode = encode_import_transient_key;
  decode = Reader.u32;
}

abbrev pub clear_transient_link_keys_command : Command (Unit {0}) (Unit {0})
clear_transient_link_keys_command = record {
  id = FrameId.clear_transient_link_keys;
  is_available = is_supported;
  encode = λ _. pure tt;
  decode = pure tt;
}

abbrev pub set_initial_security_state_command : Command InitialSecurityState SlStatus
set_initial_security_state_command = record {
  id = FrameId.set_initial_security_state;
  is_available = is_supported;
  encode = encode_initial_security_state;
  decode = Status.decode;
}

pub record ExportKeyResponse : Type 0 where
  pub key : SecurityKey
  pub status : SlStatus

-- The key comes before the status.
unfoldable pub decode_export_key : Exec Reader ExportKeyResponse
decode_export_key = do
  key ← decode_security_key
  status ← Reader.u32
  pure (record { key = key; status = status })

abbrev pub export_key_command : Command SecurityManContext ExportKeyResponse
export_key_command = record {
  id = FrameId.export_key;
  is_available = is_supported;
  encode = encode_security_man_context;
  decode = decode_export_key;
}

pub record GetNetworkKeyInfoResponse : Type 0 where
  pub status : SlStatus
  pub network_key_set : Bool
  pub alternate_network_key_set : Bool
  pub network_key_sequence_number : ℕ
  pub alt_network_key_sequence_number : ℕ
  pub network_key_frame_counter : ℕ

unfoldable pub decode_network_key_info : Exec Reader GetNetworkKeyInfoResponse
decode_network_key_info = do
  status ← Reader.u32
  network_key_set ← Reader.u8
  alternate_network_key_set ← Reader.u8
  network_key_sequence_number ← Reader.u8
  alt_network_key_sequence_number ← Reader.u8
  network_key_frame_counter ← Reader.u32
  pure (record {
    status = status;
    network_key_set = not (network_key_set == 0);
    alternate_network_key_set = not (alternate_network_key_set == 0);
    network_key_sequence_number = network_key_sequence_number;
    alt_network_key_sequence_number = alt_network_key_sequence_number;
    network_key_frame_counter = network_key_frame_counter;
  })

abbrev pub get_network_key_info_command : Command (Unit {0}) GetNetworkKeyInfoResponse
get_network_key_info_command = record {
  id = FrameId.get_network_key_info;
  is_available = is_supported;
  encode = λ _. pure tt;
  decode = decode_network_key_info;
}
