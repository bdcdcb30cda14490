-- ===== src/Types/Aps.antt =====
-- src/types/aps.rs: the APS frame.
use rsezsp.Prelude.{ℕ, Bool, ◌==◌, bit_or, bit_and}
use rsezsp.Ezsp.Exec.{Exec, pure, ◌>>=◌, ◌>>◌}
use rsezsp.Ezsp.Codec.Reader
use rsezsp.Ezsp.Codec.Reader.{Reader}
use rsezsp.Ezsp.Codec.Writer
use rsezsp.Ezsp.Codec.Writer.{Writer}

abbrev pub ApsOptions : Type 0
ApsOptions = ℕ

abbrev pub union : ApsOptions → ApsOptions → ApsOptions
union a b = bit_or a b

abbrev pub contains : ApsOptions → ApsOptions → Bool
contains a b = bit_and a b == b

pub record ApsFrame : Type 0 where
  pub profile_id : ℕ
  pub cluster_id : ℕ
  pub source_endpoint : ℕ
  pub destination_endpoint : ℕ
  pub options : ApsOptions
  pub group_id : ℕ
  pub sequence : ℕ

abbrev pub aps_frame_len : ℕ
aps_frame_len = 11

unfoldable pub encode_aps_frame : ApsFrame → Exec Writer (Unit {0})
encode_aps_frame f = do
  Writer.u16 f.profile_id
  Writer.u16 f.cluster_id
  Writer.u8 f.source_endpoint
  Writer.u8 f.destination_endpoint
  Writer.u16 f.options
  Writer.u16 f.group_id
  Writer.u8 f.sequence

unfoldable pub decode_aps_frame : Exec Reader ApsFrame
decode_aps_frame = do
  profile_id ← Reader.u16
  cluster_id ← Reader.u16
  source_endpoint ← Reader.u8
  destination_endpoint ← Reader.u8
  options ← Reader.u16
  group_id ← Reader.u16
  sequence ← Reader.u8
  pure (record {
    profile_id = profile_id;
    cluster_id = cluster_id;
    source_endpoint = source_endpoint;
    destination_endpoint = destination_endpoint;
    options = options;
    group_id = group_id;
    sequence = sequence;
  })

pub data UnicastType : Type 0 where
  direct : UnicastType
  via_address_table : UnicastType
  via_binding : UnicastType
  multicast : UnicastType
  broadcast : UnicastType

unfoldable pub raw : UnicastType → ℕ
raw direct = 0x00
raw via_address_table = 0x01
raw via_binding = 0x02
raw multicast = 0x03
raw broadcast = 0x04

unfoldable pub encode_unicast_type : UnicastType → Exec Writer (Unit {0})
unfolding raw
encode_unicast_type t = Writer.u8 (raw t)
