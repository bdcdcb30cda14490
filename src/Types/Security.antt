-- ===== src/Types/Security.antt =====
-- src/types/security.rs: keys and what goes with them.
use rsezsp.Prelude.{ℕ, List, Bool, ◌==◌, bit_or, bit_and}
use rsezsp.Types.Network.{Eui64, encode_eui64, decode_eui64}
use rsezsp.Ezsp.Exec.{Exec, pure, ◌>>=◌, ◌>>◌}
use rsezsp.Ezsp.Codec.Reader
use rsezsp.Ezsp.Codec.Reader.{Reader}
use rsezsp.Ezsp.Codec.Writer
use rsezsp.Ezsp.Codec.Writer.{Writer}

-- Sixteen bytes.
abbrev pub SecurityKey : Type 0
SecurityKey = List ℕ

unfoldable pub encode_security_key : SecurityKey → Exec Writer (Unit {0})
encode_security_key key = Writer.put_bytes key

unfoldable pub decode_security_key : Exec Reader SecurityKey
decode_security_key = Reader.array 16

abbrev pub SecurityManFlags : Type 0
SecurityManFlags = ℕ

abbrev pub SecurityKeyType : Type 0
SecurityKeyType = ℕ

pub record SecurityManContext : Type 0 where
  pub core_key_type : SecurityKeyType
  pub key_index : ℕ
  pub derived_type : ℕ
  pub eui64 : Eui64
  pub multi_network_index : ℕ
  pub flags : SecurityManFlags
  pub psa_key_alg_permission : ℕ

abbrev pub network_key : SecurityManContext
network_key = record {
  core_key_type = 0x01;
  key_index = 0;
  derived_type = 0;
  eui64 = 0;
  multi_network_index = 0;
  flags = 0x00;
  psa_key_alg_permission = 0;
}

unfoldable pub encode_security_man_context : SecurityManContext → Exec Writer (Unit {0})
encode_security_man_context c = do
  Writer.u8 c.core_key_type
  Writer.u8 c.key_index
  Writer.u8 c.derived_type
  encode_eui64 c.eui64
  Writer.u8 c.multi_network_index
  Writer.u8 c.flags
  Writer.u32 c.psa_key_alg_permission

unfoldable pub decode_security_man_context : Exec Reader SecurityManContext
decode_security_man_context = do
  core_key_type ← Reader.u8
  key_index ← Reader.u8
  derived_type ← Reader.u8
  eui64 ← decode_eui64
  multi_network_index ← Reader.u8
  flags ← Reader.u8
  psa_key_alg_permission ← Reader.u32
  pure (record {
    core_key_type = core_key_type;
    key_index = key_index;
    derived_type = derived_type;
    eui64 = eui64;
    multi_network_index = multi_network_index;
    flags = flags;
    psa_key_alg_permission = psa_key_alg_permission;
  })

abbrev pub InitialSecurityBitmask : Type 0
InitialSecurityBitmask = ℕ

abbrev pub union : InitialSecurityBitmask → InitialSecurityBitmask → InitialSecurityBitmask
union a b = bit_or a b

abbrev pub contains : InitialSecurityBitmask → InitialSecurityBitmask → Bool
contains a b = bit_and a b == b

pub record InitialSecurityState : Type 0 where
  pub bitmask : InitialSecurityBitmask
  pub preconfigured_key : SecurityKey
  pub network_key : SecurityKey
  pub network_key_sequence_number : ℕ
  pub preconfigured_trust_center_eui64 : Eui64

unfoldable pub encode_initial_security_state : InitialSecurityState → Exec Writer (Unit {0})
encode_initial_security_state s = do
  Writer.u16 s.bitmask
  encode_security_key s.preconfigured_key
  encode_security_key s.network_key
  Writer.u8 s.network_key_sequence_number
  encode_eui64 s.preconfigured_trust_center_eui64
