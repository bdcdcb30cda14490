-- ===== src/Ezsp/Version.antt =====
-- src/ezsp/version.rs: the negotiated protocol version, a `u8`, and what it changes.
use rsezsp.Prelude.{ℕ, Bool, ◌&&◌, ltb, leb}

abbrev pub ProtocolVersion : Type 0
ProtocolVersion = ℕ

abbrev pub min_supported : ProtocolVersion
min_supported = 0x0d

abbrev pub max_supported : ProtocolVersion
max_supported = 0x13

abbrev pub preferred : ProtocolVersion
preferred = max_supported

abbrev pub wider_status : ProtocolVersion
wider_status = 0x0e

abbrev pub is_supported : ProtocolVersion → Bool
is_supported v = leb min_supported v && leb v max_supported

abbrev pub has_wide_status : ProtocolVersion → Bool
has_wide_status v = leb wider_status v

abbrev pub has_wide_message_tag : ProtocolVersion → Bool
has_wide_message_tag v = leb wider_status v

abbrev pub has_transient_key_flags : ProtocolVersion → Bool
has_transient_key_flags v = ltb v wider_status
