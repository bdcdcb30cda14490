-- ===== src/Types/RoundTrips.antt =====
-- What is written of a field type is what is read of it.
use rsezsp.Prelude.{ℕ, Bool, if◌then◌else◌, ◌^◌, ◌<◌, List, ◌++◌, ok, length, ◌≡◌}
use rsezsp.Prelude.Words.{to_le_bytes, length-to_le_bytes, from_le_bytes-to_le_bytes}
use mathlib.Core.Path.{subst}
use rsezsp.Types.Signed.{ℤ, IsI8, as_u8, as_i8-as_u8}
use rsezsp.Types.Network.{
  Eui64, encode_eui64, decode_eui64, from_wire, NetworkParameters, encode_network_parameters,
  decode_network_parameters,
}
use rsezsp.Types.Status
use rsezsp.Types.Aps.{ApsFrame, encode_aps_frame, decode_aps_frame}
use rsezsp.Types.Security.{
  SecurityManContext, encode_security_man_context, decode_security_man_context,
}
use rsezsp.Types.Fields.{
  Travels, Travels->>, Travels-map, Travels-u8, Travels-u16, Travels-u32, Travels-array,
  Travels-choice, read_back,
}
use rsezsp.Ezsp.Version.{ProtocolVersion, has_wide_status}
use rsezsp.Ezsp.Exec.{Exec}
use rsezsp.Ezsp.Codec.Writer.{Writer}
use rsezsp.Ezsp.Codec.Reader
use rsezsp.Ezsp.Codec.Writer

pub Travels-eui64 :
    (v : ProtocolVersion) (a : Eui64) → a < 256 ^ 8 → Travels v (encode_eui64 a) decode_eui64 a
unfolding encode_eui64 decode_eui64
Travels-eui64 v a h =
    subst (λ (b : ℕ). Travels v (encode_eui64 a) decode_eui64 b) (from_le_bytes-to_le_bytes 8 a h)
      (Travels-map from_wire (Travels-array 8 (to_le_bytes 8 a) (length-to_le_bytes 8 a)))

-- The sixteen-bit fields are sixteen-bit; bytes may be any number here.
abbrev pub FitsAps : ApsFrame → Type 0
FitsAps f =
    (f.profile_id < 2 ^ 16) × (f.cluster_id < 2 ^ 16) × (f.options < 2 ^ 16) × (f.group_id < 2 ^ 16)

pub Travels-aps_frame :
    (v : ProtocolVersion) (f : ApsFrame)
    → FitsAps f
    → Travels v (encode_aps_frame f) decode_aps_frame f
unfolding encode_aps_frame decode_aps_frame
Travels-aps_frame v f (h0, h1, h2, h3) = Travels->> _ (Travels-u16 f.profile_id h0) (
    Travels->> _ (Travels-u16 f.cluster_id h1) (
      Travels->> _ (Travels-u8 f.source_endpoint) (
        Travels->> _ (Travels-u8 f.destination_endpoint) (
          Travels->> _ (Travels-u16 f.options h2)
            (Travels->> _ (Travels-u16 f.group_id h3) (Travels-map _ (Travels-u8 f.sequence)))))))

abbrev pub FitsParameters : NetworkParameters → Type 0
FitsParameters p =
    (length p.extended_pan_id ≡ 8)
    × (p.pan_id < 2 ^ 16)
    × IsI8 p.radio_tx_power
    × (p.nwk_manager_id < 2 ^ 16)
    × (p.channels < 2 ^ 32)

pub Travels-network_parameters :
    (v : ProtocolVersion) (p : NetworkParameters)
    → FitsParameters p
    → Travels v (encode_network_parameters p) decode_network_parameters p
unfolding encode_network_parameters decode_network_parameters
Travels-network_parameters v p (h0, h1, h2, h3, h4) =
    subst
      (λ (power : ℤ).
        Travels v (encode_network_parameters p) decode_network_parameters
          (record p { radio_tx_power = power }))
      (as_i8-as_u8 p.radio_tx_power h2)
      (Travels->> _ (Travels-array 8 p.extended_pan_id h0) (
        Travels->> _ (Travels-u16 p.pan_id h1) (
          Travels->> _ (Travels-u8 (as_u8 p.radio_tx_power)) (
            Travels->> _ (Travels-u8 p.radio_channel) (
              Travels->> _ (Travels-u8 p.join_method) (
                Travels->> _ (Travels-u16 p.nwk_manager_id h3) (
                  Travels->> _ (Travels-u8 p.nwk_update_id)
                    (Travels-map _ (Travels-u32 p.channels h4)))))))))

abbrev pub FitsContext : SecurityManContext → Type 0
FitsContext c = (c.eui64 < 256 ^ 8) × (c.psa_key_alg_permission < 2 ^ 32)

pub Travels-security_man_context :
    (v : ProtocolVersion) (c : SecurityManContext)
    → FitsContext c
    → Travels v (encode_security_man_context c) decode_security_man_context c
unfolding encode_security_man_context decode_security_man_context
Travels-security_man_context v c (h0, h1) = Travels->> _ (Travels-u8 c.core_key_type) (
    Travels->> _ (Travels-u8 c.key_index) (
      Travels->> _ (Travels-u8 c.derived_type) (
        Travels->> _ (Travels-eui64 v c.eui64 h0) (
          Travels->> _ (Travels-u8 c.multi_network_index) (
            Travels->> _ (Travels-u8 c.flags)
              (Travels-map _ (Travels-u32 c.psa_key_alg_permission h1)))))))

-- A status, as wide as the version has it.
unfoldable pub put_status : ℕ → Exec Writer (Unit {0})
put_status code w = if has_wide_status w.version then Writer.u32 code w else Writer.u8 code w

module _ (v : ProtocolVersion) where
  -- A narrow status is one byte.
  abbrev pub FitsStatus : ℕ → Type 0
  FitsStatus code = code < (if has_wide_status v then 2 ^ 32 else 2 ^ 8)

  pub Travels-status : (code : ℕ) → FitsStatus code → Travels v (put_status code) Status.decode code
  unfolding put_status Status.decode
  Travels-status code h =
      Travels-choice has_wide_status
        (λ e. Travels-u32 code (subst (λ (t : Bool). code < (if t then 2 ^ 32 else 2 ^ 8)) e h))
        (λ e. Travels-u8 code)

-- Network parameters whose fields fit their widths are read back from what was written of them,
-- the sign of the transmit power included, whatever follows, and exactly those bytes are used up.
pub network_parameters_round_trip :
    (v : ProtocolVersion) (p : NetworkParameters) (rest : List ℕ)
    → FitsParameters p
    → let sent = (encode_network_parameters p (Writer.new v)).1.bytes in
      length (sent ++ rest) < 2 ^ 64
      → decode_network_parameters (Reader.new (sent ++ rest) v)
        ≡ (ok p, record (Reader.new (sent ++ rest) v) { position = length sent })
network_parameters_round_trip v p rest h = read_back (Travels-network_parameters v p h) rest

-- A key context whose fields fit their widths is read back from what was written of it, its 64-bit
-- address included, whatever follows, and exactly those bytes are used up.
pub security_man_context_round_trip :
    (v : ProtocolVersion) (c : SecurityManContext) (rest : List ℕ)
    → FitsContext c
    → let sent = (encode_security_man_context c (Writer.new v)).1.bytes in
      length (sent ++ rest) < 2 ^ 64
      → decode_security_man_context (Reader.new (sent ++ rest) v)
        ≡ (ok c, record (Reader.new (sent ++ rest) v) { position = length sent })
security_man_context_round_trip v c rest h = read_back (Travels-security_man_context v c h) rest
