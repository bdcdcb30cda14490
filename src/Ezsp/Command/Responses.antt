-- ===== src/Ezsp/Command/Responses.antt =====
-- Responses at either width of the status, and requests that cannot be encoded.
use rsezsp.Prelude.{
  ℕ, ◌^◌, ◌<◌, List, [], ◌∷◌, ◌++◌, Bool, true, false, Bool-cases, ltb, lt→ltb, if◌then◌else◌, ok,
  err, length, ◌≡◌, refl, sym, ap, ◌∙◌, append_assoc, inl, inr, arith,
}
use rsezsp.Prelude.Words.{to_le_bytes}
use mathlib.Core.Path.{subst}
use rsezsp.Types.Status
use rsezsp.Types.Aps.{encode_aps_frame, encode_unicast_type}
use rsezsp.Ezsp.Error.{payload_too_long}
use rsezsp.Ezsp.Version.{ProtocolVersion, has_wide_status, has_wide_message_tag}
use rsezsp.Ezsp.Codec.Reader
use rsezsp.Ezsp.Codec.Writer
use rsezsp.Ezsp.Codec.Writer.{Writer}
use rsezsp.Ezsp.Codec.Steps.{Reads, Reads-bind, Reads-map, Reads-u8, Reads-u32}
use rsezsp.Ezsp.Command.Setup.{AddEndpoint, encode_add_endpoint}
use rsezsp.Ezsp.Command.Messages.{
  SendUnicast, SendBroadcast, SendMulticast, encode_send_unicast, encode_send_broadcast,
  put_message_tag, encode_send_multicast, decode_send_response,
}

-- A status on the wire.
abbrev pub status_bytes : ProtocolVersion → ℕ → List ℕ
status_bytes v code = if has_wide_status v then to_le_bytes 4 code else code ∷ []

Reads-status :
    (v : ProtocolVersion) (code : ℕ)
    → code < (if has_wide_status v then 2 ^ 32 else 2 ^ 8)
    → Reads v Status.decode (status_bytes v code) code
unfolding Status.decode
Reads-status v code h = elim (Bool-cases (has_wide_status v)) [
  | inl e ↦
      let small : code < 2 ^ 32 = subst (λ (t : Bool). code < (if t then 2 ^ 32 else 2 ^ 8)) e h in
      record {
        at = λ r rest same.
            let here : has_wide_status r.version ≡ true = ap has_wide_status same ∙ e in
            rw (here, e) ((Reads-u32 v code small).at r rest same);
      }
  | inr e ↦ record {
    at = λ r rest same.
        let here : has_wide_status r.version ≡ false = ap has_wide_status same ∙ e in
        rw (here, e) ((Reads-u8 v code).at r rest same);
  }
]

-- The response to a sent message is read right at either width of the status, which has four bytes
-- from version 14 on and one below, for a status that fits; the APS sequence number stands behind
-- it, and what follows is left alone.
pub decode_send_response_lem :
    (v : ProtocolVersion) (code sequence : ℕ) (rest : List ℕ)
    → code < (if has_wide_status v then 2 ^ 32 else 2 ^ 8)
    → length ((if has_wide_status v then to_le_bytes 4 code else code ∷ []) ++ sequence ∷ rest)
      < 2 ^ 64
    → (decode_send_response (
        Reader.new
          ((if has_wide_status v then to_le_bytes 4 code else code ∷ []) ++ sequence ∷ rest)
          v)).0
      ≡ ok (record { status = code; aps_sequence = sequence })
unfolding decode_send_response
decode_send_response_lem v code sequence rest h small =
    ap (λ p. p.0)
      ((Reads-bind Status.decode _ (status_bytes v code) (sequence ∷ []) code _
          (Reads-status v code h)
          (Reads-map Reader.u8 _ (sequence ∷ []) sequence (Reads-u8 v sequence))).at
        (Reader.new (status_bytes v code ++ sequence ∷ rest) v) rest refl small (omega arith)
        (sym (append_assoc (status_bytes v code) (sequence ∷ []) rest)))

-- A message of more than 255 bytes, or a list of more than 255 clusters, is refused with its length
-- and the limit, by every command that carries one.
oversized_refused :
    (w : Writer) (u : SendUnicast) (b : SendBroadcast) (m : SendMulticast) (e : AddEndpoint)
    (long : List ℕ)
    → 255 < length long
    → ((encode_send_unicast (record u { message = long }) w).0
        ≡ err (payload_too_long (length long) 255))
      × ((encode_send_broadcast (record b { message = long }) w).0
          ≡ err (payload_too_long (length long) 255))
      × ((encode_send_multicast (record m { message = long }) w).0
          ≡ err (payload_too_long (length long) 255))
      × ((encode_add_endpoint (record e { input_clusters = long }) w).0
          ≡ err (payload_too_long (length long) 255))
unfolding encode_send_unicast encode_send_broadcast encode_send_multicast encode_add_endpoint
    put_message_tag encode_aps_frame encode_unicast_type Writer.u8 Writer.u16 Writer.length_prefixed
oversized_refused w u b m e long h =
    let over : ltb 255 (length long) ≡ true = lt→ltb _ _ h in
    elim (Bool-cases (has_wide_message_tag w.version)) [
      | inl wide ↦ (rw (wide, over), rw (wide, over), rw (wide, over), rw over)
      | inr narrow ↦ (rw (narrow, over), rw (narrow, over), rw (narrow, over), rw over)
    ]
