-- ===== src/Ezsp/Command/Requests.antt =====
-- What the NCP reads of a request is what the caller asked for.
use rsezsp.Prelude.{
  ℕ, zero, suc, ◌%◌, ◌^◌, ◌<◌, ◌≤◌, List, [], ◌∷◌, ◌++◌, false, ok, length, ltb, le→ltb,
  if◌then◌else◌, ◌≡◌, ap,
}
use rsezsp.Types.Aps.{ApsFrame, raw, encode_unicast_type, decode_aps_frame}
use rsezsp.Types.Fields.{
  Travels, Travels->>, Travels-map, Travels-u8, Travels-u16, Travels-length_prefixed, read_back,
}
use rsezsp.Types.RoundTrips.{FitsAps, Travels-aps_frame}
use rsezsp.Ezsp.Version.{ProtocolVersion, has_wide_message_tag}
use rsezsp.Ezsp.Exec.{Exec, pure, ◌>>=◌}
use rsezsp.Ezsp.Codec.Reader
use rsezsp.Ezsp.Codec.Reader.{Reader}
use rsezsp.Ezsp.Codec.Writer
use rsezsp.Ezsp.Codec.Writer.{Writer}
use rsezsp.Ezsp.Codec.Steps.{Writes-pure, Reads-pure}
use rsezsp.Ezsp.Callback.{read_message_tag}
use rsezsp.Ezsp.Callback.Layout.{seen_tag, Travels-message_tag}
use rsezsp.Ezsp.Command.Setup.{AddEndpoint, put_clusters, encode_add_endpoint}
use rsezsp.Ezsp.Command.Messages.{SendUnicast, encode_send_unicast}

-- What the NCP makes of the parameters of `sendUnicast`.
pub record Unicast : Type 0 where
  pub kind : ℕ
  pub destination : ℕ
  pub frame : ApsFrame
  pub tag : ℕ
  pub payload : List ℕ

unfoldable pub read_unicast : Exec Reader Unicast
read_unicast = do
  kind ← Reader.u8
  destination ← Reader.u16
  frame ← decode_aps_frame
  tag ← read_message_tag
  payload ← Reader.length_prefixed
  pure (record {
    kind = kind;
    destination = destination;
    frame = frame;
    tag = tag;
    payload = payload;
  })

abbrev pub FitsUnicast : SendUnicast → Type 0
FitsUnicast c =
    (c.index_or_destination < 2 ^ 16)
    × FitsAps c.aps_frame
    × (c.message_tag < 2 ^ 16)
    × (length c.message ≤ 255)

Travels-send_unicast :
    (v : ProtocolVersion) (c : SendUnicast)
    → FitsUnicast c
    → Travels v (encode_send_unicast c) read_unicast (record {
      kind = raw c.unicast_type;
      destination = c.index_or_destination;
      frame = c.aps_frame;
      tag = seen_tag v c.message_tag;
      payload = c.message;
    })
unfolding encode_send_unicast read_unicast encode_unicast_type
Travels-send_unicast v c (h0, h1, h2, h3) = Travels->> _ (Travels-u8 (raw c.unicast_type)) (
    Travels->> _ (Travels-u16 c.index_or_destination h0) (
      Travels->> _ (Travels-aps_frame v c.aps_frame h1) (
        Travels->> _ (Travels-message_tag v c.message_tag h2)
          (Travels-map _ (Travels-length_prefixed c.message h3)))))

-- From the parameters of a `sendUnicast` whose fields fit their widths and whose message has at
-- most 255 bytes, the NCP reads what was asked for, whatever follows: the tag whole from version
-- 14 on, and its low byte below.
pub send_unicast_read :
    (v : ProtocolVersion) (c : SendUnicast) (rest : List ℕ)
    → FitsUnicast c
    → let sent = (encode_send_unicast c (Writer.new v)).1.bytes in
      length (sent ++ rest) < 2 ^ 64
      → (read_unicast (Reader.new (sent ++ rest) v)).0
        ≡ ok (record {
          kind = raw c.unicast_type;
          destination = c.index_or_destination;
          frame = c.aps_frame;
          tag = if has_wide_message_tag v then c.message_tag else c.message_tag % 256;
          payload = c.message;
        })
send_unicast_read v c rest h small =
    ap (λ p. p.0) (read_back (Travels-send_unicast v c h) rest small)

unfoldable pub read_clusters : ℕ → Exec Reader (List ℕ)
read_clusters zero = pure []
read_clusters (suc n) = do cluster ← Reader.u16; rest ← read_clusters n; pure (cluster ∷ rest)

unfoldable pub read_endpoint : Exec Reader AddEndpoint
unfolding read_clusters
read_endpoint = do
  endpoint ← Reader.u8
  profile_id ← Reader.u16
  device_id ← Reader.u16
  app_flags ← Reader.u8
  inputs ← Reader.u8
  outputs ← Reader.u8
  input_clusters ← read_clusters inputs
  output_clusters ← read_clusters outputs
  pure (record {
    endpoint = endpoint;
    profile_id = profile_id;
    device_id = device_id;
    app_flags = app_flags;
    input_clusters = input_clusters;
    output_clusters = output_clusters;
  })

abbrev pub AreClusters : List ℕ → Type 0
AreClusters [] = Unit {0}
AreClusters (cluster ∷ rest) = (cluster < 2 ^ 16) × AreClusters rest

Travels-clusters :
    (v : ProtocolVersion) (cs : List ℕ)
    → AreClusters cs
    → Travels v (put_clusters cs) (read_clusters (length cs)) cs
unfolding put_clusters read_clusters
Travels-clusters v [] h = record { wire = []; written = Writes-pure v; read_off = Reads-pure v [] }
Travels-clusters v (cluster ∷ rest) h =
    Travels->> _ (Travels-u16 cluster h.0) (Travels-map _ (Travels-clusters v rest h.1))

abbrev pub FitsEndpoint : AddEndpoint → Type 0
FitsEndpoint c =
    (c.profile_id < 2 ^ 16)
    × (c.device_id < 2 ^ 16)
    × AreClusters c.input_clusters
    × AreClusters c.output_clusters
    × (length c.input_clusters ≤ 255)
    × (length c.output_clusters ≤ 255)

Travels-add_endpoint :
    (v : ProtocolVersion) (c : AddEndpoint)
    → FitsEndpoint c
    → Travels v (encode_add_endpoint c) read_endpoint c
unfolding encode_add_endpoint read_endpoint
Travels-add_endpoint v c (h0, h1, h2, h3, h4, h5) =
    let few_in : ltb 255 (length c.input_clusters) ≡ false = le→ltb _ _ h4 in
    let few_out : ltb 255 (length c.output_clusters) ≡ false = le→ltb _ _ h5 in
    rw (few_in, few_out)
      (Travels->> _ (Travels-u8 c.endpoint) (
        Travels->> _ (Travels-u16 c.profile_id h0) (
          Travels->> _ (Travels-u16 c.device_id h1) (
            Travels->> _ (Travels-u8 c.app_flags) (
              Travels->> _ (Travels-u8 (length c.input_clusters)) (
                Travels->> _ (Travels-u8 (length c.output_clusters)) (
                  Travels->> _ (Travels-clusters v c.input_clusters h2)
                    (Travels-map _ (Travels-clusters v c.output_clusters h3)))))))))

-- From the parameters of an `addEndpoint` whose fields fit their widths and whose two lists have
-- at most 255 clusters each, the NCP reads the endpoint that was asked for, both lists included,
-- whatever follows, as long as a length in bytes fits in 64 bits.
pub add_endpoint_read :
    (v : ProtocolVersion) (c : AddEndpoint) (rest : List ℕ)
    → FitsEndpoint c
    → let sent = (encode_add_endpoint c (Writer.new v)).1.bytes in
      length (sent ++ rest) < 2 ^ 64 → (read_endpoint (Reader.new (sent ++ rest) v)).0 ≡ ok c
add_endpoint_read v c rest h small =
    ap (λ p. p.0) (read_back (Travels-add_endpoint v c h) rest small)
