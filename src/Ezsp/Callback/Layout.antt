-- ===== src/Ezsp/Callback/Layout.antt =====
-- The layout of a callback's parameters, as the NCP writes them: fields in order, little-endian,
-- with the two widths that depend on the version.
use rsezsp.Prelude.{ℕ, ◌%◌, ◌^◌, ◌<◌, ◌≤◌, List, length, if◌then◌else◌, ◌≡◌, arith}
use rsezsp.Prelude.Bits.{bit_and_low_byte}
use mathlib.Core.Path.{subst}
use rsezsp.Types.Signed.{ℤ, IsI8, as_u8, as_i8-as_u8}
use rsezsp.Types.Network.{encode_node_id, decode_node_id, encode_eui64}
use rsezsp.Types.Aps.{ApsFrame, encode_aps_frame}
use rsezsp.Types.Fields.{
  Travels, Travels->>, Travels-map, Travels-u8, Travels-u16, Travels-length_prefixed,
  Travels-choice,
}
use rsezsp.Types.RoundTrips.{
  Travels-eui64, Travels-aps_frame, FitsAps, put_status, FitsStatus, Travels-status,
}
use rsezsp.Ezsp.Version.{ProtocolVersion, has_wide_message_tag}
use rsezsp.Ezsp.Exec.{Exec, ◌>>◌}
use rsezsp.Ezsp.Codec.Writer
use rsezsp.Ezsp.Codec.Writer.{Writer}
use rsezsp.Ezsp.Command.Messages.{put_message_tag}
use rsezsp.Ezsp.Callback.{
  Callback, stack_status, trust_center_join, incoming_message, message_sent, unknown,
  read_message_tag, read_stack_status, read_trust_center_join, read_incoming_message,
  read_message_sent,
}

unfoldable pub put_callback : Callback → Exec Writer (Unit {0})
unfolding put_status
put_callback (stack_status code) = put_status code
put_callback (trust_center_join node_id eui64 device_update decision parent_node_id) = do
  encode_node_id node_id
  encode_eui64 eui64
  Writer.u8 device_update
  Writer.u8 decision
  encode_node_id parent_node_id
put_callback (incoming_message t f lqi rssi sender binding_index address_index payload) = do
  Writer.u8 t
  encode_aps_frame f
  Writer.u8 lqi
  Writer.u8 (as_u8 rssi)
  encode_node_id sender
  Writer.u8 binding_index
  Writer.u8 address_index
  Writer.length_prefixed payload
put_callback (message_sent t d f tag code payload) = do
  Writer.u8 t
  Writer.u16 d
  encode_aps_frame f
  put_message_tag tag
  put_status code
  Writer.length_prefixed payload
put_callback (unknown id parameters) = Writer.put_bytes parameters

module _ (v : ProtocolVersion) where
  -- A tag comes back as wide as it travels.
  abbrev pub seen_tag : ℕ → ℕ
  seen_tag tag = if has_wide_message_tag v then tag else tag % 2 ^ 8

  pub Travels-message_tag :
      (tag : ℕ) → tag < 2 ^ 16 → Travels v (put_message_tag tag) read_message_tag (seen_tag tag)
  unfolding put_message_tag read_message_tag
  Travels-message_tag tag h =
      Travels-choice has_wide_message_tag (λ e. rw e (Travels-u16 tag h))
        (λ e. rw (e, bit_and_low_byte tag) (Travels-u8 (tag % 2 ^ 8)))

  -- What the fields hold fits in their widths.
  abbrev pub Fits : Callback → Type 0
  Fits (stack_status code) = FitsStatus v code
  Fits (trust_center_join node_id eui64 device_update decision parent_node_id) =
      (node_id < 2 ^ 16) × (eui64 < 256 ^ 8) × (parent_node_id < 2 ^ 16)
  Fits (incoming_message t f lqi rssi sender binding_index address_index payload) =
      FitsAps f × IsI8 rssi × (sender < 2 ^ 16) × (length payload ≤ 255)
  Fits (message_sent t d f tag code payload) =
      (d < 2 ^ 16)
      × FitsAps f
      × (tag < (if has_wide_message_tag v then 2 ^ 16 else 2 ^ 8))
      × FitsStatus v code
      × (length payload ≤ 255)
  Fits (unknown id parameters) = ⊥

  pub Travels-stack_status :
      (code : ℕ)
      → FitsStatus v code
      → Travels v (put_callback (stack_status code)) read_stack_status (stack_status code)
  unfolding put_callback read_stack_status
  Travels-stack_status code h = Travels-map _ (Travels-status v code h)

  pub Travels-trust_center_join :
      (node_id eui64 device_update decision parent_node_id : ℕ)
      → let cb = trust_center_join node_id eui64 device_update decision parent_node_id in
        Fits cb → Travels v (put_callback cb) read_trust_center_join cb
  unfolding put_callback read_trust_center_join encode_node_id decode_node_id
  Travels-trust_center_join node_id eui64 device_update decision parent_node_id (h0, h1, h2) =
      Travels->> _ (Travels-u16 node_id h0) (
        Travels->> _ (Travels-eui64 v eui64 h1) (
          Travels->> _ (Travels-u8 device_update)
            (Travels->> _ (Travels-u8 decision) (Travels-map _ (Travels-u16 parent_node_id h2)))))

  pub Travels-incoming_message :
      (t : ℕ) (f : ApsFrame) (lqi : ℕ) (rssi : ℤ) (sender binding_index address_index : ℕ)
      (payload : List ℕ)
      → let cb = incoming_message t f lqi rssi sender binding_index address_index payload in
        Fits cb → Travels v (put_callback cb) read_incoming_message cb
  unfolding put_callback read_incoming_message encode_node_id decode_node_id
  Travels-incoming_message t f lqi rssi sender binding_index address_index payload
        (h0, h1, h2, h3) =
      let cb = incoming_message t f lqi rssi sender binding_index address_index payload in
      subst
        (λ (strength : ℤ).
          Travels v (put_callback cb) read_incoming_message
            (incoming_message t f lqi strength sender binding_index address_index payload))
        (as_i8-as_u8 rssi h1)
        (Travels->> _ (Travels-u8 t) (
          Travels->> _ (Travels-aps_frame v f h0) (
            Travels->> _ (Travels-u8 lqi) (
              Travels->> _ (Travels-u8 (as_u8 rssi)) (
                Travels->> _ (Travels-u16 sender h2) (
                  Travels->> _ (Travels-u8 binding_index) (
                    Travels->> _ (Travels-u8 address_index)
                      (Travels-map _ (Travels-length_prefixed payload h3)))))))))

  pub Travels-message_sent :
      (t d : ℕ) (f : ApsFrame) (tag code : ℕ) (payload : List ℕ)
      → let cb = message_sent t d f tag code payload in
        Fits cb → Travels v (put_callback cb) read_message_sent cb
  unfolding put_callback read_message_sent
  Travels-message_sent t d f tag code payload (h0, h1, h2, h3, h4) =
      let same : seen_tag tag ≡ tag = ground arith in
      let cb = message_sent t d f tag code payload in
      subst
        (λ (seen : ℕ).
          Travels v (put_callback cb) read_message_sent (message_sent t d f seen code payload))
        same
        (Travels->> _ (Travels-u8 t) (
          Travels->> _ (Travels-u16 d h0) (
            Travels->> _ (Travels-aps_frame v f h1) (
              Travels->> _ (Travels-message_tag tag (ground arith)) (
                Travels->> _ (Travels-status v code h3)
                  (Travels-map _ (Travels-length_prefixed payload h4)))))))
