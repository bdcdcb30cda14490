-- ===== src/Ncp/Sending.antt =====
-- Frames that go out: the transport that takes them, and the window that has room.
use rsezsp.Prelude.{
  ℕ, ◌≤◌, ◌<◌, List, [], ◌∷◌, ◌++◌, true, false, ◌==◌, ltb, leb, le→ltb, lt→leb, if◌then◌else◌, ok,
  length, ◌≡◌, refl, arith,
}
use rsezsp.Ash.Frame.{next_sequence, AshFrame, data_frame, body}
use rsezsp.Ash.Frame.RoundTrip.{FitsDataField}
use rsezsp.Ash.Codec.Decoding.{feed-encode_alone}
use rsezsp.Ash.Connection.{Connection, is_connected, send_data, max_window}
use rsezsp.Ezsp.FrameId
use rsezsp.Ezsp.FrameId.{FrameId}
use rsezsp.Ezsp.Frame.{HeaderFormat, extended}
use rsezsp.Ncp.Transport.{Transport}
use rsezsp.Ncp.Runtime.{Ncp, write_frame}
use rsezsp.Ncp.Command.{is_legacy, format_for, send_request}

-- What sending a frame leaves as it was.
pub record Keeps {T : Type 0} (n n' : Ncp T) : Type 0 where
  pub decoder : n'.decoder ≡ n.decoder
  pub correlator : n'.correlator ≡ n.correlator
  pub version : n'.version ≡ n.version
  pub response : n'.response ≡ n.response
  pub pending_format : n'.pending_format ≡ n.pending_format
  pub state : n'.ash.state ≡ n.ash.state
  pub next_rx_frame : n'.ash.next_rx_frame ≡ n.ash.next_rx_frame

pub send_data-ok :
    (c : Connection) (bytes : List ℕ)
    → is_connected c ≡ true
    → length c.in_flight < max_window
    → (send_data c bytes).1 ≡ ok (data_frame c.next_tx_frame c.next_rx_frame false bytes)
unfolding send_data
send_data-ok c bytes up room =
    let free : leb max_window (length c.in_flight) ≡ false = lt→leb _ _ room in rw (up, free)

pub send_data-window :
    (c : Connection) (bytes : List ℕ)
    → is_connected c ≡ true
    → length c.in_flight < max_window
    → ((send_data c bytes).0.in_flight
        ≡ c.in_flight ++ record { frame_num = c.next_tx_frame; payload = bytes; sends = 1 } ∷ [])
      × ((send_data c bytes).0.next_tx_frame ≡ next_sequence c.next_tx_frame)
unfolding send_data
send_data-window c bytes up room =
    let free : leb max_window (length c.in_flight) ≡ false = lt→leb _ _ room in
    rw (up, free) (refl, refl)

pub send_data-state :
    (c : Connection) (bytes : List ℕ)
    → ((send_data c bytes).0.state ≡ c.state)
      × ((send_data c bytes).0.next_rx_frame ≡ c.next_rx_frame)
unfolding send_data
send_data-state c bytes = ground arith

pub extended-for :
    {T : Type 0} (id : FrameId) (n : Ncp T)
    → (id == FrameId.version) ≡ false
    → format_for id n ≡ extended
unfolding format_for
extended-for id n other = rw other refl

module _ {T : Type 0} where
  -- What a request leaves, with the transport in the state `t`.
  abbrev pub requested : List ℕ → HeaderFormat → Ncp T → T → Ncp T
  requested bytes format n t = record n {
    initial_version_sent = if is_legacy format then true else n.initial_version_sent;
    ash = (send_data n.ash bytes).0;
    transport = t;
  }

module _ {T : Type 0} (port : Transport T)
    (writes : (bytes : List ℕ) (t : T) → (port.write bytes t).0 ≡ ok tt) where
  pub write_frame-ok :
      (f : AshFrame) (n : Ncp T)
      → FitsDataField f
      → (t : T) × (write_frame port f n ≡ (ok tt, record n { transport = t }))
  unfolding write_frame
  write_frame-ok f n h =
      let (wire, sent, read) = feed-encode_alone f h in
      ((port.write wire n.transport).1, rw sent (rw (writes wire n.transport)))

  pub send_request-exact :
      (bytes : List ℕ) (format : HeaderFormat) (n : Ncp T)
      → length bytes ≤ 128
      → is_connected n.ash ≡ true
      → length n.ash.in_flight < max_window
      → (t : T) × (send_request port bytes format n ≡ (ok tt, requested bytes format n t))
  unfolding send_request body
  send_request-exact bytes format n short up room =
      let small : ltb 218 (length bytes) ≡ false = le→ltb _ _ (omega arith) in
      let numbered = data_frame n.ash.next_tx_frame n.ash.next_rx_frame false bytes in
      let (t, written) = write_frame-ok numbered (requested bytes format n n.transport) short in
      (t, rw (small, send_data-ok n.ash bytes up room) written)

pub requested-Keeps :
    {T : Type 0} (bytes : List ℕ) (format : HeaderFormat) (n : Ncp T) (t : T)
    → Keeps n (requested bytes format n t)
requested-Keeps bytes format n t =
    let (state, next) = send_data-state n.ash bytes in
    record {
      decoder = refl;
      correlator = refl;
      version = refl;
      response = refl;
      pending_format = refl;
      state = state;
      next_rx_frame = next;
    }
