-- ===== src/Ncp/Oversized.antt =====
-- Commands whose frame is too long for ASH.
use rsezsp.Prelude.{
  ℕ, ◌+◌, ◌≤◌, ◌<◌, List, [], ◌∷◌, ◌++◌, true, false, ltb, le→ltb, lt→ltb, some, ok, err, length,
  if◌then◌else◌, ◌≡◌, refl,
}
use rsezsp.Ash.Error.{too_long}
use rsezsp.Ash.Frame.{data_frame, body, next_sequence}
use rsezsp.Ash.Codec.Decoding.{encode_lem}
use rsezsp.Ash.Connection.{is_connected, max_window, send_data}
use rsezsp.Ezsp.Error.{ash}
use rsezsp.Ezsp.Correlation.{begin}
use rsezsp.Ezsp.Frame.{HeaderFormat}
use rsezsp.Ezsp.Command.Interface.{Command}
use rsezsp.Ncp.Transport.{Transport, Arrival}
use rsezsp.Ncp.Runtime.{Ncp, write_frame}
use rsezsp.Ncp.Command.{command, request, format_for, send_request, is_legacy}
use rsezsp.Ncp.Sending.{send_data-ok, send_data-window}
use rsezsp.Ncp.Exchange.{IsReady, pending_for, begun}

module _ {T : Type 0} (port : Transport T) where
  write_frame-long :
      (n : Ncp T) (number ack_num : ℕ) (bytes : List ℕ)
      → 130 < length bytes
      → write_frame port (data_frame number ack_num false bytes) n
        ≡ (err (ash (too_long (length bytes + 3) 133)), n)
  unfolding write_frame body
  write_frame-long n number ack_num bytes long =
      let over : ltb 130 (length bytes) ≡ true = lt→ltb _ _ long in
      rw (encode_lem (data_frame number ack_num false bytes)) (rw over)

  send_request-long :
      (bytes : List ℕ) (format : HeaderFormat) (n : Ncp T)
      → 130 < length bytes
      → length bytes ≤ 218
      → is_connected n.ash ≡ true
      → length n.ash.in_flight < max_window
      → send_request port bytes format n ≡ (
        err (ash (too_long (length bytes + 3) 133)),
        record n {
          initial_version_sent = if is_legacy format then true else n.initial_version_sent;
          ash = (send_data n.ash bytes).0;
        },
      )
  unfolding send_request
  send_request-long bytes format n long short up room =
      let allowed : ltb 218 (length bytes) ≡ false = le→ltb _ _ short in
      rw (allowed, send_data-ok n.ash bytes up room)
        (write_frame-long _ n.ash.next_tx_frame n.ash.next_rx_frame bytes long)

module _ {T : Type 0} (port : Transport T) {C A : Type 0} (k : Command C A) where
  -- An available command on a ready runtime whose request has 131 to 218 bytes fails with ASH's
  -- error that the frame is too long, and nothing is written; but the frame has taken a slot of
  -- the window and a frame number, and the command stays outstanding.
  pub command_unsendable :
      (c : C) (arrivals : List Arrival) (n : Ncp T) (bytes : List ℕ)
      → IsReady n
      → k.is_available n.version ≡ true
      → request k c n.correlator.next_sequence (format_for k.id n) n.version ≡ ok bytes
      → 130 < length bytes
      → length bytes ≤ 218
      → let (r, n') = command port k c arrivals n in
        (r ≡ err (ash (too_long (length bytes + 3) 133)))
        × (n'.transport ≡ n.transport)
        × (n'.ash.in_flight
            ≡ n.ash.in_flight
              ++ record { frame_num = n.ash.next_tx_frame; payload = bytes; sends = 1 } ∷ [])
        × (n'.ash.next_tx_frame ≡ next_sequence n.ash.next_tx_frame)
        × (n'.correlator.pending ≡ some (pending_for k n))
  unfolding command begin
  command_unsendable c arrivals n bytes ready available encoded long short =
      let failed_send =
        send_request-long port bytes (format_for k.id n) (begun k n) long short ready.up
          ready.room in
      let (queued, numbered) = send_data-window n.ash bytes ready.up ready.room in
      rw (available, ready.free, encoded) (rw failed_send (refl, refl, queued, numbered, refl))
