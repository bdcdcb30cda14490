-- ===== src/Ncp/Silence.antt =====
-- Commands that nothing answers.
use rsezsp.Prelude.{
  ℕ, ◌≤◌, ◌<◌, List, [], ◌∷◌, ◌++◌, true, false, ltb, le→ltb, none, some, Result, ok, err, length,
  ◌≡◌, refl, ap, ◌∙◌, arith,
}
use rsezsp.Ash.Frame.{data_frame, body, next_sequence}
use rsezsp.Ash.Codec.{encode}
use rsezsp.Ash.Codec.Decoding.{feed-encode_alone}
use rsezsp.Ash.Connection.{is_connected, in_state_connected, max_window, send_data}
use rsezsp.Ezsp.Error.{EzspError, timeout}
use rsezsp.Ezsp.Correlation.{Pending, begin, time_out}
use rsezsp.Ezsp.Frame.{HeaderFormat}
use rsezsp.Ezsp.Command.Interface.{Command}
use rsezsp.Ncp.Transport.{Transport}
use rsezsp.Ncp.Runtime.{Ncp, write_frame, pump_until}
use rsezsp.Ncp.Command.{
  command, request, format_for, send_request, await_answer, answered_or_lost, conclude,
}
use rsezsp.Ncp.Sending.{send_data-ok, send_data-window, send_data-state, requested}
use rsezsp.Ncp.Receiving.{waits}
use rsezsp.Ncp.Exchange.{begun, pending_for}

-- Connected, between commands, with room in the window; what the decoder holds is free.
pub record CanSend {T : Type 0} (n : Ncp T) : Type 0 where
  pub up : is_connected n.ash ≡ true
  pub room : length n.ash.in_flight < max_window
  pub free : n.correlator.pending ≡ none
  pub empty : n.response ≡ none

module _ {T : Type 0} (port : Transport T) {C A : Type 0} (k : Command C A) where
  -- What an unanswered command leaves, whose frame was written.
  abbrev pub timed_out : Ncp T → List ℕ → List ℕ → Ncp T
  timed_out n bytes wire =
      let sent = requested bytes (format_for k.id n) (begun k n) (port.write wire n.transport).1 in
      record sent { correlator = record sent.correlator { pending = none }; response = none }

  -- An unanswered command whose frame was `wire`.
  abbrev pub Left : Ncp T → List ℕ → List ℕ → Result A EzspError × Ncp T → Type 0
  Left n bytes wire (r, n') =
      (r ≡ err (timeout k.id))
      × (n'.transport ≡ (port.write wire n.transport).1)
      × (n'.correlator.pending ≡ none)
      × (n'.ash.in_flight
          ≡ n.ash.in_flight
            ++ record { frame_num = n.ash.next_tx_frame; payload = bytes; sends = 1 } ∷ [])
      × (n'.ash.next_tx_frame ≡ next_sequence n.ash.next_tx_frame)
      × (n'.ash.state ≡ n.ash.state)

module _ {T : Type 0} (port : Transport T)
    (writes : (bytes : List ℕ) (t : T) → (port.write bytes t).0 ≡ ok tt) where
  send_request-wire :
      (bytes : List ℕ) (format : HeaderFormat) (n : Ncp T)
      → length bytes ≤ 128
      → is_connected n.ash ≡ true
      → length n.ash.in_flight < max_window
      → (wire : List ℕ) × (encode (data_frame n.ash.next_tx_frame n.ash.next_rx_frame false bytes)
          ≡ ok wire)
        × (send_request port bytes format n
            ≡ (ok tt, requested bytes format n (port.write wire n.transport).1))
  unfolding send_request write_frame body
  send_request-wire bytes format n short up room =
      let small : ltb 218 (length bytes) ≡ false = le→ltb _ _ (omega arith) in
      let (wire, sent, read) =
        feed-encode_alone (data_frame n.ash.next_tx_frame n.ash.next_rx_frame false bytes) short in
      (
        wire,
        sent,
        rw (small, send_data-ok n.ash bytes up room) (rw sent (rw (writes wire n.transport) refl)),
      )

  pump-silence :
      (m : Ncp T)
      → m.response ≡ none
      → is_connected m.ash ≡ true
      → pump_until port answered_or_lost [] none m ≡ (ok tt, none, record m { response = none })
  unfolding pump_until
  pump-silence m empty up = rw (waits port m empty up) refl

  module _ {C A : Type 0} (k : Command C A) where
    await-silence :
        (m : Ncp T) (p : Pending)
        → m.response ≡ none
        → is_connected m.ash ≡ true
        → m.correlator.pending ≡ some p
        → await_answer port k [] m ≡ (
          err (timeout p.frame_id),
          record m { correlator = record m.correlator { pending = none }; response = none },
        )
    unfolding await_answer conclude time_out
    await-silence m p empty up busy = rw (pump-silence m empty up) (rw (up, busy) refl)

    pub timed_out-exact :
        (c : C) (n : Ncp T) (bytes : List ℕ)
        → CanSend n
        → k.is_available n.version ≡ true
        → request k c n.correlator.next_sequence (format_for k.id n) n.version ≡ ok bytes
        → length bytes ≤ 128
        → (wire : List ℕ) × (encode (data_frame n.ash.next_tx_frame n.ash.next_rx_frame false bytes)
            ≡ ok wire)
          × (command port k c [] n ≡ (err (timeout k.id), timed_out port k n bytes wire))
    unfolding command begin
    timed_out-exact c n bytes can available encoded short =
        let (wire, sent, done) =
          send_request-wire bytes (format_for k.id n) (begun k n) short can.up can.room in
        let (state, rx) = send_data-state n.ash bytes in
        let still : is_connected (send_data n.ash bytes).0 ≡ true =
          ap in_state_connected state ∙ can.up in
        let m = requested bytes (format_for k.id n) (begun k n) (port.write wire n.transport).1 in
        (
          wire,
          sent,
          rw (available, can.free, encoded)
              (rw done (await-silence m (pending_for k n) can.empty still refl)),
        )

    -- An available command on a connected runtime with room in the window and no command
    -- outstanding, over a transport that writes, with a request of at most 128 bytes: if nothing
    -- arrives before the deadline, its data frame was written once and not sent again, the command
    -- reports a timeout that names it, no command is outstanding any more, and the frame stays in
    -- the window with its one send.
    pub command_unanswered :
        (c : C) (n : Ncp T) (bytes : List ℕ)
        → CanSend n
        → k.is_available n.version ≡ true
        → request k c n.correlator.next_sequence (format_for k.id n) n.version ≡ ok bytes
        → length bytes ≤ 128
        → (wire : List ℕ) × (encode (data_frame n.ash.next_tx_frame n.ash.next_rx_frame false bytes)
            ≡ ok wire)
          × Left port k n bytes wire (command port k c [] n)
    command_unanswered c n bytes can available encoded short =
        let (wire, sent, done) = timed_out-exact c n bytes can available encoded short in
        let (window, tx) = send_data-window n.ash bytes can.up can.room in
        let (state, rx) = send_data-state n.ash bytes in
        let fields : Left port k n bytes wire (command port k c [] n) =
          rw done (refl, refl, refl, window, tx, state) in
        (wire, sent, fields)
