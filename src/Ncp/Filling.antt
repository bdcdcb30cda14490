-- ===== src/Ncp/Filling.antt =====
-- What a run of commands that nothing answers does to the window.
use rsezsp.Prelude.{
  ℕ, zero, suc, ◌+◌, ◌≤◌, List, [], ◌∷◌, true, false, ltb, le→ltb, ◌==◌, none, Result, ok, err,
  length, length-append, if◌then◌else◌, ◌≡◌, refl, sym, ap, ◌∙◌, arith,
}
use mathlib.Core.Path.{subst}
use rsezsp.Ash.Error.{window_full}
use rsezsp.Ash.Connection.{Connection, is_connected, in_state_connected, send_data}
use rsezsp.Ezsp.FrameId
use rsezsp.Ezsp.Version.{ProtocolVersion}
use rsezsp.Ezsp.Error.{EzspError, ash}
use rsezsp.Ezsp.Correlation.{begin}
use rsezsp.Ezsp.Frame.{HeaderFormat, extended}
use rsezsp.Ezsp.Command.Interface.{Command}
use rsezsp.Ncp.Transport.{Transport}
use rsezsp.Ncp.Runtime.{Ncp}
use rsezsp.Ncp.Command.{command, request, format_for, send_request, is_legacy}
use rsezsp.Ncp.Sending.{send_data-window, send_data-state, extended-for}
use rsezsp.Ncp.Exchange.{begun}
use rsezsp.Ncp.Silence.{CanSend, timed_out, timed_out-exact}

send_data-full :
    (c : Connection) (bytes : List ℕ)
    → is_connected c ≡ true
    → length c.in_flight ≡ 7
    → (send_data c bytes).1 ≡ err (window_full 7 7)
unfolding send_data
send_data-full c bytes up full = rw (up, full) refl

module _ {C A : Type 0} (k : Command C A) where
  -- Whatever the sequence number, the command makes a request that can be sent.
  abbrev pub AlwaysSends : C → ProtocolVersion → Type 0
  AlwaysSends c version =
      (sequence : ℕ)
      → (bytes : List ℕ) × (request k c sequence extended version ≡ ok bytes) × (length bytes ≤ 128)

module _ {T : Type 0} (port : Transport T) {C A : Type 0} (k : Command C A) where
  -- So many commands in a row that nothing answers.
  abbrev pub unanswered : ℕ → C → Ncp T → Ncp T
  unanswered zero c n = n
  unanswered (suc i) c n = unanswered i c (command port k c [] n).1

  -- After `i` such commands the next one is refused and writes nothing, while connected.
  abbrev pub IsStuck : ℕ → C → Ncp T → Type 0
  IsStuck i c n =
      let n' = unanswered i c n in
      ((command port k c [] n').0 ≡ err (ash (window_full 7 7)))
      × ((command port k c [] n').1.transport ≡ n'.transport)
      × (is_connected n'.ash ≡ true)

module _ {T : Type 0} (port : Transport T)
    (writes : (bytes : List ℕ) (t : T) → (port.write bytes t).0 ≡ ok tt) where
  module _ {C A : Type 0} (k : Command C A) where
    send_request-full :
        (bytes : List ℕ) (format : HeaderFormat) (m : Ncp T)
        → length bytes ≤ 128
        → is_connected m.ash ≡ true
        → length m.ash.in_flight ≡ 7
        → send_request port bytes format m ≡ (
          err (ash (window_full 7 7)),
          record m {
            initial_version_sent = if is_legacy format then true else m.initial_version_sent;
            ash = (send_data m.ash bytes).0;
          },
        )
    unfolding send_request
    send_request-full bytes format m short up full =
        let small : ltb 218 (length bytes) ≡ false = le→ltb _ _ (omega arith) in
        let refused : (send_data m.ash bytes).1 ≡ err (window_full 7 7) =
          send_data-full m.ash bytes up full in
        rw (small, refused) refl

    refused_full :
        (c : C) (n : Ncp T)
        → is_connected n.ash ≡ true
        → length n.ash.in_flight ≡ 7
        → n.correlator.pending ≡ none
        → (k.id == FrameId.version) ≡ false
        → k.is_available n.version ≡ true
        → AlwaysSends k c n.version
        → let (r, n') = command port k c [] n in
          (r ≡ err (ash (window_full 7 7))) × (n'.transport ≡ n.transport)
    unfolding command begin
    refused_full c n up full free other available sends =
        let (bytes, asked, short) = sends n.correlator.next_sequence in
        let encoded : request k c n.correlator.next_sequence (format_for k.id n) n.version
            ≡ ok bytes =
          rw (extended-for k.id n other) asked in
        rw (available, free, encoded)
          (rw (send_request-full bytes (format_for k.id n) (begun k n) short up full) (refl, refl))

    -- On a connected runtime with no command outstanding and no response kept, over a transport that
    -- writes, for an available command other than `version` whose requests always have at most 128
    -- bytes: after as many such commands in a row that nothing answers as there is room in the
    -- window, the next one is refused for a full window and writes nothing, though the connection
    -- still counts as connected. A deadline neither sends a frame again nor takes it out of the
    -- window.
    pub silence_fills :
        (i : ℕ) (c : C) (n : Ncp T)
        → is_connected n.ash ≡ true
        → n.correlator.pending ≡ none
        → n.response ≡ none
        → length n.ash.in_flight + i ≡ 7
        → (k.id == FrameId.version) ≡ false
        → k.is_available n.version ≡ true
        → AlwaysSends k c n.version
        → IsStuck port k i c n
    silence_fills zero c n up free empty room other available sends =
        let (r, same) = refused_full c n up (omega arith) free other available sends in
        (r, same, up)
    silence_fills (suc i) c n up free empty room other available sends =
        let can : CanSend n = record { up = up; room = omega arith; free = free; empty = empty } in
        let (bytes, asked, short) = sends n.correlator.next_sequence in
        let encoded : request k c n.correlator.next_sequence (format_for k.id n) n.version
            ≡ ok bytes =
          rw (extended-for k.id n other) asked in
        let (wire, sent, done) =
          timed_out-exact port writes k c n bytes can available encoded short in
        let (window, tx) = send_data-window n.ash bytes up can.room in
        let (state, rx) = send_data-state n.ash bytes in
        let grown =
          length-append n.ash.in_flight
            (record { frame_num = n.ash.next_tx_frame; payload = bytes; sends = 1 } ∷ []) in
        let m = timed_out port k n bytes wire in
        let fits : length m.ash.in_flight + i ≡ 7 = omega (arith, ap length window, grown, room) in
        subst (IsStuck port k i c) (sym (ap (λ (t : Result A EzspError × Ncp T). t.1) done)) (
          silence_fills i c m (ap in_state_connected state ∙ up) refl refl fits other available
            sends)
