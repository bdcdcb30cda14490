-- ===== src/Ncp/Lost.antt =====
-- Commands whose answer never comes, since the NCP resets or fails.
use rsezsp.Prelude.{
  ℕ, ◌≤◌, List, [], ◌∷◌, true, false, none, some, ok, err, ok-injective, length, ◌≡◌, refl, sym, ap,
  ◌∙◌, arith,
}
use rsezsp.Ash.Frame.{rst_ack, error, body}
use rsezsp.Ash.Codec
use rsezsp.Ash.Codec.{encode}
use rsezsp.Ash.Codec.Decoding.{feed-encode_alone}
use rsezsp.Ash.Connection.{failed, is_connected, in_state_connected, on_frame, on_rst_ack}
use rsezsp.Ezsp.Error.{timeout, ncp_reset}
use rsezsp.Ezsp.Correlation.{Correlator, Pending, time_out, on_ncp_reset}
use rsezsp.Ezsp.Command.Interface.{Command}
use rsezsp.Ncp.Transport.{Transport, Arrival, arrived}
use rsezsp.Ncp.Runtime.{Ncp, pump_until, take_arrival, consume, handle_all, handle, reply, deliver}
use rsezsp.Ncp.Command.{command, request, format_for, answered_or_lost, await_answer, conclude}
use rsezsp.Ncp.Receiving.{waits}
use rsezsp.Ncp.Recovery.{take_rst_ack}
use rsezsp.Ncp.Exchange.{IsReady, command-await_answer, pending_for}

module _ {T : Type 0} where
  lost :
      (n : Ncp T)
      → n.response ≡ none
      → is_connected n.ash ≡ false
      → answered_or_lost none n ≡ (true, none, record n { response = none })
  unfolding answered_or_lost
  lost n empty down = rw (empty, down)

stops_lost :
    {T : Type 0} (port : Transport T) (n : Ncp T) (later : List Arrival)
    → n.response ≡ none
    → is_connected n.ash ≡ false
    → pump_until port answered_or_lost later none n ≡ (ok tt, none, record n { response = none })
unfolding pump_until
stops_lost port n [] empty down = rw (lost n empty down)
stops_lost port n (what ∷ later) empty down = rw (lost n empty down)

module _ {T : Type 0} {C A : Type 0} (k : Command C A) where
  conclude-timeout :
      (n : Ncp T) (p : Pending)
      → is_connected n.ash ≡ true
      → n.correlator.pending ≡ some p
      → (conclude k (ok tt) none n).0 ≡ err (timeout p.frame_id)
  unfolding conclude time_out
  conclude-timeout n p up busy = rw (up, busy)

  conclude-reset :
      (n : Ncp T) (p : Pending)
      → is_connected n.ash ≡ false
      → n.correlator.pending ≡ some p
      → (conclude k (ok tt) none n).0 ≡ err (ncp_reset p.frame_id)
  unfolding conclude on_ncp_reset
  conclude-reset n p down busy = rw (down, busy)

module _ {T : Type 0} (port : Transport T)
    (writes : (bytes : List ℕ) (t : T) → (port.write bytes t).0 ≡ ok tt) where
  take_error :
      (n : Ncp T) (version code : ℕ) (wire : List ℕ)
      → n.decoder ≡ Codec.new
      → encode (error version code) ≡ ok wire
      → take_arrival port (arrived wire) n ≡ (
        ok tt,
        record n { decoder = Codec.new; ash = record n.ash { state = failed; in_flight = [] } },
      )
  unfolding take_arrival consume handle_all handle reply deliver on_frame body
  take_error n version code wire fresh sent =
      let (wire', sent', read) = feed-encode_alone (error version code) (omega arith) in
      let same : wire ≡ wire' = ok-injective (sym sent ∙ sent') in rw (fresh, same, read)

  pump_until-rst_ack :
      (n : Ncp T) (version code : ℕ) (wire : List ℕ)
      → n.decoder ≡ Codec.new
      → is_connected n.ash ≡ true
      → n.response ≡ none
      → encode (rst_ack version code) ≡ ok wire
      → pump_until port answered_or_lost (arrived wire ∷ []) none n
        ≡ (ok tt, none, record n { decoder = Codec.new; ash = on_rst_ack n.ash; response = none })
  unfolding pump_until
  pump_until-rst_ack n version code wire fresh up empty sent =
      let n1 = record n { response = none } in
      rw (waits port n empty up) (
        rw (take_rst_ack port writes n1 version code wire fresh sent) (
          rw (
            waits port (record n1 { decoder = Codec.new; ash = on_rst_ack n.ash }) refl
              (unfold on_rst_ack in refl))))

  pump_until-error :
      (n : Ncp T) (version code : ℕ) (wire : List ℕ) (later : List Arrival)
      → n.decoder ≡ Codec.new
      → is_connected n.ash ≡ true
      → n.response ≡ none
      → encode (error version code) ≡ ok wire
      → pump_until port answered_or_lost (arrived wire ∷ later) none n ≡ (
        ok tt,
        none,
        record n {
          decoder = Codec.new;
          ash = record n.ash { state = failed; in_flight = [] };
          response = none;
        },
      )
  unfolding pump_until
  pump_until-error n version code wire later fresh up empty sent =
      let n1 = record n { response = none } in
      rw (waits port n empty up) (
        rw (take_error n1 version code wire fresh sent) (
          stops_lost port
            (record n1 {
              decoder = Codec.new;
              ash = record n.ash { state = failed; in_flight = [] };
            })
            later refl refl))

module _ {T : Type 0} (port : Transport T) {C A : Type 0} (k : Command C A)
    (writes : (bytes : List ℕ) (t : T) → (port.write bytes t).0 ≡ ok tt) where
  -- An available command on a ready runtime over a transport that writes, with a request of at
  -- most 128 bytes: if an RSTACK arrives, as when the NCP resets by itself, and nothing else
  -- before the deadline, the command reports a timeout that names it, not a reset.
  pub command_rst_ack :
      (c : C) (n : Ncp T) (bytes : List ℕ) (version code : ℕ) (wire : List ℕ)
      → IsReady n
      → k.is_available n.version ≡ true
      → request k c n.correlator.next_sequence (format_for k.id n) n.version ≡ ok bytes
      → length bytes ≤ 128
      → encode (rst_ack version code) ≡ ok wire
      → (command port k c (arrived wire ∷ []) n).0 ≡ err (timeout k.id)
  unfolding await_answer
  command_rst_ack c n bytes version code wire ready available encoded short sent =
      let (n', sent_off, keeps) =
        command-await_answer port k writes c (arrived wire ∷ []) n bytes ready available encoded
          short in
      let pumped =
        pump_until-rst_ack port writes n' version code wire (keeps.decoder ∙ ready.fresh)
          (ap in_state_connected keeps.state ∙ ready.up) (keeps.response ∙ ready.empty) sent in
      rw sent_off (
        rw pumped (
          conclude-timeout k _ (pending_for k n) (unfold on_rst_ack in refl)
            (ap (λ (c : Correlator). c.pending) keeps.correlator)))

  -- An available command on a ready runtime over a transport that writes, with a request of at
  -- most 128 bytes: if an ERROR frame arrives, the command reports at once a reset that names it,
  -- whatever arrives later.
  pub command_error :
      (c : C) (n : Ncp T) (bytes : List ℕ) (version code : ℕ) (wire : List ℕ) (later : List Arrival)
      → IsReady n
      → k.is_available n.version ≡ true
      → request k c n.correlator.next_sequence (format_for k.id n) n.version ≡ ok bytes
      → length bytes ≤ 128
      → encode (error version code) ≡ ok wire
      → (command port k c (arrived wire ∷ later) n).0 ≡ err (ncp_reset k.id)
  unfolding await_answer
  command_error c n bytes version code wire later ready available encoded short sent =
      let (n', sent_off, keeps) =
        command-await_answer port k writes c (arrived wire ∷ later) n bytes ready available encoded
          short in
      let pumped =
        pump_until-error port writes n' version code wire later (keeps.decoder ∙ ready.fresh)
          (ap in_state_connected keeps.state ∙ ready.up) (keeps.response ∙ ready.empty) sent in
      rw sent_off (
        rw pumped (
          conclude-reset k
            (record n' {
              decoder = Codec.new;
              ash = record n'.ash { state = failed; in_flight = [] };
              response = none;
            })
            (pending_for k n) refl (ap (λ (c : Correlator). c.pending) keeps.correlator)))
