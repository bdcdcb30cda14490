-- ===== src/Ncp/Exchange.antt =====
-- A command whose answer arrives.
use rsezsp.Prelude.{
  ℕ, ◌≤◌, ◌<◌, List, ◌∷◌, Bool, true, false, Option, none, some, ok, length, ◌≡◌, sym, ap, ◌∙◌,
}
use mathlib.Core.Path.{subst}
use rsezsp.Ash.Frame.{data_frame}
use rsezsp.Ash.Codec
use rsezsp.Ash.Codec.{Decoder, frame, encode, feed}
use rsezsp.Ash.Connection.{is_connected, max_window, in_state_connected}
use rsezsp.Ezsp.Frame.{Frame, HeaderFormat, parse, response}
use rsezsp.Ezsp.Correlation.{Correlator, Pending, begin, wrapping_suc}
use rsezsp.Ezsp.Command.Interface.{Command}
use rsezsp.Ncp.Transport.{Transport, Arrival, arrived}
use rsezsp.Ncp.Runtime.{Ncp, take_arrival, dispatch, format_or_extended}
use rsezsp.Ncp.Command.{command, request, read_answer, format_for, await_answer}
use rsezsp.Ncp.Sending.{Keeps, requested, requested-Keeps, send_request-exact}
use rsezsp.Ncp.Receiving.{consume_next, dispatch-answer, pump_until-response, conclude-answered}

-- Between commands: connected, with room in the window, and nothing half read.
pub record IsReady {T : Type 0} (n : Ncp T) : Type 0 where
  pub fresh : n.decoder ≡ Codec.new
  pub up : is_connected n.ash ≡ true
  pub room : length n.ash.in_flight < max_window
  pub numbered : n.ash.next_rx_frame < 8
  pub free : n.correlator.pending ≡ none
  pub empty : n.response ≡ none

-- The response to the command of this sequence number and id.
pub record IsResponse (sequence id : ℕ) (f : Frame) : Type 0 where
  pub own : f.control.is_callback ≡ false
  pub back : f.control.direction ≡ response
  pub same_sequence : sequence ≡ f.sequence
  pub same_id : id ≡ f.frame_id

module _ {T C A : Type 0} (k : Command C A) (n : Ncp T) where
  abbrev pub pending_for : Pending
  pending_for = record { sequence = n.correlator.next_sequence; frame_id = k.id }

  -- What `command` has noted down before it encodes the request.
  abbrev pub begun : Ncp T
  begun = record n {
    correlator = record n.correlator {
      next_sequence = wrapping_suc n.correlator.next_sequence;
      pending = some pending_for;
    };
    pending_format = some (format_for k.id n);
  }

module _ {T : Type 0} (port : Transport T) {C A : Type 0} (k : Command C A) where
  module _ (writes : (bytes : List ℕ) (t : T) → (port.write bytes t).0 ≡ ok tt) where
    await_answered :
        (n : Ncp T) (ack_num : ℕ) (retransmit : Bool) (payload wire : List ℕ) (later : List Arrival)
        (f : Frame) (p : Pending)
        → n.decoder ≡ Codec.new
        → is_connected n.ash ≡ true
        → n.ash.next_rx_frame < 8
        → n.response ≡ none
        → length payload ≤ 128
        → encode (data_frame n.ash.next_rx_frame ack_num retransmit payload) ≡ ok wire
        → n.correlator.pending ≡ some p
        → parse payload (format_or_extended n.pending_format) ≡ ok f
        → IsResponse p.sequence p.frame_id f
        → (await_answer port k (arrived wire ∷ later) n).0 ≡ read_answer k f.parameters n.version
    unfolding await_answer
    await_answered n ack_num retransmit payload wire later f p fresh up small empty short sent
          pending parsed is =
        let (n1, taken, same, version, format) =
          consume_next port writes (record n { response = none }) ack_num retransmit payload wire
            fresh small short sent in
        let (there, kept) =
          dispatch-answer payload n1 f p
            (ap (λ (o : Option HeaderFormat). parse payload (format_or_extended o)) format ∙ parsed)
            (ap (λ (c : Correlator). c.pending) same ∙ pending) is.own is.back is.same_sequence
            is.same_id in
        let pumped =
          pump_until-response port n (dispatch payload n1) (arrived wire) f.parameters later empty
            up (unfold take_arrival in taken) there in
        rw pumped (
          conclude-answered k f.parameters (record (dispatch payload n1) { response = none })
          ∙ ap (read_answer k f.parameters) (kept ∙ version))

    -- The command has been sent, and its answer is waited for.
    pub command-waits :
        (c : C) (arrivals : List Arrival) (n : Ncp T) (bytes : List ℕ)
        → is_connected n.ash ≡ true
        → length n.ash.in_flight < max_window
        → n.correlator.pending ≡ none
        → k.is_available n.version ≡ true
        → request k c n.correlator.next_sequence (format_for k.id n) n.version ≡ ok bytes
        → length bytes ≤ 128
        → (t : T) × (command port k c arrivals n
            ≡ await_answer port k arrivals (requested bytes (format_for k.id n) (begun k n) t))
    unfolding command begin
    command-waits c arrivals n bytes up room free available encoded short =
        let (t, written) =
          send_request-exact port writes bytes (format_for k.id n) (begun k n) short up room in
        (t, rw (available, free, encoded) (rw written))

    pub command-await_answer :
        (c : C) (arrivals : List Arrival) (n : Ncp T) (bytes : List ℕ)
        → IsReady n
        → k.is_available n.version ≡ true
        → request k c n.correlator.next_sequence (format_for k.id n) n.version ≡ ok bytes
        → length bytes ≤ 128
        → (n' : Ncp T) × (command port k c arrivals n ≡ await_answer port k arrivals n')
          × Keeps (begun k n) n'
    command-await_answer c arrivals n bytes ready available encoded short =
        let (t, waits) =
          command-waits c arrivals n bytes ready.up ready.room ready.free available encoded short in
        (
          requested bytes (format_for k.id n) (begun k n) t,
          waits,
          requested-Keeps bytes (format_for k.id n) (begun k n) t,
        )

    -- An available command on a ready runtime (connected, room in the window, nothing half read or
    -- outstanding) over a transport that writes, with a request of at most 128 bytes: if the next
    -- data frame in order carries the response to it, in at most 128 bytes, the command gives
    -- exactly what its decoder makes of the response's parameters, bytes left over being an error,
    -- and what arrives later is not waited for.
    pub command_answered :
        (c : C) (n : Ncp T) (bytes : List ℕ) (ack_num : ℕ) (retransmit : Bool)
        (payload wire : List ℕ) (later : List Arrival) (f : Frame)
        → IsReady n
        → k.is_available n.version ≡ true
        → request k c n.correlator.next_sequence (format_for k.id n) n.version ≡ ok bytes
        → length bytes ≤ 128
        → parse payload (format_for k.id n) ≡ ok f
        → IsResponse n.correlator.next_sequence k.id f
        → length payload ≤ 128
        → encode (data_frame n.ash.next_rx_frame ack_num retransmit payload) ≡ ok wire
        → (command port k c (arrived wire ∷ later) n).0 ≡ read_answer k f.parameters n.version
    command_answered c n bytes ack_num retransmit payload wire later f ready available encoded short
          parsed is small sent =
        let (n', waits, keeps) =
          command-await_answer c (arrived wire ∷ later) n bytes ready available encoded short in
        rw waits (
          await_answered n' ack_num retransmit payload wire later f (pending_for k n)
            (keeps.decoder ∙ ready.fresh) (ap in_state_connected keeps.state ∙ ready.up)
            (subst (λ (next : ℕ). next < 8) (sym keeps.next_rx_frame) ready.numbered)
            (keeps.response ∙ ready.empty) small
            (subst (λ (next : ℕ). encode (data_frame next ack_num retransmit payload) ≡ ok wire)
              (sym keeps.next_rx_frame) sent)
            (ap (λ (c : Correlator). c.pending) keeps.correlator)
            (ap (λ (o : Option HeaderFormat). parse payload (format_or_extended o))
                keeps.pending_format
              ∙ parsed)
            is
          ∙ ap (read_answer k f.parameters) keeps.version)
