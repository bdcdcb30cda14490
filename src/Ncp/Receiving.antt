-- ===== src/Ncp/Receiving.antt =====
-- A response that comes in: from the bytes of its data frame to the end of the pump.
use rsezsp.Prelude.{
  ℕ, ◌%◌, ◌≤◌, ◌<◌, List, [], ◌∷◌, Bool, true, false, ==_refl, none, some, ok, ok-injective, length,
  ◌≡◌, refl, sym, ◌∙◌, arith,
}
use rsezsp.Ash.Frame.{data_frame, ack, next_sequence, body}
use rsezsp.Ash.Codec
use rsezsp.Ash.Codec.{Decoder, frame, encode, feed}
use rsezsp.Ash.Codec.Decoding.{feed-encode_alone}
use rsezsp.Ash.Connection.{Connection, is_connected, on_frame, on_data, retire_acknowledged, send}
use rsezsp.Ezsp.Exec.{bind-ok}
use rsezsp.Ezsp.Frame.{Frame, parse, response}
use rsezsp.Ezsp.Correlation.{Correlator, Pending, answer, classify}
use rsezsp.Ezsp.Command.Interface.{Command}
use rsezsp.Ncp.Transport.{Transport, Arrival}
use rsezsp.Ncp.Runtime.{
  Ncp, write_frame, reply, deliver, handle, handle_all, consume, take_arrival, pump_until, dispatch,
  format_or_extended,
}
use rsezsp.Ncp.Command.{read_answer, answered_or_lost, conclude}
use rsezsp.Ncp.Sending.{write_frame-ok}

-- The connection behind a data frame that is next in order.
abbrev pub taken_next : Connection → ℕ → Connection
taken_next c ack_num = record (retire_acknowledged c ack_num) {
  next_rx_frame = next_sequence c.next_rx_frame;
  nak_pending = false;
}

on_frame-next :
    (c : Connection) (ack_num : ℕ) (retransmit : Bool) (payload : List ℕ)
    → on_frame c (data_frame c.next_rx_frame ack_num retransmit payload)
      ≡ (taken_next c ack_num, some payload, send (ack (next_sequence c.next_rx_frame) false))
unfolding on_frame on_data retire_acknowledged
on_frame-next c ack_num retransmit payload = rw ==_refl

-- The decoder's result on the wire of a data frame.
feed-data_frame :
    (d : Decoder) (number ack_num : ℕ) (retransmit : Bool) (payload wire : List ℕ)
    → d ≡ Codec.new
    → number < 8
    → length payload ≤ 128
    → encode (data_frame number ack_num retransmit payload) ≡ ok wire
    → feed d wire ≡ (Codec.new, frame (data_frame number (ack_num % 8) retransmit payload) ∷ [])
unfolding body
feed-data_frame d number ack_num retransmit payload wire fresh small short sent =
    let (wire', sent', read) =
      feed-encode_alone (data_frame number ack_num retransmit payload) short in
    let same : wire ≡ wire' = ok-injective (sym sent ∙ sent') in
    let reduces : number % 8 ≡ number = omega arith in rw (fresh, same) (read ∙ rw reduces)

module _ {T : Type 0} where
  -- What is left before the payload is dispatched.
  abbrev pub before_dispatch : Ncp T → ℕ → T → Ncp T
  before_dispatch n ack_num t = record n {
    decoder = Codec.new;
    ash = taken_next n.ash (ack_num % 8);
    transport = t;
  }

module _ {T : Type 0} (port : Transport T)
    (writes : (bytes : List ℕ) (t : T) → (port.write bytes t).0 ≡ ok tt) where
  -- A data frame that is next in order is acknowledged, and then its payload is dispatched.
  handle_next :
      (n : Ncp T) (ack_num : ℕ) (retransmit : Bool) (payload : List ℕ)
      → (t : T) × (handle port (frame (data_frame n.ash.next_rx_frame ack_num retransmit payload)) n
          ≡ (ok tt, dispatch payload (record n { ash = taken_next n.ash ack_num; transport = t })))
  unfolding handle reply deliver body
  handle_next n ack_num retransmit payload =
      let c = taken_next n.ash ack_num in
      let (t, written) =
        write_frame-ok port writes (ack (next_sequence n.ash.next_rx_frame) false)
          (record n { ash = c }) (omega arith) in
      (
        t,
        rw (on_frame-next n.ash ack_num retransmit payload) (
            bind-ok (write_frame port (ack (next_sequence n.ash.next_rx_frame) false)) _
              (record n { ash = c }) _ tt written),
      )

  pub consume_exact :
      (n : Ncp T) (ack_num : ℕ) (retransmit : Bool) (payload wire : List ℕ)
      → n.decoder ≡ Codec.new
      → n.ash.next_rx_frame < 8
      → length payload ≤ 128
      → encode (data_frame n.ash.next_rx_frame ack_num retransmit payload) ≡ ok wire
      → (t : T) × (consume port wire n ≡ (ok tt, dispatch payload (before_dispatch n ack_num t)))
  unfolding consume handle_all
  consume_exact n ack_num retransmit payload wire fresh small short sent =
      let (t, handled) =
        handle_next (record n { decoder = Codec.new }) (ack_num % 8) retransmit payload in
      (
        t,
        rw
            (feed-data_frame n.decoder n.ash.next_rx_frame ack_num retransmit payload wire fresh
              small short sent)
            (bind-ok
              (handle port
                (frame (data_frame n.ash.next_rx_frame (ack_num % 8) retransmit payload)))
              _ (record n { decoder = Codec.new }) _ tt handled),
      )

  pub consume_next :
      (n : Ncp T) (ack_num : ℕ) (retransmit : Bool) (payload wire : List ℕ)
      → n.decoder ≡ Codec.new
      → n.ash.next_rx_frame < 8
      → length payload ≤ 128
      → encode (data_frame n.ash.next_rx_frame ack_num retransmit payload) ≡ ok wire
      → (n' : Ncp T) × (consume port wire n ≡ (ok tt, dispatch payload n'))
        × (n'.correlator ≡ n.correlator)
        × (n'.version ≡ n.version)
        × (n'.pending_format ≡ n.pending_format)
  consume_next n ack_num retransmit payload wire fresh small short sent =
      let (t, consumed) = consume_exact n ack_num retransmit payload wire fresh small short sent in
      (before_dispatch n ack_num t, consumed, refl, refl, refl)

-- A response that matches the pending command.
pub classify-match :
    (c : Correlator) (f : Frame) (p : Pending)
    → c.pending ≡ some p
    → f.control.is_callback ≡ false
    → f.control.direction ≡ response
    → p.sequence ≡ f.sequence
    → p.frame_id ≡ f.frame_id
    → classify c f ≡ (record c { pending = none }, answer f.parameters)
unfolding classify
classify-match c f p pending own back sequence id =
    rw (own, back, pending, sequence, id, ==_refl, ==_refl)

pub dispatch-answer :
    {T : Type 0} (payload : List ℕ) (n : Ncp T) (f : Frame) (p : Pending)
    → parse payload (format_or_extended n.pending_format) ≡ ok f
    → n.correlator.pending ≡ some p
    → f.control.is_callback ≡ false
    → f.control.direction ≡ response
    → p.sequence ≡ f.sequence
    → p.frame_id ≡ f.frame_id
    → ((dispatch payload n).response ≡ some f.parameters)
      × ((dispatch payload n).version ≡ n.version)
unfolding dispatch
dispatch-answer payload n f p parsed pending own back sequence id =
    rw parsed (rw (classify-match n.correlator f p pending own back sequence id) (refl, refl))

module _ {T : Type 0} (port : Transport T) where
  pub stops :
      (n : Ncp T) (parameters : List ℕ) (later : List Arrival)
      → n.response ≡ some parameters
      → pump_until port answered_or_lost later none n
        ≡ (ok tt, some parameters, record n { response = none })
  unfolding pump_until answered_or_lost
  stops n parameters [] there = rw there
  stops n parameters (what ∷ rest) there = rw there

  pub waits :
      (n : Ncp T)
      → n.response ≡ none
      → is_connected n.ash ≡ true
      → answered_or_lost none n ≡ (false, none, record n { response = none })
  unfolding answered_or_lost
  waits n empty up = rw (empty, up)

  -- The pump stops once the response is there, whatever arrives later.
  pub pump_until-response :
      (n n' : Ncp T) (what : Arrival) (parameters : List ℕ) (later : List Arrival)
      → n.response ≡ none
      → is_connected n.ash ≡ true
      → take_arrival port what (record n { response = none }) ≡ (ok tt, n')
      → n'.response ≡ some parameters
      → pump_until port answered_or_lost (what ∷ later) none n
        ≡ (ok tt, some parameters, record n' { response = none })
  unfolding pump_until
  pump_until-response n n' what parameters later empty up taken there =
      rw (waits n empty up) (rw taken (stops n' parameters later there))

module _ {T : Type 0} where
  pub conclude-answered :
      {C A : Type 0} (k : Command C A) (parameters : List ℕ) (n : Ncp T)
      → (conclude k (ok tt) (some parameters) n).0 ≡ read_answer k parameters n.version
  unfolding conclude
  conclude-answered k parameters n = refl
