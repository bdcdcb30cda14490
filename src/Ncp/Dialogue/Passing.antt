-- ===== src/Ncp/Dialogue/Passing.antt =====
-- Frames that arrive before the answer.
use rsezsp.Prelude.{
  ℕ, ◌%◌, ◌<◌, List, [], ◌∷◌, ◌++◌, append-nil, append_assoc, true, Option, none, some, Result, ok,
  err, ◌≡◌, refl, sym, ap, ◌∙◌, arith, Bool-cases, inl, inr,
}
use mathlib.Core.Path.{subst}
use rsezsp.Ash.Frame.{next_sequence}
use rsezsp.Ash.Codec
use rsezsp.Ash.Connection.{is_connected, retire_acknowledged}
use rsezsp.Ezsp.Error.{EzspError}
use rsezsp.Ezsp.Frame.{Frame, HeaderFormat, parse}
use rsezsp.Ezsp.Callback.{Callback, decode}
use rsezsp.Ezsp.Correlation.{Correlator, Pending, saturating_suc}
use rsezsp.Ezsp.Correlation.Matching.{Answers, classify-callback, classify-stale}
use rsezsp.Ncp.Transport.{Transport, Arrival, arrived}
use rsezsp.Ncp.Runtime.{
  Ncp, dispatch, dispatch_parsed, act_on, keep_callback, format_or_extended, take_arrival,
  pump_until,
}
use rsezsp.Ncp.Command.{answered_or_lost}
use rsezsp.Ncp.Receiving.{consume_exact, before_dispatch, waits}
use rsezsp.Ncp.Exchange.{IsResponse}
use rsezsp.Ncp.Dialogue.{
  Incoming, IsSent, AreSent, number_after, reads, callback_of, noted_frame, noted, PassesFrame,
  Passes,
}
use rsezsp.Ncp.Dialogue.Window.{Awaits, Awaits-retire}

passes-Answers :
    (c : Correlator) (f : Frame) (p : Pending)
    → c.pending ≡ some p
    → ¬ IsResponse p.sequence p.frame_id f
    → ¬ Answers c f
passes-Answers c f p pending passes a =
    let same : p ≡ record { sequence = f.sequence; frame_id = f.frame_id } =
      ap (λ (o : Option Pending). elim o [ some q ↦ q | none ↦ p ]) (sym pending ∙ a.2) in
    passes (record {
      own = a.0;
      back = a.1;
      same_sequence = ap (λ (p : Pending). p.sequence) same;
      same_id = ap (λ (p : Pending). p.frame_id) same;
    })

module _ {T : Type 0} where
  -- Only the callbacks and the count of stale frames change.
  abbrev pub with_noted : Ncp T → List Callback → ℕ → Ncp T
  with_noted n more stale_frames = record n {
    correlator = record n.correlator { stale_frames = stale_frames };
    callbacks = n.callbacks ++ more;
  }

  keep_callback-noted :
      (n : Ncp T) (r : Result Callback EzspError)
      → keep_callback r n ≡ with_noted n (callback_of r) n.correlator.stale_frames
  unfolding keep_callback
  keep_callback-noted n (ok what) = refl
  keep_callback-noted n (err e) = rw (append-nil n.callbacks) refl

  dispatch_parsed-passes :
      (n : Ncp T) (r : Result Frame EzspError) (p : Pending)
      → n.correlator.pending ≡ some p
      → PassesFrame p.sequence p.frame_id r
      → (s : ℕ) × (dispatch_parsed r n ≡ with_noted n (noted_frame n.version r) s)
  unfolding dispatch_parsed act_on
  dispatch_parsed-passes n (err e) p pending passes =
      (n.correlator.stale_frames, rw (append-nil n.callbacks) refl)
  dispatch_parsed-passes n (ok f) p pending passes = elim (Bool-cases f.control.is_callback) [
    | inl flagged ↦ (
      n.correlator.stale_frames,
      rw (classify-callback n.correlator f flagged)
          (rw flagged (keep_callback-noted n (decode f.frame_id f.parameters n.version))),
    )
    | inr plain ↦
        let other = passes-Answers n.correlator f p pending passes in
        (
          saturating_suc n.correlator.stale_frames,
          rw (classify-stale n.correlator f other plain) (rw (plain, append-nil n.callbacks) refl),
        )
  ]

-- The command is under way: its request had the frame number `number`.
pub record IsWaiting {T : Type 0} (p : Pending) (format : HeaderFormat) (number : ℕ) (n : Ncp T)
    : Type 0 where
  pub fresh : n.decoder ≡ Codec.new
  pub up : is_connected n.ash ≡ true
  pub rx : n.ash.next_rx_frame < 8
  pub window : Awaits number n.ash.in_flight
  pub pending : n.correlator.pending ≡ some p
  pub expects : n.pending_format ≡ some format
  pub empty : n.response ≡ none

-- What frames that pass change and what they do not.
pub record Notes {T : Type 0} (n : Ncp T) (more : List Callback) (next : ℕ) (n' : Ncp T)
    : Type 0 where
  pub callbacks : n'.callbacks ≡ n.callbacks ++ more
  pub version : n'.version ≡ n.version
  pub first_sent : n'.initial_version_sent ≡ n.initial_version_sent
  pub sequence : n'.correlator.next_sequence ≡ n.correlator.next_sequence
  pub tx : n'.ash.next_tx_frame ≡ n.ash.next_tx_frame
  pub rx : n'.ash.next_rx_frame ≡ next

abbrev done {ℓ} : {A : Type ℓ} → A → Result (Unit {0}) EzspError × A
done n = (ok tt, n)

module _ {T : Type 0} (port : Transport T)
    (writes : (bytes : List ℕ) (t : T) → (port.write bytes t).0 ≡ ok tt) (p : Pending)
    (format : HeaderFormat) (number : ℕ) where
  pass_one :
      (n : Ncp T) (x : Incoming)
      → IsWaiting p format number n
      → IsSent n.ash.next_rx_frame x
      → PassesFrame p.sequence p.frame_id (parse x.payload format)
      → (n' : Ncp T) × (take_arrival port (arrived x.wire) (record n { response = none })
          ≡ (ok tt, n'))
        × IsWaiting p format number n'
        × Notes n
            (noted_frame n.version (parse x.payload format))
            (next_sequence n.ash.next_rx_frame)
            n'
  unfolding take_arrival dispatch next_sequence retire_acknowledged
  pass_one n x w s passes =
      let m : Ncp T = record n { response = none } in
      let (t, consumed) =
        consume_exact port writes m x.ack_num x.retransmit x.payload x.wire w.fresh w.rx s.short
          s.sent in
      let b = before_dispatch m x.ack_num t in
      let (count, noted_so) =
        dispatch_parsed-passes b (parse x.payload format) p w.pending passes in
      (
        with_noted b (noted_frame n.version (parse x.payload format)) count,
        consumed
            ∙ ap
                (λ (o : Option HeaderFormat).
                  done (dispatch_parsed (parse x.payload (format_or_extended o)) b))
                w.expects
            ∙ ap done noted_so,
        record {
          fresh = refl;
          up = w.up;
          rx = omega arith;
          window = Awaits-retire n.ash n.ash.in_flight number (x.ack_num % 8) refl w.window;
          pending = w.pending;
          expects = w.expects;
          empty = refl;
        },
        record {
          callbacks = refl;
          version = refl;
          first_sent = refl;
          sequence = refl;
          tx = refl;
          rx = refl;
        },
      )

  -- None of them ends the wait.
  pub pass_all :
      (n : Ncp T) (xs : List Incoming) (later : List Arrival)
      → IsWaiting p format number n
      → AreSent n.ash.next_rx_frame xs
      → Passes p.sequence p.frame_id format xs
      → (n' : Ncp T) × (pump_until port answered_or_lost (reads xs later) none n
          ≡ pump_until port answered_or_lost later none n')
        × IsWaiting p format number n'
        × Notes n (noted n.version format xs) (number_after n.ash.next_rx_frame xs) n'
  unfolding pump_until
  pass_all n [] later w s passes = (
    n,
    refl,
    w,
    record {
      callbacks = sym (append-nil n.callbacks);
      version = refl;
      first_sent = refl;
      sequence = refl;
      tx = refl;
      rx = refl;
    },
  )
  pass_all n (x ∷ xs) later w s passes =
      let (m, taken, w', notes) = pass_one n x w s.0 passes.0 in
      let (n', pumped, w'', more) =
        pass_all m xs later w' (subst (λ (r : ℕ). AreSent r xs) (sym notes.rx) s.1) passes.1 in
      (
        n',
        rw (waits port n w.empty w.up) (rw taken pumped),
        w'',
        record {
          callbacks =
              more.callbacks ∙ rw (notes.callbacks, notes.version) (append_assoc n.callbacks _ _);
          version = more.version ∙ notes.version;
          first_sent = more.first_sent ∙ notes.first_sent;
          sequence = more.sequence ∙ notes.sequence;
          tx = more.tx ∙ notes.tx;
          rx = more.rx ∙ ap (λ (r : ℕ). number_after r xs) notes.rx;
        },
      )
