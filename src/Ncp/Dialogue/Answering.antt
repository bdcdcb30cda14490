-- ===== src/Ncp/Dialogue/Answering.antt =====
-- A command among callbacks and stale frames, from an idle runtime to an idle runtime.
use rsezsp.Prelude.{
  ℕ, ◌%◌, ◌≤◌, ◌<◌, List, [], ◌∷◌, ◌++◌, true, none, some, Result, ok, length, if◌then◌else◌, ◌≡◌,
  ◌≢◌, refl, sym, ap, ◌∙◌, arith,
}
use mathlib.Core.Path.{subst}
use rsezsp.Ash.Frame.{next_sequence}
use rsezsp.Ash.Connection.{in_state_connected, max_window, retire_acknowledged}
use rsezsp.Ezsp.Error.{EzspError}
use rsezsp.Ezsp.Frame.{Frame, HeaderFormat, parse}
use rsezsp.Ezsp.Correlation.{Pending, wrapping_suc}
use rsezsp.Ezsp.Command.Interface.{Command}
use rsezsp.Ncp.Transport.{Transport, Arrival, arrived}
use rsezsp.Ncp.Runtime.{Ncp, dispatch, take_arrival}
use rsezsp.Ncp.Command.{
  command, request, read_answer, format_for, is_legacy, await_answer, conclude,
}
use rsezsp.Ncp.Sending.{requested, send_data-window, send_data-state}
use rsezsp.Ncp.Receiving.{consume_exact, before_dispatch, classify-match, pump_until-response}
use rsezsp.Ncp.Exchange.{IsResponse, begun, pending_for, command-waits}
use rsezsp.Ncp.Dialogue.{Incoming, IsSent, AreSent, number_after, reads, noted, Passes, IsIdle}
use rsezsp.Ncp.Dialogue.Window.{Awaits, request_left, retire-empty}
use rsezsp.Ncp.Dialogue.Passing.{IsWaiting, Notes, pass_all}

-- What the answer leaves before it is taken out.
abbrev answered : {T : Type 0} → Ncp T → Incoming → Frame → T → Ncp T
answered n x f t = record (before_dispatch (record n { response = none }) x.ack_num t) {
  correlator = record n.correlator { pending = none };
  response = some f.parameters;
  pending_format = none;
}

-- What `command` on `n` gives: the response's content, an idle runtime, all numbers advanced.
pub record IsFinished {T C A : Type 0} (k : Command C A) (n : Ncp T) (xs : List Incoming)
    (x : Incoming) (f : Frame) (t : Result A EzspError × Ncp T) : Type 0 where
  pub result : t.0 ≡ read_answer k f.parameters n.version
  pub callbacks : t.1.callbacks ≡ n.callbacks ++ noted n.version (format_for k.id n) xs
  pub idle : IsIdle t.1
  pub version : t.1.version ≡ n.version
  pub sequence : t.1.correlator.next_sequence ≡ wrapping_suc n.correlator.next_sequence
  pub tx : t.1.ash.next_tx_frame ≡ next_sequence n.ash.next_tx_frame
  pub rx : t.1.ash.next_rx_frame ≡ next_sequence (number_after n.ash.next_rx_frame xs)
  pub first_sent :
      t.1.initial_version_sent
      ≡ (if is_legacy (format_for k.id n) then true else n.initial_version_sent)

-- From what `n1`, the runtime that has sent the request, is left with.
finished :
    {T C A : Type 0} (k : Command C A) (n : Ncp T) (xs : List Incoming) (x : Incoming) (f : Frame)
    (n2 : Ncp T) (t : T) (p : Pending) (bytes : List ℕ) (t1 : T)
    → let n1 = requested bytes (format_for k.id n) (begun k n) t1 in
      IsIdle n
      → IsWaiting p (format_for k.id n) n.ash.next_tx_frame n2
      → Notes n1 (noted n.version (format_for k.id n) xs) (number_after n.ash.next_rx_frame xs) n2
      → n1.ash.next_tx_frame ≡ next_sequence n.ash.next_tx_frame
      → x.ack_num % 8 ≡ next_sequence n.ash.next_tx_frame
      → IsFinished k n xs x f
          (read_answer k f.parameters n2.version, record (answered n2 x f t) { response = none })
unfolding next_sequence retire_acknowledged
finished k n xs x f n2 t p bytes t1 idle w notes tx acked =
    let ne : n.ash.next_tx_frame ≢ x.ack_num % 8 = λ e. omega (arith, e, acked, idle.tx) in
    record {
      result = ap (read_answer k f.parameters) notes.version;
      callbacks = notes.callbacks;
      idle = record {
        fresh = refl;
        up = w.up;
        nothing_sent =
            retire-empty n2.ash n2.ash.in_flight n.ash.next_tx_frame (x.ack_num % 8) refl w.window
              ne;
        rx = omega arith;
        tx = omega (arith, notes.tx, tx);
        free = refl;
        empty = refl;
      };
      version = notes.version;
      sequence = notes.sequence;
      tx = notes.tx ∙ tx;
      rx = ap next_sequence notes.rx;
      first_sent = notes.first_sent;
    }

module _ {T : Type 0} (port : Transport T)
    (writes : (bytes : List ℕ) (t : T) → (port.write bytes t).0 ≡ ok tt) where
  take_answer :
      (n : Ncp T) (x : Incoming) (f : Frame) (p : Pending) (format : HeaderFormat) (number : ℕ)
      → IsWaiting p format number n
      → IsSent n.ash.next_rx_frame x
      → parse x.payload format ≡ ok f
      → IsResponse p.sequence p.frame_id f
      → (t : T) × (take_arrival port (arrived x.wire) (record n { response = none })
          ≡ (ok tt, answered n x f t))
  unfolding take_arrival dispatch
  take_answer n x f p format number w s parsed is =
      let m : Ncp T = record n { response = none } in
      let (t, consumed) =
        consume_exact port writes m x.ack_num x.retransmit x.payload x.wire w.fresh w.rx s.short
          s.sent in
      (
        t,
        rw consumed (
            rw w.expects (
              rw parsed (
                rw
                  (classify-match n.correlator f p w.pending is.own is.back is.same_sequence
                    is.same_id)
                  refl))),
      )

  -- The command's request is on its way.
  requested-IsWaiting :
      {C A : Type 0} (k : Command C A) (n : Ncp T) (bytes : List ℕ) (t : T)
      → IsIdle n
      → IsWaiting
          (pending_for k n)
          (format_for k.id n)
          n.ash.next_tx_frame
          (requested bytes (format_for k.id n) (begun k n) t)
  requested-IsWaiting k n bytes t idle =
      let room : length n.ash.in_flight < max_window = rw idle.nothing_sent (omega arith) in
      let (window, tx) = send_data-window n.ash bytes idle.up room in
      let (state, rx) = send_data-state n.ash bytes in
      let only : Awaits n.ash.next_tx_frame (
          n.ash.in_flight
          ++ record { frame_num = n.ash.next_tx_frame; payload = bytes; sends = 1 } ∷ []) =
        rw idle.nothing_sent (request_left _ refl) in
      record {
        fresh = idle.fresh;
        up = ap in_state_connected state ∙ idle.up;
        rx = subst (λ (r : ℕ). r < 8) (sym rx) idle.rx;
        window = subst (Awaits n.ash.next_tx_frame) (sym window) only;
        pending = refl;
        expects = refl;
        empty = idle.empty;
      }

  module _ {C A : Type 0} (k : Command C A) where
    -- On an idle runtime (connected, nothing half read, outstanding or unacknowledged) over a
    -- transport that writes: an available command, with a request of at most 128 bytes, whose answer
    -- comes in a frame that acknowledges the request, behind any number of in-order data frames
    -- that do not answer it, be they callbacks, late responses or unreadable. Then the command gives
    -- what its decoder makes of the answer; every callback among those frames that can be decoded
    -- is kept, in order of arrival; and the runtime is idle again, with every number advanced, so
    -- the next command can follow.
    pub command_dialogue :
        (c : C) (n : Ncp T) (bytes : List ℕ) (xs : List Incoming) (x : Incoming)
        (later : List Arrival) (f : Frame)
        → IsIdle n
        → k.is_available n.version ≡ true
        → request k c n.correlator.next_sequence (format_for k.id n) n.version ≡ ok bytes
        → length bytes ≤ 128
        → AreSent n.ash.next_rx_frame xs
        → Passes n.correlator.next_sequence k.id (format_for k.id n) xs
        → IsSent (number_after n.ash.next_rx_frame xs) x
        → parse x.payload (format_for k.id n) ≡ ok f
        → IsResponse n.correlator.next_sequence k.id f
        → x.ack_num % 8 ≡ next_sequence n.ash.next_tx_frame
        → IsFinished k n xs x f (command port k c (reads xs (arrived x.wire ∷ later)) n)
    unfolding await_answer conclude
    command_dialogue c n bytes xs x later f idle available encoded short sent passes last parsed is
          acked =
        let room : length n.ash.in_flight < max_window = rw idle.nothing_sent (omega arith) in
        let (t, waiting) =
          command-waits port k writes c (reads xs (arrived x.wire ∷ later)) n bytes idle.up room
            idle.free available encoded short in
        let n1 = requested bytes (format_for k.id n) (begun k n) t in
        let w1 = requested-IsWaiting k n bytes t idle in
        let (state, rx) = send_data-state n.ash bytes in
        let (window, tx) = send_data-window n.ash bytes idle.up room in
        let (n2, passed, w2, notes) =
          pass_all port writes (pending_for k n) (format_for k.id n) n.ash.next_tx_frame n1 xs
            (arrived x.wire ∷ later) w1 (subst (λ (r : ℕ). AreSent r xs) (sym rx) sent) passes in
        let number : number_after n.ash.next_rx_frame xs ≡ n2.ash.next_rx_frame =
          sym (notes.rx ∙ ap (λ (r : ℕ). number_after r xs) rx) in
        let (t2, taken) =
          take_answer n2 x f (pending_for k n) (format_for k.id n) n.ash.next_tx_frame w2
            (subst (λ (r : ℕ). IsSent r x) number last) parsed is in
        let pumped =
          pump_until-response port n2 (answered n2 x f t2) (arrived x.wire) f.parameters later
            w2.empty w2.up taken refl in
        let ends : command port k c (reads xs (arrived x.wire ∷ later)) n ≡ (
          read_answer k f.parameters n2.version,
          record (answered n2 x f t2) { response = none },
        ) =
          waiting ∙ rw passed (rw pumped refl) in
        let notes' =
          subst (λ (r : ℕ). Notes n1 (noted n.version (format_for k.id n) xs) r n2)
            (ap (λ (r : ℕ). number_after r xs) rx) notes in
        subst (IsFinished k n xs x f) (sym ends)
          (finished k n xs x f n2 t2 (pending_for k n) bytes t idle w2 notes' tx acked)
