-- ===== src/Ncp/Dialogue/Negotiation.antt =====
-- `Ncp::negotiate`: one exchange of `version`, the first or the second.
use rsezsp.Prelude.Words.{from_le_bytes}
use rsezsp.Prelude.{
  ℕ, ◌%◌, ◌≤◌, List, [], ◌∷◌, true, Result, ok, length, ◌≡◌, refl, sym, ap, ◌∙◌, arith,
}
use mathlib.Core.Path.{subst}
use rsezsp.Ash.Frame.{next_sequence}
use rsezsp.Ezsp.FrameId
use rsezsp.Ezsp.Version.{ProtocolVersion, preferred}
use rsezsp.Ezsp.Error.{EzspError}
use rsezsp.Ezsp.Frame.{Frame, HeaderFormat, legacy, extended, parse, write_header}
use rsezsp.Ezsp.Codec.Reader
use rsezsp.Ezsp.Codec.Writer
use rsezsp.Ezsp.Command.Setup.{VersionResponse, version_command, decode_version_response}
use rsezsp.Ncp.Transport.{Transport, Arrival, arrived}
use rsezsp.Ncp.Runtime.{Ncp}
use rsezsp.Ncp.Command.{command, request, read_answer, format_for}
use rsezsp.Ncp.Exchange.{IsResponse}
use rsezsp.Ncp.Dialogue.{Incoming, IsSent, AreSent, number_after, reads, Passes, IsIdle}
use rsezsp.Ncp.Dialogue.Answering.{IsFinished, command_dialogue}

pub first_offer : request version_command preferred 0 legacy preferred ≡ ok (0 ∷ 0 ∷ 0 ∷ 19 ∷ [])
unfolding request write_header Writer.u8 FrameId.fits_legacy
first_offer = refl

pub second_offer :
    (v version : ProtocolVersion)
    → request version_command v 1 extended version ≡ ok (1 ∷ 0 ∷ 1 ∷ 0 ∷ 0 ∷ v ∷ [])
unfolding request write_header Writer.u8 Writer.u16
second_offer v version = refl

-- The parameters of a `version` response.
abbrev pub version_bytes : ProtocolVersion → ℕ → ℕ → ℕ → List ℕ
version_bytes v stack_type lo hi = v ∷ stack_type ∷ lo ∷ hi ∷ []

abbrev pub found : ProtocolVersion → ℕ → ℕ → ℕ → VersionResponse
found v stack_type lo hi = record {
  protocol_version = v;
  stack_type = stack_type;
  stack_version = from_le_bytes (lo ∷ hi ∷ []);
}

version_read :
    (v stack_type lo hi : ℕ) (version : ProtocolVersion)
    → read_answer version_command (version_bytes v stack_type lo hi) version
      ≡ ok (found v stack_type lo hi)
unfolding read_answer decode_version_response Reader.u8 Reader.u16 Reader.is_empty
version_read v stack_type lo hi version = refl

-- The NCP's answer to a `version` command of this sequence number, behind frames that do not answer
-- it: the first of its data frames has the number `number`, and the last acknowledges `acked`.
pub record IsReply (number acked sequence : ℕ) (format : HeaderFormat) (xs : List Incoming)
    (x : Incoming) (f : Frame) (parameters : List ℕ) : Type 0 where
  pub before : AreSent number xs
  pub passes : Passes sequence FrameId.version format xs
  pub last : IsSent (number_after number xs) x
  pub parsed : parse x.payload format ≡ ok f
  pub is : IsResponse sequence FrameId.version f
  pub acks : x.ack_num % 8 ≡ acked
  pub content : f.parameters ≡ parameters

module _ {T : Type 0} (port : Transport T)
    (writes : (bytes : List ℕ) (t : T) → (port.write bytes t).0 ≡ ok tt) where
  module _ (n : Ncp T) (xs : List Incoming) (x : Incoming) (f : Frame) (later : List Arrival)
      (v stack_type lo hi : ℕ) where
    -- One exchange of `version`.
    pub exchange :
        (desired : ProtocolVersion) (bytes : List ℕ)
        → IsIdle n
        → request version_command desired n.correlator.next_sequence
            (format_for FrameId.version n)
            n.version
          ≡ ok bytes
        → length bytes ≤ 128
        → IsReply n.ash.next_rx_frame
            (next_sequence n.ash.next_tx_frame)
            n.correlator.next_sequence
            (format_for FrameId.version n)
            xs
            x
            f
            (version_bytes v stack_type lo hi)
        → let done = command port version_command desired (reads xs (arrived x.wire ∷ later)) n in
          IsFinished version_command n xs x f done
          × (done ≡ (ok (found v stack_type lo hi), done.1))
    exchange desired bytes idle asked short r =
        let ends =
          command_dialogue port writes version_command desired n bytes xs x later f idle refl asked
            short r.before r.passes r.last r.parsed r.is r.acks in
        let read = ends.result ∙ rw r.content (version_read v stack_type lo hi n.version) in
        let after =
          (command port version_command desired (reads xs (arrived x.wire ∷ later)) n).1 in
        (ends, ap (λ (a : Result VersionResponse EzspError). (a, after)) read)

    -- The second one, on a runtime that has offered the preferred version.
    pub exchange_again :
        (number acked : ℕ)
        → IsIdle n
        → n.ash.next_rx_frame ≡ number
        → next_sequence n.ash.next_tx_frame ≡ acked
        → n.correlator.next_sequence ≡ 1
        → n.initial_version_sent ≡ true
        → IsReply number acked 1 extended xs x f (version_bytes v stack_type lo hi)
        → let done = command port version_command v (reads xs (arrived x.wire ∷ later)) n in
          IsFinished version_command n xs x f done
          × (done ≡ (ok (found v stack_type lo hi), done.1))
    unfolding format_for
    exchange_again number acked idle rx tx sequence sent_first r =
        let format : format_for FrameId.version n ≡ extended = rw sent_first refl in
        let asked : request version_command v n.correlator.next_sequence
              (format_for FrameId.version n) n.version
            ≡ ok (1 ∷ 0 ∷ 1 ∷ 0 ∷ 0 ∷ v ∷ []) =
          rw (sequence, format) (second_offer v n.version) in
        let r1 =
          subst (λ (q : ℕ). IsReply q acked 1 extended xs x f (version_bytes v stack_type lo hi))
            (sym rx) r in
        let r2 =
          subst
            (λ (q : ℕ).
              IsReply n.ash.next_rx_frame q 1 extended xs x f (version_bytes v stack_type lo hi))
            (sym tx) r1 in
        let r3 =
          subst
            (λ (q : ℕ).
              IsReply n.ash.next_rx_frame (next_sequence n.ash.next_tx_frame) q extended xs x f
                (version_bytes v stack_type lo hi))
            (sym sequence) r2 in
        let r4 =
          subst
            (λ (q : HeaderFormat).
              IsReply n.ash.next_rx_frame (next_sequence n.ash.next_tx_frame)
                n.correlator.next_sequence q xs x f (version_bytes v stack_type lo hi))
            (sym format) r3 in
        exchange v (1 ∷ 0 ∷ 1 ∷ 0 ∷ 0 ∷ v ∷ []) idle asked (omega arith) r4
