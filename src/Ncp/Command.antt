-- ===== src/Ncp/Command.antt =====
-- `Ncp::command`: a request goes out and its answer is waited for.
use rsezsp.Prelude.{
  ℕ, List, Bool, true, false, not, ◌&&◌, ◌==◌, if◌then◌else◌, Option, none, some, Result, ok, err,
  length, ltb,
}
use rsezsp.Ash.Connection.{is_connected, send_data}
use rsezsp.Ezsp.Version.{ProtocolVersion}
use rsezsp.Ezsp.FrameId
use rsezsp.Ezsp.FrameId.{FrameId}
use rsezsp.Ezsp.Error.{EzspError, ash, unsupported_command, frame_too_long, trailing_bytes, timeout}
use rsezsp.Ezsp.Exec.{Exec, raise, ◌>>=◌, ◌>>◌}
use rsezsp.Ezsp.Frame.{HeaderFormat, legacy, extended, write_header, max_frame_length}
use rsezsp.Ezsp.Correlation.{Correlator, begin, time_out, on_ncp_reset}
use rsezsp.Ezsp.Codec.Reader
use rsezsp.Ezsp.Codec.Reader.{is_empty, remaining}
use rsezsp.Ezsp.Codec.Writer
use rsezsp.Ezsp.Command.Interface.{Command}
use rsezsp.Ncp.Transport.{Transport, Arrival}
use rsezsp.Ncp.Runtime.{Ncp, write_frame, pump_until}

abbrev pub is_legacy : HeaderFormat → Bool
is_legacy legacy = true
is_legacy extended = false

module _ {C A : Type 0} where
  -- The header and the parameters, in a writer of their own.
  unfoldable pub request :
      Command C A → C → ℕ → HeaderFormat → ProtocolVersion → Result (List ℕ) EzspError
  request k c sequence format version =
      let (r, w) = (do write_header sequence k.id format; k.encode c) (Writer.new version) in
      elim r [ ok written ↦ ok w.bytes | err e ↦ err e ]

  -- The answer's parameters, which have to be used up.
  unfoldable pub read_answer : Command C A → List ℕ → ProtocolVersion → Result A EzspError
  read_answer k parameters version =
      let (r, reader) = k.decode (Reader.new parameters version) in
      elim r [
        | ok decoded ↦
            if is_empty reader then ok decoded else err (trailing_bytes k.id (remaining reader))
        | err e ↦ err e
      ]

module _ {T : Type 0} where
  -- Only the first `version` goes out legacy.
  unfoldable pub format_for : FrameId → Ncp T → HeaderFormat
  format_for id n = if id == FrameId.version && not n.initial_version_sent then legacy else extended

  abbrev pub on_correlator : {A : Type 0} → Exec Correlator A → Exec (Ncp T) A
  on_correlator m n =
      let (r, correlator) = m n.correlator in (r, record n { correlator = correlator })

  -- The closure of the pump: it takes the response out of the runtime.
  unfoldable pub answered_or_lost : Option (List ℕ) → Ncp T → Bool × Option (List ℕ) × Ncp T
  answered_or_lost before n = (
    elim n.response [ some parameters ↦ true | none ↦ not (is_connected n.ash) ],
    n.response,
    record n { response = none },
  )

module _ {T : Type 0} (port : Transport T) where
  -- From the bytes of the request to the write of its data frame.
  unfoldable pub send_request : List ℕ → HeaderFormat → Exec (Ncp T) (Unit {0})
  send_request bytes format n =
      if ltb max_frame_length (length bytes)
      then (err (frame_too_long (length bytes) max_frame_length), n)
      else let sent = if is_legacy format then true else n.initial_version_sent in
        let (connection, r) = send_data n.ash bytes in
        let n' = record n { initial_version_sent = sent; ash = connection } in
        elim r [ ok numbered ↦ write_frame port numbered n' | err e ↦ (err (ash e), n') ]

module _ {T : Type 0} {C A : Type 0} where
  -- After the pump: the answer, or which failure it was.
  unfoldable pub conclude :
      Command C A → Result (Unit {0}) EzspError → Option (List ℕ) → Exec (Ncp T) A
  unfolding read_answer
  conclude k outcome (some parameters) n = (read_answer k parameters n.version, n)
  conclude k outcome none n =
      (do
        (λ n. if is_connected n.ash then (ok tt, n) else on_correlator on_ncp_reset n)
        (λ n. (outcome, n))
        on_correlator time_out
        raise (timeout k.id))
        n

module _ {T : Type 0} (port : Transport T) {C A : Type 0} where
  unfoldable pub await_answer : Command C A → List Arrival → Exec (Ncp T) A
  unfolding conclude answered_or_lost
  await_answer k arrivals n =
      let (outcome, response, n') = pump_until port answered_or_lost arrivals none n in
      conclude k outcome response n'

  -- `arrivals` is what is read until the answer or the deadline.
  unfoldable pub command : Command C A → C → List Arrival → Exec (Ncp T) A
  unfolding request send_request await_answer format_for
  command k c arrivals n =
      if k.is_available n.version
      then (let format = format_for k.id n in
          (do
            sequence ← on_correlator (begin k.id)
            (λ n. (ok tt, record n { pending_format = some format }))
            bytes ← λ n. (request k c sequence format n.version, n)
            send_request port bytes format
            await_answer k arrivals)
            n)
      else (err (unsupported_command k.id n.version), n)
