-- ===== src/Ncp/Dialogue/Session.antt =====
-- Any number of commands of src/ncp.rs, one after the other.
pub mod Examples
use rsezsp.Prelude.{
  ℕ, ◌%◌, ◌≤◌, List, [], ◌∷◌, ◌++◌, append-nil, append_assoc, true, false, ◌==◌, ok, length, ◌≡◌,
  sym, ap, ◌∙◌,
}
use mathlib.Core.Path.{subst}
use rsezsp.Ash.Frame.{next_sequence}
use rsezsp.Ezsp.FrameId
use rsezsp.Ezsp.Version.{ProtocolVersion}
use rsezsp.Ezsp.Frame.{Frame, extended, parse}
use rsezsp.Ezsp.Callback.{Callback}
use rsezsp.Ezsp.Correlation.{wrapping_suc}
use rsezsp.Ezsp.Command.Interface.{Command}
use rsezsp.Ncp.Transport.{Transport, arrived}
use rsezsp.Ncp.Runtime.{Ncp}
use rsezsp.Ncp.Command.{command, request, read_answer, format_for}
use rsezsp.Ncp.Sending.{extended-for}
use rsezsp.Ncp.Exchange.{IsResponse}
use rsezsp.Ncp.Dialogue.{Incoming, IsSent, AreSent, number_after, reads, noted, Passes, IsIdle}
use rsezsp.Ncp.Dialogue.Answering.{IsFinished, command_dialogue}

-- A command, its request, the frames before its answer, the answer's frame and what that holds.
pub data Turn : Type 1 where
  turn : {C A : Type 0} → Command C A → C → List ℕ → List Incoming → Incoming → Frame → Turn

-- What goes over the line in a turn, at these numbers of the two sides.
pub record IsTurn (version : ProtocolVersion) (sequence rx tx : ℕ) {C A : Type 0} (k : Command C A)
    (c : C) (bytes : List ℕ) (xs : List Incoming) (x : Incoming) (f : Frame) : Type 0 where
  pub other : (k.id == FrameId.version) ≡ false
  pub available : k.is_available version ≡ true
  pub asked : request k c sequence extended version ≡ ok bytes
  pub short : length bytes ≤ 128
  pub before : AreSent rx xs
  pub passes : Passes sequence k.id extended xs
  pub last : IsSent (number_after rx xs) x
  pub parsed : parse x.payload extended ≡ ok f
  pub is : IsResponse sequence k.id f
  pub acked : x.ack_num % 8 ≡ next_sequence tx

-- The numbers go on from turn to turn.
abbrev pub AreTurns : ProtocolVersion → ℕ → ℕ → ℕ → List Turn → Type 0
AreTurns version sequence rx tx [] = Unit
AreTurns version sequence rx tx (turn k c bytes xs x f ∷ turns) =
    IsTurn version sequence rx tx k c bytes xs x f
    × AreTurns version (wrapping_suc sequence) (next_sequence (number_after rx xs))
        (next_sequence tx) turns

-- The callbacks of all turns.
abbrev pub heard : ProtocolVersion → List Turn → List Callback
heard version [] = []
heard version (turn k c bytes xs x f ∷ turns) = noted version extended xs ++ heard version turns

module _ {T : Type 0} (port : Transport T) where
  -- The commands in order; each reads what arrives in its turn.
  abbrev pub session : List Turn → Ncp T → Ncp T
  session [] n = n
  session (turn k c bytes xs x f ∷ turns) n =
      session turns (command port k c (reads xs (arrived x.wire ∷ [])) n).1

  -- Every command gives the content of its own response.
  abbrev pub AllAnswered : ProtocolVersion → List Turn → Ncp T → Type 0
  AllAnswered version [] n = Unit
  AllAnswered version (turn k c bytes xs x f ∷ turns) n =
      let (r, n') = command port k c (reads xs (arrived x.wire ∷ [])) n in
      (r ≡ read_answer k f.parameters version) × AllAnswered version turns n'

module _ {T : Type 0} (port : Transport T)
    (writes : (bytes : List ℕ) (t : T) → (port.write bytes t).0 ≡ ok tt) where
  take_turn :
      {C A : Type 0} (k : Command C A) (c : C) (bytes : List ℕ) (xs : List Incoming) (x : Incoming)
      (f : Frame) (n : Ncp T)
      → IsIdle n
      → IsTurn n.version n.correlator.next_sequence n.ash.next_rx_frame n.ash.next_tx_frame k c
          bytes xs x f
      → IsFinished k n xs x f (command port k c (reads xs (arrived x.wire ∷ [])) n)
  take_turn k c bytes xs x f n idle is =
      let format : format_for k.id n ≡ extended = extended-for k.id n is.other in
      command_dialogue port writes k c n bytes xs x [] f idle is.available (rw format is.asked)
        is.short is.before (rw format is.passes) is.last (rw format is.parsed) is.is is.acked

  -- On an idle runtime over a transport that writes: any number of available commands other than
  -- `version`, one after the other, where each answer comes behind any number of in-order data
  -- frames that do not answer its command, and acknowledges the request. Every command gives the
  -- content of its own response, the runtime is idle at the end, and it has kept every callback
  -- that can be decoded, in the order in which they arrived.
  pub session_answered :
      (turns : List Turn) (n : Ncp T)
      → IsIdle n
      → AreTurns n.version n.correlator.next_sequence n.ash.next_rx_frame n.ash.next_tx_frame turns
      → AllAnswered port n.version turns n
        × IsIdle (session port turns n)
        × ((session port turns n).callbacks ≡ n.callbacks ++ heard n.version turns)
  session_answered [] n idle are = (tt, idle, sym (append-nil n.callbacks))
  session_answered (turn k c bytes xs x f ∷ turns) n idle (is, are) =
      let done = take_turn k c bytes xs x f n idle is in
      let n' = (command port k c (reads xs (arrived x.wire ∷ [])) n).1 in
      let on : AreTurns n'.version n'.correlator.next_sequence n'.ash.next_rx_frame
          n'.ash.next_tx_frame turns =
        rw (done.version, done.sequence, done.rx, done.tx) are in
      let (answers, end, callbacks) = session_answered turns n' done.idle on in
      let format : format_for k.id n ≡ extended = extended-for k.id n is.other in
      let mine : n'.callbacks ≡ n.callbacks ++ noted n.version extended xs =
        done.callbacks ∙ ap (λ g. n.callbacks ++ noted n.version g xs) format in
      (
        (done.result, subst (λ v. AllAnswered port v turns n') done.version answers),
        end,
        callbacks ∙ rw (mine, done.version) (append_assoc n.callbacks _ _),
      )
