-- ===== src/StartupExample/Configured.antt =====
-- Several commands in a row that are all answered.
use rsezsp.Prelude.{ℕ, ◌%◌, ◌≤◌, List, [], ◌∷◌, ◌++◌, Bool, true, ◌&&◌, ok, length, ◌≡◌}
use rsezsp.Types.Status.{SlStatus}
use rsezsp.Ash.Frame.{next_sequence}
use rsezsp.Ezsp.FrameId
use rsezsp.Ezsp.Version.{ProtocolVersion}
use rsezsp.Ezsp.Frame.{Frame, extended, parse}
use rsezsp.Ezsp.Correlation.{wrapping_suc}
use rsezsp.Ezsp.Callback.{Callback}
use rsezsp.Ezsp.Command.Interface.{Command}
use rsezsp.Ncp.Transport.{Transport, Arrival, arrived}
use rsezsp.Ncp.Runtime.{Ncp}
use rsezsp.Ncp.Command.{request, read_answer}
use rsezsp.Ncp.Exchange.{IsResponse}
use rsezsp.Ncp.Dialogue.{Incoming, IsSent, AreSent, number_after, reads, noted, Passes, IsIdle}
use rsezsp.StartupExample.Steps.{outcome_of, is_accepted}

-- One command's exchange: the request, the frames before the answer, and the answer.
pub record Turn : Type 0 where
  pub bytes : List ℕ
  pub before : List Incoming
  pub answer : Incoming
  pub frame : Frame
  pub later : List Arrival

module _ {C A : Type 0} (k : Command C A) (version : ProtocolVersion) where
  -- The exchange of a command with these numbers: of the command, of the next frame to receive and
  -- of the next frame to send.
  pub record IsTurn (sequence rx tx : ℕ) (c : C) (t : Turn) : Type 0 where
    pub asked : request k c sequence extended version ≡ ok t.bytes
    pub short : length t.bytes ≤ 128
    pub sent : AreSent rx t.before
    pub passes : Passes sequence k.id extended t.before
    pub last : IsSent (number_after rx t.before) t.answer
    pub parsed : parse t.answer.payload extended ≡ ok t.frame
    pub is : IsResponse sequence k.id t.frame
    pub acks : t.answer.ack_num % 8 ≡ next_sequence tx

  -- One exchange for every command; `arrivals i` is what is read with `i` more to come.
  pub data AreTurns (arrivals : ℕ → List Arrival) : ℕ → ℕ → ℕ → List C → List Turn → Type 0 where
    over : {sequence rx tx : ℕ} → AreTurns arrivals sequence rx tx [] []
    turn :
        {sequence rx tx : ℕ} {cs : List C} {ts : List Turn} (c : C) (t : Turn)
        → IsTurn sequence rx tx c t
        → arrivals (length cs) ≡ reads t.before (arrived t.answer.wire ∷ t.later)
        → AreTurns arrivals
            (wrapping_suc sequence)
            (next_sequence (number_after rx t.before))
            (next_sequence tx)
            cs
            ts
        → AreTurns arrivals sequence rx tx (c ∷ cs) (t ∷ ts)

  -- Whether every answer's status is ok.
  abbrev pub all_accepted : (A → SlStatus) → List Turn → Bool
  all_accepted status [] = true
  all_accepted status (t ∷ ts) =
      is_accepted (outcome_of status (read_answer k t.frame.parameters version))
      && all_accepted status ts

  abbrev pub heard : List Turn → List Callback
  heard [] = []
  heard (t ∷ ts) = noted version extended t.before ++ heard ts

module _ {T C A : Type 0} (k : Command C A) where
  -- The exchanges of a runtime, from its own numbers on.
  abbrev pub TurnsOf : (ℕ → List Arrival) → Ncp T → List C → List Turn → Type 0
  TurnsOf arrivals n cs ts =
      AreTurns k n.version arrivals n.correlator.next_sequence n.ash.next_rx_frame
        n.ash.next_tx_frame cs ts

  -- What sending all leaves.
  pub record HasSent (status : A → SlStatus) (n : Ncp T) (ts : List Turn) (x : Bool × Ncp T)
      : Type 0 where
    pub flag : x.0 ≡ all_accepted k n.version status ts
    pub idle : IsIdle x.1
    pub version : x.1.version ≡ n.version
    pub callbacks : x.1.callbacks ≡ n.callbacks ++ heard k n.version ts
