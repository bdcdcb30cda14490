-- ===== src/Ncp/Dialogue.antt =====
-- Commands of src/ncp.rs one after the other, among callbacks and frames that answer nothing: what
-- arrives, and what is left of it.
pub mod Window
pub mod Passing
pub mod Answering
pub mod Session
pub mod Negotiation
pub mod Connecting
pub mod Examples
use rsezsp.Prelude.{
  ℕ, ◌+◌, ◌%◌, ◌≤◌, ◌<◌, List, [], ◌∷◌, ◌++◌, Bool, true, false, Option, none, some, Result, ok,
  err, length, if◌then◌else◌, ◌≡◌,
}
use rsezsp.Ash.Frame.{data_frame, next_sequence}
use rsezsp.Ash.Codec
use rsezsp.Ash.Codec.{encode}
use rsezsp.Ash.Connection.{is_connected}
use rsezsp.Ezsp.Version.{ProtocolVersion}
use rsezsp.Ezsp.Error.{EzspError}
use rsezsp.Ezsp.Frame.{Frame, HeaderFormat, parse}
use rsezsp.Ezsp.Callback.{Callback, decode}
use rsezsp.Ncp.Transport.{Arrival, arrived}
use rsezsp.Ncp.Runtime.{Ncp}
use rsezsp.Ncp.Exchange.{IsResponse}

-- A data frame from the NCP, but for its number, and its bytes on the line.
pub record Incoming : Type 0 where
  pub ack_num : ℕ
  pub retransmit : Bool
  pub payload : List ℕ
  pub wire : List ℕ

-- It has this number.
pub record IsSent (number : ℕ) (x : Incoming) : Type 0 where
  pub short : length x.payload ≤ 128
  pub sent : encode (data_frame number x.ack_num x.retransmit x.payload) ≡ ok x.wire

-- They are numbered one after the other.
abbrev pub AreSent : ℕ → List Incoming → Type 0
AreSent number [] = Unit
AreSent number (x ∷ xs) = IsSent number x × AreSent (next_sequence number) xs

abbrev pub number_after : ℕ → List Incoming → ℕ
number_after number [] = number
number_after number (x ∷ xs) = number_after (next_sequence number) xs

-- Each is read at once, and then what comes later.
abbrev pub reads : List Incoming → List Arrival → List Arrival
reads [] later = later
reads (x ∷ xs) later = arrived x.wire ∷ reads xs later

-- What is kept of a frame: a callback that can be decoded.
abbrev pub callback_of : Result Callback EzspError → List Callback
callback_of (ok what) = what ∷ []
callback_of (err e) = []

abbrev pub noted_frame : ProtocolVersion → Result Frame EzspError → List Callback
noted_frame version (ok f) =
    if f.control.is_callback then callback_of (decode f.frame_id f.parameters version) else []
noted_frame version (err e) = []

abbrev pub noted : ProtocolVersion → HeaderFormat → List Incoming → List Callback
noted version format [] = []
noted version format (x ∷ xs) =
    noted_frame version (parse x.payload format) ++ noted version format xs

-- A payload that does not answer the command: it cannot be parsed, is a callback, or is the
-- response to another command.
abbrev pub PassesFrame : ℕ → ℕ → Result Frame EzspError → Type 0
PassesFrame sequence id (ok f) = ¬ IsResponse sequence id f
PassesFrame sequence id (err e) = Unit

abbrev pub Passes : ℕ → ℕ → HeaderFormat → List Incoming → Type 0
Passes sequence id format [] = Unit
Passes sequence id format (x ∷ xs) =
    PassesFrame sequence id (parse x.payload format) × Passes sequence id format xs

-- Between commands, with everything acknowledged.
pub record IsIdle {T : Type 0} (n : Ncp T) : Type 0 where
  pub fresh : n.decoder ≡ Codec.new
  pub up : is_connected n.ash ≡ true
  pub nothing_sent : n.ash.in_flight ≡ []
  pub rx : n.ash.next_rx_frame < 8
  pub tx : n.ash.next_tx_frame < 8
  pub free : n.correlator.pending ≡ none
  pub empty : n.response ≡ none
