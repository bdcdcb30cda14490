-- ===== src/Ash/Link.antt =====
-- Two connections of src/ash/state.rs joined by a line that loses and garbles frames but keeps
-- their order: one sends payloads, the other takes them and answers.
pub mod Channels
pub mod Sender
pub mod Receiver
pub mod Invariant
pub mod Arriving
pub mod Answering
pub mod Runs
pub mod Reliability
pub mod Progress
pub mod Examples
use rsezsp.Prelude.{ℕ, List, [], ◌∷◌, ◌++◌, Option, none, some, Bool, true, Result, ok, err, ◌≡◌}
use rsezsp.Ash.Error.{AshError, is_recoverable_by_nak}
use rsezsp.Ash.Frame.{AshFrame}
use rsezsp.Ash.Connection.{
  Connection, Outbound, send, nothing, send_data, retransmit_oldest, on_rst_ack, on_frame,
  on_decode_failure,
}

-- `sent` and `given` are the payloads that `send_data` accepted at one end and `on_frame` handed
-- on at the other; `forth` and `back` are the frames under way, the oldest first.
pub record Link : Type 0 where
  pub sender : Connection
  pub receiver : Connection
  pub forth : List AshFrame
  pub back : List AshFrame
  pub sent : List (List ℕ)
  pub given : List (List ℕ)

-- Both ends were reset.
abbrev pub joined : Connection → Connection → Link
joined c d = record {
  sender = on_rst_ack c;
  receiver = on_rst_ack d;
  forth = [];
  back = [];
  sent = [];
  given = [];
}

abbrev pub push : List AshFrame → Outbound → List AshFrame
push line (send f) = line ++ f ∷ []
push line nothing = line

abbrev pub keep : List (List ℕ) → Option (List ℕ) → List (List ℕ)
keep payloads none = payloads
keep payloads (some bytes) = payloads ++ bytes ∷ []

submitted : Link → List ℕ → Connection × Result AshFrame AshError → Link
submitted l bytes (c, ok f) = record l {
  sender = c;
  forth = l.forth ++ f ∷ [];
  sent = l.sent ++ bytes ∷ [];
}
submitted l bytes (c, err e) = record l { sender = c }

-- The caller at the sending end sends a payload.
pub submit : Link → List ℕ → Link
unfolding submitted
submit l bytes = submitted l bytes (send_data l.sender bytes)

-- The sender's timer.
pub expire : Link → Link
expire l =
    let (c, reply) = retransmit_oldest l.sender in
    record l { sender = c; forth = push l.forth reply }

-- The rest of the line is given apart from the link.
pub arrive : Link → AshFrame → List AshFrame → Link
arrive l f rest =
    let (d, delivered, reply) = on_frame l.receiver f in
    record l {
      receiver = d;
      forth = rest;
      back = push l.back reply;
      given = keep l.given delivered;
    }

pub arrive_garbled : Link → AshError → List AshFrame → Link
arrive_garbled l e rest =
    let (d, reply) = on_decode_failure l.receiver e in
    record l { receiver = d; forth = rest; back = push l.back reply }

pub answer : Link → AshFrame → List AshFrame → Link
answer l f rest =
    let (c, delivered, reply) = on_frame l.sender f in
    record l { sender = c; back = rest; forth = push l.forth reply }

pub answer_garbled : Link → AshError → List AshFrame → Link
answer_garbled l e rest =
    let (c, reply) = on_decode_failure l.sender e in
    record l { sender = c; back = rest; forth = push l.forth reply }

-- What can happen. A frame at the head of a line arrives, arrives garbled, or is lost.
pub data Step : Link → Link → Type 0 where
  submits : (l : Link) (bytes : List ℕ) → Step l (submit l bytes)
  expires : (l : Link) → Step l (expire l)
  arrives :
      (l : Link) (f : AshFrame) (rest : List AshFrame)
      → l.forth ≡ f ∷ rest
      → Step l (arrive l f rest)
  garbles :
      (l : Link) (e : AshError) (f : AshFrame) (rest : List AshFrame)
      → l.forth ≡ f ∷ rest
      → Step l (arrive_garbled l e rest)
  loses :
      (l : Link) (f : AshFrame) (rest : List AshFrame)
      → l.forth ≡ f ∷ rest
      → Step l (record l { forth = rest })
  answers :
      (l : Link) (f : AshFrame) (rest : List AshFrame)
      → l.back ≡ f ∷ rest
      → Step l (answer l f rest)
  answers_garbled :
      (l : Link) (e : AshError) (f : AshFrame) (rest : List AshFrame)
      → l.back ≡ f ∷ rest
      → Step l (answer_garbled l e rest)
  loses_answer :
      (l : Link) (f : AshFrame) (rest : List AshFrame)
      → l.back ≡ f ∷ rest
      → Step l (record l { back = rest })

pub data Run : Link → Link → Type 0 where
  done : (l : Link) → Run l l
  next : {l m n : Link} → Run l m → Step m n → Run l n
