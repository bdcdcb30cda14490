-- ===== src/Ash/Connection/Invariant.antt =====
-- The invariant of a connection, and that every method keeps it, whatever it is called with.
use rsezsp.Prelude.{
  ℕ, ◌+◌, ◌%◌, ◌≤◌, ◌<◌, List, [], ◌∷◌, ◌++◌, Bool, true, false, length, arith, leb, ◌==◌, ◌≡◌,
  refl, ap, length-append, length-drop, Bool-cases, inl, inr,
}
use rsezsp.Ash.Error.{AshError, is_recoverable_by_nak}
use rsezsp.Ash.Frame.{AshFrame, data_frame, ack, nak, rst, rst_ack, error, next_sequence}
use rsezsp.Ash.Connection.{
  InFlight, Connection, ConnectionState, saturating_suc, resetting, connected, failed, new,
  is_connected, attempts_of, cut, retire_acknowledged, begin_reset, send_data, resend,
  retransmit_oldest, on_rst_ack, on_data, on_frame, on_decode_failure,
}
use rsezsp.Ash.Connection.Window.{Numbered, Numbered-drop, Numbered-append, cut-le}

-- `acked` counts the frames that were sent and retired since the last reset, or any number that is
-- the same modulo 8.
pub record IsValid (c : Connection) : Type 0 where
  pub acked : ℕ
  pub window : Numbered acked c.in_flight
  pub bounded : length c.in_flight ≤ 7
  pub tx : c.next_tx_frame ≡ (acked + length c.in_flight) % 8
  pub rx : c.next_rx_frame < 8
  pub attempts : attempts_of c.state ≤ 5
  pub quiet : c.ack_pending ≡ false

pub new-IsValid : IsValid new
new-IsValid = record {
  acked = 0;
  window = tt;
  bounded = omega arith;
  tx = omega arith;
  rx = omega arith;
  attempts = omega arith;
  quiet = refl;
}

-- A connection whose counters and queue were cleared.
cleared-IsValid :
    (s : ConnectionState) (n : Bool)
    → attempts_of s ≤ 5
    → IsValid (record new { state = s; nak_pending = n })
cleared-IsValid s n h = record {
  acked = 0;
  window = tt;
  bounded = omega arith;
  tx = omega arith;
  rx = omega arith;
  attempts = h;
  quiet = refl;
}

-- The phase and the NAK flag are free.
relabelled-IsValid :
    (c : Connection) (s : ConnectionState) (n : Bool)
    → IsValid c
    → attempts_of s ≤ 5
    → IsValid (record c { state = s; nak_pending = n })
relabelled-IsValid c s n v h = record {
  acked = v.acked;
  window = v.window;
  bounded = v.bounded;
  tx = v.tx;
  rx = v.rx;
  attempts = h;
  quiet = v.quiet;
}

pub retire_acknowledged-IsValid :
    (c : Connection) (a : ℕ) → IsValid c → IsValid (retire_acknowledged c a)
unfolding retire_acknowledged
retire_acknowledged-IsValid c a v =
    let k = cut a c.in_flight in
    let le = cut-le a c.in_flight in
    let len = length-drop k c.in_flight in
    record {
      acked = v.acked + k;
      window = Numbered-drop k v.acked c.in_flight v.window le;
      bounded = omega (arith, v.bounded, len);
      tx = omega (arith, v.tx, len, le);
      rx = v.rx;
      attempts = v.attempts;
      quiet = v.quiet;
    }

begin_reset-IsValid : (c : Connection) → IsValid c → IsValid (begin_reset c).0
unfolding begin_reset
begin_reset-IsValid c v = elim (Bool-cases (leb 5 (attempts_of c.state))) [
  | inl e ↦ rw e (relabelled-IsValid c failed c.nak_pending v (omega arith))
  | inr e ↦
      rw e (cleared-IsValid (resetting (saturating_suc (attempts_of c.state))) false (ground arith))
]

queued-IsValid :
    (c : Connection) (bytes : List ℕ)
    → IsValid c
    → length c.in_flight < 7
    → IsValid (record c {
      next_tx_frame = next_sequence c.next_tx_frame;
      in_flight =
          c.in_flight ++ record { frame_num = c.next_tx_frame; payload = bytes; sends = 1 } ∷ [];
      ack_pending = false;
    })
unfolding next_sequence
queued-IsValid c bytes v h =
    let x : InFlight = record { frame_num = c.next_tx_frame; payload = bytes; sends = 1 } in
    let len = length-append c.in_flight (x ∷ []) in
    record {
      acked = v.acked;
      window = Numbered-append v.acked c.in_flight x v.window v.tx (omega arith) (omega arith);
      bounded = omega (arith, len);
      tx = omega (arith, v.tx, len);
      rx = v.rx;
      attempts = v.attempts;
      quiet = refl;
    }

send_data-IsValid : (c : Connection) (bytes : List ℕ) → IsValid c → IsValid (send_data c bytes).0
unfolding send_data
send_data-IsValid c bytes v = elim (Bool-cases (is_connected c)) [
  | inr e ↦ rw e v
  | inl e ↦ rw e (elim (Bool-cases (leb 7 (length c.in_flight))) [
    | inl full ↦ rw full v
    | inr room ↦ rw room (queued-IsValid c bytes v (ground arith))
  ])
]

resend-IsValid :
    (c : Connection) (q : List InFlight) → IsValid c → c.in_flight ≡ q → IsValid (resend c q).0
unfolding resend
resend-IsValid c [] v e = v
resend-IsValid c (x ∷ q) v e = elim (Bool-cases (leb 3 x.sends)) [
  | inl tired ↦ rw tired (relabelled-IsValid c failed c.nak_pending v (omega arith))
  | inr more ↦
      let w : Numbered v.acked (x ∷ q) = rw e at v.window in
      let len : length c.in_flight ≡ length (x ∷ q) = ap length e in
      rw more (record {
        acked = v.acked;
        window = (w.0, ground arith, ground arith, w.3);
        bounded = omega (arith, v.bounded, len);
        tx = omega (arith, v.tx, len);
        rx = v.rx;
        attempts = v.attempts;
        quiet = v.quiet;
      })
]

pub retransmit_oldest-IsValid : (c : Connection) → IsValid c → IsValid (retransmit_oldest c).0
unfolding retransmit_oldest
retransmit_oldest-IsValid c v = resend-IsValid c c.in_flight v refl

on_data-IsValid :
    (c : Connection) (n : ℕ) (bytes : List ℕ) → IsValid c → IsValid (on_data c n bytes).0
unfolding on_data next_sequence
on_data-IsValid c n bytes v = elim (Bool-cases (n == c.next_rx_frame)) [
  | inr other ↦ rw other v
  | inl next ↦ rw next (record {
    acked = v.acked;
    window = v.window;
    bounded = v.bounded;
    tx = v.tx;
    rx = omega arith;
    attempts = v.attempts;
    quiet = v.quiet;
  })
]

on_frame-IsValid : (c : Connection) (f : AshFrame) → IsValid c → IsValid (on_frame c f).0
unfolding on_frame on_rst_ack
on_frame-IsValid c (rst_ack version code) v = cleared-IsValid connected false (omega arith)
on_frame-IsValid c (error version code) v = record {
  acked = v.acked + length c.in_flight;
  window = tt;
  bounded = omega arith;
  tx = omega (arith, v.tx);
  rx = v.rx;
  attempts = omega arith;
  quiet = v.quiet;
}
on_frame-IsValid c (ack a n) v = retire_acknowledged-IsValid c a v
on_frame-IsValid c (nak a n) v =
    retransmit_oldest-IsValid (retire_acknowledged c a) (retire_acknowledged-IsValid c a v)
on_frame-IsValid c rst v = v
on_frame-IsValid c (data_frame n a r bytes) v =
    on_data-IsValid (retire_acknowledged c a) n bytes (retire_acknowledged-IsValid c a v)

on_decode_failure-IsValid :
    (c : Connection) (e : AshError) → IsValid c → IsValid (on_decode_failure c e).0
unfolding on_decode_failure
on_decode_failure-IsValid c e v = elim (Bool-cases (is_recoverable_by_nak e)) [
  | inl yes' ↦ rw yes' (relabelled-IsValid c c.state true v v.attempts)
  | inr no' ↦ rw no' v
]

-- What can happen to a connection: a reset is begun, a payload is sent, a frame of any kind or a
-- decoding error comes in, or the oldest frame is sent again.
pub data Step : Connection → Connection → Type 0 where
  began : (c : Connection) → Step c (begin_reset c).0
  sent : (c : Connection) (bytes : List ℕ) → Step c (send_data c bytes).0
  received : (c : Connection) (f : AshFrame) → Step c (on_frame c f).0
  garbled : (c : Connection) (e : AshError) → Step c (on_decode_failure c e).0
  expired : (c : Connection) → Step c (retransmit_oldest c).0

pub data Reachable : Connection → Type 0 where
  fresh : Reachable new
  after : {c d : Connection} → Reachable c → Step c d → Reachable d

Step-IsValid : {c d : Connection} → Step c d → IsValid c → IsValid d
Step-IsValid (began c) v = begin_reset-IsValid c v
Step-IsValid (sent c bytes) v = send_data-IsValid c bytes v
Step-IsValid (received c f) v = on_frame-IsValid c f v
Step-IsValid (garbled c e) v = on_decode_failure-IsValid c e v
Step-IsValid (expired c) v = retransmit_oldest-IsValid c v

-- Whatever is called and whatever arrives, in any order: at most seven frames are outstanding,
-- numbered one after the other up to the next number to send, each sent one to three times; at
-- most five resets were tried in a row; the next number to receive has three bits.
pub Reachable-IsValid : {c : Connection} → Reachable c → IsValid c
Reachable-IsValid fresh = new-IsValid
Reachable-IsValid (after r s) = Step-IsValid s (Reachable-IsValid r)
