-- ===== src/Ash/Connection.antt =====
-- src/ash/state.rs: the phase, the two sequence counters and the queue of unacknowledged frames.
-- A method returns the connection that it leaves behind, then its result.
pub mod Window
pub mod Invariant
pub mod Delivery
pub mod Limits
use rsezsp.Prelude.{
  ℕ, suc, ◌+◌, List, [], ◌∷◌, ◌++◌, Option, none, some, Bool, true, false, Result, ok, err, length,
  drop, min, ltb, leb, ◌==◌, if◌then◌else◌,
}
use rsezsp.Ash.Error.{AshError, not_connected, window_full, is_recoverable_by_nak}
use rsezsp.Ash.Frame.{AshFrame, data_frame, ack, nak, rst, rst_ack, error, next_sequence}

abbrev pub max_reset_attempts : ℕ
max_reset_attempts = 5

abbrev pub max_retransmits : ℕ
max_retransmits = 3

abbrev pub max_window : ℕ
max_window = 7

pub data ConnectionState : Type 0 where
  disconnected : ConnectionState
  resetting : (attempts : ℕ) → ConnectionState
  connected : ConnectionState
  failed : ConnectionState

pub data Outbound : Type 0 where
  send : AshFrame → Outbound
  nothing : Outbound

pub record InFlight : Type 0 where
  pub frame_num : ℕ
  pub payload : List ℕ
  pub sends : ℕ

pub record Connection : Type 0 where
  pub state : ConnectionState
  pub next_tx_frame : ℕ
  pub next_rx_frame : ℕ
  pub in_flight : List InFlight
  pub ack_pending : Bool
  pub nak_pending : Bool

abbrev pub new : Connection
new = record {
  state = disconnected;
  next_tx_frame = 0;
  next_rx_frame = 0;
  in_flight = [];
  ack_pending = false;
  nak_pending = false;
}

abbrev pub in_state_connected : ConnectionState → Bool
in_state_connected connected = true
in_state_connected _ = false

abbrev pub is_connected : Connection → Bool
is_connected c = in_state_connected c.state

abbrev pub attempts_of : ConnectionState → ℕ
attempts_of (resetting attempts) = attempts
attempts_of _ = 0

-- `saturating_add(1)` on a `u8`.
abbrev pub saturating_suc : ℕ → ℕ
saturating_suc n = min (n + 1) 255

unfoldable pub begin_reset : Connection → Connection × Outbound
begin_reset c =
    let attempts = attempts_of c.state in
    if leb max_reset_attempts attempts then (record c { state = failed }, nothing) else (
      record c {
        state = resetting (saturating_suc attempts);
        next_tx_frame = 0;
        next_rx_frame = 0;
        in_flight = [];
        ack_pending = false;
        nak_pending = false;
      },
      send rst,
    )

unfoldable pub send_data : Connection → List ℕ → Connection × Result AshFrame AshError
send_data c bytes =
    if is_connected c
    then (if leb max_window (length c.in_flight)
        then (c, err (window_full (length c.in_flight) max_window))
        else (
          record c {
            next_tx_frame = next_sequence c.next_tx_frame;
            in_flight =
                c.in_flight
                ++ record { frame_num = c.next_tx_frame; payload = bytes; sends = 1 } ∷ [];
            ack_pending = false;
          },
          ok (data_frame c.next_tx_frame c.next_rx_frame false bytes),
        ))
    else (c, err not_connected)

-- `position(..).unwrap_or(len)`: how many entries stand ahead of the one numbered `ack_num`.
unfoldable pub cut : ℕ → List InFlight → ℕ
cut ack_num [] = 0
cut ack_num (oldest ∷ rest) = if oldest.frame_num == ack_num then 0 else suc (cut ack_num rest)

unfoldable pub retire_acknowledged : Connection → ℕ → Connection
unfolding cut
retire_acknowledged c ack_num = record c { in_flight = drop (cut ack_num c.in_flight) c.in_flight }

resend : Connection → List InFlight → Connection × Outbound
resend c [] = (c, nothing)
resend c (oldest ∷ rest) =
    if leb max_retransmits oldest.sends then (record c { state = failed }, nothing) else (
      record c { in_flight = record oldest { sends = saturating_suc oldest.sends } ∷ rest },
      send (data_frame oldest.frame_num c.next_rx_frame true oldest.payload),
    )

unfoldable pub retransmit_oldest : Connection → Connection × Outbound
unfolding resend
retransmit_oldest c = resend c c.in_flight

unfoldable pub on_rst_ack : Connection → Connection
on_rst_ack c = record c {
  state = connected;
  next_tx_frame = 0;
  next_rx_frame = 0;
  in_flight = [];
  ack_pending = false;
  nak_pending = false;
}

-- A data frame, once its acknowledgement has been taken.
unfoldable pub on_data : Connection → ℕ → List ℕ → Connection × Option (List ℕ) × Outbound
on_data c frame_num bytes =
    if frame_num == c.next_rx_frame
    then (
      record c { next_rx_frame = next_sequence frame_num; nak_pending = false },
      some bytes,
      send (ack (next_sequence frame_num) false),
    )
    else (c, none, send (ack c.next_rx_frame false))

unfoldable pub on_frame : Connection → AshFrame → Connection × Option (List ℕ) × Outbound
on_frame c (rst_ack version reset_code) = (on_rst_ack c, none, nothing)
on_frame c (error version error_code) = (record c { state = failed; in_flight = [] }, none, nothing)
on_frame c (ack ack_num not_ready) = (retire_acknowledged c ack_num, none, nothing)
on_frame c (nak ack_num not_ready) =
    let (c', reply) = retransmit_oldest (retire_acknowledged c ack_num) in (c', none, reply)
on_frame c rst = (c, none, nothing)
on_frame c (data_frame frame_num ack_num retransmit bytes) =
    on_data (retire_acknowledged c ack_num) frame_num bytes

unfoldable pub on_decode_failure : Connection → AshError → Connection × Outbound
on_decode_failure c e =
    if is_recoverable_by_nak e
    then (record c { nak_pending = true }, send (nak c.next_rx_frame false))
    else (c, nothing)
