-- ===== src/Transport/Serial.antt =====
-- src/transport/serial.rs: a transport over a serial port. The port is not of this repository.
use rsezsp.Prelude.{
  ℕ, zero, suc, List, [], ◌∷◌, Bool, false, Result, ok, err, length, take, leb, ◌==◌, if◌then◌else◌,
}
use Prim.Native.String.{String}
use rsezsp.Transport.Error.{TransportError, cannot_open, io, closed}

pub record SerialSettings : Type 0 where
  pub baud : ℕ
  pub rtscts : Bool

abbrev pub default : SerialSettings
default = record { baud = 115200; rtscts = false }

pub data FlowControl : Type 0 where
  none hardware : FlowControl

-- The port: opening it, and the stream's operations. `read` fills the buffer from its start and
-- gives the number of bytes. The text is the error's message.
pub record Port (S : Type 0) : Type 0 where
  pub open_native : String → ℕ → FlowControl → Result S String
  pub write_all : List ℕ → S → Result (Unit {0}) String × S
  pub flush : S → Result (Unit {0}) String × S
  pub read_into : List ℕ → S → Result ℕ String × List ℕ × S

pub record SerialTransport (S : Type 0) : Type 0 where
  pub stream : S
  pub buffer : List ℕ

abbrev pub buffer_size : ℕ
buffer_size = 1024

-- `vec![0; n]`.
unfoldable pub zeros : ℕ → List ℕ
zeros zero = []
zeros (suc n) = 0 ∷ zeros n

-- `buffer.get(..read).unwrap_or(&[])`.
unfoldable pub filled : ℕ → List ℕ → List ℕ
filled n buffer = if leb n (length buffer) then take n buffer else []

unfoldable pub read_result : Result ℕ String → List ℕ → Result (List ℕ) TransportError
unfolding filled
read_result (err reason) buffer = err (io "read" reason)
read_result (ok n) buffer = if n == 0 then err closed else ok (filled n buffer)

-- What `open_native` gave.
abbrev pub opened :
    {S : Type 0} → String → Result S String → Result (SerialTransport S) TransportError
opened path (ok stream) = ok (record { stream = stream; buffer = zeros buffer_size })
opened path (err reason) = err (cannot_open path reason)

module _ {S : Type 0} (port : Port S) where
  unfoldable pub open_port : String → SerialSettings → Result (SerialTransport S) TransportError
  open_port path settings =
      opened path (port.open_native path settings.baud (if settings.rtscts then hardware else none))

  -- After `write_all`.
  unfoldable pub flush_written :
      Result (Unit {0}) String × S
      → SerialTransport S
      → Result (Unit {0}) TransportError × SerialTransport S
  flush_written (err reason, s) t = (err (io "write" reason), record t { stream = s })
  flush_written (ok written, s) t =
      let (r, s') = port.flush s in
      (
        elim r [ ok flushed ↦ ok tt | err reason ↦ err (io "flush" reason) ],
        record t { stream = s' },
      )

  unfoldable pub write :
      List ℕ → SerialTransport S → Result (Unit {0}) TransportError × SerialTransport S
  unfolding flush_written
  write bytes t = flush_written (port.write_all bytes t.stream) t

  unfoldable pub read : SerialTransport S → Result (List ℕ) TransportError × SerialTransport S
  unfolding read_result
  read t =
      let (r, buffer, s) = port.read_into t.buffer t.stream in
      (read_result r buffer, record { stream = s; buffer = buffer })
