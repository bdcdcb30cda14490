-- ===== src/Transport/Reading.antt =====
-- The serial transport against the stream of bytes that its port is, without a buffer.
use rsezsp.Prelude.{
  ℕ, zero, suc, ◌≤◌, List, [], ◌∷◌, ◌++◌, Result, ok, err, length, take, true, false, ◌==◌, leb,
  le→leb, if◌then◌else◌, ◌≡◌, refl, ap, ◌∙◌, arith,
}
use Prim.Native.String.{String}
use rsezsp.Transport.Error.{TransportError, io, closed}
use rsezsp.Transport.Serial.{
  Port, SerialTransport, SerialSettings, none, hardware, zeros, buffer_size, opened, open_port,
  filled, read_result, read,
}

-- The number of bytes that came.
abbrev pub count_of : Result (List ℕ) String → Result ℕ String
count_of (ok bytes) = ok (length bytes)
count_of (err reason) = err reason

-- The port's `read` by what it takes off the wire: `taken room` gives at most `room` bytes, which
-- `read_into` puts at the start of the buffer, reporting how many they are. What the buffer holds
-- behind them is not said; its length stays.
pub record ReadsWire {S : Type 0} (port : Port S) (taken : ℕ → S → Result (List ℕ) String × S)
    : Type 0 where
  pub fits : (room : ℕ) (s : S) (bytes : List ℕ) → (taken room s).0 ≡ ok bytes → length bytes ≤ room
  pub reported :
      (buffer : List ℕ) (s : S) → (port.read_into buffer s).0 ≡ count_of (taken (length buffer) s).0
  pub stream : (buffer : List ℕ) (s : S) → (port.read_into buffer s).2 ≡ (taken (length buffer) s).1
  pub stored :
      (buffer : List ℕ) (s : S) (bytes : List ℕ)
      → (taken (length buffer) s).0 ≡ ok bytes
      → (rest : List ℕ) × ((port.read_into buffer s).1 ≡ bytes ++ rest)
  pub kept : (buffer : List ℕ) (s : S) → length (port.read_into buffer s).1 ≡ length buffer

-- What a caller is to see of what came: no bytes at all are the end of the stream.
abbrev pub as_read : Result (List ℕ) String → Result (List ℕ) TransportError
as_read (ok []) = err closed
as_read (ok (byte ∷ bytes)) = ok (byte ∷ bytes)
as_read (err reason) = err (io "read" reason)

-- The results of so many reads off the wire, each of at most 1024 bytes.
abbrev pub off_wire :
    {S : Type 0}
    → (ℕ → S → Result (List ℕ) String × S)
    → ℕ
    → S
    → List (Result (List ℕ) TransportError)
off_wire taken zero s = []
off_wire taken (suc k) s = let (r, s') = taken buffer_size s in as_read r ∷ off_wire taken k s'

-- The results of so many reads of the transport.
abbrev pub reads :
    {S : Type 0} → Port S → ℕ → SerialTransport S → List (Result (List ℕ) TransportError)
reads port zero t = []
reads port (suc k) t = let (r, t') = read port t in r ∷ reads port k t'

take-append : (bytes rest : List ℕ) → take (length bytes) (bytes ++ rest) ≡ bytes
take-append [] rest = refl
take-append (byte ∷ bytes) rest = ap (◌∷◌ byte) (take-append bytes rest)

-- A buffer that begins with what came.
read_result-taken :
    (r : Result (List ℕ) String) (buffer : List ℕ)
    → ((bytes : List ℕ)
        → r ≡ ok bytes
        → (length bytes ≤ length buffer) × (take (length bytes) buffer ≡ bytes))
    → read_result (count_of r) buffer ≡ as_read r
unfolding read_result filled
read_result-taken (err reason) buffer h = refl
read_result-taken (ok []) buffer h = refl
read_result-taken (ok (byte ∷ bytes)) buffer h =
    let (le, first) = h (byte ∷ bytes) refl in
    let fits : leb (length (byte ∷ bytes)) (length buffer) ≡ true = le→leb _ _ le in
    let any : (length (byte ∷ bytes) == 0) ≡ false = ground arith in rw (any, fits) (ap ok first)

module _ {S : Type 0} (port : Port S) (taken : ℕ → S → Result (List ℕ) String × S)
    (wire : ReadsWire port taken) where
  read-taken :
      (t : SerialTransport S)
      → length t.buffer ≡ buffer_size
      → ((read port t).0 ≡ as_read (taken buffer_size t.stream).0)
        × ((read port t).1.stream ≡ (taken buffer_size t.stream).1)
        × (length (read port t).1.buffer ≡ buffer_size)
  unfolding read
  read-taken t size =
      let room = λ (n : ℕ). taken n t.stream in
      let kept = wire.kept t.buffer t.stream in
      let whole =
        read_result-taken (room (length t.buffer)).0 (port.read_into t.buffer t.stream).1
          (λ bytes came.
            let (rest, stored) = wire.stored t.buffer t.stream bytes came in
            (
              omega (arith, wire.fits (length t.buffer) t.stream bytes came, kept),
              ap (take (length bytes)) stored ∙ take-append bytes rest,
            )) in
      (
        ap (λ n. read_result n (port.read_into t.buffer t.stream).1)
              (wire.reported t.buffer t.stream)
            ∙ whole
            ∙ ap (λ (n : ℕ). as_read (room n).0) size,
        wire.stream t.buffer t.stream ∙ ap (λ (n : ℕ). (room n).1) size,
        kept ∙ size,
      )

  reads-taken :
      (k : ℕ) (t : SerialTransport S)
      → length t.buffer ≡ buffer_size
      → reads port k t ≡ off_wire taken k t.stream
  reads-taken zero t size = refl
  reads-taken (suc k) t size =
      let (given, stream, size') = read-taken t size in
      rw (given, reads-taken k (read port t).1 size', stream) refl

  length-zeros : (n : ℕ) → length (zeros n) ≡ n
  unfolding zeros
  length-zeros zero = refl
  length-zeros (suc n) = omega (arith, length-zeros n)

  -- Over a port whose `read` puts what comes, at most the buffer's length, at the start of the
  -- buffer and reports how many bytes they are: once the port was opened, with hardware flow
  -- control exactly if the settings ask for it, the transport is open, and any number of reads give
  -- exactly what comes over the wire, read by read in at most 1024 bytes, whole, in order and
  -- nothing of an earlier read; no bytes are the end of the stream, and the port's errors are
  -- passed on.
  pub serial_reads :
      (path : String) (settings : SerialSettings) (s : S) (k : ℕ)
      → port.open_native path settings.baud (if settings.rtscts then hardware else none) ≡ ok s
      → (t : SerialTransport S) × (open_port port path settings ≡ ok t)
        × (reads port k t ≡ off_wire taken k s)
  unfolding open_port
  serial_reads path settings s k came =
      let t : SerialTransport S = record { stream = s; buffer = zeros buffer_size } in
      (t, ap (opened path) came, reads-taken k t (length-zeros buffer_size))
