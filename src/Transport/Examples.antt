-- ===== src/Transport/Examples.antt =====
-- A scripted transport with two chunks, and a port that gives two bytes at a time.
use rsezsp.Prelude.{
  ℕ, zero, suc, ◌+◌, ◌≤◌, List, [], ◌∷◌, ◌++◌, true, Result, ok, err, ok-injective, length, ◌≡◌,
  refl, arith,
}
use Prim.Native.String.{String}
use rsezsp.Transport.Error.{io, closed}
use rsezsp.Transport.Fake.{FakeTransport, with_chunks, close, fail_next_read}
use rsezsp.Transport.Serial.{Port, SerialTransport, default, open_port}
use rsezsp.Transport.Scripted.{reads, succeeded, rest_of, fake_script}
use rsezsp.Transport.Reading
use rsezsp.Transport.Reading.{count_of, ReadsWire, off_wire, serial_reads}

abbrev two_chunks : FakeTransport
two_chunks = close (with_chunks ((1 ∷ []) ∷ (2 ∷ 3 ∷ []) ∷ []))

fake_script_example :
    (reads (2 + 1) two_chunks ≡ (
      succeeded ((1 ∷ []) ∷ (2 ∷ 3 ∷ []) ∷ []) ++ rest_of true 1,
      record two_chunks { to_read = [] },
    ))
    × (reads (suc (2 + 1)) (fail_next_read two_chunks (io "read" "scripted")) ≡ (
      err (io "read" "scripted") ∷ (succeeded ((1 ∷ []) ∷ (2 ∷ 3 ∷ []) ∷ []) ++ rest_of true 1),
      record two_chunks { to_read = [] },
    ))
fake_script_example = fake_script two_chunks (io "read" "scripted") 1 refl

-- The stream is the bytes that are still to come; two of them, at most, at a time.
abbrev taken : ℕ → List ℕ → Result (List ℕ) String × List ℕ
taken room [] = (ok [], [])
taken zero (a ∷ s) = (ok [], a ∷ s)
taken (suc zero) (a ∷ s) = (ok (a ∷ []), s)
taken (suc (suc room)) (a ∷ []) = (ok (a ∷ []), [])
taken (suc (suc room)) (a ∷ (b ∷ s)) = (ok (a ∷ b ∷ []), s)

abbrev into : List ℕ → List ℕ → Result ℕ String × List ℕ × List ℕ
into buffer [] = (ok 0, buffer, [])
into [] (a ∷ s) = (ok 0, [], a ∷ s)
into (x ∷ []) (a ∷ s) = (ok 1, a ∷ [], s)
into (x ∷ (y ∷ buffer)) (a ∷ []) = (ok 1, a ∷ y ∷ buffer, [])
into (x ∷ (y ∷ buffer)) (a ∷ (b ∷ s)) = (ok 2, a ∷ b ∷ buffer, s)

abbrev port : Port (List ℕ)
port = record {
  open_native = λ path baud flow. ok (1 ∷ 2 ∷ 3 ∷ []);
  write_all = λ bytes s. (ok tt, s);
  flush = λ s. (ok tt, s);
  read_into = into;
}

Step : (buffer s : List ℕ) → Type 0
Step buffer s =
    ((into buffer s).0 ≡ count_of (taken (length buffer) s).0)
    × ((into buffer s).2 ≡ (taken (length buffer) s).1)
    × (length (into buffer s).1 ≡ length buffer)

into-taken : (buffer s : List ℕ) → Step buffer s
unfolding Step
into-taken buffer [] = (refl, refl, refl)
into-taken [] (a ∷ s) = (refl, refl, refl)
into-taken (x ∷ []) (a ∷ s) = (refl, refl, refl)
into-taken (x ∷ (y ∷ buffer)) (a ∷ []) = (refl, refl, refl)
into-taken (x ∷ (y ∷ buffer)) (a ∷ (b ∷ s)) = (refl, refl, refl)

taken-fits : (room : ℕ) (s bytes : List ℕ) → (taken room s).0 ≡ ok bytes → length bytes ≤ room
taken-fits room [] bytes e = rw (← ok-injective e) (omega arith)
taken-fits zero (a ∷ s) bytes e = rw (← ok-injective e) (omega arith)
taken-fits (suc zero) (a ∷ s) bytes e = rw (← ok-injective e) (omega arith)
taken-fits (suc (suc room)) (a ∷ []) bytes e = rw (← ok-injective e) (omega arith)
taken-fits (suc (suc room)) (a ∷ (b ∷ s)) bytes e = rw (← ok-injective e) (omega arith)

into-stored :
    (buffer s bytes : List ℕ)
    → (taken (length buffer) s).0 ≡ ok bytes
    → (rest : List ℕ) × ((into buffer s).1 ≡ bytes ++ rest)
into-stored buffer [] bytes e = (buffer, rw (← ok-injective e) refl)
into-stored [] (a ∷ s) bytes e = ([], rw (← ok-injective e) refl)
into-stored (x ∷ []) (a ∷ s) bytes e = ([], rw (← ok-injective e) refl)
into-stored (x ∷ (y ∷ buffer)) (a ∷ []) bytes e = (y ∷ buffer, rw (← ok-injective e) refl)
into-stored (x ∷ (y ∷ buffer)) (a ∷ (b ∷ s)) bytes e = (buffer, rw (← ok-injective e) refl)

port-ReadsWire : ReadsWire port taken
unfolding Step
port-ReadsWire = record {
  fits = taken-fits;
  reported = λ buffer s. (into-taken buffer s).0;
  stream = λ buffer s. (into-taken buffer s).1;
  stored = into-stored;
  kept = λ buffer s. (into-taken buffer s).2;
}

off_wire_test : off_wire taken 3 (1 ∷ 2 ∷ 3 ∷ []) ≡ ok (1 ∷ 2 ∷ []) ∷ ok (3 ∷ []) ∷ err closed ∷ []
off_wire_test = refl

serial_reads_example :
    (t : SerialTransport (List ℕ)) × (open_port port "/dev/ttyUSB0" default ≡ ok t)
    × (Reading.reads port 3 t ≡ off_wire taken 3 (1 ∷ 2 ∷ 3 ∷ []))
serial_reads_example =
    serial_reads port taken port-ReadsWire "/dev/ttyUSB0" default (1 ∷ 2 ∷ 3 ∷ []) 3 refl
