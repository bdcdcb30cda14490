-- ===== src/Transport/Scripted.antt =====
-- What the reads of the scripted transport give.
use rsezsp.Prelude.{
  ℕ, zero, suc, ◌+◌, List, [], ◌∷◌, ◌++◌, Bool, true, false, Option, none, some, Result, ok, err,
  length, ◌≡◌, refl, arith,
}
use rsezsp.Transport.Error.{TransportError, closed}
use rsezsp.Transport.Fake.{FakeTransport, fail_next_read, read}

abbrev Read : Type 0
Read = Option (Result (List ℕ) TransportError) × FakeTransport

-- The results of so many reads, up to one that pends.
abbrev pub reads : ℕ → FakeTransport → List (Result (List ℕ) TransportError) × FakeTransport
reads zero f = ([], f)
reads (suc k) f = elim (read f).0 [
  | none ↦ ([], (read f).1)
  | some r ↦ (r ∷ (reads k (read f).1).0, (reads k (read f).1).1)
]

abbrev pub succeeded : List (List ℕ) → List (Result (List ℕ) TransportError)
succeeded [] = []
succeeded (chunk ∷ rest) = ok chunk ∷ succeeded rest

abbrev pub repeated : ℕ → List (Result (List ℕ) TransportError)
repeated zero = []
repeated (suc k) = err closed ∷ repeated k

-- What is left to give once the chunks are out.
abbrev pub rest_of : Bool → ℕ → List (Result (List ℕ) TransportError)
rest_of true k = repeated k
rest_of false k = []

abbrev calm : List (List ℕ) → List ℕ → Bool → FakeTransport
calm chunks written gone = record {
  to_read = chunks;
  written = written;
  failure = none;
  is_closed = gone;
}

drained :
    (k : ℕ) (written : List ℕ) (gone : Bool)
    → reads k (calm [] written gone) ≡ (rest_of gone k, calm [] written gone)
unfolding read
drained zero written true = refl
drained zero written false = refl
drained (suc k) written false = refl
drained (suc k) written true = rw (drained k written true) refl

chunks_read :
    (chunks : List (List ℕ)) (k : ℕ) (written : List ℕ) (gone : Bool)
    → reads (length chunks + k) (calm chunks written gone)
      ≡ (succeeded chunks ++ rest_of gone k, calm [] written gone)
unfolding read
chunks_read [] k written gone =
    let e : length {A = List ℕ} [] + k ≡ k = omega arith in rw e (drained k written gone)
chunks_read (chunk ∷ rest) k written gone =
    let e : length (chunk ∷ rest) + k ≡ suc (length rest + k) = omega arith in
    rw e (rw (chunks_read rest k written gone) refl)

-- The scripted transport gives its chunks one by one, each as it was queued and in order, and then
-- pends for ever, or says at every read that it is closed. A failure that was set for the next read
-- comes first, once, and takes no chunk.
pub fake_script :
    (f : FakeTransport) (e : TransportError) (k : ℕ)
    → f.failure ≡ none
    → let given = succeeded f.to_read ++ rest_of f.is_closed k in
      let left = record f { to_read = [] } in
      (reads (length f.to_read + k) f ≡ (given, left))
      × (reads (suc (length f.to_read + k)) (fail_next_read f e) ≡ (err e ∷ given, left))
unfolding read
fake_script f e k quiet =
    let all : reads (length f.to_read + k) f
        ≡ (succeeded f.to_read ++ rest_of f.is_closed k, record f { to_read = [] }) =
      rw quiet (chunks_read f.to_read k f.written f.is_closed) in
    (all, rw (chunks_read f.to_read k f.written f.is_closed) (rw quiet refl))
