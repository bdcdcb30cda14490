-- ===== src/Transport/Fake.antt =====
-- src/transport/fake.rs: a transport that hands out scripted chunks and keeps what is written.
use rsezsp.Prelude.{
  ℕ, List, [], ◌∷◌, ◌++◌, Bool, true, false, Option, none, some, Result, ok, err, if◌then◌else◌,
}
use Prim.Native.String.{String}
use rsezsp.Transport.Error.{TransportError, closed}
use rsezsp.Ncp.Transport.{Transport}

pub record FakeTransport : Type 0 where
  pub to_read : List (List ℕ)
  pub written : List ℕ
  pub failure : Option TransportError
  pub is_closed : Bool

abbrev pub new : FakeTransport
new = record { to_read = []; written = []; failure = none; is_closed = false }

abbrev pub with_chunks : List (List ℕ) → FakeTransport
with_chunks chunks = record new { to_read = chunks }

abbrev pub push_chunk : FakeTransport → List ℕ → FakeTransport
push_chunk f chunk = record f { to_read = f.to_read ++ chunk ∷ [] }

abbrev pub fail_next_read : FakeTransport → TransportError → FakeTransport
fail_next_read f e = record f { failure = some e }

abbrev pub close : FakeTransport → FakeTransport
close f = record f { is_closed = true }

abbrev pub is_drained : FakeTransport → Bool
is_drained f = elim f.to_read [ [] ↦ true | chunk ∷ rest ↦ false ]

unfoldable pub write : List ℕ → FakeTransport → Result (Unit {0}) String × FakeTransport
write bytes f = (ok tt, record f { written = f.written ++ bytes })

-- What the runtime is given.
abbrev pub fake : Transport FakeTransport
fake = record { write = write }

-- With nothing to hand out. `none` is a read that pends for ever.
unfoldable pub read_nothing : FakeTransport → Option (Result (List ℕ) TransportError)
read_nothing f = if f.is_closed then some (err closed) else none

unfoldable pub read_chunk :
    List (List ℕ) → FakeTransport → Option (Result (List ℕ) TransportError) × FakeTransport
unfolding read_nothing
read_chunk [] f = (read_nothing f, f)
read_chunk (chunk ∷ rest) f = (some (ok chunk), record f { to_read = rest })

unfoldable pub read : FakeTransport → Option (Result (List ℕ) TransportError) × FakeTransport
unfolding read_chunk
read f = elim f.failure [
  | some e ↦ (some (err e), record f { failure = none })
  | none ↦ read_chunk f.to_read f
]
