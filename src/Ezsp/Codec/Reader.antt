-- ===== src/Ezsp/Codec/Reader.antt =====
-- `Reader`: every read is checked against the bytes that are left; `usize` has 64 bits.
use rsezsp.Prelude.{
  ℕ, ◌+◌, ◌-◌, ◌^◌, List, [], ◌∷◌, Bool, ok, err, length, take, drop, ltb, leb, ◌||◌, ◌==◌,
  if◌then◌else◌,
}
use rsezsp.Prelude.Words.{from_le_bytes}
use rsezsp.Ezsp.Error.{truncated_frame}
use rsezsp.Ezsp.Version.{ProtocolVersion}
use rsezsp.Ezsp.Exec.{Exec, pure, raise, ◌>>=◌}

pub record Reader : Type 0 where
  pub bytes : List ℕ
  pub position : ℕ
  pub version : ProtocolVersion

abbrev pub new : List ℕ → ProtocolVersion → Reader
new bytes version = record { bytes = bytes; position = 0; version = version }

-- Subtraction on ℕ stops at 0, as the saturating one does.
unfoldable pub remaining : Reader → ℕ
remaining r = length r.bytes - r.position

unfoldable pub is_empty : Reader → Bool
unfolding remaining
is_empty r = remaining r == 0

unfoldable pub peek_rest : Reader → List ℕ
peek_rest r = drop r.position r.bytes

abbrev pub usize_modulus : ℕ
usize_modulus = 2 ^ 64

-- `checked_add` and `get(position..end)`: both ways to fail give the same error.
unfoldable pub take_bytes : ℕ → Exec Reader (List ℕ)
unfolding remaining
take_bytes n r =
    if leb usize_modulus (r.position + n) || ltb (length r.bytes) (r.position + n)
    then (err (truncated_frame n (remaining r)), r)
    else (ok (take n (drop r.position r.bytes)), record r { position = r.position + n })

unfoldable pub take_rest : Exec Reader (List ℕ)
unfolding peek_rest
take_rest r = (ok (peek_rest r), record r { position = length r.bytes })

-- `first().ok_or(..)`.
first_byte : List ℕ → Exec Reader ℕ
first_byte [] = raise (truncated_frame 1 0)
first_byte (b ∷ bytes) = pure b

unfoldable pub u8 : Exec Reader ℕ
unfolding first_byte take_bytes
u8 = do bytes ← take_bytes 1; first_byte bytes

-- The little-endian number, if there are as many bytes as it needs.
unfoldable pub sized : ℕ → List ℕ → Exec Reader ℕ
sized n bytes =
    if length bytes == n
    then pure (from_le_bytes bytes)
    else raise (truncated_frame n (length bytes))

unfoldable pub u16 : Exec Reader ℕ
unfolding sized take_bytes
u16 = do bytes ← take_bytes 2; sized 2 bytes

unfoldable pub u32 : Exec Reader ℕ
unfolding sized take_bytes
u32 = do bytes ← take_bytes 4; sized 4 bytes

-- A fixed-size array; `try_into` checks the length once more.
unfoldable pub array : ℕ → Exec Reader (List ℕ)
unfolding take_bytes
array n = do
  bytes ← take_bytes n
  if length bytes == n then pure bytes else raise (truncated_frame n (length bytes))

unfoldable pub length_prefixed : Exec Reader (List ℕ)
unfolding u8 take_bytes
length_prefixed = do len ← u8; take_bytes len
