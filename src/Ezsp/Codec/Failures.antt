-- ===== src/Ezsp/Codec/Failures.antt =====
-- A read that fails leaves the cursor where it was, and fails exactly when too little is left.
use rsezsp.Prelude.{
  ℕ, ◌+◌, ◌^◌, ◌≤◌, ◌<◌, ok, err, length, take, drop, leb, if◌then◌else◌, ◌≡◌, arith,
}
use rsezsp.Ezsp.Error.{truncated_frame}
use rsezsp.Ezsp.Codec.Reader.{Reader, take_bytes, remaining}

-- A cursor inside a buffer that memory can hold.
pub record IsInside (r : Reader) : Type 0 where
  pub within : r.position ≤ length r.bytes
  pub held : length r.bytes < 2 ^ 64

-- A take of `n` bytes succeeds exactly when `n` bytes are left, with exactly those; else it says
-- what was missing, also for an `n` that overflows the cursor, and does not move.
pub take_bytes_lem :
    (r : Reader) (n : ℕ)
    → IsInside r
    → take_bytes n r ≡ (
        if leb n (remaining r)
        then (ok (take n (drop r.position r.bytes)), record r { position = r.position + n })
        else (err (truncated_frame n (remaining r)), r))
unfolding take_bytes remaining
take_bytes_lem r n v = ground arith
