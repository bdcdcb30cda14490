-- ===== src/Ash/Error.antt =====
-- src/ash/error.rs: what can go wrong framing or unframing ASH.
use rsezsp.Prelude.{ℕ, Bool, true, false}

pub data AshError : Type 0 where
  bad_crc : (computed carried : ℕ) → AshError
  too_short : (length minimum : ℕ) → AshError
  too_long : (length maximum : ℕ) → AshError
  invalid_control : (control length : ℕ) → AshError
  cancelled : AshError
  substituted : AshError
  ncp_error : (version code : ℕ) → AshError
  ncp_reset : (version code : ℕ) → AshError
  reset_failed : AshError
  out_of_sequence : (received expected : ℕ) → AshError
  not_connected : AshError
  timeout : AshError
  window_full : (outstanding limit : ℕ) → AshError

-- A bad CRC or a corrupted frame is worth a NAK, nothing else is.
unfoldable pub is_recoverable_by_nak : AshError → Bool
is_recoverable_by_nak (bad_crc computed carried) = true
is_recoverable_by_nak substituted = true
is_recoverable_by_nak _ = false
