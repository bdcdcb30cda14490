-- ===== src/Ezsp/Error.antt =====
-- src/ezsp/error.rs: what can go wrong talking EZSP. A frame id, a version and a status are the
-- numbers that their newtypes hold.
use rsezsp.Prelude.{ℕ, Bool, true, false}
use Prim.Native.String.{String}
use rsezsp.Ash.Error.{AshError}

pub data EzspError : Type 0 where
  truncated_frame : (needed available : ℕ) → EzspError
  frame_too_long : (length limit : ℕ) → EzspError
  payload_too_long : (length limit : ℕ) → EzspError
  malformed_header : (reason : String) → EzspError
  trailing_bytes : (frame_id extra : ℕ) → EzspError
  unsupported_version : (negotiated : ℕ) → EzspError
  unsupported_command : (frame_id version : ℕ) → EzspError
  unexpected_response : (expected actual : ℕ) → EzspError
  sequence_mismatch : (sequence : ℕ) → EzspError
  unknown_enum : (name : String) (value : ℕ) → EzspError
  status : (code : ℕ) → EzspError
  timeout : (frame_id : ℕ) → EzspError
  ncp_reset : (frame_id : ℕ) → EzspError
  not_connected : EzspError
  transport : (reason : String) → EzspError
  ash : AshError → EzspError

-- Whether trying again may help.
unfoldable pub is_transient : EzspError → Bool
is_transient (timeout frame_id) = true
is_transient (ncp_reset frame_id) = true
is_transient (transport reason) = true
is_transient (ash e) = true
is_transient _ = false
