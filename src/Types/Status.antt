-- ===== src/Types/Status.antt =====
-- src/types/status.rs: the status of a response, one byte below version 14 and four from there on.
use rsezsp.Prelude.{ℕ, Bool, ◌==◌, Result, ok, err, if◌then◌else◌}
use rsezsp.Ezsp.Error.{EzspError, status}
use rsezsp.Ezsp.Version.{has_wide_status}
use rsezsp.Ezsp.Exec.{Exec}
use rsezsp.Ezsp.Codec.Reader
use rsezsp.Ezsp.Codec.Reader.{Reader}

abbrev pub SlStatus : Type 0
SlStatus = ℕ

abbrev pub is_ok : SlStatus → Bool
is_ok s = s == 0x0000

unfoldable pub into_result : SlStatus → Result (Unit {0}) EzspError
into_result s = if is_ok s then ok tt else err (status s)

-- The same type for both widths; the narrow value is widened.
unfoldable pub decode : Exec Reader SlStatus
decode r = if has_wide_status r.version then Reader.u32 r else Reader.u8 r
