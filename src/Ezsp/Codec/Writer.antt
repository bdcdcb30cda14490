-- ===== src/Ezsp/Codec/Writer.antt =====
-- `Writer`: a growable buffer. Only the length prefix can fail.
use rsezsp.Prelude.{ℕ, List, [], ◌∷◌, ◌++◌, ok, length, ltb, if◌then◌else◌}
use rsezsp.Prelude.Words.{to_le_bytes}
use rsezsp.Ezsp.Error.{payload_too_long}
use rsezsp.Ezsp.Version.{ProtocolVersion}
use rsezsp.Ezsp.Exec.{Exec, raise, ◌>>◌}

pub record Writer : Type 0 where
  pub bytes : List ℕ
  pub version : ProtocolVersion

abbrev pub new : ProtocolVersion → Writer
new version = record { bytes = []; version = version }

unfoldable pub put_bytes : List ℕ → Exec Writer (Unit {0})
put_bytes value w = (ok tt, record w { bytes = w.bytes ++ value })

unfoldable pub u8 : ℕ → Exec Writer (Unit {0})
u8 value w = (ok tt, record w { bytes = w.bytes ++ value ∷ [] })

unfoldable pub u16 : ℕ → Exec Writer (Unit {0})
u16 value w = (ok tt, record w { bytes = w.bytes ++ to_le_bytes 2 value })

unfoldable pub u32 : ℕ → Exec Writer (Unit {0})
u32 value w = (ok tt, record w { bytes = w.bytes ++ to_le_bytes 4 value })

-- `u8::try_from(len)` fails above 255.
unfoldable pub length_prefixed : List ℕ → Exec Writer (Unit {0})
unfolding u8 put_bytes
length_prefixed value =
    if ltb 255 (length value)
    then raise (payload_too_long (length value) 255)
    else do u8 (length value); put_bytes value

abbrev pub version_of : Exec Writer ProtocolVersion
version_of w = (ok w.version, w)
