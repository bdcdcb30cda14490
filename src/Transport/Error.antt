-- ===== src/Transport/Error.antt =====
-- src/transport/mod.rs: why a transport failed.
use Prim.Native.String.{String, ◌++◌ as ◌<>◌}

pub data TransportError : Type 0 where
  cannot_open : (path reason : String) → TransportError
  io : (operation reason : String) → TransportError
  closed : TransportError

-- The message.
unfoldable pub to_string : TransportError → String
to_string (cannot_open path reason) = "cannot open " <> path <> ": " <> reason
to_string (io operation reason) = operation <> " failed: " <> reason
to_string closed = "the transport closed"
