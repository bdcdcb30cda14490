-- ===== src/Ncp/Transport.antt =====
-- src/transport/mod.rs: what the runtime asks of a transport. An error is its text.
use rsezsp.Prelude.{ℕ, List, Result}
use Prim.Native.String.{String}

-- The trait's `write`, on the transport's own state.
pub record Transport (T : Type 0) : Type 0 where
  pub write : List ℕ → T → Result (Unit {0}) String × T

-- What one `read` gives. The deadline is the end of a list of these.
pub data Arrival : Type 0 where
  arrived : List ℕ → Arrival
  failed : String → Arrival
