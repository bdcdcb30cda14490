-- ===== src/Ncp/Startup.antt =====
-- `Ncp::reset`, `Ncp::negotiate` and `Ncp::connect`.
use rsezsp.Prelude.{
  ℕ, zero, suc, List, [], Bool, true, false, not, ◌&&◌, ◌==◌, if◌then◌else◌, none, Result, ok, err,
}
use rsezsp.Ash.Error.{reset_failed}
use rsezsp.Ash.Codec
use rsezsp.Ash.Connection
use rsezsp.Ash.Connection.{Outbound, send, nothing, begin_reset, is_connected, max_reset_attempts}
use rsezsp.Ezsp.Version.{ProtocolVersion, preferred, is_supported}
use rsezsp.Ezsp.Error.{EzspError, ash, unsupported_version}
use rsezsp.Ezsp.Exec.{Exec, pure, raise, ◌>>=◌, ◌>>◌}
use rsezsp.Ezsp.Correlation
use rsezsp.Ezsp.Command.Setup.{VersionResponse, version_command}
use rsezsp.Ncp.Transport.{Transport, Arrival}
use rsezsp.Ncp.Runtime.{Ncp, write_frame, pump_until}
use rsezsp.Ncp.Command.{command}

abbrev pub stack_type_mesh : ℕ
stack_type_mesh = 0x02

abbrev pub succeeded : {A : Type 0} → Result A EzspError → Bool
succeeded (ok a) = true
succeeded (err e) = false

module _ {T : Type 0} where
  unfoldable pub connected_now : Unit {0} → Ncp T → Bool × Unit {0} × Ncp T
  connected_now s n = (is_connected n.ash, s, n)

  -- What `connect` starts from.
  abbrev pub fresh : T → Ncp T
  fresh t = record {
    transport = t;
    ash = Connection.new;
    decoder = Codec.new;
    correlator = Correlation.new;
    version = preferred;
    stack_version = 0;
    callbacks = [];
    response = none;
    initial_version_sent = false;
    pending_format = none;
  }

-- The versions are set once the negotiation is done; a runtime that fails is dropped.
abbrev pub with_versions :
    {T : Type 0} → Result VersionResponse EzspError × Ncp T → Result (Ncp T) EzspError
with_versions (ok negotiated, n) =
    ok
      (record n { version = negotiated.protocol_version; stack_version = negotiated.stack_version })
with_versions (err e, n) = err e

module _ {T : Type 0} (port : Transport T) where
  -- After the pump: connected, or one attempt fewer.
  unfoldable pub settle :
      Exec (Ncp T) (Unit {0})
      → Result (Unit {0}) EzspError × Unit {0} × Ncp T
      → Result (Unit {0}) EzspError × Ncp T
  settle again (outcome, s, n) =
      if succeeded outcome && is_connected n.ash
      then (ok tt, record n { correlator = Correlation.new; initial_version_sent = false })
      else again n

  -- After the write of the RST.
  unfoldable pub wait_for :
      Exec (Ncp T) (Unit {0})
      → List Arrival
      → Result (Unit {0}) EzspError × Ncp T
      → Result (Unit {0}) EzspError × Ncp T
  unfolding settle connected_now
  wait_for again arrivals (ok written, n) =
      settle again (pump_until port connected_now arrivals tt n)
  wait_for again arrivals (err e, n) = (err e, n)

  -- With what `begin_reset` asked for.
  unfoldable pub try_reset :
      Exec (Ncp T) (Unit {0}) → List Arrival → Outbound → Exec (Ncp T) (Unit {0})
  unfolding wait_for
  try_reset again arrivals nothing n = (err (ash reset_failed), n)
  try_reset again arrivals (send request) n = wait_for again arrivals (write_frame port request n)

  -- The attempts that are left; `arrivals k` is what is read with `k` more to come.
  unfoldable pub reset_attempts : ℕ → (ℕ → List Arrival) → Exec (Ncp T) (Unit {0})
  unfolding try_reset
  reset_attempts zero arrivals n = (err (ash reset_failed), n)
  reset_attempts (suc k) arrivals n =
      let (connection, outbound) = begin_reset n.ash in
      try_reset (reset_attempts k arrivals) (arrivals k) outbound
        (record n { decoder = Codec.reset n.decoder; ash = connection })

  abbrev pub reset : (ℕ → List Arrival) → Exec (Ncp T) (Unit {0})
  reset arrivals = reset_attempts max_reset_attempts arrivals

  -- The second exchange, at the version that the first one found.
  unfoldable pub agree : ProtocolVersion → List Arrival → Exec (Ncp T) VersionResponse
  agree agreed arrivals = do
    second ← command port version_command agreed arrivals
    if second.protocol_version == agreed
        then pure second
        else raise (unsupported_version second.protocol_version)

  unfoldable pub negotiate : List Arrival → List Arrival → Exec (Ncp T) VersionResponse
  unfolding agree
  negotiate arrivals more = do
    first ← command port version_command preferred arrivals
    if not (first.stack_type == stack_type_mesh)
        then raise (unsupported_version first.protocol_version)
        else if not (is_supported first.protocol_version)
        then raise (unsupported_version first.protocol_version)
        else if first.protocol_version == preferred
        then pure first
        else agree first.protocol_version more

  unfoldable pub connect :
      T → (ℕ → List Arrival) → List Arrival → List Arrival → Result (Ncp T) EzspError
  unfolding negotiate
  connect t arrivals first second =
      with_versions ((do reset arrivals; negotiate first second) (fresh t))
