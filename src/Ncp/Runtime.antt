-- ===== src/Ncp/Runtime.antt =====
-- `Ncp`, and what it does with bytes that arrive: consume, dispatch and pump_until.
use rsezsp.Prelude.{ℕ, List, [], ◌∷◌, ◌++◌, Bool, true, false, Option, none, some, Result, ok, err}
use rsezsp.Ash.Error.{AshError}
use rsezsp.Ash.Frame.{AshFrame}
use rsezsp.Ash.Codec.{Decoder, Decoded, frame, rejected, encode, feed}
use rsezsp.Ash.Connection.{Connection, Outbound, send, nothing, on_frame, on_decode_failure}
use rsezsp.Ezsp.Version.{ProtocolVersion}
use rsezsp.Ezsp.Error.{EzspError, ash, transport}
use rsezsp.Ezsp.Exec.{Exec, pure, raise, ◌>>◌}
use rsezsp.Ezsp.Frame.{Frame, HeaderFormat, extended, parse}
use rsezsp.Ezsp.Correlation.{Correlator, Classified, answer, callback, stale, classify}
use rsezsp.Ezsp.Callback.{Callback, decode}
use rsezsp.Ncp.Transport.{Transport, Arrival, arrived, failed}

pub record Ncp (T : Type 0) : Type 0 where
  pub transport : T
  pub ash : Connection
  pub decoder : Decoder
  pub correlator : Correlator
  pub version : ProtocolVersion
  pub stack_version : ℕ
  pub callbacks : List Callback
  pub response : Option (List ℕ)
  pub initial_version_sent : Bool
  pub pending_format : Option HeaderFormat

abbrev pub format_or_extended : Option HeaderFormat → HeaderFormat
format_or_extended (some format) = format
format_or_extended none = extended

module _ {T : Type 0} where
  -- A callback that cannot be decoded is dropped.
  unfoldable pub keep_callback : Result Callback EzspError → Ncp T → Ncp T
  keep_callback (ok what) n = record n { callbacks = n.callbacks ++ what ∷ [] }
  keep_callback (err e) n = n

  unfoldable pub act_on : Classified → Ncp T → Ncp T
  unfolding keep_callback
  act_on (answer parameters) n = record n { response = some parameters; pending_format = none }
  act_on (callback id parameters) n = keep_callback (decode id parameters n.version) n
  act_on (stale id sequence) n = n

  -- A frame that cannot be parsed is dropped.
  unfoldable pub dispatch_parsed : Result Frame EzspError → Ncp T → Ncp T
  unfolding act_on
  dispatch_parsed (ok parsed) n =
      let (correlator, what) = classify n.correlator parsed in
      act_on what (record n { correlator = correlator })
  dispatch_parsed (err e) n = n

  unfoldable pub dispatch : List ℕ → Ncp T → Ncp T
  unfolding dispatch_parsed
  dispatch payload n = dispatch_parsed (parse payload (format_or_extended n.pending_format)) n

module _ {T : Type 0} (port : Transport T) where
  unfoldable pub write_bytes : List ℕ → Exec (Ncp T) (Unit {0})
  write_bytes bytes n =
      let (r, t) = port.write bytes n.transport in
      (elim r [ ok done ↦ ok tt | err reason ↦ err (transport reason) ], record n { transport = t })

  -- The bytes of a frame, if it could be encoded.
  unfoldable pub write_encoded : Result (List ℕ) AshError → Exec (Ncp T) (Unit {0})
  unfolding write_bytes
  write_encoded (ok bytes) = write_bytes bytes
  write_encoded (err e) = raise (ash e)

  unfoldable pub write_frame : AshFrame → Exec (Ncp T) (Unit {0})
  unfolding write_encoded
  write_frame f = write_encoded (encode f)

  unfoldable pub reply : Outbound → Exec (Ncp T) (Unit {0})
  reply (send f) = write_frame f
  reply nothing = pure tt

  unfoldable pub deliver : Option (List ℕ) → Exec (Ncp T) (Unit {0})
  deliver (some payload) n = (ok tt, dispatch payload n)
  deliver none n = (ok tt, n)

  -- One result of the decoder: the reply goes out before the payload is looked at.
  unfoldable pub handle : Decoded → Exec (Ncp T) (Unit {0})
  unfolding reply deliver
  handle (frame f) n =
      let (connection, payload, outbound) = on_frame n.ash f in
      (do reply outbound; deliver payload) (record n { ash = connection })
  handle (rejected e) n =
      let (connection, outbound) = on_decode_failure n.ash e in
      reply outbound (record n { ash = connection })

  -- The first failure drops the results behind it.
  unfoldable pub handle_all : List Decoded → Exec (Ncp T) (Unit {0})
  unfolding handle
  handle_all [] = pure tt
  handle_all (what ∷ rest) = do handle what; handle_all rest

  unfoldable pub consume : List ℕ → Exec (Ncp T) (Unit {0})
  unfolding handle_all
  consume bytes n =
      let (decoder, out) = feed n.decoder bytes in handle_all out (record n { decoder = decoder })

  unfoldable pub take_arrival : Arrival → Exec (Ncp T) (Unit {0})
  unfolding consume
  take_arrival (arrived bytes) n = consume bytes n
  take_arrival (failed reason) n = (err (transport reason), n)

  abbrev pub Pumped : Type 0 → Type 0
  Pumped S = Result (Unit {0}) EzspError × S × Ncp T

  -- `consume(..).await?` and the next turn of the loop.
  unfoldable pub proceed :
      {S : Type 0} → (S → Ncp T → Pumped S) → S → Result (Unit {0}) EzspError × Ncp T → Pumped S
  proceed next s (ok taken, n) = next s n
  proceed next s (err e, n) = (err e, s, n)

  -- One turn, with what `done` gave.
  unfoldable pub turn :
      {S : Type 0} → (S → Ncp T → Pumped S) → Arrival → Bool × S × Ncp T → Pumped S
  unfolding take_arrival proceed
  turn next what (true, s, n) = (ok tt, s, n)
  turn next what (false, s, n) = proceed next s (take_arrival what n)

  -- `done` may change the runtime and what its closure has captured. The list is what arrives before
  -- the deadline, which is no error.
  unfoldable pub pump_until :
      {S : Type 0} → (S → Ncp T → Bool × S × Ncp T) → List Arrival → S → Ncp T → Pumped S
  unfolding turn
  pump_until done [] s n = let (stop, s', n') = done s n in (ok tt, s', n')
  pump_until done (what ∷ rest) s n = turn (pump_until done rest) what (done s n)

  unfoldable pub take_callbacks : Exec (Ncp T) (List Callback)
  take_callbacks n = (ok n.callbacks, record n { callbacks = [] })

  unfoldable pub has_callbacks : Unit {0} → Ncp T → Bool × Unit {0} × Ncp T
  has_callbacks s n = (elim n.callbacks [ [] ↦ false | what ∷ rest ↦ true ], s, n)

  -- `poll`: what arrived, if anything did before the deadline.
  unfoldable pub poll : List Arrival → Exec (Ncp T) (List Callback)
  unfolding pump_until has_callbacks take_callbacks
  poll arrivals n =
      let (r, s, n') = pump_until has_callbacks arrivals tt n in
      elim r [ ok taken ↦ (ok n'.callbacks, record n' { callbacks = [] }) | err e ↦ (err e, n') ]
