-- ===== src/Ncp/Recovery.antt =====
-- What a reset that succeeds leaves behind.
use rsezsp.Prelude.{
  ℕ, zero, suc, ◌<◌, List, [], ◌∷◌, leb, lt→leb, sym, ap, ok-injective, true, false, Bool-cases,
  ◌&&◌, inl, inr, Result, ok, err, ◌≡◌, refl, ◌∙◌, arith,
}
use rsezsp.Ash.Frame.{rst_ack, rst, body}
use rsezsp.Ash.Codec
use rsezsp.Ash.Codec.{encode}
use rsezsp.Ash.Codec.Decoding.{feed-encode_alone}
use rsezsp.Ash.Connection.{
  Connection, Outbound, send, nothing, is_connected, begin_reset, on_frame, on_rst_ack, attempts_of,
  max_reset_attempts,
}
use rsezsp.Ezsp.Error.{EzspError}
use rsezsp.Ezsp.Exec.{Exec}
use rsezsp.Ezsp.Correlation
use rsezsp.Ncp.Transport.{Transport, Arrival, arrived}
use rsezsp.Ncp.Runtime.{
  Ncp, write_frame, pump_until, take_arrival, consume, handle_all, handle, reply, deliver,
}
use rsezsp.Ncp.Sending.{write_frame-ok}
use rsezsp.Ncp.Startup.{
  succeeded, connected_now, settle, wait_for, try_reset, reset_attempts, reset,
}

-- Connected, with nothing outstanding, and the next `version` legacy again.
pub record IsRecovered {T : Type 0} (n : Ncp T) : Type 0 where
  pub up : is_connected n.ash ≡ true
  pub forgotten : n.correlator ≡ Correlation.new
  pub first_again : n.initial_version_sent ≡ false

abbrev Recovers : {T : Type 0} → Result (Unit {0}) EzspError × Ncp T → Type 0
Recovers (r, n) = r ≡ ok tt → IsRecovered n

module _ {T : Type 0} (port : Transport T) (again : Exec (Ncp T) (Unit {0}))
    (later : (n : Ncp T) → Recovers (again n)) where
  settle-Recovers :
      (x : Result (Unit {0}) EzspError × Unit {0} × Ncp T) → Recovers (settle port again x)
  unfolding settle
  settle-Recovers (outcome, s, n) = elim (Bool-cases (succeeded outcome && is_connected n.ash)) [
    | inl e ↦
        let up : is_connected n.ash ≡ true = ground arith in
        rw e (λ _. record { up = up; forgotten = refl; first_again = refl })
    | inr e ↦ rw e (later n)
  ]

  wait_for-Recovers :
      (arrivals : List Arrival) (x : Result (Unit {0}) EzspError × Ncp T)
      → Recovers (wait_for port again arrivals x)
  unfolding wait_for
  wait_for-Recovers arrivals (ok written, n) =
      settle-Recovers (pump_until port connected_now arrivals tt n)
  wait_for-Recovers arrivals (err e, n) = λ h. absurd (ground arith)

  try_reset-Recovers :
      (arrivals : List Arrival) (outbound : Outbound) (n : Ncp T)
      → Recovers (try_reset port again arrivals outbound n)
  unfolding try_reset
  try_reset-Recovers arrivals nothing n = λ h. absurd (ground arith)
  try_reset-Recovers arrivals (send request) n =
      wait_for-Recovers arrivals (write_frame port request n)

reset_attempts-Recovers :
    {T : Type 0} (port : Transport T) (k : ℕ) (arrivals : ℕ → List Arrival) (n : Ncp T)
    → Recovers (reset_attempts port k arrivals n)
unfolding reset_attempts
reset_attempts-Recovers port zero arrivals n = λ h. absurd (ground arith)
reset_attempts-Recovers port (suc k) arrivals n =
    try_reset-Recovers port (reset_attempts port k arrivals)
      (reset_attempts-Recovers port k arrivals) (arrivals k) (begin_reset n.ash).1
      (record n { decoder = Codec.reset n.decoder; ash = (begin_reset n.ash).0 })

-- Whatever state the runtime was in, a reset that succeeds leaves it connected, with no command
-- outstanding and the sequence numbers from 0, and the next `version` command legacy.
pub reset_recovers :
    {T : Type 0} (port : Transport T) (arrivals : ℕ → List Arrival) (n : Ncp T)
    → (reset port arrivals n).0 ≡ ok tt
    → IsRecovered (reset port arrivals n).1
reset_recovers port arrivals n = reset_attempts-Recovers port _ arrivals n

begin_reset-asks :
    (c : Connection)
    → attempts_of c.state < max_reset_attempts
    → ((begin_reset c).1 ≡ send rst) × (is_connected (begin_reset c).0 ≡ false)
unfolding begin_reset
begin_reset-asks c left =
    let more : leb max_reset_attempts (attempts_of c.state) ≡ false = lt→leb _ _ left in
    rw more (refl, refl)

module _ {T : Type 0} where
  -- What a reset leaves, with the transport in the state `t`.
  abbrev pub reset_to : Ncp T → T → Ncp T
  reset_to n t = record n {
    transport = t;
    decoder = Codec.new;
    ash = on_rst_ack n.ash;
    correlator = Correlation.new;
    initial_version_sent = false;
  }

module _ {T : Type 0} (port : Transport T)
    (writes : (bytes : List ℕ) (t : T) → (port.write bytes t).0 ≡ ok tt) where
  -- The RSTACK ends the pump, whatever arrives later.
  pub take_rst_ack :
      (n : Ncp T) (version code : ℕ) (wire : List ℕ)
      → n.decoder ≡ Codec.new
      → encode (rst_ack version code) ≡ ok wire
      → take_arrival port (arrived wire) n
        ≡ (ok tt, record n { decoder = Codec.new; ash = on_rst_ack n.ash })
  unfolding take_arrival consume handle_all handle reply deliver on_frame body
  take_rst_ack n version code wire fresh sent =
      let (wire', sent', read) = feed-encode_alone (rst_ack version code) (omega arith) in
      let same : wire ≡ wire' = ok-injective (sym sent ∙ sent') in rw (fresh, same, read)

  stops_connected :
      (n : Ncp T) (later : List Arrival)
      → is_connected n.ash ≡ true
      → pump_until port connected_now later tt n ≡ (ok tt, tt, n)
  unfolding pump_until connected_now
  stops_connected n [] up = refl
  stops_connected n (what ∷ later) up = rw up

  pump_until-rst_ack :
      (n : Ncp T) (version code : ℕ) (wire : List ℕ) (later : List Arrival)
      → n.decoder ≡ Codec.new
      → is_connected n.ash ≡ false
      → encode (rst_ack version code) ≡ ok wire
      → pump_until port connected_now (arrived wire ∷ later) tt n
        ≡ (ok tt, tt, record n { decoder = Codec.new; ash = on_rst_ack n.ash })
  unfolding pump_until connected_now
  pump_until-rst_ack n version code wire later fresh down sent =
      rw (down, take_rst_ack n version code wire fresh sent)
        (stops_connected _ later (unfold on_rst_ack in refl))

  try_reset-answered :
      (again : Exec (Ncp T) (Unit {0})) (arrivals : List Arrival) (n : Ncp T) (version code : ℕ)
      (wire : List ℕ) (later : List Arrival)
      → n.decoder ≡ Codec.new
      → is_connected n.ash ≡ false
      → encode (rst_ack version code) ≡ ok wire
      → arrivals ≡ arrived wire ∷ later
      → (t : T) × (try_reset port again arrivals (send rst) n ≡ (ok tt, reset_to n t))
  unfolding try_reset wait_for settle body
  try_reset-answered again arrivals n version code wire later fresh down sent first =
      let (t, written) = write_frame-ok port writes rst n (omega arith) in
      let pumped =
        pump_until-rst_ack (record n { transport = t }) version code wire later fresh down sent in
      (t, rw (first, written) (rw pumped (unfold on_rst_ack in refl)))

  pub reset-exact :
      (n : Ncp T) (arrivals : ℕ → List Arrival) (version code : ℕ) (wire : List ℕ)
      (later : List Arrival)
      → attempts_of n.ash.state < max_reset_attempts
      → encode (rst_ack version code) ≡ ok wire
      → arrivals 4 ≡ arrived wire ∷ later
      → (t : T) × (reset port arrivals n ≡ (ok tt, reset_to n t))
  unfolding reset_attempts on_rst_ack
  reset-exact n arrivals version code wire later left sent first =
      let (asks, down) = begin_reset-asks n.ash left in
      let (t, done) =
        try_reset-answered (reset_attempts port 4 arrivals) (arrivals 4)
          (record n { decoder = Codec.reset n.decoder; ash = (begin_reset n.ash).0 }) version code
          wire later (unfold Codec.reset in refl) down sent first in
      (t, rw asks done)

  -- From any state that has reset attempts left, on a transport that writes, a reset whose first
  -- attempt is answered by an RSTACK succeeds, whatever else arrives behind it and whatever the
  -- decoder was in the middle of.
  pub reset_answered :
      (n : Ncp T) (arrivals : ℕ → List Arrival) (version code : ℕ) (wire : List ℕ)
      (later : List Arrival)
      → attempts_of n.ash.state < max_reset_attempts
      → encode (rst_ack version code) ≡ ok wire
      → arrivals 4 ≡ arrived wire ∷ later
      → (reset port arrivals n).0 ≡ ok tt
  reset_answered n arrivals version code wire later left sent first =
      let (t, done) = reset-exact n arrivals version code wire later left sent first in
      ap (λ (x : Result (Unit {0}) EzspError × Ncp T). x.0) done
