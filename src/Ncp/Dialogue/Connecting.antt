-- ===== src/Ncp/Dialogue/Connecting.antt =====
-- `Ncp::connect` end to end: the RSTACK, then one exchange of `version`, or two.
use rsezsp.Prelude.Words.{from_le_bytes}
use rsezsp.Prelude.{
  ℕ, List, [], ◌∷◌, true, false, Result, ok, err, ◌==◌, ◌&&◌, Bool-cases, inl, inr, ==_ne, ==_refl,
  ◌≡◌, ◌≢◌, refl, ap, ◌∙◌, arith,
}
use rsezsp.Ash.Frame.{next_sequence, rst_ack}
use rsezsp.Ash.Codec.{encode}
use rsezsp.Ash.Connection.{on_rst_ack}
use rsezsp.Ezsp.Version.{ProtocolVersion, preferred, is_supported}
use rsezsp.Ezsp.Error.{EzspError, unsupported_version}
use rsezsp.Ezsp.Exec.{Exec, bind-ok, ◌>>◌}
use rsezsp.Ezsp.Frame.{Frame, legacy, extended}
use rsezsp.Ezsp.Command.Setup.{VersionResponse, version_command}
use rsezsp.Ncp.Transport.{Transport, Arrival, arrived}
use rsezsp.Ncp.Runtime.{Ncp}
use rsezsp.Ncp.Command.{command, format_for}
use rsezsp.Ncp.Startup.{fresh, stack_type_mesh, reset, agree, negotiate, with_versions, connect}
use rsezsp.Ncp.Recovery.{reset-exact, reset_to}
use rsezsp.Ncp.Dialogue.{Incoming, number_after, reads, IsIdle}
use rsezsp.Ncp.Dialogue.Negotiation.{
  first_offer, found, version_bytes, IsReply, exchange, exchange_again,
}

-- A runtime whose first offer was answered, behind these frames.
record HasOffered {T : Type 0} (xs : List Incoming) (n : Ncp T) : Type 0 where
  pub idle : IsIdle n
  pub sequence : n.correlator.next_sequence ≡ 1
  pub tx : next_sequence n.ash.next_tx_frame ≡ 2
  pub rx : n.ash.next_rx_frame ≡ next_sequence (number_after 0 xs)
  pub first_sent : n.initial_version_sent ≡ true

with_versions-IsIdle :
    {T : Type 0} (n : Ncp T) (v : ProtocolVersion) (stack_version : ℕ)
    → IsIdle n
    → IsIdle (record n { version = v; stack_version = stack_version })
with_versions-IsIdle n v stack_version idle = record {
  fresh = idle.fresh;
  up = idle.up;
  nothing_sent = idle.nothing_sent;
  rx = idle.rx;
  tx = idle.tx;
  free = idle.free;
  empty = idle.empty;
}

-- What a reset of a new runtime leaves.
after_reset-IsIdle : {T : Type 0} (t t' : T) → IsIdle (reset_to (fresh t) t')
unfolding on_rst_ack
after_reset-IsIdle t t' = record {
  fresh = refl;
  up = refl;
  nothing_sent = refl;
  rx = omega arith;
  tx = omega arith;
  free = refl;
  empty = refl;
}

module _ {T : Type 0} (port : Transport T)
    (writes : (bytes : List ℕ) (t : T) → (port.write bytes t).0 ≡ ok tt) where
  module _ (t : T) (arrivals : ℕ → List Arrival) (version code : ℕ) (wire : List ℕ)
      (later : List Arrival) (sent : encode (rst_ack version code) ≡ ok wire)
      (reset_first : arrivals 4 ≡ arrived wire ∷ later) where
    -- After the reset, the first exchange.
    first_exchange :
        (xs : List Incoming) (x : Incoming) (f : Frame) (more : List Arrival)
        (v stack_type lo hi : ℕ)
        → IsReply 0 1 0 legacy xs x f (version_bytes v stack_type lo hi)
        → (n m : Ncp T) × (reset port arrivals (fresh t) ≡ (ok tt, n))
          × (command port version_command preferred (reads xs (arrived x.wire ∷ more)) n
              ≡ (ok (found v stack_type lo hi), m))
          × HasOffered xs m
    unfolding on_rst_ack next_sequence format_for
    first_exchange xs x f more v stack_type lo hi r =
        let (t', done) =
          reset-exact port writes (fresh t) arrivals version code wire later (omega arith) sent
            reset_first in
        let n = reset_to (fresh t) t' in
        let (ends, gives) =
          exchange port writes n xs x f more v stack_type lo hi preferred (0 ∷ 0 ∷ 0 ∷ 19 ∷ [])
            (after_reset-IsIdle t t') first_offer (omega arith) r in
        (
          n,
          (command port version_command preferred (reads xs (arrived x.wire ∷ more)) n).1,
          done,
          gives,
          record {
            idle = ends.idle;
            sequence = ends.sequence;
            tx = ap next_sequence ends.tx;
            rx = ends.rx;
            first_sent = ends.first_sent;
          },
        )

    -- What `connect` makes of a negotiation that ends.
    connect-negotiated :
        (first second : List Arrival) (n : Ncp T) (ended : Result VersionResponse EzspError × Ncp T)
        → reset port arrivals (fresh t) ≡ (ok tt, n)
        → negotiate port first second n ≡ ended
        → connect port t arrivals first second ≡ with_versions ended
    unfolding connect
    connect-negotiated first second n ended was_reset ends =
        let both : Exec (Ncp T) VersionResponse =
          reset port arrivals >> negotiate port first second in
        let joined : both (fresh t) ≡ ended =
          bind-ok (reset port arrivals) (λ _. negotiate port first second) (fresh t) n tt was_reset
          ∙ ends in
        ap with_versions joined

    -- Over a transport that writes, to an NCP that answers the first RST by an RSTACK and the first
    -- `version`, behind any frames that do not answer it, by the offered version and the mesh stack:
    -- `connect` succeeds after that one exchange, and gives an idle runtime with that version and
    -- the stack version of the response.
    pub connect-preferred :
        (xs : List Incoming) (x : Incoming) (f : Frame) (more second : List Arrival) (lo hi : ℕ)
        → IsReply 0 1 0 legacy xs x f (version_bytes preferred 2 lo hi)
        → (n : Ncp T) × (connect port t arrivals (reads xs (arrived x.wire ∷ more)) second ≡ ok n)
          × IsIdle n
          × (n.version ≡ preferred)
          × (n.stack_version ≡ from_le_bytes (lo ∷ hi ∷ []))
    unfolding negotiate
    connect-preferred xs x f more second lo hi r =
        let (n, m, was_reset, gives, offered) = first_exchange xs x f more preferred 2 lo hi r in
        (
          record m { version = preferred; stack_version = from_le_bytes (lo ∷ hi ∷ []) },
          connect-negotiated (reads xs (arrived x.wire ∷ more)) second n
              (ok (found preferred 2 lo hi), m) was_reset (rw gives refl),
          with_versions-IsIdle m preferred (from_le_bytes (lo ∷ hi ∷ [])) offered.idle,
          refl,
          refl,
        )

    -- As with the offered version, but the NCP names another that is supported, and names it again
    -- when it is offered in an extended frame: `connect` succeeds after the two exchanges, and gives
    -- an idle runtime with that version and the stack version of the second response.
    pub connect_older :
        (xs : List Incoming) (x : Incoming) (f : Frame) (more : List Arrival) (v lo hi : ℕ)
        (ys : List Incoming) (y : Incoming) (g : Frame) (rest : List Arrival)
        (stack_type lo' hi' : ℕ)
        → v ≢ preferred
        → is_supported v ≡ true
        → IsReply 0 1 0 legacy xs x f (version_bytes v 2 lo hi)
        → IsReply
            (next_sequence (number_after 0 xs))
            2
            1
            extended
            ys
            y
            g
            (version_bytes v stack_type lo' hi')
        → (n : Ncp T) × (connect port t arrivals
              (reads xs (arrived x.wire ∷ more))
              (reads ys (arrived y.wire ∷ rest))
            ≡ ok n)
          × IsIdle n
          × (n.version ≡ v)
          × (n.stack_version ≡ from_le_bytes (lo' ∷ hi' ∷ []))
    unfolding negotiate agree
    connect_older xs x f more v lo hi ys y g rest stack_type lo' hi' other supported r r' =
        let (n, m, was_reset, gives, offered) = first_exchange xs x f more v 2 lo hi r in
        let (ends, gives') =
          exchange_again port writes m ys y g rest v stack_type lo' hi'
            (next_sequence (number_after 0 xs)) 2 offered.idle offered.rx offered.tx
            offered.sequence offered.first_sent r' in
        let m' = (command port version_command v (reads ys (arrived y.wire ∷ rest)) m).1 in
        let test : (v == preferred) ≡ false = ==_ne v preferred other in
        (
          record m' { version = v; stack_version = from_le_bytes (lo' ∷ hi' ∷ []) },
          connect-negotiated (reads xs (arrived x.wire ∷ more)) (reads ys (arrived y.wire ∷ rest)) n
              (ok (found v stack_type lo' hi'), m') was_reset
              (rw gives (rw (supported, test) (rw gives' (rw ==_refl refl)))),
          with_versions-IsIdle m' v (from_le_bytes (lo' ∷ hi' ∷ [])) ends.idle,
          refl,
          refl,
        )

    -- An NCP that answers the RST and the first `version`, but with a stack that is not mesh or a
    -- version that is not supported: `connect` fails, and the error names that version.
    pub connect_refused :
        (xs : List Incoming) (x : Incoming) (f : Frame) (more second : List Arrival)
        (v stack_type lo hi : ℕ)
        → (stack_type == stack_type_mesh && is_supported v) ≡ false
        → IsReply 0 1 0 legacy xs x f (version_bytes v stack_type lo hi)
        → connect port t arrivals (reads xs (arrived x.wire ∷ more)) second
          ≡ err (unsupported_version v)
    unfolding negotiate
    connect_refused xs x f more second v stack_type lo hi bad r =
        let (n, m, was_reset, gives, offered) = first_exchange xs x f more v stack_type lo hi r in
        let refused : negotiate port (reads xs (arrived x.wire ∷ more)) second n
            ≡ (err (unsupported_version v), m) =
          elim (Bool-cases (stack_type == stack_type_mesh)) [
            | inr other ↦ rw gives (rw other refl)
            | inl mesh ↦
                let unknown : is_supported v ≡ false = rw mesh at bad in
                rw gives (rw (mesh, unknown) refl)
          ] in
        connect-negotiated (reads xs (arrived x.wire ∷ more)) second n
          (err (unsupported_version v), m) was_reset refused
