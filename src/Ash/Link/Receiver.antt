-- ===== src/Ash/Link/Receiver.antt =====
-- The receiving end of a link, which sends no data.
use rsezsp.Prelude.{
  ℕ, ◌+◌, ◌%◌, ◌≤◌, List, [], Bool, true, false, some, none, drop, arith, ◌==◌, ==_iff, ==_ne, ◌≡◌,
  ◌≢◌, refl, Bool-cases, ◌⊎◌, inl, inr,
}
use rsezsp.Ash.Frame.{data_frame, ack, nak, next_sequence}
use rsezsp.Ash.Connection.{Connection, send, nothing, cut, retire_acknowledged, on_data, on_frame}
use rsezsp.Ash.Connection.Limits.{retransmit_none}

-- The receiving end has taken `r` payloads, and sends none.
pub record Takes (r : ℕ) (d : Connection) : Type 0 where
  pub rx : d.next_rx_frame ≡ r % 8
  pub silent : d.in_flight ≡ []

-- A data frame either is the expected one or leaves all as it was.
pub receive_data :
    (d : Connection) (r x a : ℕ) (again : Bool) (bytes : List ℕ)
    → Takes r d
    → r ≤ x + 7
    → x ≤ r + 7
    → let t = on_frame d (data_frame (x % 8) a again bytes) in
      ((x ≡ r) × Takes (r + 1) t.0 × (t.1 ≡ some bytes) × (t.2 ≡ send (ack ((r + 1) % 8) false)))
      ⊎ ((x ≢ r) × Takes r t.0 × (t.1 ≡ none) × (t.2 ≡ send (ack (r % 8) false)))
unfolding on_frame on_data retire_acknowledged next_sequence
receive_data d r x a again bytes v near far =
    let empty : drop (cut a d.in_flight) d.in_flight ≡ [] = rw v.silent refl in
    elim (Bool-cases (x == r)) [
      | inl same ↦
          let e : x ≡ r = (==_iff x r).0 same in
          let test : (x % 8 == d.next_rx_frame) ≡ true = (==_iff _ _).1 (omega (arith, v.rx)) in
          let step : (x % 8 + 1) % 8 ≡ (r + 1) % 8 = omega arith in
          inl
            (e, rw test (record { rx = step; silent = empty }), rw test refl, rw (test, step) refl)
      | inr other ↦
          let ne : x ≢ r = λ p. ground arith in
          let test : (x % 8 == d.next_rx_frame) ≡ false = ==_ne _ _ (omega (arith, v.rx)) in
          inr
            (ne, rw test (record { rx = v.rx; silent = empty }), rw test refl, rw (test, v.rx) refl)
    ]

-- A NAK asks a silent receiver for nothing.
pub receive_nak :
    (d : Connection) (r a : ℕ) (n : Bool)
    → Takes r d
    → let t = on_frame d (nak a n) in Takes r t.0 × (t.1 ≡ none) × (t.2 ≡ nothing)
unfolding on_frame retire_acknowledged
receive_nak d r a n v =
    let empty : drop (cut a d.in_flight) d.in_flight ≡ [] = rw v.silent refl in
    rw (retransmit_none (record d { in_flight = drop (cut a d.in_flight) d.in_flight }) empty)
      (record { rx = v.rx; silent = empty }, refl, refl)
