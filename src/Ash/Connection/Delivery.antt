-- ===== src/Ash/Connection/Delivery.antt =====
-- Received data frames: delivered once, in order, and acknowledged.
use rsezsp.Prelude.{
  ℕ, zero, suc, ◌+◌, ◌%◌, ◌<◌, List, [], ◌∷◌, Option, none, some, Bool, true, false, arith, ◌==◌,
  ==_ne, ==_iff, if◌then◌else◌, ◌≡◌, ◌≢◌, refl, ◌∙◌, Bool-cases, inl, inr,
}
use mathlib.Core.Path.{subst}
use rsezsp.Ash.Frame.{AshFrame, data_frame, ack, next_sequence}
use rsezsp.Ash.Connection.{Connection, send, retire_acknowledged, on_data, on_frame}

-- Exactly the frame with the expected number is delivered, and either way the answer acknowledges
-- everything before the number that is expected then.
pub on_frame-data :
    (c : Connection) (n a : ℕ) (r : Bool) (bytes : List ℕ)
    → let (d, delivered, reply) = on_frame c (data_frame n a r bytes) in
      (delivered ≡ (if n == c.next_rx_frame then some bytes else none))
      × (d.next_rx_frame ≡ (if n == c.next_rx_frame then next_sequence n else c.next_rx_frame))
      × (reply ≡ send (ack d.next_rx_frame false))
unfolding on_frame on_data retire_acknowledged
on_frame-data c n a r bytes = ground arith

abbrev deliver : Option (List ℕ) → List (List ℕ) → List (List ℕ)
deliver none rest = rest
deliver (some bytes) rest = bytes ∷ rest

-- What a list of received frames hands to the caller, and the connection that they leave.
pub receive : Connection → List AshFrame → Connection × List (List ℕ)
receive c [] = (c, [])
receive c (f ∷ fs) =
    let (c', delivered, reply) = on_frame c f in
    let (c'', rest) = receive c' fs in (c'', deliver delivered rest)

-- How many payloads have been taken after these arrivals.
abbrev pub taken : ℕ → List ℕ → ℕ
taken n [] = n
taken n (i ∷ is) = taken (if i == n then suc n else n) is

-- Each arrival is within seven of the number that is expected when it comes.
abbrev pub InWindow : ℕ → List ℕ → Type 0
InWindow n [] = Unit
InWindow n (i ∷ is) = (i < n + 8) × (n < i + 8) × InWindow (if i == n then suc n else n) is

-- The payloads `n`, `n + 1` and so on, `m` of them.
abbrev pub payloads : (ℕ → List ℕ) → ℕ → ℕ → List (List ℕ)
payloads payload_of n zero = []
payloads payload_of n (suc m) = payload_of n ∷ payloads payload_of (suc n) m

-- A peer that numbers its payloads 0, 1, 2 and so on, and sends the frame of an absolute number
-- again and again, as long as it is within seven of the number that is expected.
module _ (payload_of : ℕ → List ℕ) (ack_of : ℕ → ℕ) (again : ℕ → Bool) where
  abbrev pub peer_frame : ℕ → AshFrame
  peer_frame i = data_frame (i % 8) (ack_of i) (again i) (payload_of i)

  abbrev pub peer_frames : List ℕ → List AshFrame
  peer_frames [] = []
  peer_frames (i ∷ is) = peer_frame i ∷ peer_frames is

  takes :
      (c : Connection) (n i : ℕ)
      → c.next_rx_frame ≡ n % 8
      → i < n + 8
      → n < i + 8
      → ((on_frame c (peer_frame i)).1 ≡ (if i == n then some (payload_of n) else none))
        × ((on_frame c (peer_frame i)).0.next_rx_frame ≡ (if i == n then suc n else n) % 8)
  unfolding next_sequence
  takes c n i e above below =
      let (delivered, rx, reply) = on_frame-data c (i % 8) (ack_of i) (again i) (payload_of i) in
      elim (Bool-cases (i == n)) [
        | inl same ↦
            let en : i ≡ n = (==_iff i n).0 same in
            let test : (i % 8 == c.next_rx_frame) ≡ true = (==_iff _ _).1 (omega arith) in
            rw same (delivered ∙ rw (test, en), rx ∙ rw test (omega arith))
        | inr other ↦
            let ne : i ≢ n = λ p. ground arith in
            let test : (i % 8 == c.next_rx_frame) ≡ false = ==_ne _ _ (omega arith) in
            rw other (delivered ∙ rw test, rx ∙ rw test e)
      ]

  -- Whatever the peer sends again, and in whatever order, within the window: the payloads are
  -- handed on once each, in order and with no gap, and the connection expects the next one.
  pub delivery :
      (c : Connection) (n : ℕ) (is : List ℕ)
      → c.next_rx_frame ≡ n % 8
      → InWindow n is
      → (m : ℕ) × (taken n is ≡ n + m)
        × ((receive c (peer_frames is)).1 ≡ payloads payload_of n m)
        × ((receive c (peer_frames is)).0.next_rx_frame ≡ taken n is % 8)
  unfolding receive
  delivery c n [] e h = (0, omega arith, refl, e)
  delivery c n (i ∷ is) e h =
      let (delivered, rx) = takes c n i e h.0 h.1 in
      elim (Bool-cases (i == n)) [
        | inl same ↦
            let rest = subst (λ (b : Bool). InWindow (if b then suc n else n) is) same h.2 in
            let rx' =
              subst
                (λ (b : Bool).
                  (on_frame c (peer_frame i)).0.next_rx_frame ≡ (if b then suc n else n) % 8)
                same rx in
            let given =
              subst
                (λ (b : Bool).
                  (on_frame c (peer_frame i)).1 ≡ (if b then some (payload_of n) else none))
                same delivered in
            let (m, total, out, last) =
              delivery (on_frame c (peer_frame i)).0 (suc n) is rx' rest in
            (suc m, rw same (omega (arith, total)), rw (given, out), rw same last)
        | inr other ↦
            let rest = subst (λ (b : Bool). InWindow (if b then suc n else n) is) other h.2 in
            let rx' =
              subst
                (λ (b : Bool).
                  (on_frame c (peer_frame i)).0.next_rx_frame ≡ (if b then suc n else n) % 8)
                other rx in
            let given =
              subst
                (λ (b : Bool).
                  (on_frame c (peer_frame i)).1 ≡ (if b then some (payload_of n) else none))
                other delivered in
            let (m, total, out, last) = delivery (on_frame c (peer_frame i)).0 n is rx' rest in
            (m, rw other total, rw (given, out), rw other last)
      ]
