-- ===== src/Ash/Link/Sender.antt =====
-- The sending end of a link: what it has in flight, and what it puts on the line.
use rsezsp.Prelude.{
  ℕ, zero, suc, ◌+◌, ◌-◌, ◌%◌, ◌≤◌, ◌<◌, List, [], ◌∷◌, ◌++◌, true, false, length, drop, arith, leb,
  ◌≡◌, refl, sym, ap, ◌∙◌, Bool-cases, inl, inr, length-append, length-drop, drop-drop,
}
use mathlib.Core.Path.{subst}
use rsezsp.Ash.Frame.{AshFrame, data_frame, next_sequence}
use rsezsp.Ash.Connection.{InFlight, Connection, Outbound, retire_acknowledged, retransmit_oldest}
use rsezsp.Ash.Connection.Window.{
  Numbered, Numbered-drop, Numbered-append, retire_acknowledged_exact,
}
use rsezsp.Ash.Connection.Limits.{retransmit_none, retransmit_sent, retransmit_done}
use rsezsp.Ash.Link.{push}
use rsezsp.Ash.Link.Channels.{get_elem-drop, drop-extend, Forth, Forth-push}

abbrev pub payloads_of : List InFlight → List (List ℕ)
payloads_of [] = []
payloads_of (x ∷ q) = x.payload ∷ payloads_of q

length-payloads_of : (q : List InFlight) → length (payloads_of q) ≡ length q
length-payloads_of [] = refl
length-payloads_of (x ∷ q) = omega (arith, length-payloads_of q)

pub payloads_of-drop : (k : ℕ) (q : List InFlight) → payloads_of (drop k q) ≡ drop k (payloads_of q)
payloads_of-drop zero q = refl
payloads_of-drop (suc k) [] = refl
payloads_of-drop (suc k) (x ∷ q) = payloads_of-drop k q

payloads_of-append :
    (q : List InFlight) (x : InFlight) → payloads_of (q ++ x ∷ []) ≡ payloads_of q ++ x.payload ∷ []
payloads_of-append [] x = refl
payloads_of-append (y ∷ q) x = ap (◌∷◌ y.payload) (payloads_of-append q x)

-- The sending end: `base` payloads are acknowledged, the others are in flight.
pub record Sends (sent : List (List ℕ)) (base : ℕ) (c : Connection) : Type 0 where
  pub window : Numbered base c.in_flight
  pub bounded : length c.in_flight ≤ 7
  pub total : length sent ≡ base + length c.in_flight
  pub held : payloads_of c.in_flight ≡ drop base sent
  pub tx : c.next_tx_frame ≡ length sent % 8

pub append-Sends :
    (sent : List (List ℕ)) (base : ℕ) (c : Connection) (bytes : List ℕ)
    → Sends sent base c
    → length c.in_flight < 7
    → Sends (sent ++ bytes ∷ []) base (record c {
      next_tx_frame = next_sequence c.next_tx_frame;
      in_flight =
          c.in_flight ++ record { frame_num = c.next_tx_frame; payload = bytes; sends = 1 } ∷ [];
      ack_pending = false;
    })
unfolding next_sequence
append-Sends sent base c bytes v room =
    let x : InFlight = record { frame_num = c.next_tx_frame; payload = bytes; sends = 1 } in
    let grown = length-append c.in_flight (x ∷ []) in
    let longer = length-append sent (bytes ∷ []) in
    let below : base ≤ length sent = omega (arith, v.total) in
    record {
      window =
          Numbered-append base c.in_flight x v.window (omega (arith, v.tx, v.total)) (omega arith)
            (omega arith);
      bounded = omega (arith, grown);
      total = omega (arith, grown, longer, v.total);
      held =
          payloads_of-append c.in_flight x ∙ rw (v.held, drop-extend sent (bytes ∷ []) base below);
      tx = omega (arith, longer, v.tx);
    }

pub retire-Sends :
    (sent : List (List ℕ)) (base z : ℕ) (c : Connection)
    → Sends sent base c
    → base ≤ z
    → z ≤ length sent
    → Sends sent z (retire_acknowledged c (z % 8))
retire-Sends sent base z c v lo hi =
    let k : ℕ = z - base in
    let at : base + k ≡ z = omega arith in
    let exact =
      retire_acknowledged_exact c base k v.window v.bounded (omega (arith, v.total, v.bounded)) in
    let len = length-drop k c.in_flight in
    let same : record c { in_flight = drop k c.in_flight } ≡ retire_acknowledged c (z % 8) =
      sym (rw at at exact) in
    subst (Sends sent z) same (record {
      window = rw at at (Numbered-drop k base c.in_flight v.window (omega (arith, v.total)));
      bounded = omega (arith, len, v.bounded);
      total = omega (arith, len, v.total);
      held = payloads_of-drop k c.in_flight ∙ rw v.held (drop-drop base k sent ∙ rw at);
      tx = v.tx;
    })

-- A sender whose oldest frame is sent once more.
pub again-Sends :
    (sent : List (List ℕ)) (base : ℕ) (c : Connection) (x : InFlight) (q : List InFlight)
    → Sends sent base c
    → c.in_flight ≡ x ∷ q
    → x.sends < 3
    → Sends sent base (record c { in_flight = record x { sends = x.sends + 1 } ∷ q })
again-Sends sent base c x q v e more =
    let w : Numbered base (x ∷ q) = rw e at v.window in
    let len : length c.in_flight ≡ length (x ∷ q) = ap length e in
    record {
      window = (w.0, omega arith, omega arith, w.3);
      bounded = omega (arith, v.bounded, len);
      total = omega (arith, v.total, len);
      held = sym (ap payloads_of e) ∙ v.held;
      tx = v.tx;
    }

-- The oldest frame in flight may be put on the line.
oldest-Forth :
    (sent : List (List ℕ)) (base a m : ℕ) (c : Connection) (x : InFlight) (q : List InFlight)
    (line : List AshFrame)
    → Sends sent base c
    → c.in_flight ≡ x ∷ q
    → Forth sent m line
    → Forth sent m (line ++ data_frame x.frame_num a true x.payload ∷ [])
oldest-Forth sent base a m c x q line v e g =
    let w : Numbered base (x ∷ q) = rw e at v.window in
    let first = get_elem-drop sent (payloads_of q) base x.payload (sym v.held ∙ ap payloads_of e) in
    rw w.0 (Forth-push sent base a true x.payload first (omega (arith, v.total, v.bounded)) g)

abbrev Resends : List (List ℕ) → ℕ → ℕ → List AshFrame → Connection × Outbound → Type 0
Resends sent base m line (c, reply) = Sends sent base c × Forth sent m (push line reply)

pub retransmit-Sends :
    (sent : List (List ℕ)) (base m : ℕ) (c : Connection) (line : List AshFrame) (q : List InFlight)
    → c.in_flight ≡ q
    → Sends sent base c
    → Forth sent m line
    → Resends sent base m line (retransmit_oldest c)
retransmit-Sends sent base m c line [] e v g = rw (retransmit_none c e) (v, g)
retransmit-Sends sent base m c line (x ∷ q) e v g = elim (Bool-cases (leb 3 x.sends)) [
  | inl tired ↦ rw (retransmit_done c x q e (ground (arith, tired))) (
    record { window = v.window; bounded = v.bounded; total = v.total; held = v.held; tx = v.tx },
    g,
  )
  | inr more ↦
      let lt : x.sends < 3 = ground (arith, more) in
      rw (retransmit_sent c x q e lt) (
        again-Sends sent base c x q v e lt,
        oldest-Forth sent base c.next_rx_frame m c x q line v e g,
      )
]
