-- ===== src/Ash/Connection/Window.antt =====
-- The queue of unacknowledged frames against absolute frame numbers: the frames of a window are
-- numbered one after the other modulo 8, and an acknowledgement retires exactly what it covers.
use rsezsp.Prelude.{
  ℕ, zero, suc, ◌+◌, ◌%◌, ◌≤◌, ◌<◌, List, [], ◌∷◌, ◌++◌, false, length, drop, arith, ◌==◌, ==_ne,
  ==_refl, ◌≡◌, refl, ap, ◌∙◌,
}
use rsezsp.Ash.Connection.{InFlight, Connection, cut, retire_acknowledged}

-- The frames with absolute numbers `base`, `base + 1` and so on, each sent at least once.
abbrev pub Numbered : ℕ → List InFlight → Type 0
Numbered base [] = Unit
Numbered base (oldest ∷ rest) =
    (oldest.frame_num ≡ base % 8)
    × (1 ≤ oldest.sends)
    × (oldest.sends ≤ 3)
    × Numbered (base + 1) rest

cut_exact :
    (base k : ℕ) (q : List InFlight)
    → Numbered base q
    → length q ≤ 7
    → k < 8
    → drop (cut ((base + k) % 8) q) q ≡ drop k q
unfolding cut
cut_exact base zero [] n s h = refl
cut_exact base (suc k) [] n s h = refl
cut_exact base zero (x ∷ q) n s h =
    let same : x.frame_num ≡ (base + zero) % 8 = omega arith in rw same (rw ==_refl)
cut_exact base (suc k) (x ∷ q) n s h =
    let apart : (x.frame_num == (base + suc k) % 8) ≡ false = ==_ne _ _ (omega arith) in
    let next : (base + suc k) % 8 ≡ (base + 1 + k) % 8 = omega arith in
    rw apart (
      ap (λ (t : ℕ). drop (cut t q) q) next
      ∙ cut_exact (base + 1) k q n.3 (omega arith) (omega arith))

-- In a window of at most seven frames whose oldest has the absolute number `base`, the
-- acknowledgement of everything before `base + k` retires the first `k` frames and no other, also
-- where the three-bit numbers wrap; with fewer than `k` frames it retires all.
pub retire_acknowledged_exact :
    (c : Connection) (base k : ℕ)
    → Numbered base c.in_flight
    → length c.in_flight ≤ 7
    → k < 8
    → retire_acknowledged c ((base + k) % 8) ≡ record c { in_flight = drop k c.in_flight }
unfolding retire_acknowledged
retire_acknowledged_exact c base k n s h =
    ap (λ (q : List InFlight). record c { in_flight = q }) (cut_exact base k c.in_flight n s h)

pub Numbered-drop :
    (k base : ℕ) (q : List InFlight)
    → Numbered base q
    → k ≤ length q
    → Numbered (base + k) (drop k q)
Numbered-drop zero base q n h = let e : base + zero ≡ base = omega arith in rw e n
Numbered-drop (suc k) base [] n h = absurd (omega arith)
Numbered-drop (suc k) base (x ∷ q) n h =
    let e : base + suc k ≡ base + 1 + k = omega arith in
    rw e (Numbered-drop k (base + 1) q n.3 (omega arith))

pub Numbered-append :
    (base : ℕ) (q : List InFlight) (x : InFlight)
    → Numbered base q
    → x.frame_num ≡ (base + length q) % 8
    → 1 ≤ x.sends
    → x.sends ≤ 3
    → Numbered base (q ++ x ∷ [])
Numbered-append base [] x n e l u = (omega arith, l, u, tt)
Numbered-append base (y ∷ q) x n e l u =
    (n.0, n.1, n.2, Numbered-append (base + 1) q x n.3 (omega arith) l u)

pub cut-le : (a : ℕ) (q : List InFlight) → cut a q ≤ length q
unfolding cut
cut-le a [] = omega arith
cut-le a (x ∷ q) = ground (arith, cut-le a q)
