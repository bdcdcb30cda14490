-- ===== src/Ncp/Dialogue/Window.antt =====
-- The window while one command is under way: it holds the request, or nothing.
use rsezsp.Prelude.{
  ℕ, List, [], ◌∷◌, false, ◌==◌, ==_ne, ◌≡◌, ◌≢◌, inl, inr, refl, sym, ◌∙◌, Bool-cases,
}
use rsezsp.Ash.Connection.{Connection, InFlight, cut, retire_acknowledged}

-- Nothing is unacknowledged but the frame with this number.
pub data Awaits (number : ℕ) : List InFlight → Type 0 where
  nothing_left : Awaits number []
  request_left : (x : InFlight) → x.frame_num ≡ number → Awaits number (x ∷ [])

pub Awaits-retire :
    (c : Connection) (q : List InFlight) (number a : ℕ)
    → c.in_flight ≡ q
    → Awaits number q
    → Awaits number (retire_acknowledged c a).in_flight
unfolding retire_acknowledged cut
Awaits-retire c [] number a e h = rw e nothing_left
Awaits-retire c (x ∷ (y ∷ q)) number a e h = elim h [ ]
Awaits-retire c (x ∷ []) number a e (request_left y s) = elim (Bool-cases (x.frame_num == a)) [
  | inl same ↦ rw e (rw same (request_left x s))
  | inr other ↦ rw e (rw other nothing_left)
]

-- The acknowledgement of the request.
pub retire-empty :
    (c : Connection) (q : List InFlight) (number a : ℕ)
    → c.in_flight ≡ q
    → Awaits number q
    → number ≢ a
    → (retire_acknowledged c a).in_flight ≡ []
unfolding retire_acknowledged cut
retire-empty c [] number a e h ne = rw e refl
retire-empty c (x ∷ (y ∷ q)) number a e h ne = elim h [ ]
retire-empty c (x ∷ []) number a e (request_left y s) ne =
    let other : (x.frame_num == a) ≡ false = ==_ne _ _ (λ p. ne (sym s ∙ p)) in rw e (rw other refl)
