-- ===== src/Ezsp/Exec.antt =====
-- Methods that change an object and may fail: what was changed before the failure stays changed,
-- so the object comes back beside the error too.
use rsezsp.Prelude.{Result, ok, err, ◌≡◌, ap}
use rsezsp.Ezsp.Error.{EzspError}

abbrev pub Exec {ℓ} : Type ℓ → Type 0 → Type ℓ
Exec S A = S → Result A EzspError × S

module _ {ℓ} {S : Type ℓ} {A : Type 0} where
  abbrev pub pure : A → Exec S A
  pure a s = (ok a, s)

  abbrev pub raise : EzspError → Exec S A
  raise e s = (err e, s)

module _ {ℓ} {S : Type ℓ} {A B : Type 0} where
  -- What follows a step, by the step's result; the state is where the step left it.
  abbrev pub after : (A → Exec S B) → Result A EzspError → S → Result B EzspError × S
  after next (ok a) = next a
  after next (err e) = raise e

  infixl 5 ◌>>=◌ ◌>>◌
  abbrev pub ◌>>=◌ : Exec S A → (A → Exec S B) → Exec S B
  first >>= next = λ s. let (r, left) = first s in after next r left

  abbrev pub ◌>>◌ : Exec S A → Exec S B → Exec S B
  first >> second = first >>= λ _. second

  -- A first step that succeeds.
  pub bind-ok :
      (m : Exec S A) (f : A → Exec S B) (s s' : S) (a : A) → m s ≡ (ok a, s') → (m >>= f) s ≡ f a s'
  bind-ok m f s s' a e = ap (λ (t : Result A EzspError × S). after f t.0 t.1) e
