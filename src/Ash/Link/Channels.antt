-- ===== src/Ash/Link/Channels.antt =====
-- What is under way on the two lines of a link, against absolute frame numbers.
use rsezsp.Prelude.{
  ℕ, zero, suc, ◌+◌, ◌%◌, ◌≤◌, ◌<◌, List, [], ◌∷◌, ◌++◌, Bool, some, length, get_elem?, take, drop,
  arith, ◌≡◌, refl, ap, length-append,
}
use rsezsp.Ash.Frame.{AshFrame, data_frame, ack, nak}

-- Positions in the list of what was sent.
module _ {ℓ} {A : Type ℓ} where
  pub get_elem-lt : (xs : List A) (i : ℕ) (x : A) → get_elem? xs i ≡ some x → i < length xs
  get_elem-lt [] i x e = absurd (ground (arith, e))
  get_elem-lt (y ∷ xs) zero x e = omega arith
  get_elem-lt (y ∷ xs) (suc i) x e = omega (arith, get_elem-lt xs i x e)

  pub get_elem-append :
      (xs ys : List A) (i : ℕ) (x : A) → get_elem? xs i ≡ some x → get_elem? (xs ++ ys) i ≡ some x
  get_elem-append [] ys i x e = absurd (ground (arith, e))
  get_elem-append (y ∷ xs) ys zero x e = e
  get_elem-append (y ∷ xs) ys (suc i) x e = get_elem-append xs ys i x e

  pub get_elem-last : (xs : List A) (x : A) → get_elem? (xs ++ x ∷ []) (length xs) ≡ some x
  get_elem-last [] x = refl
  get_elem-last (y ∷ xs) x = get_elem-last xs x

  pub get_elem-drop :
      (xs ys : List A) (i : ℕ) (x : A) → drop i xs ≡ x ∷ ys → get_elem? xs i ≡ some x
  get_elem-drop [] ys zero x e = absurd (ground (arith, e))
  get_elem-drop [] ys (suc i) x e = absurd (ground (arith, e))
  get_elem-drop (y ∷ xs) ys zero x e = ground (arith, e)
  get_elem-drop (y ∷ xs) ys (suc i) x e = get_elem-drop xs ys i x e

  pub take-snoc :
      (xs : List A) (i : ℕ) (x : A)
      → get_elem? xs i ≡ some x
      → take (i + 1) xs ≡ take i xs ++ x ∷ []
  take-snoc [] i x e = absurd (ground (arith, e))
  take-snoc (y ∷ xs) zero x e = ground (arith, e)
  take-snoc (y ∷ xs) (suc i) x e =
      let step : suc i + 1 ≡ suc (i + 1) = omega arith in rw step (ap (◌∷◌ y) (take-snoc xs i x e))

  pub take-extend : (xs ys : List A) (i : ℕ) → i ≤ length xs → take i (xs ++ ys) ≡ take i xs
  take-extend xs ys zero h = refl
  take-extend [] ys (suc i) h = absurd (omega arith)
  take-extend (x ∷ xs) ys (suc i) h = ap (◌∷◌ x) (take-extend xs ys i (omega arith))

  pub drop-extend : (xs ys : List A) (i : ℕ) → i ≤ length xs → drop i (xs ++ ys) ≡ drop i xs ++ ys
  drop-extend xs ys zero h = refl
  drop-extend [] ys (suc i) h = absurd (omega arith)
  drop-extend (x ∷ xs) ys (suc i) h = drop-extend xs ys i (omega arith)

  pub take-drop : (xs : List A) (i : ℕ) → take i xs ++ drop i xs ≡ xs
  take-drop xs zero = refl
  take-drop [] (suc i) = refl
  take-drop (x ∷ xs) (suc i) = ap (◌∷◌ x) (take-drop xs i)

-- The frames under way to a receiver that expects a number up to `m`, where `sent` lists all
-- payloads: a data frame carries the payload of its absolute number, and when it arrives the
-- expected number is at most seven ahead of it.
pub data Forth (sent : List (List ℕ)) : ℕ → List AshFrame → Type 0 where
  clear : {m : ℕ} → m ≤ length sent → Forth sent m []
  frame :
      {m : ℕ} {fs : List AshFrame} (x a : ℕ) (again : Bool) (bytes : List ℕ) (m' : ℕ)
      → get_elem? sent x ≡ some bytes
      → m ≤ x + 7
      → m ≤ m'
      → x < m'
      → Forth sent m' fs
      → Forth sent m (data_frame (x % 8) a again bytes ∷ fs)
  complaint :
      {m : ℕ} {fs : List AshFrame} (a : ℕ) (not_ready : Bool)
      → Forth sent m fs
      → Forth sent m (nak a not_ready ∷ fs)

-- The answers under way to a sender whose oldest frame is `lo`, from a receiver that expects `hi`:
-- their absolute numbers do not fall and stay between the two.
pub data Back : ℕ → ℕ → List AshFrame → Type 0 where
  clear : {lo hi : ℕ} → lo ≤ hi → Back lo hi []
  accept :
      {lo hi : ℕ} {fs : List AshFrame} (z : ℕ) (not_ready : Bool)
      → lo ≤ z
      → Back z hi fs
      → Back lo hi (ack (z % 8) not_ready ∷ fs)
  complaint :
      {lo hi : ℕ} {fs : List AshFrame} (z : ℕ) (not_ready : Bool)
      → lo ≤ z
      → Back z hi fs
      → Back lo hi (nak (z % 8) not_ready ∷ fs)

module _ (sent : List (List ℕ)) where
  pub Forth-le : {m : ℕ} {fs : List AshFrame} → Forth sent m fs → m ≤ length sent
  Forth-le (clear h) = h
  Forth-le (frame x a again bytes m' e near le lt rest) = omega (arith, le, Forth-le rest)
  Forth-le (complaint a n rest) = Forth-le rest

  -- A receiver that expects less.
  pub Forth-lower : {m k : ℕ} {fs : List AshFrame} → k ≤ m → Forth sent m fs → Forth sent k fs
  Forth-lower h (clear g) = clear (omega (arith, h, g))
  Forth-lower h (frame x a again bytes m' e near le lt rest) =
      frame x a again bytes m' e (omega (arith, h, near)) (omega (arith, h, le)) lt rest
  Forth-lower h (complaint a n rest) = complaint a n (Forth-lower h rest)

  pub Forth-tail :
      {m : ℕ} {f : AshFrame} {fs : List AshFrame} → Forth sent m (f ∷ fs) → Forth sent m fs
  Forth-tail (frame x a again bytes m' e near le lt rest) = Forth-lower le rest
  Forth-tail (complaint a n rest) = rest

  pub Forth-complain :
      {m : ℕ} {fs : List AshFrame} (a : ℕ) (n : Bool)
      → Forth sent m fs
      → Forth sent m (fs ++ nak a n ∷ [])
  Forth-complain a n (clear h) = complaint a n (clear h)
  Forth-complain a n (frame x a' again bytes m' e near le lt rest) =
      frame x a' again bytes m' e near le lt (Forth-complain a n rest)
  Forth-complain a n (complaint a' n' rest) = complaint a' n' (Forth-complain a n rest)

  -- A frame is put on the line when at most the seven payloads from its own on were sent.
  pub Forth-push :
      {m : ℕ} {fs : List AshFrame} (x a : ℕ) (again : Bool) (bytes : List ℕ)
      → get_elem? sent x ≡ some bytes
      → length sent ≤ x + 7
      → Forth sent m fs
      → Forth sent m (fs ++ data_frame (x % 8) a again bytes ∷ [])
  Forth-push x a again bytes e near (clear h) =
      let lt = get_elem-lt sent x bytes e in
      frame x a again bytes (length sent) e (omega (arith, h, near)) h lt (clear (omega arith))
  Forth-push x a again bytes e near (frame y b r c m' e' near' le lt rest) =
      frame y b r c m' e' near' le lt (Forth-push x a again bytes e near rest)
  Forth-push x a again bytes e near (complaint b n rest) =
      complaint b n (Forth-push x a again bytes e near rest)

  pub Forth-extend :
      {m : ℕ} {fs : List AshFrame} (more : List (List ℕ))
      → Forth sent m fs
      → Forth (sent ++ more) m fs
  Forth-extend more (clear h) = clear (omega (arith, h, length-append sent more))
  Forth-extend more (frame x a again bytes m' e near le lt rest) =
      frame x a again bytes m' (get_elem-append sent more x bytes e) near le lt
        (Forth-extend more rest)
  Forth-extend more (complaint a n rest) = complaint a n (Forth-extend more rest)

pub Back-le : {lo hi : ℕ} {fs : List AshFrame} → Back lo hi fs → lo ≤ hi
Back-le (clear h) = h
Back-le (accept z n le rest) = omega (arith, le, Back-le rest)
Back-le (complaint z n le rest) = omega (arith, le, Back-le rest)

Back-lower : {lo lo' hi : ℕ} {fs : List AshFrame} → lo ≤ lo' → Back lo' hi fs → Back lo hi fs
Back-lower h (clear g) = clear (omega (arith, h, g))
Back-lower h (accept z n le rest) = accept z n (omega (arith, h, le)) rest
Back-lower h (complaint z n le rest) = complaint z n (omega (arith, h, le)) rest

pub Back-tail :
    {lo hi : ℕ} {f : AshFrame} {fs : List AshFrame} → Back lo hi (f ∷ fs) → Back lo hi fs
Back-tail (accept z n le rest) = Back-lower le rest
Back-tail (complaint z n le rest) = Back-lower le rest

pub Back-raise : {lo hi hi' : ℕ} {fs : List AshFrame} → hi ≤ hi' → Back lo hi fs → Back lo hi' fs
Back-raise h (clear g) = clear (omega (arith, h, g))
Back-raise h (accept z n le rest) = accept z n le (Back-raise h rest)
Back-raise h (complaint z n le rest) = complaint z n le (Back-raise h rest)

-- The receiver answers with the number that it expects.
pub Back-accept :
    {lo hi : ℕ} {fs : List AshFrame} (n : Bool)
    → Back lo hi fs
    → Back lo hi (fs ++ ack (hi % 8) n ∷ [])
Back-accept {hi = hi} n (clear h) = accept hi n h (clear (omega arith))
Back-accept n (accept z n' le rest) = accept z n' le (Back-accept n rest)
Back-accept n (complaint z n' le rest) = complaint z n' le (Back-accept n rest)

pub Back-complain :
    {lo hi : ℕ} {fs : List AshFrame} (n : Bool)
    → Back lo hi fs
    → Back lo hi (fs ++ nak (hi % 8) n ∷ [])
Back-complain {hi = hi} n (clear h) = complaint hi n h (clear (omega arith))
Back-complain n (accept z n' le rest) = accept z n' le (Back-complain n rest)
Back-complain n (complaint z n' le rest) = complaint z n' le (Back-complain n rest)
