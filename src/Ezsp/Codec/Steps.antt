-- ===== src/Ezsp/Codec/Steps.antt =====
-- Rules for chains of reads and writes: what a chain reads is the concatenation of what its steps
-- read, and so for writes.
use rsezsp.Prelude.{
  ℕ, ◌+◌, ◌^◌, ◌≤◌, ◌<◌, List, [], ◌∷◌, ◌++◌, false, ok, length, take, drop, ltb, le→ltb, lt→leb,
  leb, ◌==◌, ==_refl, if◌then◌else◌, ◌≡◌, refl, sym, ap, ◌∙◌, arith, append_assoc, append-nil,
  length-append, take-append, drop-append, drop-drop, length-drop,
}
use rsezsp.Prelude.Words.{to_le_bytes, from_le_bytes, from_le_bytes-to_le_bytes}
use mathlib.Core.Path.{subst}
use rsezsp.Ezsp.Error.{truncated_frame}
use rsezsp.Ezsp.Version.{ProtocolVersion}
use rsezsp.Ezsp.Exec.{Exec, pure, raise, ◌>>=◌, ◌>>◌, bind-ok}
use rsezsp.Ezsp.Codec.Reader
use rsezsp.Ezsp.Codec.Reader.{Reader, take_bytes}
use rsezsp.Ezsp.Codec.Writer
use rsezsp.Ezsp.Codec.Writer.{Writer}

-- In front of `bs`, whatever follows it, the action returns `a` and moves behind `bs`.
pub record Reads {A : Type 0} (v : ProtocolVersion) (m : Exec Reader A) (bs : List ℕ) (a : A)
    : Type 0 where
  pub at :
      (r : Reader) (rest : List ℕ)
      → r.version ≡ v
      → length r.bytes < 2 ^ 64
      → r.position ≤ length r.bytes
      → drop r.position r.bytes ≡ bs ++ rest
      → m r ≡ (ok a, record r { position = r.position + length bs })

-- The action appends `bs` and succeeds.
pub record Writes (v : ProtocolVersion) (m : Exec Writer (Unit {0})) (bs : List ℕ) : Type 0 where
  pub at : (w : Writer) → w.version ≡ v → m w ≡ (ok tt, record w { bytes = w.bytes ++ bs })

pub Reads-pure : {A : Type 0} (v : ProtocolVersion) (a : A) → Reads v (pure a) [] a
Reads-pure v a = record {
  at = λ r rest e s le h. let same : r.position + 0 ≡ r.position = omega arith in rw same;
}

-- Where a read of `bs` ends.
pub behind :
    (r : Reader) (bs rest : List ℕ)
    → drop r.position r.bytes ≡ bs ++ rest
    → drop (r.position + length bs) r.bytes ≡ rest
behind r bs rest h =
    sym (drop-drop r.position (length bs) r.bytes) ∙ ap (drop (length bs)) h ∙ drop-append bs rest

fits :
    (r : Reader) (bs rest : List ℕ)
    → r.position ≤ length r.bytes
    → drop r.position r.bytes ≡ bs ++ rest
    → r.position + length bs ≤ length r.bytes
fits r bs rest le h =
    omega (arith, length-drop r.position r.bytes, ap length h, length-append bs rest)

module _ {A B : Type 0} {v : ProtocolVersion} where
  pub Reads-bind :
      (m : Exec Reader A) (f : A → Exec Reader B) (bs cs : List ℕ) (a : A) (b : B)
      → Reads v m bs a
      → Reads v (f a) cs b
      → Reads v (m >>= f) (bs ++ cs) b
  Reads-bind m f bs cs a b first second = record {
    at = λ r rest e s le h.
        let joined : drop r.position r.bytes ≡ bs ++ (cs ++ rest) = h ∙ append_assoc bs cs rest in
        let len : r.position + length bs + length cs ≡ r.position + length (bs ++ cs) =
          omega (arith, length-append bs cs) in
        bind-ok m f r _ a (first.at r (cs ++ rest) e s le joined)
        ∙ second.at (record r { position = r.position + length bs }) rest e s
            (fits r bs (cs ++ rest) le joined) (behind r bs (cs ++ rest) joined)
        ∙ ap (λ (p : ℕ). (ok b, record r { position = p })) len;
  }

  -- The last step of a record's decoder.
  pub Reads-map :
      (m : Exec Reader A) (f : A → B) (bs : List ℕ) (a : A)
      → Reads v m bs a
      → Reads v (m >>= λ x. pure (f x)) bs (f a)
  Reads-map m f bs a first =
      subst (λ (t : List ℕ). Reads v (m >>= λ x. pure (f x)) t (f a)) (append-nil bs)
        (Reads-bind m (λ x. pure (f x)) bs [] a (f a) first (Reads-pure v (f a)))

pub Reads-take_bytes : (v : ProtocolVersion) (bs : List ℕ) → Reads v (take_bytes (length bs)) bs bs
unfolding take_bytes
Reads-take_bytes v bs = record {
  at = λ r rest e s le h.
      let in_range = fits r bs rest le h in
      let small : leb Reader.usize_modulus (r.position + length bs) ≡ false =
        lt→leb _ _ (omega arith) in
      let there : ltb (length r.bytes) (r.position + length bs) ≡ false = le→ltb _ _ in_range in
      let read : take (length bs) (drop r.position r.bytes) ≡ bs =
        ap (take (length bs)) h ∙ take-append bs rest in
      rw (small, there, read);
}

pub Reads-u8 : (v b : ℕ) → Reads v Reader.u8 (b ∷ []) b
unfolding Reader.u8
Reads-u8 v b = record {
  at = λ r rest e s le h.
      bind-ok (take_bytes 1) _ r _ (b ∷ []) ((Reads-take_bytes v (b ∷ [])).at r rest e s le h);
}

-- A take, and a last check of its result that passes.
Reads-checked :
    {A : Type 0} (v : ProtocolVersion) (bs : List ℕ) (check : List ℕ → Exec Reader A) (a : A)
    → check bs ≡ pure a
    → Reads v (take_bytes (length bs) >>= check) bs a
Reads-checked v bs check a e =
    subst (λ (t : List ℕ). Reads v (take_bytes (length bs) >>= check) t a) (append-nil bs)
      (Reads-bind (take_bytes (length bs)) check bs [] bs a (Reads-take_bytes v bs)
        (subst (λ (m : Exec Reader _). Reads v m [] a) (sym e) (Reads-pure v a)))

sized_passes : (bs : List ℕ) → Reader.sized (length bs) bs ≡ pure (from_le_bytes bs)
unfolding Reader.sized
sized_passes bs = rw ==_refl

pub Reads-u16 : (v x : ℕ) → x < 2 ^ 16 → Reads v Reader.u16 (to_le_bytes 2 x) x
unfolding Reader.u16
Reads-u16 v x h =
    let bs = to_le_bytes 2 x in
    Reads-checked v bs (Reader.sized 2) x
      (sized_passes bs ∙ ap pure (from_le_bytes-to_le_bytes 2 x h))

pub Reads-u32 : (v x : ℕ) → x < 2 ^ 32 → Reads v Reader.u32 (to_le_bytes 4 x) x
unfolding Reader.u32
Reads-u32 v x h =
    let bs = to_le_bytes 4 x in
    Reads-checked v bs (Reader.sized 4) x
      (sized_passes bs ∙ ap pure (from_le_bytes-to_le_bytes 4 x h))

pub Reads-array : (v : ProtocolVersion) (bs : List ℕ) → Reads v (Reader.array (length bs)) bs bs
unfolding Reader.array
Reads-array v bs =
    Reads-checked v bs
      (λ bytes.
        if length bytes == length bs
        then pure bytes
        else raise (truncated_frame (length bs) (length bytes)))
      bs (rw ==_refl)

pub Reads-length_prefixed :
    (v : ProtocolVersion) (bs : List ℕ) → Reads v Reader.length_prefixed (length bs ∷ bs) bs
unfolding Reader.length_prefixed
Reads-length_prefixed v bs =
    Reads-bind Reader.u8 take_bytes (length bs ∷ []) bs (length bs) bs (Reads-u8 v (length bs))
      (Reads-take_bytes v bs)

-- Writes.
module _ {v : ProtocolVersion} where
  pub Writes->> :
      (m n : Exec Writer (Unit {0})) (bs cs : List ℕ)
      → Writes v m bs
      → Writes v n cs
      → Writes v (m >> n) (bs ++ cs)
  Writes->> m n bs cs first second = record {
    at = λ w e.
        bind-ok m (λ _. n) w _ tt (first.at w e)
        ∙ second.at (record w { bytes = w.bytes ++ bs }) e
        ∙ ap (λ (t : List ℕ). (ok tt, record w { bytes = t })) (append_assoc w.bytes bs cs);
  }

pub Writes-u8 : (v b : ℕ) → Writes v (Writer.u8 b) (b ∷ [])
unfolding Writer.u8
Writes-u8 v b = record { at = λ w e. refl }

pub Writes-u16 : (v x : ℕ) → Writes v (Writer.u16 x) (to_le_bytes 2 x)
unfolding Writer.u16
Writes-u16 v x = record { at = λ w e. refl }

pub Writes-u32 : (v x : ℕ) → Writes v (Writer.u32 x) (to_le_bytes 4 x)
unfolding Writer.u32
Writes-u32 v x = record { at = λ w e. refl }

pub Writes-put_bytes : (v : ProtocolVersion) (bs : List ℕ) → Writes v (Writer.put_bytes bs) bs
unfolding Writer.put_bytes
Writes-put_bytes v bs = record { at = λ w e. refl }

pub Writes-pure : (v : ProtocolVersion) → Writes v (pure tt) []
Writes-pure v = record { at = λ w e. rw append-nil }

pub Writes-length_prefixed :
    (v : ProtocolVersion) (bs : List ℕ)
    → length bs ≤ 255
    → Writes v (Writer.length_prefixed bs) (length bs ∷ bs)
unfolding Writer.length_prefixed
Writes-length_prefixed v bs h = record {
  at = λ w e.
      let small : ltb 255 (length bs) ≡ false = le→ltb _ _ h in
      rw small (
        ap (λ (t : List ℕ). (ok tt, record w { bytes = t }))
          (append_assoc w.bytes (length bs ∷ []) bs));
}
