-- ===== src/Types/Fields.antt =====
-- A value that a write puts on the wire and a read takes off it again, field by field.
use rsezsp.Prelude.{
  ℕ, ◌^◌, ◌<◌, ◌≤◌, Bool, true, false, Bool-cases, inl, inr, if◌then◌else◌, List, ◌++◌, ok, length,
  ◌≡◌, refl, ap, ◌∙◌, arith,
}
use mathlib.Core.Path.{subst}
use rsezsp.Ezsp.Version.{ProtocolVersion}
use rsezsp.Ezsp.Exec.{Exec, pure, ◌>>=◌, ◌>>◌}
use rsezsp.Ezsp.Codec.Reader
use rsezsp.Ezsp.Codec.Reader.{Reader}
use rsezsp.Ezsp.Codec.Writer
use rsezsp.Ezsp.Codec.Writer.{Writer}
use rsezsp.Ezsp.Codec.Steps.{
  Reads, Writes, Reads-bind, Reads-map, Reads-u8, Reads-u16, Reads-u32, Reads-array,
  Reads-length_prefixed, Writes->>, Writes-u8, Writes-u16, Writes-u32, Writes-put_bytes,
  Writes-length_prefixed,
}

pub record Travels {A : Type 0} (v : ProtocolVersion) (write : Exec Writer (Unit {0}))
    (read : Exec Reader A) (a : A) : Type 0 where
  pub wire : List ℕ
  pub written : Writes v write wire
  pub read_off : Reads v read wire a

module _ {A B : Type 0} {v : ProtocolVersion} where
  pub Travels->> :
      {write : Exec Writer (Unit {0})} {more : Exec Writer (Unit {0})} {read : Exec Reader A}
      {a : A} {b : B} (next : A → Exec Reader B)
      → Travels v write read a
      → Travels v more (next a) b
      → Travels v (write >> more) (read >>= next) b
  Travels->> next t u = record {
    wire = t.wire ++ u.wire;
    written = Writes->> _ _ t.wire u.wire t.written u.written;
    read_off = Reads-bind _ _ t.wire u.wire _ _ t.read_off u.read_off;
  }

  -- The last field of a record.
  pub Travels-map :
      {write : Exec Writer (Unit {0})} {read : Exec Reader A} {a : A} (build : A → B)
      → Travels v write read a
      → Travels v write (read >>= λ x. pure (build x)) (build a)
  Travels-map build t = record {
    wire = t.wire;
    written = t.written;
    read_off = Reads-map _ _ t.wire _ t.read_off;
  }

module _ {v : ProtocolVersion} where
  pub Travels-u8 : (b : ℕ) → Travels v (Writer.u8 b) Reader.u8 b
  Travels-u8 b = record { wire = _; written = Writes-u8 v b; read_off = Reads-u8 v b }

  pub Travels-u16 : (x : ℕ) → x < 2 ^ 16 → Travels v (Writer.u16 x) Reader.u16 x
  Travels-u16 x h = record { wire = _; written = Writes-u16 v x; read_off = Reads-u16 v x h }

  pub Travels-u32 : (x : ℕ) → x < 2 ^ 32 → Travels v (Writer.u32 x) Reader.u32 x
  Travels-u32 x h = record { wire = _; written = Writes-u32 v x; read_off = Reads-u32 v x h }

  pub Travels-array :
      (n : ℕ) (bs : List ℕ) → length bs ≡ n → Travels v (Writer.put_bytes bs) (Reader.array n) bs
  Travels-array n bs h = record {
    wire = bs;
    written = Writes-put_bytes v bs;
    read_off = subst (λ (k : ℕ). Reads v (Reader.array k) bs bs) h (Reads-array v bs);
  }

pub Travels-length_prefixed :
    {v : ProtocolVersion} (bs : List ℕ)
    → length bs ≤ 255
    → Travels v (Writer.length_prefixed bs) Reader.length_prefixed bs
Travels-length_prefixed {v = v} bs h = record {
  wire = _;
  written = Writes-length_prefixed v bs h;
  read_off = Reads-length_prefixed v bs;
}

-- A choice by the version, which the writer and the reader make alike.
pub Travels-choice :
    {A : Type 0} {v : ProtocolVersion} (test : ProtocolVersion → Bool)
    {write other_write : Exec Writer (Unit {0})} {read other_read : Exec Reader A} {a : A}
    → (test v ≡ true → Travels v write read a)
    → (test v ≡ false → Travels v other_write other_read a)
    → Travels v
        (λ w. if test w.version then write w else other_write w)
        (λ r. if test r.version then read r else other_read r)
        a
Travels-choice {v = v} test wide narrow = elim (Bool-cases (test v)) [
  | inl e ↦
      let t = wide e in
      record {
        wire = t.wire;
        written = record {
          at = λ w same.
              let here : test w.version ≡ true = ap test same ∙ e in rw here (t.written.at w same);
        };
        read_off = record {
          at = λ r rest same.
              let here : test r.version ≡ true = ap test same ∙ e in
              rw here (t.read_off.at r rest same);
        };
      }
  | inr e ↦
      let t = narrow e in
      record {
        wire = t.wire;
        written = record {
          at = λ w same.
              let here : test w.version ≡ false = ap test same ∙ e in rw here (t.written.at w same);
        };
        read_off = record {
          at = λ r rest same.
              let here : test r.version ≡ false = ap test same ∙ e in
              rw here (t.read_off.at r rest same);
        };
      }
]

-- What a reader over what was written, and anything behind it, gives.
pub read_back :
    {A : Type 0} {v : ProtocolVersion} {write : Exec Writer (Unit {0})} {read : Exec Reader A}
    {a : A}
    → Travels v write read a
    → (rest : List ℕ) → length ((write (Writer.new v)).1.bytes ++ rest) < 2 ^ 64
    → read (Reader.new ((write (Writer.new v)).1.bytes ++ rest) v) ≡ (
      ok a,
      record (Reader.new ((write (Writer.new v)).1.bytes ++ rest) v) {
        position = length (write (Writer.new v)).1.bytes;
      },
    )
read_back {v = v} {write = write} {a = a} t rest small =
    let same : (write (Writer.new v)).1.bytes ≡ t.wire =
      ap (λ p. p.1.bytes) (t.written.at (Writer.new v) refl) in
    t.read_off.at (Reader.new ((write (Writer.new v)).1.bytes ++ rest) v) rest refl small
      (omega arith) (ap (λ (bs : List ℕ). bs ++ rest) same)
    ∙ ap
        (λ (n : ℕ).
          (ok a, record (Reader.new ((write (Writer.new v)).1.bytes ++ rest) v) { position = n }))
        (omega (arith, ap (length {A = ℕ}) same))
