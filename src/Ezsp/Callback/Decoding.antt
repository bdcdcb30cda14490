-- ===== src/Ezsp/Callback/Decoding.antt =====
-- What `Callback::decode` gives of parameters, well formed or not.
use rsezsp.Prelude.{ℕ, ◌^◌, ◌<◌, List, ◌++◌, Result, ok, err, length, ◌≡◌, refl, arith, ap}
use mathlib.Core.Path.{subst}
use rsezsp.Ezsp.FrameId.{
  FrameId, stack_status_handler, trust_center_join_handler, message_sent_handler,
  incoming_message_handler,
}
use rsezsp.Ezsp.Error.{EzspError}
use rsezsp.Ezsp.Version.{ProtocolVersion}
use rsezsp.Ezsp.Exec.{Exec, pure, after, ◌>>=◌}
use rsezsp.Ezsp.Codec.Reader
use rsezsp.Ezsp.Codec.Reader.{Reader}
use rsezsp.Ezsp.Codec.Writer
use rsezsp.Types.Fields.{read_back}
use rsezsp.Types.Status
use rsezsp.Types.Network.{decode_node_id, decode_eui64}
use rsezsp.Types.Aps.{decode_aps_frame}
use rsezsp.Ezsp.Callback.{
  Callback, stack_status, trust_center_join, incoming_message, message_sent, unknown, decode,
  frame_id, read_stack_status, read_trust_center_join, read_incoming_message, read_message_sent,
  read_message_tag,
}
use rsezsp.Ezsp.Callback.Layout.{
  put_callback, Fits, Travels-stack_status, Travels-trust_center_join, Travels-incoming_message,
  Travels-message_sent,
}

-- Every callback of a kind that the crate knows, with fields that fit their widths, laid out as
-- the NCP lays it out at the version and with more bytes behind it, is decoded to that callback.
pub decode-put_callback :
    (v : ProtocolVersion) (cb : Callback) (rest : List ℕ)
    → Fits v cb
    → let parameters = (put_callback cb (Writer.new v)).1.bytes ++ rest in
      length parameters < 2 ^ 64 → decode (frame_id cb) parameters v ≡ ok cb
unfolding decode frame_id
decode-put_callback v (stack_status code) rest h small =
    ap (λ p. p.0) (read_back (Travels-stack_status v code h) rest small)
decode-put_callback v (trust_center_join n e u d p) rest h small =
    ap (λ p. p.0) (read_back (Travels-trust_center_join v n e u d p h) rest small)
decode-put_callback v (incoming_message t f l r s b a p) rest h small =
    ap (λ p. p.0) (read_back (Travels-incoming_message v t f l r s b a p h) rest small)
decode-put_callback v (message_sent t d f g c p) rest h small =
    ap (λ p. p.0) (read_back (Travels-message_sent v t d f g c p h) rest small)
decode-put_callback v (unknown id parameters) rest h small = absurd h

-- Whatever a successful run returns has the property.
record Returns {A : Type 0} (P : A → Type 0) (m : Exec Reader A) : Type 0 where
  at : (r : Reader) (a : A) → (m r).0 ≡ ok a → P a

Returns-after :
    {A B : Type 0} (P : B → Type 0) (f : A → Exec Reader B)
    → ((a : A) → Returns P (f a))
    → (r : Result A EzspError) (s : Reader) (b : B) → (after f r s).0 ≡ ok b
    → P b
Returns-after P f h (ok a) s b e = (h a).at s b e
Returns-after P f h (err x) s b e = absurd (ground arith)

Returns-bind :
    {A B : Type 0} (P : B → Type 0) (m : Exec Reader A) (f : A → Exec Reader B)
    → ((a : A) → Returns P (f a))
    → Returns P (m >>= f)
Returns-bind P m f h = record { at = λ r b e. Returns-after P f h (m r).0 (m r).1 b e }

Returns-pure : {A : Type 0} (P : A → Type 0) (x : A) → P x → Returns P (pure x)
Returns-pure P x h = record { at = λ r a e. let same : x ≡ a = ground arith in subst P same h }

IsOf : FrameId → Callback → Type 0
IsOf id cb = frame_id cb ≡ id

Returns-stack_status : Returns (IsOf stack_status_handler) read_stack_status
unfolding read_stack_status IsOf frame_id
Returns-stack_status = Returns-bind _ Status.decode _ λ _. Returns-pure _ _ refl

Returns-trust_center_join : Returns (IsOf trust_center_join_handler) read_trust_center_join
unfolding read_trust_center_join IsOf frame_id
Returns-trust_center_join = Returns-bind _ decode_node_id _ λ _. Returns-bind _ decode_eui64 _ λ _.
    Returns-bind _ Reader.u8 _ λ _.
      Returns-bind _ Reader.u8 _ λ _. Returns-bind _ decode_node_id _ λ _. Returns-pure _ _ refl

Returns-message_sent : Returns (IsOf message_sent_handler) read_message_sent
unfolding read_message_sent IsOf frame_id
Returns-message_sent = Returns-bind _ Reader.u8 _ λ _. Returns-bind _ Reader.u16 _ λ _.
    Returns-bind _ decode_aps_frame _ λ _. Returns-bind _ read_message_tag _ λ _.
      Returns-bind _ Status.decode _
        λ _. Returns-bind _ Reader.length_prefixed _ λ _. Returns-pure _ _ refl

Returns-incoming_message : Returns (IsOf incoming_message_handler) read_incoming_message
unfolding read_incoming_message IsOf frame_id
Returns-incoming_message = Returns-bind _ Reader.u8 _ λ _. Returns-bind _ decode_aps_frame _ λ _.
    Returns-bind _ Reader.u8 _ λ _. Returns-bind _ Reader.u8 _ λ _.
      Returns-bind _ decode_node_id _ λ _. Returns-bind _ Reader.u8 _ λ _.
        Returns-bind _ Reader.u8 _
          λ _. Returns-bind _ Reader.length_prefixed _ λ _. Returns-pure _ _ refl

-- A callback that was decoded belongs to the frame it came in, whatever its parameters were.
pub decode-frame_id :
    (id : FrameId) (parameters : List ℕ) (v : ProtocolVersion) (cb : Callback)
    → decode id parameters v ≡ ok cb
    → frame_id cb ≡ id
unfolding decode frame_id IsOf
decode-frame_id id parameters v cb h = ground (
  arith,
  Returns-stack_status.at (Reader.new parameters v) cb,
  Returns-trust_center_join.at (Reader.new parameters v) cb,
  Returns-message_sent.at (Reader.new parameters v) cb,
  Returns-incoming_message.at (Reader.new parameters v) cb,
)
