-- ===== src/Ncp/Chunking.antt =====
-- Read boundaries do not matter to the runtime either.
use rsezsp.Prelude.{
  ℕ, List, [], ◌∷◌, ◌++◌, Option, none, some, Result, ok, err, ◌≡◌, refl, sym, ap, ◌∙◌, arith,
}
use mathlib.Core.Path.{subst}
use rsezsp.Ash.Error.{AshError}
use rsezsp.Ash.Codec.{Decoder, Decoded, frame, rejected, encode, feed}
use rsezsp.Ash.Codec.Stream.{feed-append}
use rsezsp.Ash.Connection.{Outbound, send, nothing, on_frame, on_decode_failure}
use rsezsp.Ezsp.Error.{EzspError}
use rsezsp.Ezsp.Exec.{Exec, after, ◌>>◌}
use rsezsp.Ezsp.Callback.{Callback, decode}
use rsezsp.Ezsp.Frame.{Frame, parse}
use rsezsp.Ezsp.Correlation.{Classified, answer, callback, stale, classify}
use rsezsp.Ncp.Transport.{Transport}
use rsezsp.Ncp.Runtime.{
  Ncp, format_or_extended, keep_callback, act_on, dispatch_parsed, dispatch, write_encoded,
  write_frame, reply, deliver, handle, handle_all, consume,
}

module _ {T : Type 0} (d : Decoder) where
  abbrev placed : Ncp T → Ncp T
  placed n = record n { decoder = d }

  abbrev placed_in : Result (Unit {0}) EzspError × Ncp T → Result (Unit {0}) EzspError × Ncp T
  placed_in (r, n) = (r, placed n)

  keep_callback-placed :
      (n : Ncp T) (r : Result Callback EzspError)
      → keep_callback r (placed n) ≡ placed (keep_callback r n)
  unfolding keep_callback
  keep_callback-placed n (ok what) = refl
  keep_callback-placed n (err e) = refl

  act_on-placed : (n : Ncp T) (what : Classified) → act_on what (placed n) ≡ placed (act_on what n)
  unfolding act_on
  act_on-placed n (answer parameters) = refl
  act_on-placed n (callback id parameters) = keep_callback-placed n (decode id parameters n.version)
  act_on-placed n (stale id sequence) = refl

  dispatch_parsed-placed :
      (n : Ncp T) (r : Result Frame EzspError)
      → dispatch_parsed r (placed n) ≡ placed (dispatch_parsed r n)
  unfolding dispatch_parsed
  dispatch_parsed-placed n (ok f) =
      let (c, what) = classify n.correlator f in act_on-placed (record n { correlator = c }) what
  dispatch_parsed-placed n (err e) = refl

  dispatch-placed :
      (n : Ncp T) (payload : List ℕ) → dispatch payload (placed n) ≡ placed (dispatch payload n)
  unfolding dispatch
  dispatch-placed n payload =
      dispatch_parsed-placed n (parse payload (format_or_extended n.pending_format))

module _ {T : Type 0} (port : Transport T) where
  module _ (d : Decoder) where
    deliver-placed :
        (n : Ncp T) (o : Option (List ℕ))
        → deliver port o (placed d n) ≡ placed_in d (deliver port o n)
    unfolding deliver
    deliver-placed n (some payload) = rw (dispatch-placed d n payload) refl
    deliver-placed n none = refl

    write_encoded-placed :
        (n : Ncp T) (r : Result (List ℕ) AshError)
        → write_encoded port r (placed d n) ≡ placed_in d (write_encoded port r n)
    unfolding write_encoded
    write_encoded-placed n (ok bytes) = refl
    write_encoded-placed n (err e) = refl

    reply-placed :
        (n : Ncp T) (o : Outbound) → reply port o (placed d n) ≡ placed_in d (reply port o n)
    unfolding reply write_frame
    reply-placed n (send f) = write_encoded-placed n (encode f)
    reply-placed n nothing = refl

    -- A step that does not look at the decoder, and what follows it.
    then-placed :
        (next : Exec (Ncp T) (Unit {0})) (x : Result (Unit {0}) EzspError × Ncp T)
        → ((n : Ncp T) → next (placed d n) ≡ placed_in d (next n))
        → after (λ _. next) x.0 (placed d x.1) ≡ placed_in d (after (λ _. next) x.0 x.1)
    then-placed next (ok taken, n) h = h n
    then-placed next (err e, n) h = refl

    handle-placed :
        (n : Ncp T) (what : Decoded)
        → handle port what (placed d n) ≡ placed_in d (handle port what n)
    unfolding handle
    handle-placed n (frame f) =
        let (c, payload, outbound) = on_frame n.ash f in
        let m : Ncp T = record n { ash = c } in
        ap (λ (x : Result (Unit {0}) EzspError × Ncp T). after (λ _. deliver port payload) x.0 x.1)
          (reply-placed m outbound)
        ∙ then-placed (deliver port payload) (reply port outbound m) (λ n. deliver-placed n payload)
    handle-placed n (rejected e) =
        let (c, outbound) = on_decode_failure n.ash e in
        reply-placed (record n { ash = c }) outbound

    handle_all-placed :
        (n : Ncp T) (xs : List Decoded)
        → handle_all port xs (placed d n) ≡ placed_in d (handle_all port xs n)
    unfolding handle_all
    handle_all-placed n [] = refl
    handle_all-placed n (x ∷ xs) =
        ap (λ (y : Result (Unit {0}) EzspError × Ncp T). after (λ _. handle_all port xs) y.0 y.1)
          (handle-placed n x)
        ∙ then-placed (handle_all port xs) (handle port x n) (λ n. handle_all-placed n xs)

  after-after :
      (f g : Exec (Ncp T) (Unit {0})) (h : Exec (Ncp T) (Unit {0}))
      (x : Result (Unit {0}) EzspError × Ncp T)
      → ((n : Ncp T) → h n ≡ (f >> g) n)
      → after (λ _. h) x.0 x.1
        ≡ after (λ _. g) (after (λ _. f) x.0 x.1).0 (after (λ _. f) x.0 x.1).1
  after-after f g h (ok taken, n) e = e n
  after-after f g h (err e', n) e = refl

  handle_all-append :
      (xs ys : List Decoded) (n : Ncp T)
      → handle_all port (xs ++ ys) n ≡ (handle_all port xs >> handle_all port ys) n
  unfolding handle_all
  handle_all-append [] ys n = refl
  handle_all-append (x ∷ xs) ys n =
      after-after (handle_all port xs) (handle_all port ys) (handle_all port (xs ++ ys))
        (handle port x n) (λ n. handle_all-append xs ys n)

  -- What two reads and what one read make of `x`, which the results of the first bytes gave.
  abbrev Agrees :
      Result (Unit {0}) EzspError × Ncp T
      → Result (Unit {0}) EzspError × Ncp T
      → Result (Unit {0}) EzspError × Ncp T
      → Type 0
  Agrees first both joined = (first.0 ≡ ok tt → joined ≡ both) × (joined.0 ≡ both.0)

  agree_after :
      (ys : List ℕ) (d : Decoder) (x : Result (Unit {0}) EzspError × Ncp T)
      → Agrees
          (placed_in d x)
          (after (λ _. consume port ys) x.0 (placed d x.1))
          (after (λ _. handle_all port (feed d ys).1) x.0 (placed (feed d ys).0 x.1))
  unfolding consume
  agree_after ys d (ok taken, n) = (λ _. refl, refl)
  agree_after ys d (err e, n) = (λ h. absurd (ground (arith, h)), refl)

  -- Bytes that are read in two parts do what they do when they are read at once, whatever they
  -- hold: the outcome is the same, and where the first part raises no error so are the runtime,
  -- what was written, and the callbacks and the response that were kept.
  pub consume_append :
      (xs ys : List ℕ) (n : Ncp T)
      → ((consume port xs n).0 ≡ ok tt
          → consume port (xs ++ ys) n ≡ (consume port xs >> consume port ys) n)
        × ((consume port (xs ++ ys) n).0 ≡ ((consume port xs >> consume port ys) n).0)
  unfolding consume
  consume_append xs ys n =
      let (d, out) = feed n.decoder xs in
      let (d', out') = feed d ys in
      let y = handle_all port out n in
      let joined = after (λ _. handle_all port out') y.0 (placed d' y.1) in
      let first : consume port xs n ≡ placed_in d y = handle_all-placed d n out in
      let at_once : consume port (xs ++ ys) n ≡ joined =
        ap (λ (t : Decoder × List Decoded). handle_all port t.1 (placed t.0 n))
          (feed-append n.decoder xs ys)
        ∙ handle_all-append out out' (placed d' n)
        ∙ ap
            (λ (t : Result (Unit {0}) EzspError × Ncp T). after (λ _. handle_all port out') t.0 t.1)
            (handle_all-placed d' n out) in
      subst
        (λ (j : Result (Unit {0}) EzspError × Ncp T).
          Agrees (consume port xs n) ((consume port xs >> consume port ys) n) j)
        (sym at_once)
        (subst
          (λ (f : Result (Unit {0}) EzspError × Ncp T).
            Agrees f (after (λ _. consume port ys) f.0 f.1) joined)
          (sym first) (agree_after ys d y))
