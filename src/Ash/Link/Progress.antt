-- ===== src/Ash/Link/Progress.antt =====
-- A link can always be brought to rest: a schedule of timeouts and arrivals that empties the window.
use rsezsp.Prelude.{
  ℕ, zero, suc, ◌+◌, ◌-◌, ◌%◌, ◌≤◌, ◌<◌, List, [], ◌∷◌, ◌++◌, true, false, length, drop, All,
  All-drop, arith, ◌≡◌, inl, inr, refl, sym, ap, ◌∙◌, append-nil, length-drop,
}
use mathlib.Core.Path.{subst}
use rsezsp.Ash.Frame.{AshFrame, data_frame, ack}
use rsezsp.Ash.Connection.{InFlight, Connection, send, retire_acknowledged, on_frame}
use rsezsp.Ash.Connection.Window.{Numbered, retire_acknowledged_exact}
use rsezsp.Ash.Connection.Limits.{retransmit_sent}
use rsezsp.Ash.Link.{
  Link, joined, expire, arrive, answer, expires, arrives, loses, answers, loses_answer, Run, done,
  next,
}
use rsezsp.Ash.Link.Channels.{Back-le, Forth-le}
use rsezsp.Ash.Link.Sender.{payloads_of, Sends, again-Sends}
use rsezsp.Ash.Link.Receiver.{receive_data}
use rsezsp.Ash.Link.Invariant.{IsSound, joined-IsSound}
use rsezsp.Ash.Link.Runs.{Run-IsSound}
use rsezsp.Ash.Link.Reliability.{Owes, IsSound-Owes}

join : {l m n : Link} → Run l m → Run m n → Run l n
join r (done m) = r
join r (next s t) = next (join r s) t

drain_back : (l : Link) (fs : List AshFrame) → l.back ≡ fs → Run l (record l { back = [] })
drain_back l [] e = subst (λ (t : List AshFrame). Run l (record l { back = t })) e (done l)
drain_back l (f ∷ fs) e =
    join (next (done l) (loses_answer l f fs e)) (drain_back (record l { back = fs }) fs refl)

drain_forth : (l : Link) (fs : List AshFrame) → l.forth ≡ fs → Run l (record l { forth = [] })
drain_forth l [] e = subst (λ (t : List AshFrame). Run l (record l { forth = t })) e (done l)
drain_forth l (f ∷ fs) e =
    join (next (done l) (loses l f fs e)) (drain_forth (record l { forth = fs }) fs refl)

-- Everything under way is lost.
drain : (l : Link) → Run l (record l { forth = []; back = [] })
drain l = join (drain_forth l l.forth refl) (drain_back (record l { forth = [] }) l.back refl)

-- Nothing is under way.
pub IsQuiet : Link → Type 0
IsQuiet l = (l.forth ≡ []) × (l.back ≡ [])

-- A run that only shortens the queue `q`.
record Shortens (l : Link) (q : List InFlight) : Type 0 where
  pub after : Link
  pub run : Run l after
  pub quiet : IsQuiet after
  pub sent : after.sent ≡ l.sent
  pub dropped : ℕ
  pub left : after.sender.in_flight ≡ drop dropped q

retired_left :
    (sent : List (List ℕ)) (base z : ℕ) (c : Connection) (x : InFlight) (q : List InFlight)
    → Sends sent base c
    → c.in_flight ≡ x ∷ q
    → base < z
    → z ≤ length sent
    → (retire_acknowledged c (z % 8)).in_flight ≡ drop (z - base - 1) q
retired_left sent base z c x q v e lo hi =
    let at : base + suc (z - base - 1) ≡ z = omega arith in
    let exact =
      retire_acknowledged_exact c base (suc (z - base - 1)) v.window v.bounded
        (omega (arith, v.total, v.bounded)) in
    ap (λ (d : Connection). d.in_flight) (rw at at exact) ∙ ap (drop (suc (z - base - 1))) e

-- One timeout, after which the frame and then the answer to it arrive.
module _ (l : Link) (x : InFlight) (q : List InFlight) (v : IsSound l) (quiet : IsQuiet l)
    (e : l.sender.in_flight ≡ x ∷ q) (more : x.sends < 3) where
  abbrev sender_after : Connection
  sender_after = record l.sender { in_flight = record x { sends = x.sends + 1 } ∷ q }

  abbrev frame_again : AshFrame
  frame_again = data_frame (v.base % 8) l.sender.next_rx_frame true x.payload

  abbrev expired : Link
  expired = record l { sender = sender_after; forth = frame_again ∷ [] }

  expires_so : Run l expired
  unfolding expire IsQuiet
  expires_so =
      let w : Numbered v.base (x ∷ q) = rw e at v.sends.window in
      let same : expire l ≡ expired = rw (retransmit_sent l.sender x q e more, quiet.0, w.0) refl in
      subst (Run l) same (next (done l) (expires l))

  -- Whatever number the receiver expects then, it acknowledges the frame.
  answered :
      (z : ℕ)
      → v.base < z
      → z ≤ length l.sent
      → (on_frame l.receiver frame_again).2 ≡ send (ack (z % 8) false)
      → Shortens l q
  unfolding arrive answer IsQuiet on_frame
  answered z lo hi reply =
      let arrived : Link = arrive expired frame_again [] in
      let line : arrived.back ≡ ack (z % 8) false ∷ [] = rw (reply, quiet.1) refl in
      let sends = again-Sends l.sent v.base l.sender x q v.sends e more in
      record {
        after = answer arrived (ack (z % 8) false) [];
        run =
            next (next expires_so (arrives expired frame_again [] refl))
              (answers arrived (ack (z % 8) false) [] line);
        quiet = (refl, refl);
        sent = refl;
        dropped = z - v.base - 1;
        left =
            retired_left l.sent v.base z sender_after (record x { sends = x.sends + 1 }) q sends
              refl lo hi;
      }

  round : Shortens l q
  round =
      let low = Back-le v.back in
      let high = Forth-le l.sent v.forth in
      let len : length l.sender.in_flight ≡ length (x ∷ q) = ap length e in
      let below : v.base < length l.sent = omega (arith, v.sends.total, len) in
      elim (receive_data l.receiver v.expected v.base l.sender.next_rx_frame true x.payload v.takes
        (omega (arith, high, v.sends.total, v.sends.bounded)) (omega (arith, low))) [
          | inl (same, takes, given, reply) ↦
              answered (v.expected + 1) (omega arith) (omega arith) reply
          | inr (other, takes, given, reply) ↦
              answered v.expected (ground (arith, low, other)) high reply
        ]

IsFresh : InFlight → Type 0
IsFresh x = x.sends < 3

-- A link at rest, with the same payloads sent.
record Settles (l : Link) : Type 0 where
  pub after : Link
  pub run : Run l after
  pub quiet : IsQuiet after
  pub sent : after.sent ≡ l.sent
  pub empty : after.sender.in_flight ≡ []

settle :
    (n : ℕ) (l : Link) (q : List InFlight)
    → IsSound l
    → IsQuiet l
    → l.sender.in_flight ≡ q
    → length q ≤ n
    → All IsFresh q
    → Settles l
unfolding IsFresh
settle n l [] v quiet e h fresh = record {
  after = l;
  run = done l;
  quiet = quiet;
  sent = refl;
  empty = e;
}
settle zero l (x ∷ q) v quiet e h fresh = absurd (omega arith)
settle (suc n) l (x ∷ q) v quiet e h fresh =
    let r = round l x q v quiet e fresh.0 in
    let len = length-drop r.dropped q in
    let s =
      settle n r.after (drop r.dropped q) (Run-IsSound r.run v) r.quiet r.left (omega (arith, len))
        (All-drop IsFresh r.dropped q fresh.1) in
    record {
      after = s.after;
      run = join r.run s.run;
      quiet = s.quiet;
      sent = s.sent ∙ r.sent;
      empty = s.empty;
    }

Owes-empty : (l : Link) → Owes l → l.sender.in_flight ≡ [] → l.sent ≡ l.given
Owes-empty l (k, low, e) empty =
    e ∙ rw empty (ap (λ (t : List (List ℕ)). l.given ++ t) (nothing_left k) ∙ append-nil l.given)
  where
    nothing_left : (k : ℕ) → payloads_of (drop k []) ≡ []
    nothing_left zero = refl
    nothing_left (suc k) = refl

-- However a run of two connections over a line that loses and garbles frames went, and whatever is
-- under way: while no frame in flight was sent three times, some further run hands on every
-- accepted payload, with nothing in flight and nothing under way.
pub link_completes :
    (c d : Connection) (l : Link)
    → Run (joined c d) l
    → All (λ (x : InFlight). x.sends < 3) l.sender.in_flight
    → (m : Link) × Run l m
      × (m.sent ≡ l.sent)
      × (m.given ≡ l.sent)
      × (m.sender.in_flight ≡ [])
      × (m.forth ≡ [])
      × (m.back ≡ [])
unfolding IsFresh IsQuiet
link_completes c d l r fresh =
    let start : Link = record l { forth = []; back = [] } in
    let sound = joined-IsSound c d in
    let before = Run-IsSound (join r (drain l)) sound in
    let s =
      settle (length l.sender.in_flight) start l.sender.in_flight before (refl, refl) refl
        (omega arith) fresh in
    let all = Owes-empty s.after (IsSound-Owes (Run-IsSound s.run before)) s.empty in
    (s.after, join (drain l) s.run, s.sent, sym all ∙ s.sent, s.empty, s.quiet.0, s.quiet.1)
