-- ===== src/Ash/Link/Answering.antt =====
-- Answers that arrive at the sending end, whole or garbled, or are lost.
use rsezsp.Prelude.{◌%◌, ◌≤◌, List, ◌∷◌, false, length, arith, refl, Bool-cases, inl, inr}
use rsezsp.Ash.Error.{AshError, is_recoverable_by_nak}
use rsezsp.Ash.Frame.{AshFrame}
use rsezsp.Ash.Connection.{Connection, retire_acknowledged, on_frame, on_decode_failure}
use rsezsp.Ash.Link.{Link, answer, answer_garbled}
use rsezsp.Ash.Link.Channels.{complaint, Back, accept, Forth-le, Forth-complain, Back-le, Back-tail}
use rsezsp.Ash.Link.Sender.{retire-Sends, retransmit-Sends}
use rsezsp.Ash.Link.Invariant.{IsSound}

pub answer-IsSound :
    (l : Link) (f : AshFrame) (rest : List AshFrame) (v : IsSound l)
    → Back v.base v.expected (f ∷ rest)
    → IsSound (answer l f rest)
unfolding answer on_frame
answer-IsSound l f rest v (accept z n le g) =
    let high : z ≤ length l.sent = omega (arith, Back-le g, Forth-le l.sent v.forth) in
    record {
      base = z;
      expected = v.expected;
      sends = retire-Sends l.sent v.base z l.sender v.sends le high;
      takes = v.takes;
      forth = v.forth;
      back = g;
      given = v.given;
    }
answer-IsSound l f rest v (complaint z n le g) =
    let high : z ≤ length l.sent = omega (arith, Back-le g, Forth-le l.sent v.forth) in
    let c : Connection = retire_acknowledged l.sender (z % 8) in
    let (sends, forth) =
      retransmit-Sends l.sent z v.expected c l.forth c.in_flight refl
        (retire-Sends l.sent v.base z l.sender v.sends le high) v.forth in
    record {
      base = z;
      expected = v.expected;
      sends = sends;
      takes = v.takes;
      forth = forth;
      back = g;
      given = v.given;
    }

pub lose_answer-IsSound :
    (l : Link) (f : AshFrame) (rest : List AshFrame) (v : IsSound l)
    → Back v.base v.expected (f ∷ rest)
    → IsSound (record l { back = rest })
lose_answer-IsSound l f rest v g = record {
  base = v.base;
  expected = v.expected;
  sends = v.sends;
  takes = v.takes;
  forth = v.forth;
  back = Back-tail g;
  given = v.given;
}

pub garble_answer-IsSound :
    (l : Link) (e : AshError) (f : AshFrame) (rest : List AshFrame) (v : IsSound l)
    → Back v.base v.expected (f ∷ rest)
    → IsSound (answer_garbled l e rest)
unfolding answer_garbled on_decode_failure
garble_answer-IsSound l e f rest v g = elim (Bool-cases (is_recoverable_by_nak e)) [
  | inl worth ↦ rw worth (record {
    base = v.base;
    expected = v.expected;
    sends = record {
      window = v.sends.window;
      bounded = v.sends.bounded;
      total = v.sends.total;
      held = v.sends.held;
      tx = v.sends.tx;
    };
    takes = v.takes;
    forth = Forth-complain l.sent l.sender.next_rx_frame false v.forth;
    back = Back-tail g;
    given = v.given;
  })
  | inr idle ↦ rw idle (record {
    base = v.base;
    expected = v.expected;
    sends = v.sends;
    takes = v.takes;
    forth = v.forth;
    back = Back-tail g;
    given = v.given;
  })
]
