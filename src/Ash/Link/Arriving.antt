-- ===== src/Ash/Link/Arriving.antt =====
-- Frames that arrive at the receiving end, whole or garbled, or are lost.
use rsezsp.Prelude.{
  ◌+◌, ◌≤◌, List, ◌∷◌, false, some, get_elem?, arith, ◌≡◌, refl, Bool-cases, inl, inr,
}
use rsezsp.Ash.Error.{AshError, is_recoverable_by_nak}
use rsezsp.Ash.Frame.{AshFrame}
use rsezsp.Ash.Connection.{on_decode_failure}
use rsezsp.Ash.Link.{Link, arrive, arrive_garbled}
use rsezsp.Ash.Link.Channels.{
  get_elem-lt, take-snoc, Forth, frame, complaint, Forth-lower, Forth-tail, Back-le, Back-raise,
  Back-accept, Back-complain,
}
use rsezsp.Ash.Link.Receiver.{receive_data, receive_nak}
use rsezsp.Ash.Link.Invariant.{IsSound}

pub arrive-IsSound :
    (l : Link) (f : AshFrame) (rest : List AshFrame) (v : IsSound l)
    → Forth l.sent v.expected (f ∷ rest)
    → IsSound (arrive l f rest)
unfolding arrive
arrive-IsSound l f rest v (complaint a n g) =
    let (takes, given, reply) = receive_nak l.receiver v.expected a n v.takes in
    record {
      base = v.base;
      expected = v.expected;
      sends = v.sends;
      takes = takes;
      forth = g;
      back = rw reply v.back;
      given = rw given v.given;
    }
arrive-IsSound l f rest v (frame x a again bytes m' e near le lt g) =
    let below = get_elem-lt l.sent x bytes e in
    let low = Back-le v.back in
    let far : x ≤ v.expected + 7 = omega (arith, v.sends.total, v.sends.bounded) in
    elim (receive_data l.receiver v.expected x a again bytes v.takes near far) [
      | inl (same, takes, given, reply) ↦ record {
        base = v.base;
        expected = v.expected + 1;
        sends = v.sends;
        takes = takes;
        forth = Forth-lower l.sent (omega arith) g;
        back = rw reply (Back-accept false (Back-raise (omega arith) v.back));
        given =
            let first : get_elem? l.sent v.expected ≡ some bytes = rw same at e in
            rw (given, v.given, take-snoc l.sent v.expected bytes first) refl;
      }
      | inr (ne, takes, given, reply) ↦ record {
        base = v.base;
        expected = v.expected;
        sends = v.sends;
        takes = takes;
        forth = Forth-lower l.sent le g;
        back = rw reply (Back-accept false v.back);
        given = rw given v.given;
      }
    ]

pub lose-IsSound :
    (l : Link) (f : AshFrame) (rest : List AshFrame) (v : IsSound l)
    → Forth l.sent v.expected (f ∷ rest)
    → IsSound (record l { forth = rest })
lose-IsSound l f rest v g = record {
  base = v.base;
  expected = v.expected;
  sends = v.sends;
  takes = v.takes;
  forth = Forth-tail l.sent g;
  back = v.back;
  given = v.given;
}

pub garble-IsSound :
    (l : Link) (e : AshError) (f : AshFrame) (rest : List AshFrame) (v : IsSound l)
    → Forth l.sent v.expected (f ∷ rest)
    → IsSound (arrive_garbled l e rest)
unfolding arrive_garbled on_decode_failure
garble-IsSound l e f rest v g = elim (Bool-cases (is_recoverable_by_nak e)) [
  | inl worth ↦ rw worth (record {
    base = v.base;
    expected = v.expected;
    sends = v.sends;
    takes = record { rx = v.takes.rx; silent = v.takes.silent };
    forth = Forth-tail l.sent g;
    back = rw v.takes.rx (Back-complain false v.back);
    given = v.given;
  })
  | inr idle ↦ rw idle (record {
    base = v.base;
    expected = v.expected;
    sends = v.sends;
    takes = v.takes;
    forth = Forth-tail l.sent g;
    back = v.back;
    given = v.given;
  })
]
