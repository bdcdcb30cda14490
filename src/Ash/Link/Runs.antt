-- ===== src/Ash/Link/Runs.antt =====
-- The invariant of a link along its runs.
use rsezsp.Prelude.{
  ℕ, List, [], ◌∷◌, ◌++◌, false, length, arith, leb, refl, sym, ◌∙◌, Bool-cases, inl, inr,
  length-append,
}
use rsezsp.Ash.Connection.{is_connected, send_data}
use rsezsp.Ash.Link.{
  Link, submitted, submit, expire, Step, submits, expires, arrives, garbles, loses, answers,
  answers_garbled, loses_answer, Run, done, next,
}
use rsezsp.Ash.Link.Channels.{get_elem-last, take-extend, Forth-le, Forth-push, Forth-extend}
use rsezsp.Ash.Link.Sender.{append-Sends, retransmit-Sends}
use rsezsp.Ash.Link.Invariant.{IsSound}
use rsezsp.Ash.Link.Arriving.{arrive-IsSound, garble-IsSound, lose-IsSound}
use rsezsp.Ash.Link.Answering.{answer-IsSound, garble_answer-IsSound, lose_answer-IsSound}

submit-IsSound : (l : Link) (bytes : List ℕ) → IsSound l → IsSound (submit l bytes)
unfolding submit submitted send_data
submit-IsSound l bytes v = elim (Bool-cases (is_connected l.sender)) [
  | inr off ↦ rw off v
  | inl on ↦ rw on (elim (Bool-cases (leb 7 (length l.sender.in_flight))) [
    | inl full ↦ rw full v
    | inr room ↦
        let high = Forth-le l.sent v.forth in
        let sends = append-Sends l.sent v.base l.sender bytes v.sends (ground (arith, room)) in
        rw room (record {
          base = v.base;
          expected = v.expected;
          sends = sends;
          takes = v.takes;
          forth = rw v.sends.tx (
              Forth-push (l.sent ++ bytes ∷ []) (length l.sent) l.sender.next_rx_frame false bytes
                (get_elem-last l.sent bytes) (omega (arith, length-append l.sent (bytes ∷ [])))
                (Forth-extend l.sent (bytes ∷ []) v.forth));
          back = v.back;
          given = v.given ∙ sym (take-extend l.sent (bytes ∷ []) v.expected high);
        })
  ])
]

expire-IsSound : (l : Link) → IsSound l → IsSound (expire l)
unfolding expire
expire-IsSound l v =
    let (sends, forth) =
      retransmit-Sends l.sent v.base v.expected l.sender l.forth l.sender.in_flight refl v.sends
        v.forth in
    record {
      base = v.base;
      expected = v.expected;
      sends = sends;
      takes = v.takes;
      forth = forth;
      back = v.back;
      given = v.given;
    }

pub Step-IsSound : {l m : Link} → Step l m → IsSound l → IsSound m
Step-IsSound (submits l bytes) v = submit-IsSound l bytes v
Step-IsSound (expires l) v = expire-IsSound l v
Step-IsSound (arrives l f rest e) v = arrive-IsSound l f rest v (rw e at v.forth)
Step-IsSound (garbles l x f rest e) v = garble-IsSound l x f rest v (rw e at v.forth)
Step-IsSound (loses l f rest e) v = lose-IsSound l f rest v (rw e at v.forth)
Step-IsSound (answers l f rest e) v = answer-IsSound l f rest v (rw e at v.back)
Step-IsSound (answers_garbled l x f rest e) v = garble_answer-IsSound l x f rest v (rw e at v.back)
Step-IsSound (loses_answer l f rest e) v = lose_answer-IsSound l f rest v (rw e at v.back)

pub Run-IsSound : {l m : Link} → Run l m → IsSound l → IsSound m
Run-IsSound (done l) v = v
Run-IsSound (next r s) v = Step-IsSound s (Run-IsSound r v)
