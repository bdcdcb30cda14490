-- ===== src/Ash/Link/Examples.antt =====
-- A run of a link in which a frame is lost, one is garbled and one is sent again.
use rsezsp.Prelude.{ℕ, ◌≤◌, ◌<◌, [], ◌∷◌, ◌++◌, false, length, drop, All, arith, ◌≡◌, refl}
use rsezsp.Ash.Error.{bad_crc, is_recoverable_by_nak}
use rsezsp.Ash.Frame.{AshFrame, data_frame, ack, nak, next_sequence}
use rsezsp.Ash.Connection
use rsezsp.Ash.Connection.{
  InFlight, send_data, on_frame, on_data, on_rst_ack, on_decode_failure, retire_acknowledged,
}
use rsezsp.Ash.Link.{
  Link, joined, submit, submitted, arrive, arrive_garbled, answer, Run, done, next, submits,
  arrives, garbles, answers,
}
use rsezsp.Ash.Link.Sender.{payloads_of}
use rsezsp.Ash.Link.Reliability.{link_reliable}
use rsezsp.Ash.Link.Progress.{link_completes}

abbrev start : Link
start = joined Connection.new Connection.new

abbrev three_sent : Link
three_sent = submit (submit (submit start (10 ∷ [])) (20 ∷ [])) (30 ∷ [])

abbrev frame_of : ℕ → ℕ → AshFrame
frame_of n byte = data_frame n 0 false (byte ∷ [])

-- The second of the three frames is garbled, and the third comes too early.
abbrev first_in : Link
first_in = arrive three_sent (frame_of 0 10) (frame_of 1 20 ∷ frame_of 2 30 ∷ [])

abbrev second_garbled : Link
second_garbled = arrive_garbled first_in (bad_crc 1 2) (frame_of 2 30 ∷ [])

abbrev third_early : Link
third_early = arrive second_garbled (frame_of 2 30) []

-- The sender takes the acknowledgement of the first and the NAK that asks for the second.
abbrev first_answered : Link
first_answered = answer third_early (ack 1 false) (nak 1 false ∷ ack 1 false ∷ [])

abbrev asked_again : Link
asked_again = answer first_answered (nak 1 false) (ack 1 false ∷ [])

first_answered-Run : Run start first_answered
unfolding submit submitted send_data arrive arrive_garbled answer on_frame on_data on_rst_ack
    on_decode_failure retire_acknowledged next_sequence is_recoverable_by_nak
first_answered-Run =
    next
      (next
        (next
          (next
            (next
              (next (next (done start) (submits start (10 ∷ [])))
                (submits (submit start (10 ∷ [])) (20 ∷ [])))
              (submits (submit (submit start (10 ∷ [])) (20 ∷ [])) (30 ∷ [])))
            (arrives three_sent (frame_of 0 10) (frame_of 1 20 ∷ frame_of 2 30 ∷ []) refl))
          (garbles first_in (bad_crc 1 2) (frame_of 1 20) (frame_of 2 30 ∷ []) refl))
        (arrives second_garbled (frame_of 2 30) [] refl))
      (answers third_early (ack 1 false) (nak 1 false ∷ ack 1 false ∷ []) refl)

asked_again-Run : Run start asked_again
unfolding submit submitted send_data arrive arrive_garbled answer on_frame on_data on_rst_ack
    on_decode_failure retire_acknowledged next_sequence is_recoverable_by_nak
asked_again-Run =
    next first_answered-Run (answers first_answered (nak 1 false) (ack 1 false ∷ []) refl)

link_reliable_example :
    (k : ℕ) × (k ≤ length asked_again.sender.in_flight)
    × (asked_again.sent ≡ asked_again.given ++ payloads_of (drop k asked_again.sender.in_flight))
link_reliable_example = link_reliable Connection.new Connection.new asked_again asked_again-Run

first_answered-fresh : All (λ (x : InFlight). x.sends < 3) first_answered.sender.in_flight
unfolding submit submitted send_data arrive arrive_garbled answer on_frame on_data on_rst_ack
    on_decode_failure retire_acknowledged next_sequence is_recoverable_by_nak
first_answered-fresh = omega arith

link_completes_example :
    (m : Link) × Run first_answered m
    × (m.sent ≡ first_answered.sent)
    × (m.given ≡ first_answered.sent)
    × (m.sender.in_flight ≡ [])
    × (m.forth ≡ [])
    × (m.back ≡ [])
link_completes_example =
    link_completes Connection.new Connection.new first_answered first_answered-Run
      first_answered-fresh
