-- ===== src/Ezsp/Examples.antt =====
-- Tests of the protocol layer on the inputs of its unit tests, and its theorems at concrete inputs.
use rsezsp.Prelude.{
  ℕ, ◌+◌, ◌≤◌, List, [], ◌∷◌, ◌++◌, true, false, none, some, ok, ◌≡◌, ◌↔◌, refl, arith,
  if◌then◌else◌,
}
use rsezsp.Ezsp.Codec.Reader
use rsezsp.Ezsp.Codec.Reader.{Reader, take_bytes, remaining}
use rsezsp.Ezsp.Codec.Writer
use rsezsp.Ezsp.Codec.Failures.{IsInside}
use rsezsp.Ezsp.FrameId
use rsezsp.Ezsp.FrameId.{FrameId}
use rsezsp.Ezsp.Frame.{
  extended, byte_len, Frame, command_control, from_low_byte, write_header, parse,
}
use rsezsp.Ezsp.Frame.Headers.{parse-write_header}
use rsezsp.Ezsp.Correlation.{Correlator, answer, begin, classify, is_busy}
use rsezsp.Ezsp.Correlation.Matching.{Answers, classify_all, classify-answer_iff, classify-begin}
use rsezsp.Ezsp.Correlation.Sessions.{
  run, start, issue, arrive, expire, reset, run_balanced, reply_to,
}

little_endian :
    (Writer.u16 0x3456 (Writer.new 13)).1.bytes ++ (Writer.u32 0x89abcdef (Writer.new 13)).1.bytes
    ≡ 0x56 ∷ 0x34 ∷ 0xef ∷ 0xcd ∷ 0xab ∷ 0x89 ∷ []
unfolding Writer.u16 Writer.u32
little_endian = refl

captured_header :
    (write_header 0x16 FrameId.import_transient_key extended (Writer.new 13)).1.bytes
    ≡ 0x16 ∷ 0x00 ∷ 0x01 ∷ 0x11 ∷ 0x01 ∷ []
unfolding write_header Writer.u8 Writer.u16
captured_header = refl

callback_bit :
    ((from_low_byte 0x90).is_callback ≡ true) × ((from_low_byte 0x80).is_callback ≡ false)
unfolding from_low_byte
callback_bit = (refl, refl)

abbrev two_left : Reader
two_left = Reader.new (0x40 ∷ 0x01 ∷ 0x02 ∷ []) 13

two_left-IsInside : IsInside two_left
two_left-IsInside = record { within = omega arith; held = omega arith }

parse-write_header_example :
    parse ((write_header 7 0x0111 extended (Writer.new 13)).1.bytes ++ 0xaa ∷ []) extended
    ≡ ok (record {
      sequence = 7;
      control = command_control;
      frame_id = 0x0111;
      parameters = 0xaa ∷ [];
    })
unfolding byte_len
parse-write_header_example =
    parse-write_header 13 7 0x0111 extended (0xaa ∷ []) (omega arith) (omega arith)

-- `getEui64` is outstanding with the sequence number 5.
abbrev waiting : Correlator
waiting = record {
  pending = some (record { sequence = 5; frame_id = 0x26 });
  next_sequence = 6;
  stale_frames = 0;
}

abbrev right : Frame
right = reply_to 5 0x26 (0xaa ∷ 0xbb ∷ [])

-- The right sequence number, and another command's id.
abbrev wrong : Frame
wrong = reply_to 5 0x00 (0x0d ∷ [])

wrong-not-Answers : ¬ Answers waiting wrong
unfolding from_low_byte
wrong-not-Answers h = ground arith

classify-answer_iff_example :
    ((classify waiting right).1 ≡ answer (0xaa ∷ 0xbb ∷ []))
    ↔ (Answers waiting right × ◌≡◌ {A = List ℕ} (0xaa ∷ 0xbb ∷ []) (0xaa ∷ 0xbb ∷ []))
classify-answer_iff_example = classify-answer_iff waiting right (0xaa ∷ 0xbb ∷ [])

abbrev idle : Correlator
idle = record { pending = none; next_sequence = 5; stale_frames = 0 }

begun : begin 0x26 idle ≡ (ok 5, waiting)
unfolding begin
begun = refl

classify-begin_example :
    classify (classify_all waiting (wrong ∷ [])) right
    ≡ (record (classify_all waiting (wrong ∷ [])) { pending = none }, answer (0xaa ∷ 0xbb ∷ []))
unfolding from_low_byte
classify-begin_example =
    classify-begin idle waiting 0x26 5 (wrong ∷ []) right begun (wrong-not-Answers, tt) refl refl
      refl refl

run_balanced_example :
    let s =
      run start (issue 0x26 ∷ arrive wrong ∷ arrive (reply_to 0 0x26 []) ∷ expire ∷ reset ∷ []) in
    s.answered + (if is_busy s.correlator then 1 else 0) ≤ s.begun
run_balanced_example =
    run_balanced (issue 0x26 ∷ arrive wrong ∷ arrive (reply_to 0 0x26 []) ∷ expire ∷ reset ∷ [])
