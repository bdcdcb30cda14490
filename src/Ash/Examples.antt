-- ===== src/Ash/Examples.antt =====
-- Tests of the link layer on the inputs of its unit tests, and its theorems at concrete inputs.
use rsezsp.Prelude.{
  ℕ, zero, suc, ◌+◌, ◌*◌, ◌%◌, ◌≤◌, List, [], ◌∷◌, ◌++◌, Bool, true, false, none, some, ok, length,
  drop, ◌≡◌, ◌⊎◌, inl, refl, arith, All,
}
use rsezsp.Ash.Error.{bad_crc, too_long, substituted}
use rsezsp.Ash.Frame.{AshFrame, data_frame, ack, nak, rst_ack, control, body, from_parts}
use rsezsp.Ash.Frame.RoundTrip.{FitsDataField, from_parts_sound}
use rsezsp.Ash.Codec
use rsezsp.Ash.Codec.{
  crc16_all, crc16, randomise, encode, stuff, Decoded, frame, rejected, Decoder, feed, push, finish,
  flag, cancel, reset, is_reserved, escape, wire_body,
}
use rsezsp.Ash.Codec.Stuffing.{IsInside}
use rsezsp.Ash.Codec.Decoding.{sealed, feed-encode}
use rsezsp.Ash.Codec.Stream.{recovery, IsBounded, feed-IsBounded}
use rsezsp.Ash.Codec.Corruption.{OneByte, feed_corrupted}
use rsezsp.Ash.Codec.Wire.{encode_wire, encode_unreadable}
use rsezsp.Ash.Connection
use rsezsp.Ash.Connection.{
  InFlight, Connection, connected, failed, resetting, Outbound, send, nothing, begin_reset,
  send_data, on_frame, retire_acknowledged, retransmit_oldest,
}
use rsezsp.Ash.Connection.Window.{retire_acknowledged_exact}
use rsezsp.Ash.Connection.Invariant.{
  IsValid, Reachable, fresh, after, sent, received, Reachable-IsValid,
}
use rsezsp.Ash.Connection.Delivery.{receive, delivery, taken, payloads, peer_frames}
use rsezsp.Ash.Connection.Limits.{on_frame-nak, resends, copies, resends_limit}

crc_check_value :
    crc16_all (0x31 ∷ 0x32 ∷ 0x33 ∷ 0x34 ∷ 0x35 ∷ 0x36 ∷ 0x37 ∷ 0x38 ∷ 0x39 ∷ []) ≡ 0x29b1
unfolding crc16_all crc16 Codec.crc16_from
crc_check_value = refl

lfsr_sequence :
    randomise (0 ∷ 0 ∷ 0 ∷ 0 ∷ 0 ∷ 0 ∷ []) ≡ 0x42 ∷ 0x21 ∷ 0xa8 ∷ 0x54 ∷ 0x2a ∷ 0x15 ∷ []
unfolding randomise Codec.randomise_from Codec.lfsr_next
lfsr_sequence = refl

abbrev reserved_payload : AshFrame
reserved_payload = data_frame 1 0 false (0x3c ∷ 0x7d ∷ 0x11 ∷ 0x13 ∷ 0x18 ∷ 0x1a ∷ [])

abbrev acknowledgement : AshFrame
acknowledgement = ack 4 false

control_bytes : (control (data_frame 2 5 true []) ≡ 0x2d) × (control (nak 2 false) ≡ 0xa2)
unfolding control
control_bytes = (refl, refl)

encoded_ack : encode acknowledgement ≡ ok (0x84 ∷ 0x30 ∷ 0xfc ∷ 0x7e ∷ [])
unfolding encode control wire_body body crc16_all Codec.crc16_from crc16 stuff is_reserved
encoded_ack = refl

feed-encode_example :
    (wire : List ℕ) × (encode reserved_payload ≡ ok wire)
    × ((rest : List ℕ)
        → feed Codec.new (wire ++ rest)
          ≡ ((feed Codec.new rest).0, frame reserved_payload ∷ (feed Codec.new rest).1))
unfolding body
feed-encode_example = feed-encode reserved_payload (omega arith)

-- A decoder in the middle of a frame that is already known to be bad.
abbrev busy : Decoder
busy = record { partial = 0x25 ∷ 0xaa ∷ []; escaped = true; dropping = some substituted }

recovery_example :
    (wire : List ℕ) × (encode acknowledgement ≡ ok wire)
    × (feed busy ((0x01 ∷ []) ++ flag ∷ wire)
        ≡ (Codec.new, (feed busy ((0x01 ∷ []) ++ flag ∷ [])).1 ++ frame acknowledgement ∷ []))
unfolding body
recovery_example = recovery busy (0x01 ∷ []) acknowledgement (omega arith)

feed-IsBounded_example : IsBounded (feed busy (0xaa ∷ 0xbb ∷ [])).0
feed-IsBounded_example = feed-IsBounded busy (0xaa ∷ 0xbb ∷ []) (omega arith)

corrupted_ack : OneByte (sealed acknowledgement) (0x85 ∷ 0x30 ∷ 0xfc ∷ [])
unfolding control wire_body body crc16_all Codec.crc16_from crc16
corrupted_ack = inl (omega arith, omega arith, omega arith, refl)

feed_corrupted_example :
    (computed : ℕ) × (carried : ℕ) × (feed Codec.new (stuff (0x85 ∷ 0x30 ∷ 0xfc ∷ []) ++ flag ∷ [])
      ≡ ((feed Codec.new []).0, rejected (bad_crc computed carried) ∷ (feed Codec.new []).1))
unfolding body
feed_corrupted_example =
    feed_corrupted acknowledgement (0x85 ∷ 0x30 ∷ 0xfc ∷ []) [] (omega arith) corrupted_ack

encode_wire_example :
    (inside : List ℕ) × (◌≡◌ {A = List ℕ} (0x84 ∷ 0x30 ∷ 0xfc ∷ 0x7e ∷ []) (inside ++ flag ∷ []))
    × All IsInside inside
    × (length {A = ℕ} (0x84 ∷ 0x30 ∷ 0xfc ∷ 0x7e ∷ [])
        ≤ 2 * (length (body acknowledgement) + 3) + 1)
    × (length {A = ℕ} (0x84 ∷ 0x30 ∷ 0xfc ∷ 0x7e ∷ []) ≤ 267)
encode_wire_example = encode_wire acknowledgement (0x84 ∷ 0x30 ∷ 0xfc ∷ 0x7e ∷ []) encoded_ack

abbrev zeros : ℕ → List ℕ
zeros zero = []
zeros (suc n) = 0 ∷ zeros n

encode_unreadable_example :
    (wire : List ℕ) × (encode (data_frame 1 2 false (zeros 129)) ≡ ok wire)
    × (feed Codec.new wire ≡ (Codec.new, rejected (too_long 129 128) ∷ []))
encode_unreadable_example = encode_unreadable 1 2 false (zeros 129) (omega arith) (omega arith)

parsed_ack : from_parts 0x96 [] ≡ ok (ack 6 false)
unfolding from_parts
parsed_ack = refl

from_parts_sound_example :
    (body (ack 6 false) ≡ [])
    × ((control (ack 6 false) ≡ 0x96) ⊎ (control (ack 6 false) + 16 ≡ 0x96))
    × FitsDataField (ack 6 false)
from_parts_sound_example = from_parts_sound 0x96 [] (ack 6 false) (omega arith) parsed_ack

-- Frames 6, 7 and 0 are outstanding, and frame 1 is expected next.
abbrev linked : Connection
linked = record {
  state = connected;
  next_tx_frame = 1;
  next_rx_frame = 1;
  in_flight =
      record { frame_num = 6; payload = 0x11 ∷ []; sends = 1 }
      ∷ record { frame_num = 7; payload = 0x12 ∷ []; sends = 2 }
      ∷ record { frame_num = 0; payload = 0x13 ∷ []; sends = 1 }
      ∷ [];
  ack_pending = false;
  nak_pending = false;
}

retire_acknowledged_exact_example :
    retire_acknowledged linked ((6 + 2) % 8) ≡ record linked { in_flight = drop 2 linked.in_flight }
retire_acknowledged_exact_example =
    retire_acknowledged_exact linked 6 2 (omega arith) (omega arith) (omega arith)

-- Frame 7 was sent twice: it goes out a third time.
on_frame-nak_example : on_frame linked (nak ((6 + 1) % 8) false) ≡ (
  record linked {
    in_flight =
        record { frame_num = 7; payload = 0x12 ∷ []; sends = 3 }
        ∷ record { frame_num = 0; payload = 0x13 ∷ []; sends = 1 }
        ∷ [];
  },
  none,
  send (data_frame 7 1 true (0x12 ∷ [])),
)
on_frame-nak_example =
    on_frame-nak linked 6 1 false (record { frame_num = 7; payload = 0x12 ∷ []; sends = 2 })
      (record { frame_num = 0; payload = 0x13 ∷ []; sends = 1 } ∷ []) (omega arith) (omega arith)
      (omega arith) refl

-- A connection that was reset by its NCP and then sent one frame.
abbrev dialled : Connection
dialled = (send_data (on_frame Connection.new (rst_ack 2 0x0b)).0 (0x11 ∷ [])).0

dialled-Reachable : Reachable dialled
dialled-Reachable =
    after (after fresh (received Connection.new (rst_ack 2 0x0b)))
      (sent (on_frame Connection.new (rst_ack 2 0x0b)).0 (0x11 ∷ []))

Reachable-IsValid_example : IsValid dialled
Reachable-IsValid_example = Reachable-IsValid dialled-Reachable

-- Payload number `i` is the byte `i`.
abbrev numbered : ℕ → List ℕ
numbered i = i ∷ []

abbrev numbered_ack : ℕ → ℕ
numbered_ack i = 6

abbrev first_send : ℕ → Bool
first_send i = false

abbrev arrivals : List ℕ
arrivals = 1 ∷ 2 ∷ 1 ∷ 4 ∷ 3 ∷ 2 ∷ []

delivery_example :
    (m : ℕ) × (taken 1 arrivals ≡ 1 + m)
    × ((receive linked (peer_frames numbered numbered_ack first_send arrivals)).1
        ≡ payloads numbered 1 m)
    × ((receive linked (peer_frames numbered numbered_ack first_send arrivals)).0.next_rx_frame
        ≡ taken 1 arrivals % 8)
delivery_example =
    delivery numbered numbered_ack first_send linked 1 arrivals (omega arith) (omega arith)

-- Frame 6 was sent once: of five timeouts the first two send it again, and the link has failed.
resends_limit_example :
    (resends 2 linked ≡ (
      record linked {
        in_flight =
            record { frame_num = 6; payload = 0x11 ∷ []; sends = 3 } ∷ drop 1 linked.in_flight;
      },
      copies 2 (send (data_frame 6 1 true (0x11 ∷ []))),
    ))
    × (resends (2 + suc 2) linked ≡ (
      record linked {
        in_flight =
            record { frame_num = 6; payload = 0x11 ∷ []; sends = 3 } ∷ drop 1 linked.in_flight;
        state = failed;
      },
      copies 2 (send (data_frame 6 1 true (0x11 ∷ []))) ++ copies 3 nothing,
    ))
resends_limit_example =
    resends_limit 2 2 linked (record { frame_num = 6; payload = 0x11 ∷ []; sends = 1 })
      (drop 1 linked.in_flight) refl (omega arith)
