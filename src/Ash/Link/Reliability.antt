-- ===== src/Ash/Link/Reliability.antt =====
-- What a link promises its callers: a queue of payloads, of which none is lost, doubled or moved.
use rsezsp.Prelude.{ℕ, ◌+◌, ◌-◌, ◌≤◌, ◌++◌, length, drop, arith, ◌≡◌, sym, ◌∙◌, drop-drop}
use rsezsp.Ash.Connection.{Connection}
use rsezsp.Ash.Link.{Link, joined, Run}
use rsezsp.Ash.Link.Channels.{take-drop, Back-le, Forth-le}
use rsezsp.Ash.Link.Sender.{payloads_of, payloads_of-drop}
use rsezsp.Ash.Link.Invariant.{IsSound, joined-IsSound}
use rsezsp.Ash.Link.Runs.{Run-IsSound}

-- The last `k` payloads in flight are those that the other end has not handed on.
abbrev pub Owes : Link → Type 0
Owes l =
    (k : ℕ) × (k ≤ length l.sender.in_flight)
    × (l.sent ≡ l.given ++ payloads_of (drop k l.sender.in_flight))

pub IsSound-Owes : {l : Link} → IsSound l → Owes l
IsSound-Owes {l = l} v =
    let k : ℕ = v.expected - v.base in
    let at : v.base + k ≡ v.expected = omega (arith, Back-le v.back) in
    let low : k ≤ length l.sender.in_flight =
      omega (arith, Forth-le l.sent v.forth, v.sends.total) in
    let left : payloads_of (drop k l.sender.in_flight) ≡ drop v.expected l.sent =
      payloads_of-drop k l.sender.in_flight ∙ rw v.sends.held (drop-drop v.base k l.sent ∙ rw at) in
    (k, low, rw (left, v.given) (sym (take-drop l.sent v.expected)))

-- Two ends that were reset, joined by a line that may lose or garble any frame and reorders none:
-- whatever is sent, arrives, is lost or times out, the accepted payloads are those handed on at the
-- other end, each once and in the order of sending, followed by payloads that are still in flight.
-- So every payload that the sender has let go was handed on.
pub link_reliable :
    (c d : Connection) (l : Link)
    → Run (joined c d) l
    → (k : ℕ) × (k ≤ length l.sender.in_flight)
      × (l.sent ≡ l.given ++ payloads_of (drop k l.sender.in_flight))
link_reliable c d l r = IsSound-Owes (Run-IsSound r (joined-IsSound c d))
