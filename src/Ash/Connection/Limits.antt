-- ===== src/Ash/Connection/Limits.antt =====
-- Resets and resends: what a NAK has sent again, and when the link is given up.
use rsezsp.Prelude.{
  ℕ, zero, suc, ◌+◌, ◌%◌, ◌≤◌, ◌<◌, List, [], ◌∷◌, none, Bool, true, false, length, drop, arith,
  ltb, leb, lt→leb, le→leb, if◌then◌else◌, ◌++◌, Bool-cases, inl, inr, ◌≡◌, refl, ap, ◌∙◌,
}
use rsezsp.Ash.Frame.{data_frame, nak, rst}
use rsezsp.Ash.Connection.{
  InFlight, Connection, resetting, failed, Outbound, send, nothing, new, saturating_suc, resend,
  retransmit_oldest, begin_reset, on_frame,
}
use rsezsp.Ash.Connection.Window.{Numbered, retire_acknowledged_exact}

resend_more :
    (c : Connection) (x : InFlight) (q : List InFlight)
    → x.sends < 3
    → resend c (x ∷ q) ≡ (
      record c { in_flight = record x { sends = x.sends + 1 } ∷ q },
      send (data_frame x.frame_num c.next_rx_frame true x.payload),
    )
unfolding resend
resend_more c x q h =
    let more : leb 3 x.sends ≡ false = lt→leb _ _ h in
    let next : saturating_suc x.sends ≡ x.sends + 1 = omega arith in rw (more, next)

resend_done :
    (c : Connection) (x : InFlight) (q : List InFlight)
    → 3 ≤ x.sends
    → resend c (x ∷ q) ≡ (record c { state = failed }, nothing)
unfolding resend
resend_done c x q h = let done : leb 3 x.sends ≡ true = le→leb _ _ h in rw done

pub retransmit_none : (c : Connection) → c.in_flight ≡ [] → retransmit_oldest c ≡ (c, nothing)
unfolding retransmit_oldest resend
retransmit_none c e = ap (resend c) e

pub retransmit_sent :
    (c : Connection) (x : InFlight) (q : List InFlight)
    → c.in_flight ≡ x ∷ q
    → x.sends < 3
    → retransmit_oldest c ≡ (
      record c { in_flight = record x { sends = x.sends + 1 } ∷ q },
      send (data_frame x.frame_num c.next_rx_frame true x.payload),
    )
unfolding retransmit_oldest
retransmit_sent c x q e h = ap (resend c) e ∙ resend_more c x q h

pub retransmit_done :
    (c : Connection) (x : InFlight) (q : List InFlight)
    → c.in_flight ≡ x ∷ q
    → 3 ≤ x.sends
    → retransmit_oldest c ≡ (record c { state = failed }, nothing)
unfolding retransmit_oldest
retransmit_done c x q e h = ap (resend c) e ∙ resend_done c x q h

-- A NAK for `base + k`, in a window of at most seven frames whose oldest has the absolute number
-- `base`, retires the `k` frames before it, if there are more. The next one is sent again, with its
-- own number and payload, the retransmit bit and the current acknowledgement, if it was sent fewer
-- than three times; otherwise nothing is sent and the link has failed.
pub on_frame-nak :
    (c : Connection) (base k : ℕ) (n : Bool) (x : InFlight) (q : List InFlight)
    → Numbered base c.in_flight
    → length c.in_flight ≤ 7
    → k < 8
    → drop k c.in_flight ≡ x ∷ q
    → on_frame c (nak ((base + k) % 8) n) ≡ (
        if ltb x.sends 3
        then (
          record c { in_flight = record x { sends = x.sends + 1 } ∷ q },
          none,
          send (data_frame x.frame_num c.next_rx_frame true x.payload),
        )
        else (record c { in_flight = x ∷ q; state = failed }, none, nothing))
unfolding on_frame retransmit_oldest
on_frame-nak c base k n x q w s h oldest = elim (Bool-cases (ltb x.sends 3)) [
  | inl more ↦
      rw (retire_acknowledged_exact c base k w s h, oldest, more)
        (rw (resend_more (record c { in_flight = x ∷ q }) x q (ground (arith, more))) refl)
  | inr tired ↦
      rw (retire_acknowledged_exact c base k w s h, oldest, tired)
        (rw (resend_done (record c { in_flight = x ∷ q }) x q (ground (arith, tired))) refl)
]

-- Timeouts in a row, and what each has sent.
abbrev pub resends : ℕ → Connection → Connection × List Outbound
resends zero c = (c, [])
resends (suc k) c =
    let (d, out) = retransmit_oldest c in let (d', outs) = resends k d in (d', out ∷ outs)

abbrev pub copies : ℕ → Outbound → List Outbound
copies zero out = []
copies (suc k) out = out ∷ copies k out

-- What a resend of `x` has sent.
abbrev pub again : Connection → InFlight → Outbound
again c x = send (data_frame x.frame_num c.next_rx_frame true x.payload)

-- Timeouts after timeouts.
abbrev then_resends : ℕ → Connection × List Outbound → Connection × List Outbound
then_resends j (d, outs) = let (d', more) = resends j d in (d', outs ++ more)

resends-add : (k j : ℕ) (c : Connection) → resends (k + j) c ≡ then_resends j (resends k c)
resends-add zero j c = let same : zero + j ≡ j = omega arith in ap (λ (i : ℕ). resends i c) same
resends-add (suc k) j c =
    let (d, out) = retransmit_oldest c in
    let one_more : suc k + j ≡ suc (k + j) = omega arith in
    ap (λ (i : ℕ). resends i c) one_more
    ∙ ap (λ (t : Connection × List Outbound). (t.0, out ∷ t.1)) (resends-add k j d)

resends-sent :
    (k : ℕ) (c : Connection) (x : InFlight) (q : List InFlight)
    → c.in_flight ≡ x ∷ q
    → x.sends + k ≡ 3
    → resends k c ≡ (record c { in_flight = record x { sends = 3 } ∷ q }, copies k (again c x))
resends-sent zero c x q e h =
    let three : x.sends ≡ 3 = omega arith in
    let kept : c.in_flight ≡ record x { sends = 3 } ∷ q =
      e ∙ ap (λ (n : ℕ). record x { sends = n } ∷ q) three in
    ap (λ (w : List InFlight). (record c { in_flight = w }, [])) kept
resends-sent (suc k) c x q e h =
    let y : InFlight = record x { sends = x.sends + 1 } in
    rw (retransmit_sent c x q e (omega arith))
      (rw (resends-sent k (record c { in_flight = y ∷ q }) y q refl (omega arith)) refl)

resends-done :
    (j : ℕ) (c : Connection) (x : InFlight) (q : List InFlight)
    → c.in_flight ≡ x ∷ q
    → x.sends ≡ 3
    → resends (suc j) c ≡ (record c { state = failed }, copies (suc j) nothing)
resends-done zero c x q e h = rw (retransmit_done c x q e (omega arith)) refl
resends-done (suc j) c x q e h =
    ap (λ (t : Connection × Outbound). ((resends (suc j) t.0).0, t.1 ∷ (resends (suc j) t.0).1))
      (retransmit_done c x q e (omega arith))
    ∙ ap (λ (t : Connection × List Outbound). (t.0, nothing ∷ t.1))
        (resends-done j (record c { state = failed }) x q e h)

-- With nothing acknowledged, timeouts send the oldest frame again, each time whole and with the
-- retransmit bit, until it was sent three times in all; up to then the link is otherwise as it was.
-- Every timeout after that sends nothing, and the link has failed. So a frame that was sent once is
-- sent again twice.
pub resends_limit :
    (k j : ℕ) (c : Connection) (x : InFlight) (q : List InFlight)
    → c.in_flight ≡ x ∷ q
    → x.sends + k ≡ 3
    → (resends k c ≡ (record c { in_flight = record x { sends = 3 } ∷ q }, copies k (again c x)))
      × (resends (k + suc j) c ≡ (
        record c { in_flight = record x { sends = 3 } ∷ q; state = failed },
        copies k (again c x) ++ copies (suc j) nothing,
      ))
resends_limit k j c x q e h =
    let d : Connection = record c { in_flight = record x { sends = 3 } ∷ q } in
    let sent = resends-sent k c x q e h in
    (
      sent,
      resends-add k (suc j) c
          ∙ ap (then_resends (suc j)) sent
          ∙ ap (λ (t : Connection × List Outbound). (t.0, copies k (again c x) ++ t.1))
              (resends-done j d (record x { sends = 3 }) q refl refl),
    )

abbrev pub resets : ℕ → Connection
resets zero = new
resets (suc k) = (begin_reset (resets k)).0

-- From a new connection the first five resets are sent, and the sixth gives up.
pub resets_limit :
    (k : ℕ)
    → k < 5
    → (begin_reset (resets k) ≡ (record new { state = resetting (suc k) }, send rst))
      × (begin_reset (resets 5) ≡ (record new { state = failed }, nothing))
unfolding begin_reset
resets_limit zero h = (refl, refl)
resets_limit (suc zero) h = (refl, refl)
resets_limit (suc (suc zero)) h = (refl, refl)
resets_limit (suc (suc (suc zero))) h = (refl, refl)
resets_limit (suc (suc (suc (suc zero)))) h = (refl, refl)
resets_limit (suc (suc (suc (suc (suc k))))) h = absurd (omega arith)
