-- ===== src/StartupExample/Delivery.antt =====
-- Which callback `send_onoff` takes for the news of its message.
use rsezsp.Prelude.{
  ℕ, List, [], ◌∷◌, ◌++◌, Option, none, some, ok, if◌then◌else◌, All, append-nil, ◌≡◌, refl, sym,
  ap, ◌∙◌,
}
use rsezsp.Types.Status.{SlStatus, is_ok}
use rsezsp.Types.Aps.{ApsFrame}
use rsezsp.Ezsp.Callback.{
  Callback, stack_status, trust_center_join, incoming_message, message_sent, unknown,
}
use rsezsp.Ncp.Transport.{Transport, Arrival}
use rsezsp.Ncp.Runtime.{Ncp, poll}
use rsezsp.StartupExample.Checklist.{Checklist, pass, fail}
use rsezsp.StartupExample.Sending.{
  note_sent, note_all_sent, Waited, ended, sent_line, wait_on, wait_sent, await_delivery,
}

-- Callbacks that say nothing of a message sent.
pub data IsOther : Callback → Type 0 where
  status_change : (code : SlStatus) → IsOther (stack_status code)
  join :
      (node_id eui64 update decision parent : ℕ)
      → IsOther (trust_center_join node_id eui64 update decision parent)
  received :
      (kind : ℕ) (frame : ApsFrame) (lqi : ℕ) (rssi : _) (sender binding address : ℕ)
      (payload : List ℕ)
      → IsOther (incoming_message kind frame lqi rssi sender binding address payload)
  unread : (id : ℕ) (parameters : List ℕ) → IsOther (unknown id parameters)

note_sent-other : (o : Option SlStatus) (what : Callback) → IsOther what → note_sent o what ≡ o
note_sent-other o (stack_status code) h = refl
note_sent-other o (trust_center_join a b c d e) h = refl
note_sent-other o (incoming_message a b c d e f g h') h = refl
note_sent-other o (unknown id parameters) h = refl
note_sent-other o (message_sent a b c d e f) h = elim h [ ]

note_all_sent-other :
    (o : Option SlStatus) (cs : List Callback) → All IsOther cs → note_all_sent o cs ≡ o
unfolding note_all_sent
note_all_sent-other o [] h = refl
note_all_sent-other o (c ∷ cs) h =
    ap (λ (q : Option SlStatus). note_all_sent q cs) (note_sent-other o c h.0)
    ∙ note_all_sent-other o cs h.1

note_all_sent-append :
    (o : Option SlStatus) (xs ys : List Callback)
    → note_all_sent o (xs ++ ys) ≡ note_all_sent (note_all_sent o xs) ys
unfolding note_all_sent
note_all_sent-append o [] ys = refl
note_all_sent-append o (x ∷ xs) ys = note_all_sent-append (note_sent o x) xs ys

note_all_sent-last :
    (before : List Callback) (kind to : ℕ) (frame : ApsFrame) (tag : ℕ) (code : SlStatus)
    (payload : List ℕ) (after : List Callback)
    → All IsOther after
    → note_all_sent none (before ++ message_sent kind to frame tag code payload ∷ after) ≡ some code
unfolding note_all_sent
note_all_sent-last before kind to frame tag code payload after h =
    note_all_sent-append none before (message_sent kind to frame tag code payload ∷ after)
    ∙ note_all_sent-other (some code) after h

-- Polls that give no news of a message sent, and the runtime that they leave.
pub data Quiet {T : Type 0} (port : Transport T)
    : List (List Arrival) → Ncp T → Ncp T → Type 0 where
  at_once : {n : Ncp T} → Quiet port [] n n
  later :
      {n m : Ncp T} {polls : List (List Arrival)} (arrivals : List Arrival) (cs : List Callback)
      (n' : Ncp T)
      → poll port arrivals n ≡ (ok cs, n')
      → All IsOther cs
      → Quiet port polls n' m
      → Quiet port (arrivals ∷ polls) n m

module _ {T : Type 0} (port : Transport T) where
  skip_silent :
      (n m : Ncp T) (polls rest : List (List Arrival))
      → Quiet port polls n m
      → wait_sent port (polls ++ rest) n ≡ wait_sent port rest m
  unfolding wait_sent wait_on
  skip_silent n m [] rest at_once = refl
  skip_silent n m (a ∷ polls) rest (later a' cs n' polled other quiet) =
      let nothing_new = note_all_sent-other none cs other in
      rw polled (rw nothing_new (skip_silent n' m polls rest quiet))

  -- The wait for the news of a message goes on over polls that give none. The last `messageSent` of
  -- the first poll that gives one decides, and then the line is a pass exactly if its status is ok:
  -- neither its tag nor its destination is looked at. Without one before the
  -- deadline the line is a failure.
  pub await_delivery_lem :
      (n m n' : Ncp T) (step : Checklist) (polls rest : List (List Arrival))
      (arrivals : List Arrival) (before after : List Callback) (kind to : ℕ) (frame : ApsFrame)
      (tag : ℕ) (code : SlStatus) (payload : List ℕ)
      → Quiet port polls n m
      → poll port arrivals m
        ≡ (ok (before ++ message_sent kind to frame tag code payload ∷ after), n')
      → All IsOther after
      → (await_delivery port (polls ++ arrivals ∷ rest) (n, step) ≡ (
        n',
        if is_ok code
            then pass step "messageSent callback (delivered)"
            else fail step "messageSent callback",
      ))
        × (await_delivery port polls (n, step) ≡ (m, fail step "messageSent callback"))
  unfolding await_delivery wait_sent wait_on
  await_delivery_lem n m n' step polls rest arrivals before after kind to frame tag code payload
        quiet polled other =
      let news = note_all_sent-last before kind to frame tag code payload after other in
      let here : wait_sent port (arrivals ∷ rest) m ≡ (ended (some code), n') =
        rw polled (rw news refl) in
      let found = skip_silent n m polls (arrivals ∷ rest) quiet ∙ here in
      let over : wait_sent port polls n ≡ (ended none, m) =
        ap (λ (q : List (List Arrival)). wait_sent port q n) (sym (append-nil polls))
        ∙ skip_silent n m polls [] quiet in
      (
        ap (λ (w : Waited × Ncp T). (w.1, sent_line w.0 step)) found,
        ap (λ (w : Waited × Ncp T). (w.1, sent_line w.0 step)) over,
      )
