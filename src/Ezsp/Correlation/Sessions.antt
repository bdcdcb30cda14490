-- ===== src/Ezsp/Correlation/Sessions.antt =====
-- Whole runs of the correlator: answers never outnumber commands, and sequence numbers count
-- commands modulo 256.
use rsezsp.Prelude.{
  ℕ, ◌+◌, ◌%◌, ◌≤◌, ◌<◌, List, [], ◌∷◌, none, Result, ok, err, if◌then◌else◌, ◌≡◌, refl, ap, arith,
  length,
}
use rsezsp.Ezsp.FrameId.{FrameId}
use rsezsp.Ezsp.Error.{EzspError}
use rsezsp.Ezsp.Frame.{Frame, from_low_byte}
use rsezsp.Ezsp.Correlation.{
  Classified, answer, stale, Correlator, new, is_busy, begin, classify, time_out, on_ncp_reset,
  wrapping_suc,
}

-- What the runtime asks of the correlator.
pub data Event : Type 0 where
  issue : FrameId → Event
  arrive : Frame → Event
  expire : Event
  reset : Event

pub record Run : Type 0 where
  pub correlator : Correlator
  pub begun : ℕ
  pub answered : ℕ

abbrev pub start : Run
start = record { correlator = new; begun = 0; answered = 0 }

issued : Result ℕ EzspError → ℕ
issued (ok sequence) = 1
issued (err e) = 0

answers_in : Classified → ℕ
answers_in (answer parameters) = 1
answers_in _ = 0

pub step : Run → Event → Run
unfolding issued answers_in
step s (issue id) =
    let (r, c) = begin id s.correlator in record s { correlator = c; begun = s.begun + issued r }
step s (arrive f) =
    let (c, what) = classify s.correlator f in
    record s { correlator = c; answered = s.answered + answers_in what }
step s expire = record s { correlator = (time_out s.correlator).1 }
step s reset = record s { correlator = (on_ncp_reset s.correlator).1 }

pub run : Run → List Event → Run
run s [] = s
run s (e ∷ es) = run (step s e) es

-- Every answer is to a command of its own.
abbrev pub IsBalanced : Run → Type 0
IsBalanced s = s.answered + (if is_busy s.correlator then 1 else 0) ≤ s.begun

step-IsBalanced : (s : Run) (e : Event) → IsBalanced s → IsBalanced (step s e)
unfolding step begin classify time_out on_ncp_reset
step-IsBalanced s (issue id) h = ground arith
step-IsBalanced s (arrive f) h = ground arith
step-IsBalanced s expire h = ground arith
step-IsBalanced s reset h = ground arith

run-IsBalanced : (s : Run) (es : List Event) → IsBalanced s → IsBalanced (run s es)
unfolding run
run-IsBalanced s [] h = h
run-IsBalanced s (e ∷ es) h = run-IsBalanced (step s e) es (step-IsBalanced s e h)

-- Whatever happens, in any order, no more answers are given than commands were begun, and one
-- fewer while a command is outstanding.
pub run_balanced :
    (es : List Event)
    → let s = run start es in s.answered + (if is_busy s.correlator then 1 else 0) ≤ s.begun
run_balanced es = run-IsBalanced start es (omega arith)

-- The answer that the NCP sends to a command.
abbrev pub reply_to : ℕ → FrameId → List ℕ → Frame
reply_to sequence id parameters = record {
  sequence = sequence;
  control = from_low_byte 0x80;
  frame_id = id;
  parameters = parameters;
}

-- A command is begun and its answer arrives.
exchange : FrameId → List ℕ → Correlator → Correlator × Classified
exchange id parameters c =
    let (r, c') = begin id c in
    elim r [
      | ok sequence ↦ classify c' (reply_to sequence id parameters)
      | err e ↦ (c', stale id 0)
    ]

exchange_lem :
    (id : FrameId) (parameters : List ℕ) (c : Correlator)
    → c.pending ≡ none
    → exchange id parameters c ≡ (
      record c { next_sequence = wrapping_suc c.next_sequence; pending = none },
      answer parameters,
    )
unfolding exchange begin classify from_low_byte
exchange_lem id parameters c h = ground arith

abbrev pub answers_to : List (FrameId × List ℕ) → List Classified
answers_to [] = []
answers_to ((id, parameters) ∷ xs) = answer parameters ∷ answers_to xs

pub exchanges : List (FrameId × List ℕ) → Correlator → Correlator × List Classified
exchanges [] c = (c, [])
exchanges ((id, parameters) ∷ xs) c =
    let (c', what) = exchange id parameters c in
    let (c'', rest) = exchanges xs c' in (c'', what ∷ rest)

exchanges_from :
    (xs : List (FrameId × List ℕ)) (c : Correlator)
    → c.pending ≡ none
    → c.next_sequence < 256
    → ((exchanges xs c).1 ≡ answers_to xs)
      × ((exchanges xs c).0.next_sequence ≡ (c.next_sequence + length xs) % 256)
      × ((exchanges xs c).0.pending ≡ none)
unfolding exchanges
exchanges_from [] c h lt = (refl, omega arith, h)
exchanges_from ((id, parameters) ∷ xs) c h lt =
    let c' : Correlator = record c {
      next_sequence = wrapping_suc c.next_sequence;
      pending = none;
    } in
    let (out, next, free) = exchanges_from xs c' refl (omega arith) in
    rw (exchange_lem id parameters c h)
      (ap (◌∷◌ (answer parameters)) out, omega (arith, next), free)

-- Commands that are answered one after the other get their own answers in order, and the sequence
-- number has then counted them modulo 256.
pub exchanges_lem :
    (xs : List (FrameId × List ℕ))
    → ((exchanges xs new).1 ≡ answers_to xs)
      × ((exchanges xs new).0.next_sequence ≡ length xs % 256)
      × ((exchanges xs new).0.pending ≡ none)
exchanges_lem xs =
    let (out, next, free) = exchanges_from xs new refl (omega arith) in
    (out, omega (arith, next), free)
