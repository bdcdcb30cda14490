-- ===== src/Ezsp/Correlation/Matching.antt =====
-- Which frames answer the pending command, and what every other frame leaves alone.
use rsezsp.Prelude.{
  ℕ, List, [], ◌∷◌, true, false, none, some, ok, if◌then◌else◌, ◌≡◌, ◌↔◌, refl, ◌∙◌, arith,
}
use rsezsp.Ezsp.FrameId.{FrameId}
use rsezsp.Ezsp.Frame.{Frame, response}
use rsezsp.Ezsp.Correlation.{answer, callback, stale, Correlator, begin, classify, saturating_suc}

-- The triple that makes a frame the answer to the pending command.
abbrev pub Answers : Correlator → Frame → Type 0
Answers c f =
    (f.control.is_callback ≡ false)
    × (f.control.direction ≡ response)
    × (c.pending ≡ some (record { sequence = f.sequence; frame_id = f.frame_id }))

answered :
    (c : Correlator) (f : Frame) (bytes : List ℕ)
    → (classify c f).1 ≡ answer bytes
    → Answers c f × (bytes ≡ f.parameters)
unfolding classify
answered c f bytes h = ground arith

answers :
    (c : Correlator) (f : Frame)
    → Answers c f
    → classify c f ≡ (record c { pending = none }, answer f.parameters)
unfolding classify
answers c f h = ground arith

-- A frame is taken for the answer exactly when all three tests hold, and then with its own
-- parameters.
pub classify-answer_iff :
    (c : Correlator) (f : Frame) (bytes : List ℕ)
    → ((classify c f).1 ≡ answer bytes) ↔ (Answers c f × (bytes ≡ f.parameters))
classify-answer_iff c f bytes = (answered c f bytes, λ h. ground (arith, answers c f h.0))

-- A frame that is not the answer leaves the pending command and the next sequence number alone;
-- it is handed on as a callback if it is flagged as one, and counted as stale if not.
pub classify_other :
    (c : Correlator) (f : Frame)
    → ¬ Answers c f
    → ((classify c f).0.pending ≡ c.pending)
      × ((classify c f).0.next_sequence ≡ c.next_sequence)
      × ((classify c f).0.stale_frames
          ≡ (if f.control.is_callback then c.stale_frames else saturating_suc c.stale_frames))
      × ((classify c f).1 ≡ (
          if f.control.is_callback
          then callback f.frame_id f.parameters
          else stale f.frame_id f.sequence))
unfolding classify
classify_other c f h = ground arith

pub classify-callback :
    (c : Correlator) (f : Frame)
    → f.control.is_callback ≡ true
    → classify c f ≡ (c, callback f.frame_id f.parameters)
unfolding classify
classify-callback c f flagged = rw flagged refl

pub classify-stale :
    (c : Correlator) (f : Frame)
    → ¬ Answers c f
    → f.control.is_callback ≡ false
    → classify c f
      ≡ (record c { stale_frames = saturating_suc c.stale_frames }, stale f.frame_id f.sequence)
unfolding classify
classify-stale c f h plain = ground arith

-- Frames of which none is the answer, in any number and order.
abbrev pub NoneAnswers : Correlator → List Frame → Type 0
NoneAnswers c [] = Unit
NoneAnswers c (f ∷ fs) = (¬ Answers c f) × NoneAnswers (classify c f).0 fs

pub classify_all : Correlator → List Frame → Correlator
classify_all c [] = c
classify_all c (f ∷ fs) = classify_all (classify c f).0 fs

waits :
    (c : Correlator) (fs : List Frame) → NoneAnswers c fs → (classify_all c fs).pending ≡ c.pending
unfolding classify_all
waits c [] h = refl
waits c (f ∷ fs) h = waits (classify c f).0 fs h.1 ∙ (classify_other c f h.0).0

-- After a command is begun, whatever callbacks, echoes and late responses come first, the frame
-- with its sequence number and frame id answers it, with that frame's parameters.
pub classify-begin :
    (c c' : Correlator) (id : FrameId) (sequence : ℕ) (fs : List Frame) (f : Frame)
    → begin id c ≡ (ok sequence, c')
    → NoneAnswers c' fs
    → f.control.is_callback ≡ false
    → f.control.direction ≡ response
    → f.sequence ≡ sequence
    → f.frame_id ≡ id
    → classify (classify_all c' fs) f
      ≡ (record (classify_all c' fs) { pending = none }, answer f.parameters)
unfolding begin
classify-begin c c' id sequence fs f started none_of plain up same_sequence same_id =
    answers (classify_all c' fs) f (plain, up, waits c' fs none_of ∙ ground arith)
