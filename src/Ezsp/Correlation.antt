-- ===== src/Ezsp/Correlation.antt =====
-- src/ezsp/correlation.rs: at most one command is outstanding, and a frame answers it only if it is
-- no callback, is a response, and has both the command's sequence number and its frame id.
pub mod Matching
pub mod Sessions
use rsezsp.Prelude.{
  ℕ, ◌+◌, ◌%◌, ◌^◌, min, List, Bool, true, false, ◌&&◌, Option, none, some, Result, ok, err, ◌==◌,
  if◌then◌else◌,
}
use rsezsp.Ezsp.Error.{EzspError, sequence_mismatch, timeout, ncp_reset}
use rsezsp.Ezsp.Exec.{Exec}
use rsezsp.Ezsp.FrameId.{FrameId}
use rsezsp.Ezsp.Frame.{Frame, Direction, command, response}

pub record Pending : Type 0 where
  pub sequence : ℕ
  pub frame_id : FrameId

pub data Classified : Type 0 where
  answer : (parameters : List ℕ) → Classified
  callback : (frame_id : FrameId) (parameters : List ℕ) → Classified
  stale : (frame_id : FrameId) (sequence : ℕ) → Classified

pub record Correlator : Type 0 where
  pub pending : Option Pending
  pub next_sequence : ℕ
  pub stale_frames : ℕ

abbrev pub new : Correlator
new = record { pending = none; next_sequence = 0; stale_frames = 0 }

abbrev pub is_busy : Correlator → Bool
is_busy c = elim c.pending [ some p ↦ true | none ↦ false ]

unfoldable pub pending_frame_id : Correlator → Option FrameId
pending_frame_id c = elim c.pending [ some p ↦ some p.frame_id | none ↦ none ]

-- `wrapping_add(1)` on a `u8`, `saturating_add(1)` on a `u64`.
abbrev pub wrapping_suc : ℕ → ℕ
wrapping_suc n = (n + 1) % 2 ^ 8

abbrev pub saturating_suc : ℕ → ℕ
saturating_suc n = min (n + 1) 18446744073709551615

unfoldable pub begin : FrameId → Exec Correlator ℕ
begin id c = elim c.pending [
  | some p ↦ (err (sequence_mismatch p.sequence), c)
  | none ↦ (
    ok c.next_sequence,
    record c {
      next_sequence = wrapping_suc c.next_sequence;
      pending = some (record { sequence = c.next_sequence; frame_id = id });
    },
  )
]

-- The guard of the match on the pending command.
abbrev pub matches_frame : Pending → Frame → Bool
matches_frame p f = p.sequence == f.sequence && p.frame_id == f.frame_id

abbrev is_response : Direction → Bool
is_response response = true
is_response command = false

count_stale : Correlator → Frame → Correlator × Classified
count_stale c f =
    (record c { stale_frames = saturating_suc c.stale_frames }, stale f.frame_id f.sequence)

unfoldable pub classify : Correlator → Frame → Correlator × Classified
unfolding count_stale
classify c f =
    if f.control.is_callback
    then (c, callback f.frame_id f.parameters)
    else if is_response f.control.direction
    then (elim c.pending [
      | some p ↦
          if matches_frame p f
          then (record c { pending = none }, answer f.parameters)
          else count_stale c f
      | none ↦ count_stale c f
    ])
    else count_stale c f

unfoldable pub time_out : Exec Correlator (Unit {0})
time_out c = elim c.pending [
  | some p ↦ (err (timeout p.frame_id), record c { pending = none })
  | none ↦ (ok tt, c)
]

unfoldable pub on_ncp_reset : Exec Correlator (Unit {0})
on_ncp_reset c = elim c.pending [
  | some p ↦ (err (ncp_reset p.frame_id), record c { next_sequence = 0; pending = none })
  | none ↦ (ok tt, record c { next_sequence = 0 })
]
