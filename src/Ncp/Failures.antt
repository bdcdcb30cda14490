-- ===== src/Ncp/Failures.antt =====
-- What a command leaves behind when it fails after its sequence number was taken.
use rsezsp.Prelude.{List, true, none, some, err, ◌≡◌, refl}
use rsezsp.Ezsp.Error.{EzspError, sequence_mismatch}
use rsezsp.Ezsp.Correlation.{Pending, begin}
use rsezsp.Ezsp.Command.Interface.{Command}
use rsezsp.Ncp.Transport.{Transport, Arrival}
use rsezsp.Ncp.Runtime.{Ncp}
use rsezsp.Ncp.Command.{command, request, format_for}

module _ {T : Type 0} (port : Transport T) {D B : Type 0} where
  command_busy :
      (k : Command D B) (d : D) (arrivals : List Arrival) (n : Ncp T) (p : Pending)
      → k.is_available n.version ≡ true
      → n.correlator.pending ≡ some p
      → (command port k d arrivals n).0 ≡ err (sequence_mismatch p.sequence)
  unfolding command begin
  command_busy k d arrivals n p available busy = rw (available, busy)

module _ {T : Type 0} (port : Transport T) {C A D B : Type 0} where
  -- With no command outstanding, when an available command's request cannot be encoded, since a
  -- message is too long for its prefix say, the command fails with that error; and the next
  -- available command, whatever it is and whatever arrives, fails with a sequence mismatch, since
  -- the sequence number taken for the first is still outstanding.
  pub command_sticks :
      (k : Command C A) (c : C) (next : Command D B) (d : D) (arrivals more : List Arrival)
      (n : Ncp T) (e : EzspError)
      → k.is_available n.version ≡ true
      → next.is_available n.version ≡ true
      → n.correlator.pending ≡ none
      → request k c n.correlator.next_sequence (format_for k.id n) n.version ≡ err e
      → let (r, n') = command port k c arrivals n in
        (r ≡ err e)
        × ((command port next d more n').0 ≡ err (sequence_mismatch n.correlator.next_sequence))
  unfolding command begin
  command_sticks k c next d arrivals more n e available available' free fails =
      rw (available, free, fails) (refl, rw available')
