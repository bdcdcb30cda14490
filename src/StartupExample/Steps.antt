-- ===== src/StartupExample/Steps.antt =====
-- What every step of src/examples/startup.rs does with a command: it sends it, and looks at the
-- status of the response.
use rsezsp.Prelude.{
  ℕ, List, [], ◌∷◌, Bool, true, false, ◌&&◌, Result, ok, err, length, if◌then◌else◌,
}
use rsezsp.Types.Status.{SlStatus, is_ok}
use rsezsp.Ezsp.Error.{EzspError}
use rsezsp.Ezsp.Command.Interface.{Command}
use rsezsp.Ncp.Transport.{Transport, Arrival}
use rsezsp.Ncp.Runtime.{Ncp}
use rsezsp.Ncp.Command.{command}
use rsezsp.StartupExample.Checklist.{Checklist}

-- The runtime and the summary that a step is given.
abbrev pub Doing : Type 0 → Type 0
Doing T = Ncp T × Checklist

pub data Outcome : Type 0 where
  accepted refused failed : Outcome

-- The three arms of a match on a command's result.
abbrev pub outcome_of : {A : Type 0} → (A → SlStatus) → Result A EzspError → Outcome
outcome_of status (ok response) = if is_ok (status response) then accepted else refused
outcome_of status (err e) = failed

abbrev pub is_accepted : Outcome → Bool
is_accepted accepted = true
is_accepted refused = false
is_accepted failed = false

module _ {T : Type 0} (port : Transport T) {C A : Type 0} (k : Command C A)
    (status : A → SlStatus) where
  -- A command whose outcome adds a line.
  unfoldable pub check : (Outcome → Checklist → Checklist) → C → List Arrival → Doing T → Doing T
  check line c arrivals (n, step) =
      let (r, n') = command port k c arrivals n in (n', line (outcome_of status r) step)

  -- The loop of `configure_stack` and of `configure_policies`: every command is sent, and the flag
  -- stays up while all are accepted. `arrivals i` is what is read with `i` more to come.
  unfoldable pub send_all : List C → (ℕ → List Arrival) → Ncp T → Bool × Ncp T
  send_all [] arrivals n = (true, n)
  send_all (c ∷ rest) arrivals n =
      let (r, n') = command port k c (arrivals (length rest)) n in
      let (all, n'') = send_all rest arrivals n' in (is_accepted (outcome_of status r) && all, n'')
