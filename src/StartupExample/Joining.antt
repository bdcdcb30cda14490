-- ===== src/StartupExample/Joining.antt =====
-- `open_for_joining` and `close_joining`.
use rsezsp.Prelude.{List, [], ◌∷◌, Option, none, some, Result, ok, err}
use rsezsp.Types.Network.{NodeId, Eui64}
use rsezsp.Types.Named.{wildcard, zigbee_alliance_09, no_flags}
use rsezsp.Ezsp.Error.{EzspError}
use rsezsp.Ezsp.Callback.{
  Callback, stack_status, trust_center_join, incoming_message, message_sent, unknown,
}
use rsezsp.Ezsp.Command.Network.{permit_joining_command, for_seconds}
use rsezsp.Ezsp.Command.Keys.{
  ImportTransientKey, import_transient_key_command, clear_transient_link_keys_command,
}
use rsezsp.Ncp.Transport.{Transport, Arrival}
use rsezsp.Ncp.Runtime.{Ncp, poll}
use rsezsp.Ncp.Command.{command}
use rsezsp.StartupExample.Checklist.{Checklist, pass, fail}
use rsezsp.StartupExample.Steps.{Doing, Outcome, accepted, refused, failed, check}
use rsezsp.StartupExample.Bringup.{same}

abbrev pub transient_key : ImportTransientKey
transient_key = record { eui64 = wildcard; key = zigbee_alliance_09; flags = no_flags }

abbrev pub key_line : Outcome → Checklist → Checklist
key_line accepted step = pass step "importTransientKey"
key_line refused step = fail step "importTransientKey"
key_line failed step = fail step "importTransientKey"

abbrev pub open_line : Outcome → Checklist → Checklist
open_line accepted step = pass step "permitJoining (240s)"
open_line refused step = fail step "permitJoining"
open_line failed step = fail step "permitJoining"

abbrev pub Joined : Type 0
Joined = Option (NodeId × Eui64)

-- One turn of the inner loop: a later join replaces an earlier one.
abbrev pub note_join : Joined → Callback → Joined
note_join joined (trust_center_join node_id eui64 update decision parent) = some (node_id, eui64)
note_join joined (stack_status code) = joined
note_join joined (incoming_message kind frame lqi rssi sender binding address payload) = joined
note_join joined (message_sent kind to frame tag code payload) = joined
note_join joined (unknown id parameters) = joined

unfoldable pub note_joins : Joined → List Callback → Joined
note_joins joined [] = joined
note_joins joined (what ∷ rest) = note_joins (note_join joined what) rest

abbrev pub join_line : Joined → Checklist → Checklist
join_line (some joined) step = pass step "device join (trustCenterJoin callback)"
join_line none step = fail step "device join"

abbrev pub close_line : Outcome → Checklist → Checklist
close_line accepted step = pass step "permitJoining(0) (window closed)"
close_line refused step = fail step "permitJoining(0)"
close_line failed step = fail step "permitJoining(0)"

abbrev pub clear_line : {A : Type 0} → Result A EzspError → Checklist → Checklist
clear_line (ok answered) step = pass step "clearTransientLinkKeys"
clear_line (err e) step = fail step "clearTransientLinkKeys"

module _ {T : Type 0} where
  -- After the callbacks of a poll: a join ends the loop.
  unfoldable pub watch_more : (Ncp T → Joined × Ncp T) → Joined → Ncp T → Joined × Ncp T
  watch_more next (some who) n = (some who, n)
  watch_more next none n = next n

  -- After a poll: a failure ends the loop too.
  unfoldable pub watch_on :
      (Ncp T → Joined × Ncp T) → Result (List Callback) EzspError × Ncp T → Joined × Ncp T
  unfolding watch_more
  watch_on next (err e, n) = (none, n)
  watch_on next (ok callbacks, n) = watch_more next (note_joins none callbacks) n

module _ {T : Type 0} (port : Transport T) where
  -- The polls up to the end of the window, each with what is read in it.
  unfoldable pub watch : List (List Arrival) → Ncp T → Joined × Ncp T
  unfolding watch_on
  watch [] n = (none, n)
  watch (arrivals ∷ rest) n = watch_on (watch rest) (poll port arrivals n)

  unfoldable pub watch_joins : List (List Arrival) → Doing T → Doing T
  watch_joins polls (n, step) = let (joined, n') = watch polls n in (n', join_line joined step)

  unfoldable pub open_for_joining :
      List Arrival → List Arrival → List (List Arrival) → Doing T → Doing T
  open_for_joining first second polls doing = watch_joins polls (
      check port permit_joining_command same open_line (for_seconds 240) second
        (check port import_transient_key_command same key_line transient_key first doing))

  unfoldable pub clear_keys : List Arrival → Doing T → Doing T
  clear_keys arrivals (n, step) =
      let (r, n') = command port clear_transient_link_keys_command tt arrivals n in
      (n', clear_line r step)

  unfoldable pub close_joining : List Arrival → List Arrival → Doing T → Doing T
  close_joining first second doing =
      clear_keys second (check port permit_joining_command same close_line 0 first doing)
