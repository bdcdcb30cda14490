-- ===== src/StartupExample/Sending.antt =====
-- `send_onoff`: a message goes out, and the polls wait for the callback that says what became of it.
use rsezsp.Prelude.{
  ℕ, List, [], ◌∷◌, Bool, true, false, Option, none, some, Result, ok, err, if◌then◌else◌,
}
use rsezsp.Types.Status.{SlStatus, is_ok}
use rsezsp.Types.Network.{NodeId}
use rsezsp.Types.Aps.{direct, union}
use rsezsp.Types.Named.{retry, enable_route_discovery}
use rsezsp.Ezsp.Error.{EzspError}
use rsezsp.Ezsp.Callback.{
  Callback, stack_status, trust_center_join, incoming_message, message_sent, unknown,
}
use rsezsp.Ezsp.Command.Messages.{SendUnicast, SendResponse, send_unicast_command}
use rsezsp.Ncp.Transport.{Transport, Arrival}
use rsezsp.Ncp.Runtime.{Ncp, poll}
use rsezsp.StartupExample.Checklist.{Checklist, pass, fail}
use rsezsp.StartupExample.Steps.{Doing, Outcome, accepted, refused, failed, check}

abbrev pub byte_of : Bool → ℕ
byte_of true = 1
byte_of false = 0

abbrev pub onoff_message : NodeId → Bool → SendUnicast
onoff_message node_id on = record {
  unicast_type = direct;
  index_or_destination = node_id;
  aps_frame = record {
    profile_id = 0x0104;
    cluster_id = 0x0006;
    source_endpoint = 1;
    destination_endpoint = 1;
    options = union retry enable_route_discovery;
    group_id = 0;
    sequence = 0;
  };
  message_tag = 0x01;
  message = 0x01 ∷ 0x42 ∷ byte_of on ∷ [];
}

abbrev pub send_line : Bool → Outcome → Checklist → Checklist
send_line on accepted step = pass step (if on then "sendUnicast (on)" else "sendUnicast (off)")
send_line on refused step = fail step (if on then "sendUnicast (on)" else "sendUnicast (off)")
send_line on failed step = fail step (if on then "sendUnicast (on)" else "sendUnicast (off)")

-- One turn of the inner loop: a later `messageSent` replaces an earlier one, whatever its tag.
abbrev pub note_sent : Option SlStatus → Callback → Option SlStatus
note_sent outcome (message_sent kind to frame tag code payload) = some code
note_sent outcome (stack_status code) = outcome
note_sent outcome (trust_center_join node_id eui64 update decision parent) = outcome
note_sent outcome (incoming_message kind frame lqi rssi sender binding address payload) = outcome
note_sent outcome (unknown id parameters) = outcome

unfoldable pub note_all_sent : Option SlStatus → List Callback → Option SlStatus
note_all_sent outcome [] = outcome
note_all_sent outcome (what ∷ rest) = note_all_sent (note_sent outcome what) rest

-- What the loop ends with: a poll that failed, or the outcome if one came in time.
pub data Waited : Type 0 where
  poll_failed : EzspError → Waited
  ended : Option SlStatus → Waited

abbrev pub sent_line : Waited → Checklist → Checklist
sent_line (poll_failed e) step = fail step "messageSent callback"
sent_line (ended (some code)) step =
    if is_ok code
    then pass step "messageSent callback (delivered)"
    else fail step "messageSent callback"
sent_line (ended none) step = fail step "messageSent callback"

module _ {T : Type 0} where
  -- After the callbacks of a poll.
  unfoldable pub wait_more : (Ncp T → Waited × Ncp T) → Option SlStatus → Ncp T → Waited × Ncp T
  wait_more next (some code) n = (ended (some code), n)
  wait_more next none n = next n

  -- After a poll.
  unfoldable pub wait_on :
      (Ncp T → Waited × Ncp T) → Result (List Callback) EzspError × Ncp T → Waited × Ncp T
  unfolding wait_more
  wait_on next (err e, n) = (poll_failed e, n)
  wait_on next (ok callbacks, n) = wait_more next (note_all_sent none callbacks) n

module _ {T : Type 0} (port : Transport T) where
  -- The polls up to the deadline.
  unfoldable pub wait_sent : List (List Arrival) → Ncp T → Waited × Ncp T
  unfolding wait_on
  wait_sent [] n = (ended none, n)
  wait_sent (arrivals ∷ rest) n = wait_on (wait_sent rest) (poll port arrivals n)

  unfoldable pub await_delivery : List (List Arrival) → Doing T → Doing T
  await_delivery polls (n, step) =
      let (waited, n') = wait_sent polls n in (n', sent_line waited step)

  unfoldable pub send_onoff : NodeId → Bool → List Arrival → List (List Arrival) → Doing T → Doing T
  send_onoff node_id on arrivals polls doing = await_delivery polls (
      check port send_unicast_command (λ (r : SendResponse). r.status) (send_line on)
        (onoff_message node_id on) arrivals doing)
