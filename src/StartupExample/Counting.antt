-- ===== src/StartupExample/Counting.antt =====
-- How many lines the summary has: one for every step, whatever the dongle answers.
use rsezsp.Prelude.{
  ℕ, ◌+◌, List, [], ◌∷◌, Bool, true, false, Option, none, some, Result, ok, err, length,
  if◌then◌else◌, length-append, ◌≡◌, arith, Bool-cases, inl, inr,
}
use mathlib.Core.Path.{subst}
use Prim.Native.String.{String, ◌++◌ as ◌<>◌}
use rsezsp.Types.Status.{is_ok}
use rsezsp.Types.Network.{NodeId}
use rsezsp.Ezsp.Error.{EzspError}
use rsezsp.Ncp.Transport.{Transport, Arrival}
use rsezsp.Ncp.Runtime.{Ncp}
use rsezsp.Ncp.Startup.{connect}
use rsezsp.StartupExample.Checklist
use rsezsp.StartupExample.Checklist.{Checklist, pass, fail, report}
use rsezsp.StartupExample.Steps.{Doing, Outcome, accepted, refused, failed, check}
use rsezsp.StartupExample.Bringup.{
  eui64_line, endpoint_line, stack_line, policy_line, network_line, read_eui64, register_endpoint,
  configure_stack, configure_policies, resume_network,
}
use rsezsp.StartupExample.Joining.{
  Joined, key_line, open_line, join_line, close_line, clear_line, watch_joins, open_for_joining,
  clear_keys, close_joining,
}
use rsezsp.StartupExample.Sending.{
  send_line, Waited, poll_failed, ended, sent_line, await_delivery, send_onoff,
}
use rsezsp.StartupExample.Main.{
  Options, Script, bring_up, maybe_open, maybe_close, maybe_send, steps, after_connect, main,
}

abbrev total : Checklist → ℕ
total step = length step.lines

pass-total : (step : Checklist) (name : String) → total (pass step name) ≡ total step + 1
unfolding pass
pass-total step name = omega (arith, length-append step.lines ((name, true) ∷ []))

fail-total : (step : Checklist) (name : String) → total (fail step name) ≡ total step + 1
unfolding fail
fail-total step name = omega (arith, length-append step.lines ((name, false) ∷ []))

-- A line is added, whatever the outcome.

eui64_line-total :
    {A : Type 0} (r : Result A EzspError) (step : Checklist)
    → total (eui64_line r step) ≡ total step + 1
eui64_line-total (ok a) step = pass-total step _
eui64_line-total (err e) step = fail-total step _

clear_line-total :
    {A : Type 0} (r : Result A EzspError) (step : Checklist)
    → total (clear_line r step) ≡ total step + 1
clear_line-total (ok a) step = pass-total step _
clear_line-total (err e) step = fail-total step _

endpoint_line-total :
    (o : Outcome) (step : Checklist) → total (endpoint_line o step) ≡ total step + 1
endpoint_line-total accepted step = pass-total step _
endpoint_line-total refused step = pass-total step _
endpoint_line-total failed step = fail-total step _

network_line-total : (o : Outcome) (step : Checklist) → total (network_line o step) ≡ total step + 1
network_line-total accepted step = pass-total step _
network_line-total refused step = pass-total step _
network_line-total failed step = fail-total step _

key_line-total : (o : Outcome) (step : Checklist) → total (key_line o step) ≡ total step + 1
key_line-total accepted step = pass-total step _
key_line-total refused step = fail-total step _
key_line-total failed step = fail-total step _

open_line-total : (o : Outcome) (step : Checklist) → total (open_line o step) ≡ total step + 1
open_line-total accepted step = pass-total step _
open_line-total refused step = fail-total step _
open_line-total failed step = fail-total step _

close_line-total : (o : Outcome) (step : Checklist) → total (close_line o step) ≡ total step + 1
close_line-total accepted step = pass-total step _
close_line-total refused step = fail-total step _
close_line-total failed step = fail-total step _

send_line-total :
    (on : Bool) (o : Outcome) (step : Checklist) → total (send_line on o step) ≡ total step + 1
send_line-total on accepted step = pass-total step _
send_line-total on refused step = fail-total step _
send_line-total on failed step = fail-total step _

stack_line-total : (all : Bool) (step : Checklist) → total (stack_line all step) ≡ total step + 1
stack_line-total true step = pass-total step _
stack_line-total false step = fail-total step _

policy_line-total : (all : Bool) (step : Checklist) → total (policy_line all step) ≡ total step + 1
policy_line-total true step = pass-total step _
policy_line-total false step = fail-total step _

join_line-total :
    (joined : Joined) (step : Checklist) → total (join_line joined step) ≡ total step + 1
join_line-total (some who) step = pass-total step _
join_line-total none step = fail-total step _

sent_line-total :
    (waited : Waited) (step : Checklist) → total (sent_line waited step) ≡ total step + 1
sent_line-total (poll_failed e) step = fail-total step _
sent_line-total (ended none) step = fail-total step _
sent_line-total (ended (some code)) step = elim (Bool-cases (is_ok code)) [
  | inl good ↦ rw good (pass-total step _)
  | inr bad ↦ rw bad (fail-total step _)
]

module _ {T : Type 0} (port : Transport T) where
  -- The steps of the bringup.
  bring_up-total :
      (script : Script) (doing : Doing T) → total (bring_up port script doing).1 ≡ total doing.1 + 5
  unfolding bring_up read_eui64 register_endpoint configure_stack configure_policies resume_network
      check
  bring_up-total script doing = omega (
    arith,
    network_line-total _ _,
    policy_line-total _ _,
    stack_line-total _ _,
    endpoint_line-total _ _,
    eui64_line-total _ doing.1,
  )

  open_for_joining-total :
      (first second : List Arrival) (polls : List (List Arrival)) (doing : Doing T)
      → total (open_for_joining port first second polls doing).1 ≡ total doing.1 + 3
  unfolding open_for_joining watch_joins check
  open_for_joining-total first second polls doing =
      omega (arith, join_line-total _ _, open_line-total _ _, key_line-total _ doing.1)

  close_joining-total :
      (first second : List Arrival) (doing : Doing T)
      → total (close_joining port first second doing).1 ≡ total doing.1 + 2
  unfolding close_joining clear_keys check
  close_joining-total first second doing =
      omega (arith, clear_line-total _ _, close_line-total _ doing.1)

  send_onoff-total :
      (node_id : NodeId) (on : Bool) (arrivals : List Arrival) (polls : List (List Arrival))
      (doing : Doing T)
      → total (send_onoff port node_id on arrivals polls doing).1 ≡ total doing.1 + 2
  unfolding send_onoff await_delivery check
  send_onoff-total node_id on arrivals polls doing =
      omega (arith, sent_line-total _ _, send_line-total on _ doing.1)

-- How many steps the options ask for.
abbrev pub asked : Options → ℕ
asked o =
    5
    + (if o.permit_join then 3 else 0)
    + (if o.close_join then 2 else 0)
    + (elim o.onoff [ some what ↦ 2 | none ↦ 0 ])

module _ {T : Type 0} (port : Transport T) (script : Script) where
  maybe_open-total :
      (b : Bool) (doing : Doing T)
      → total (maybe_open port script b doing).1 ≡ total doing.1 + (if b then 3 else 0)
  unfolding maybe_open
  maybe_open-total true doing = open_for_joining-total port _ _ _ doing
  maybe_open-total false doing = omega arith

  maybe_close-total :
      (b : Bool) (doing : Doing T)
      → total (maybe_close port script b doing).1 ≡ total doing.1 + (if b then 2 else 0)
  unfolding maybe_close
  maybe_close-total true doing = close_joining-total port _ _ doing
  maybe_close-total false doing = omega arith

  maybe_send-total :
      (o : Option (NodeId × Bool)) (doing : Doing T)
      → total (maybe_send port script o doing).1
        ≡ total doing.1 + (elim o [ some what ↦ 2 | none ↦ 0 ])
  unfolding maybe_send
  maybe_send-total (some what) doing = send_onoff-total port _ _ _ _ doing
  maybe_send-total none doing = omega arith

  steps-total :
      (options : Options) (doing : Doing T)
      → total (steps port script options doing).1 ≡ total doing.1 + asked options
  unfolding steps
  steps-total options doing = omega (
    arith,
    maybe_send-total options.onoff _,
    maybe_close-total options.close_join _,
    maybe_open-total options.permit_join _,
    bring_up-total port script doing,
  )

after_connect-total :
    {T : Type 0} (port : Transport T) (script : Script) (decimal : ℕ → String) (options : Options)
    (step : Checklist) (r : Result (Ncp T) EzspError)
    → total (after_connect port script decimal options step r)
      ≡ (elim r [ ok n ↦ total step + 2 + asked options | err e ↦ total step + 1 ])
unfolding after_connect
after_connect-total port script decimal options step (err e) = fail-total step _
after_connect-total port script decimal options step (ok n) =
    let first = pass-total step "ASH reset" in
    omega (
      arith,
      steps-total port script options
          (n, pass (pass step "ASH reset") ("EZSP version (" <> "v" <> decimal n.version <> ")")),
      pass-total (pass step "ASH reset") ("EZSP version (" <> "v" <> decimal n.version <> ")"),
      first,
    )

-- The summary counts every step that the options ask for, whatever the dongle answers and whichever
-- steps fail: without a port there is one line, with a connection that fails there are two, and
-- with a connection three and those of the steps.
pub main_reports :
    {T : Type 0} (port : Transport T) (script : Script) (decimal : ℕ → String) (options : Options)
    (t : T) (reason : String)
    → ((report (main port script decimal options (err reason))).1 ≡ 1)
      × ((report (main port script decimal options (ok t))).1
          ≡ (elim (connect port t script.reset script.version script.version_again) [
            | ok n ↦ 3 + asked options
            | err e ↦ 2
          ]))
unfolding report main
main_reports port script decimal options t reason =
    let opened = pass-total Checklist.new "serial open" in
    (
      fail-total Checklist.new _,
      subst
          (λ (k : ℕ).
            (report (main port script decimal options (ok t))).1
            ≡ (elim (connect port t script.reset script.version script.version_again) [
              | ok n ↦ k + 2 + asked options
              | err e ↦ k + 1
            ]))
          opened
          (after_connect-total port script decimal options (pass Checklist.new "serial open")
            (connect port t script.reset script.version script.version_again)),
    )
