-- ===== src/StartupExample/Main.antt =====
-- `main`: the arguments, the port, and the steps in order.
use rsezsp.Prelude.{
  ℕ, List, [], ◌∷◌, Bool, true, false, not, ◌||◌, Option, none, some, Result, ok, err,
  if◌then◌else◌,
}
use Prim.Native.String.{String, ◌++◌ as ◌<>◌}
use text.Mathlib.Text.{starts_with}
use text.Mathlib.Text
use rsezsp.Types.Network.{NodeId}
use rsezsp.Ezsp.Error.{EzspError}
use rsezsp.Ncp.Transport.{Transport, Arrival}
use rsezsp.Ncp.Runtime.{Ncp}
use rsezsp.Ncp.Startup.{connect}
use rsezsp.StartupExample.Checklist
use rsezsp.StartupExample.Checklist.{Checklist, pass, fail}
use rsezsp.StartupExample.Steps.{Doing}
use rsezsp.StartupExample.Bringup.{
  read_eui64, register_endpoint, configure_stack, configure_policies, resume_network,
}
use rsezsp.StartupExample.Joining.{open_for_joining, close_joining}
use rsezsp.StartupExample.Sending.{send_onoff}

pub record Options : Type 0 where
  pub path : String
  pub permit_join : Bool
  pub close_join : Bool
  pub onoff : Option (NodeId × Bool)

-- The first argument that is no flag.
unfoldable pub path_of : List String → Option String
path_of [] = none
path_of (arg ∷ rest) = if not (starts_with arg "--") then some arg else path_of rest

unfoldable pub has_flag : String → List String → Bool
has_flag flag [] = false
has_flag flag (arg ∷ rest) = Text.◌==◌ arg flag || has_flag flag rest

abbrev pub is_on : List String → Bool
is_on [] = false
is_on (arg ∷ rest) = Text.◌==◌ arg "on"

module _ (parse_u16 : String → Option ℕ) where
  -- What follows the first `--onoff`.
  abbrev pub onoff_after : List String → Option (NodeId × Bool)
  onoff_after [] = none
  onoff_after (nwk ∷ rest) = elim (parse_u16 nwk) [
    | some node_id ↦ some (node_id, is_on rest)
    | none ↦ none
  ]

  unfoldable pub onoff_of : List String → Option (NodeId × Bool)
  onoff_of [] = none
  onoff_of (arg ∷ rest) = if Text.◌==◌ arg "--onoff" then onoff_after rest else onoff_of rest

  -- `none` is the usage message.
  unfoldable pub parse_args : List String → Option Options
  parse_args args = elim (path_of args) [
    | some path ↦ some (record {
      path = path;
      permit_join = has_flag "--permit-join" args;
      close_join = has_flag "--close-join" args;
      onoff = onoff_of args;
    })
    | none ↦ none
  ]

-- What is read in every step.
pub record Script : Type 0 where
  pub reset : ℕ → List Arrival
  pub version : List Arrival
  pub version_again : List Arrival
  pub eui64 : List Arrival
  pub endpoint : List Arrival
  pub stack : ℕ → List Arrival
  pub policies : ℕ → List Arrival
  pub network : List Arrival
  pub key : List Arrival
  pub permit : List Arrival
  pub joins : List (List Arrival)
  pub close : List Arrival
  pub clear : List Arrival
  pub send : List Arrival
  pub deliveries : List (List Arrival)

module _ {T : Type 0} (port : Transport T) (script : Script) where
  unfoldable pub bring_up : Doing T → Doing T
  bring_up doing = resume_network port script.network (
      configure_policies port script.policies (
        configure_stack port script.stack
          (register_endpoint port script.endpoint (read_eui64 port script.eui64 doing))))

  unfoldable pub maybe_open : Bool → Doing T → Doing T
  maybe_open true doing = open_for_joining port script.key script.permit script.joins doing
  maybe_open false doing = doing

  unfoldable pub maybe_close : Bool → Doing T → Doing T
  maybe_close true doing = close_joining port script.close script.clear doing
  maybe_close false doing = doing

  unfoldable pub maybe_send : Option (NodeId × Bool) → Doing T → Doing T
  maybe_send (some (node_id, on)) doing =
      send_onoff port node_id on script.send script.deliveries doing
  maybe_send none doing = doing

  -- Everything after `connect`.
  unfoldable pub steps : Options → Doing T → Doing T
  steps options doing =
      maybe_send options.onoff
        (maybe_close options.close_join (maybe_open options.permit_join (bring_up doing)))

  -- The callbacks that are printed at the end are left out. `decimal` formats a number.
  module _ (decimal : ℕ → String) where
    unfoldable pub after_connect : Options → Checklist → Result (Ncp T) EzspError → Checklist
    after_connect options step (ok n) =
        (steps options
          (n, pass (pass step "ASH reset") ("EZSP version (" <> "v" <> decimal n.version <> ")"))).1
    after_connect options step (err e) = fail step "ASH reset / EZSP version"

    -- With the port that was opened, or why it was not.
    unfoldable pub main : Options → Result T String → Checklist
    main options (ok t) =
        after_connect options (pass Checklist.new "serial open")
          (connect port t script.reset script.version script.version_again)
    main options (err reason) = fail Checklist.new "serial open"
