-- ===== src/StartupExample/Bringup.antt =====
-- The steps up to the network: `register_endpoint`, `configure_stack`, `configure_policies`, and the
-- two commands that `main` sends around them.
use rsezsp.Prelude.{ℕ, List, [], ◌∷◌, Bool, true, false, Result, ok, err}
use rsezsp.Types.Status.{SlStatus}
use rsezsp.Types.Network.{union}
use rsezsp.Types.Named.{
  parent_info_in_token, stack_profile, security_level, indirect_transmission_timeout,
  end_device_poll_timeout, trust_center, tc_key_request, app_key_request, allow_joins,
  allow_unsecured_rejoins, allow_tc_key_request_same_key, deny_app_key_requests,
}
use rsezsp.Ezsp.Error.{EzspError}
use rsezsp.Ezsp.Command.Setup.{
  get_eui64_command, AddEndpoint, add_endpoint_command, SetConfigurationValue,
  set_configuration_value_command, SetPolicy, set_policy_command,
}
use rsezsp.Ezsp.Command.Network.{network_init_command}
use rsezsp.Ncp.Transport.{Transport, Arrival}
use rsezsp.Ncp.Command.{command}
use rsezsp.StartupExample.Checklist.{Checklist, pass, fail}
use rsezsp.StartupExample.Steps.{Doing, Outcome, accepted, refused, failed, check, send_all}

abbrev pub same : SlStatus → SlStatus
same s = s

abbrev pub eui64_line : {A : Type 0} → Result A EzspError → Checklist → Checklist
eui64_line (ok eui64) step = pass step "getEui64 (and correlation past the bootstrap)"
eui64_line (err e) step = fail step "getEui64 (and correlation past the bootstrap)"

abbrev pub coordinator_endpoint : AddEndpoint
coordinator_endpoint = record {
  endpoint = 1;
  profile_id = 0x0104;
  device_id = 0x0065;
  app_flags = 0;
  input_clusters = 0x0000 ∷ 0x000a ∷ 0x0019 ∷ [];
  output_clusters = 0x0000 ∷ 0x0006 ∷ 0x0019 ∷ [];
}

-- A refusal passes too: the endpoint may be there already.
abbrev pub endpoint_line : Outcome → Checklist → Checklist
endpoint_line accepted step = pass step "addEndpoint"
endpoint_line refused step = pass step "addEndpoint (refused, reported cleanly)"
endpoint_line failed step = fail step "addEndpoint"

abbrev pub stack_items : List SetConfigurationValue
stack_items =
    record { config_id = stack_profile; value = 2 }
    ∷ record { config_id = security_level; value = 5 }
    ∷ record { config_id = indirect_transmission_timeout; value = 30000 }
    ∷ record { config_id = end_device_poll_timeout; value = 8 }
    ∷ []

abbrev pub policies : List SetPolicy
policies =
    record { policy_id = trust_center; decision = union allow_joins allow_unsecured_rejoins }
    ∷ record { policy_id = tc_key_request; decision = allow_tc_key_request_same_key }
    ∷ record { policy_id = app_key_request; decision = deny_app_key_requests }
    ∷ []

abbrev pub stack_line : Bool → Checklist → Checklist
stack_line true step = pass step "setConfigurationValue (stack profile, security level)"
stack_line false step = fail step "setConfigurationValue"

abbrev pub policy_line : Bool → Checklist → Checklist
policy_line true step = pass step "setPolicy (trust centre, key requests)"
policy_line false step = fail step "setPolicy"

-- A status that is not ok says that there is no network, which is no failure.
abbrev pub network_line : Outcome → Checklist → Checklist
network_line accepted step = pass step "networkInit (resume)"
network_line refused step = pass step "networkInit (no network, reported cleanly)"
network_line failed step = fail step "networkInit"

module _ {T : Type 0} (port : Transport T) where
  unfoldable pub read_eui64 : List Arrival → Doing T → Doing T
  read_eui64 arrivals (n, step) =
      let (r, n') = command port get_eui64_command tt arrivals n in (n', eui64_line r step)

  unfoldable pub register_endpoint : List Arrival → Doing T → Doing T
  register_endpoint = check port add_endpoint_command same endpoint_line coordinator_endpoint

  unfoldable pub configure_stack : (ℕ → List Arrival) → Doing T → Doing T
  configure_stack arrivals (n, step) =
      let (all, n') = send_all port set_configuration_value_command same stack_items arrivals n in
      (n', stack_line all step)

  unfoldable pub configure_policies : (ℕ → List Arrival) → Doing T → Doing T
  configure_policies arrivals (n, step) =
      let (all, n') = send_all port set_policy_command same policies arrivals n in
      (n', policy_line all step)

  unfoldable pub resume_network : List Arrival → Doing T → Doing T
  resume_network = check port network_init_command same network_line parent_info_in_token
