-- ===== src/Types/Named.antt =====
-- The named values of src/types that the startup example uses.
use rsezsp.Prelude.{[], ◌∷◌}
use rsezsp.Types.Network.{Eui64, NetworkInitBitmask, ConfigId, PolicyId, Decision}
use rsezsp.Types.Aps.{ApsOptions}
use rsezsp.Types.Security.{SecurityKey, SecurityManFlags}

-- Of an address: all ones, `u64::MAX`.
abbrev pub wildcard : Eui64
wildcard = 0xffffffffffffffff

abbrev pub parent_info_in_token : NetworkInitBitmask
parent_info_in_token = 0x0001

abbrev pub stack_profile : ConfigId
stack_profile = 0x0c

abbrev pub security_level : ConfigId
security_level = 0x0d

abbrev pub indirect_transmission_timeout : ConfigId
indirect_transmission_timeout = 0x12

abbrev pub end_device_poll_timeout : ConfigId
end_device_poll_timeout = 0x13

abbrev pub trust_center : PolicyId
trust_center = 0x00

abbrev pub tc_key_request : PolicyId
tc_key_request = 0x05

abbrev pub app_key_request : PolicyId
app_key_request = 0x06

abbrev pub allow_joins : Decision
allow_joins = 0x01

abbrev pub allow_unsecured_rejoins : Decision
allow_unsecured_rejoins = 0x02

abbrev pub allow_tc_key_request_same_key : Decision
allow_tc_key_request_same_key = 0x51

abbrev pub deny_app_key_requests : Decision
deny_app_key_requests = 0x60

abbrev pub retry : ApsOptions
retry = 0x0040

abbrev pub enable_route_discovery : ApsOptions
enable_route_discovery = 0x0100

-- "ZigBeeAlliance09".
abbrev pub zigbee_alliance_09 : SecurityKey
zigbee_alliance_09 =
    0x5a ∷ 0x69 ∷ 0x67 ∷ 0x42 ∷ 0x65 ∷ 0x65 ∷ 0x41 ∷ 0x6c ∷ 0x6c ∷ 0x69 ∷ 0x61 ∷ 0x6e ∷ 0x63 ∷ 0x65
    ∷ 0x30 ∷ 0x39 ∷ []

abbrev pub no_flags : SecurityManFlags
no_flags = 0x00
