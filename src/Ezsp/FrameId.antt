-- ===== src/Ezsp/FrameId.antt =====
-- src/ezsp/frame.rs: frame identifiers, two bytes each.
use Prim.Native.String.{String}
use rsezsp.Prelude.{ℕ, Bool, Option, none, some, ◌||◌, leb, ◌==◌, if◌then◌else◌}

abbrev pub FrameId : Type 0
FrameId = ℕ

abbrev pub version : FrameId
version = 0x0000

abbrev pub add_endpoint : FrameId
add_endpoint = 0x0002

abbrev pub network_init : FrameId
network_init = 0x0017

abbrev pub permit_joining : FrameId
permit_joining = 0x0022

abbrev pub get_eui64 : FrameId
get_eui64 = 0x0026

abbrev pub send_unicast : FrameId
send_unicast = 0x0034

abbrev pub send_broadcast : FrameId
send_broadcast = 0x0036

abbrev pub set_manufacturer_code : FrameId
set_manufacturer_code = 0x0015

abbrev pub form_network : FrameId
form_network = 0x001e

abbrev pub network_state : FrameId
network_state = 0x0018

abbrev pub send_multicast : FrameId
send_multicast = 0x0038

abbrev pub get_network_key_info : FrameId
get_network_key_info = 0x0116

abbrev pub get_network_parameters : FrameId
get_network_parameters = 0x0028

abbrev pub get_configuration_value : FrameId
get_configuration_value = 0x0052

abbrev pub set_initial_security_state : FrameId
set_initial_security_state = 0x0068

abbrev pub clear_transient_link_keys : FrameId
clear_transient_link_keys = 0x006b

abbrev pub get_value : FrameId
get_value = 0x00aa

abbrev pub export_key : FrameId
export_key = 0x0114

abbrev pub set_configuration_value : FrameId
set_configuration_value = 0x0053

abbrev pub set_policy : FrameId
set_policy = 0x0055

abbrev pub import_transient_key : FrameId
import_transient_key = 0x0111

abbrev pub stack_status_handler : FrameId
stack_status_handler = 0x0019

abbrev pub message_sent_handler : FrameId
message_sent_handler = 0x003f

abbrev pub incoming_message_handler : FrameId
incoming_message_handler = 0x0045

abbrev pub trust_center_join_handler : FrameId
trust_center_join_handler = 0x0024

-- Whether the id fits the legacy header's single byte.
unfoldable pub fits_legacy : FrameId → Bool
fits_legacy id = leb id 0xff

unfoldable pub name : FrameId → Option String
name id =
    if id == version
    then some "version"
    else if id == add_endpoint
    then some "addEndpoint"
    else if id == network_init
    then some "networkInit"
    else if id == permit_joining
    then some "permitJoining"
    else if id == get_eui64
    then some "getEui64"
    else if id == send_unicast
    then some "sendUnicast"
    else if id == set_configuration_value
    then some "setConfigurationValue"
    else if id == set_policy
    then some "setPolicy"
    else if id == import_transient_key
    then some "importTransientKey"
    else if id == stack_status_handler
    then some "stackStatusHandler"
    else if id == message_sent_handler
    then some "messageSentHandler"
    else if id == incoming_message_handler
    then some "incomingMessageHandler"
    else if id == trust_center_join_handler
    then some "trustCenterJoinHandler"
    else none

-- The ids whose parameters are secret, and stay out of the log.
unfoldable pub carries_key_material : FrameId → Bool
carries_key_material id =
    id == export_key
    || (id == import_transient_key
        || (id == set_initial_security_state || id == get_network_key_info))
