-- ===== src/Types/Examples.antt =====
-- Field types on concrete values.
use rsezsp.Prelude.{[], ◌∷◌, ◌≡◌, refl}
use rsezsp.Types.Signed.{negsuc, as_u8, as_i8}
use rsezsp.Types.Network.{to_wire, NetworkParameters}
use rsezsp.Types.Security.{SecurityManContext, network_key}

to_wire_test :
    to_wire 0x94a081fffed96e5c ≡ 0x5c ∷ 0x6e ∷ 0xd9 ∷ 0xfe ∷ 0xff ∷ 0x81 ∷ 0xa0 ∷ 0x94 ∷ []
to_wire_test = refl

as_u8_test : as_u8 (negsuc 8) ≡ 0xf7
unfolding as_u8
as_u8_test = refl

as_i8_test : as_i8 0xf7 ≡ negsuc 8
unfolding as_i8
as_i8_test = refl

-- Channel 15 at -9 dBm.
abbrev parameters : NetworkParameters
parameters = record {
  extended_pan_id = 1 ∷ 2 ∷ 3 ∷ 4 ∷ 5 ∷ 6 ∷ 7 ∷ 8 ∷ [];
  pan_id = 0x1a62;
  radio_tx_power = negsuc 8;
  radio_channel = 15;
  join_method = 0;
  nwk_manager_id = 0;
  nwk_update_id = 0;
  channels = 0x07fff800;
}

-- The key of a device.
abbrev context : SecurityManContext
context = record network_key { core_key_type = 0x02; eui64 = 0x94a081fffed96e5c; flags = 0x02 }
