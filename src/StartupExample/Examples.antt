-- ===== src/StartupExample/Examples.antt =====
-- Two policies, of which the second is refused behind a callback; a `messageSent` with a foreign tag;
-- and a whole run.
use rsezsp.Prelude.{
  ℕ, zero, suc, ◌+◌, List, [], ◌∷◌, ◌++◌, true, false, some, ok, err, if◌then◌else◌, ◌≡◌, refl,
}
use Prim.Native.String.{String}
use rsezsp.Types.Status.{is_ok}
use rsezsp.Ash.Frame.{control}
use rsezsp.Ezsp.FrameId
use rsezsp.Ezsp.Frame.{from_low_byte}
use rsezsp.Ezsp.Codec.Writer
use rsezsp.Ezsp.Callback.{stack_status, message_sent}
use rsezsp.Ezsp.Command.Setup.{SetPolicy}
use rsezsp.Ncp.Transport.{arrived, Arrival}
use rsezsp.Ncp.Runtime.{Ncp, poll, pump_until, has_callbacks}
use rsezsp.Ncp.Startup.{connect}
use rsezsp.Ncp.Examples.{Tape, recorder, ready, answers}
use rsezsp.Ncp.Dialogue.{Incoming, reads}
use rsezsp.StartupExample.Checklist
use rsezsp.StartupExample.Checklist.{pass, fail, report}
use rsezsp.StartupExample.Sending.{await_delivery}
use rsezsp.StartupExample.Main.{Options, Script, main}
use rsezsp.StartupExample.Counting.{asked, main_reports}
use rsezsp.StartupExample.Configured.{Turn}
use rsezsp.StartupExample.Delivery.{at_once, await_delivery_lem}

abbrev first_answer : Incoming
first_answer = record {
  ack_num = 1;
  retransmit = false;
  payload = 0 ∷ 128 ∷ 1 ∷ 85 ∷ 0 ∷ 0 ∷ [];
  wire = 1 ∷ 66 ∷ 161 ∷ 169 ∷ 1 ∷ 42 ∷ 21 ∷ 173 ∷ 66 ∷ 126 ∷ [];
}

abbrev noise : Incoming
noise = record {
  ack_num = 1;
  retransmit = false;
  payload = 1 ∷ 144 ∷ 1 ∷ 25 ∷ 0 ∷ 144 ∷ [];
  wire = 125 ∷ 49 ∷ 67 ∷ 177 ∷ 169 ∷ 77 ∷ 42 ∷ 133 ∷ 48 ∷ 182 ∷ 126 ∷ [];
}

abbrev second_answer : Incoming
second_answer = record {
  ack_num = 2;
  retransmit = false;
  payload = 1 ∷ 128 ∷ 1 ∷ 85 ∷ 0 ∷ 2 ∷ [];
  wire = 34 ∷ 67 ∷ 161 ∷ 169 ∷ 1 ∷ 42 ∷ 23 ∷ 125 ∷ 94 ∷ 212 ∷ 126 ∷ [];
}

abbrev two_policies : List SetPolicy
two_policies =
    record { policy_id = 0; decision = 3 } ∷ record { policy_id = 5; decision = 0x51 } ∷ []

abbrev first_turn : Turn
first_turn = record {
  bytes = 0 ∷ 0 ∷ 1 ∷ 0x55 ∷ 0 ∷ 0 ∷ 3 ∷ [];
  before = [];
  answer = first_answer;
  frame = record {
    sequence = 0;
    control = from_low_byte 0x80;
    frame_id = FrameId.set_policy;
    parameters = 0 ∷ [];
  };
  later = [];
}

abbrev second_turn : Turn
second_turn = record {
  bytes = 1 ∷ 0 ∷ 1 ∷ 0x55 ∷ 0 ∷ 5 ∷ 0x51 ∷ [];
  before = noise ∷ [];
  answer = second_answer;
  frame = record {
    sequence = 1;
    control = from_low_byte 0x80;
    frame_id = FrameId.set_policy;
    parameters = 2 ∷ [];
  };
  later = [];
}

abbrev policy_reads : ℕ → List Arrival
policy_reads zero = reads second_turn.before (arrived second_answer.wire ∷ [])
policy_reads (suc i) = reads first_turn.before (arrived first_answer.wire ∷ [])

-- The news of another message.
abbrev told : Ncp Tape
told = record ready {
  callbacks =
      stack_status 0x90
      ∷ message_sent 0 0x3a41
          (record {
            profile_id = 0x0104;
            cluster_id = 0x0006;
            source_endpoint = 1;
            destination_endpoint = 1;
            options = 0x0140;
            group_id = 0;
            sequence = 0;
          })
          7 0 []
      ∷ [];
}

told-poll : poll recorder [] told ≡ (ok told.callbacks, ready)
unfolding poll pump_until has_callbacks
told-poll = refl

await_delivery_lem_example :
    (await_delivery recorder ([] ++ [] ∷ []) (told, Checklist.new) ≡ (
      ready,
      if is_ok 0
          then pass Checklist.new "messageSent callback (delivered)"
          else fail Checklist.new "messageSent callback",
    ))
    × (await_delivery recorder [] (told, Checklist.new)
        ≡ (told, fail Checklist.new "messageSent callback"))
await_delivery_lem_example =
    await_delivery_lem recorder told told ready Checklist.new [] [] [] (stack_status 0x90 ∷ []) [] 0
      0x3a41
      (record {
        profile_id = 0x0104;
        cluster_id = 0x0006;
        source_endpoint = 1;
        destination_endpoint = 1;
        options = 0x0140;
        group_id = 0;
        sequence = 0;
      })
      7 0 [] at_once told-poll tt

abbrev silent : Script
silent = record {
  reset = answers;
  version = [];
  version_again = [];
  eui64 = [];
  endpoint = [];
  stack = λ i. [];
  policies = λ i. [];
  network = [];
  key = [];
  permit = [];
  joins = [];
  close = [];
  clear = [];
  send = [];
  deliveries = [];
}

abbrev everything : Options
everything = record {
  path = "/dev/ttyUSB0";
  permit_join = true;
  close_join = true;
  onoff = some (0x3a41, true);
}

abbrev in_words : ℕ → String
in_words n = "19"

main_reports_example :
    ((report (main recorder silent in_words everything (err "busy"))).1 ≡ 1)
    × ((report (main recorder silent in_words everything (ok []))).1
        ≡ (elim (connect recorder [] silent.reset silent.version silent.version_again) [
          | ok n ↦ 3 + asked everything
          | err e ↦ 2
        ]))
main_reports_example = main_reports recorder silent in_words everything [] "busy"
