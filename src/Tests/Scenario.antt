-- ===== src/Tests/Scenario.antt =====
-- Messages and scenarios on concrete inputs.
use text.Mathlib.Text.{◌==◌ as str_eq}
use zakuro_rs.Base.{
  ℕ, zero, suc, ◌<◌, true, false, List, [], ◌∷◌, none, some, ◌≡◌, refl, arith, if◌then◌else◌, ◌==◌,
}
use zakuro_rs.Base.Json.{Json}
use zakuro_rs.Base.Map.{string_eq}
use zakuro_rs.Base.Result.{ok, and_then}
use zakuro_rs.Channel.Message.{compute_seed, build_message}
use zakuro_rs.Channel.Xorshift.{steps, steps-compute_seed}
use zakuro_rs.Channel.Layout.{IsMessage, build_message-IsMessage}
use zakuro_rs.Channel.Config.{
  MessageChannel, Channels, parse_data_channels, parse_elements, parse_element, connect_channel,
  sending_channel, message_channel, is_sending, required, optional,
}
use zakuro_rs.Channel.Sizes.{IsFit, IsChannels, parse_data_channels-IsChannels}
use zakuro_rs.Channel.Sender.{Tick, Sent, run_messaging}
use zakuro_rs.Channel.Run.{IsCounted, run_messaging-IsCounted}
use zakuro_rs.Scenario.Types.{ScenarioOp, ScenarioPlayer}
use zakuro_rs.Scenario.Ops.{
  Moment, Played, build_reconnect_scenario, new_player, run_until_disconnect,
}
use zakuro_rs.Scenario.Inside.{IsReady, run_until_disconnect-IsReady}
use zakuro_rs.Scenario.Reconnect.{IsCycle, run_until_disconnect-IsCycle, new_player-IsCycle}

steps-compute_seed_example :
    (0 < steps 3 (compute_seed 1 2)) × (steps 3 (compute_seed 1 2) < 4294967296)
steps-compute_seed_example = steps-compute_seed 1 2 3

first_seed : compute_seed 0 0 ≡ 0xdead_beef
unfolding compute_seed
first_seed = refl

abbrev id : List ℕ
id = 65 ∷ 66 ∷ 67 ∷ []

build_message-IsMessage_example :
    (m : List ℕ) × (s : ℕ) × (build_message 1000 7 id 5 1 ≡ some (m, s)) × IsMessage m 53 1000 7 id
build_message-IsMessage_example = build_message-IsMessage 1000 7 id 5 1 (omega arith) (omega arith)

-- A JSON text with one channel `a`, of the direction `sendonly`.
abbrev one_channel : Json
one_channel = record {
  Value = ℕ;
  parse = λ text. some 0;
  to_array = λ v. some (1 ∷ []);
  to_member = λ v key.
      if str_eq key "label"
      then some (some 2)
      else if str_eq key "direction"
      then some (some 3)
      else some none;
  as_string = λ v. if v == 2 then some "a" else some "sendonly";
  as_bool = λ v. none;
  as_i64 = λ v. none;
  as_i32 = λ v. none;
  as_u32 = λ v. none;
  as_usize = λ v. none;
}

abbrev channel : MessageChannel
channel = record { label = "a"; interval_ms = 500; size_min = 48; size_max = 48 }

abbrev channels : Channels
channels = record {
  connect =
      record {
        label = "a";
        direction = "sendonly";
        ordered = none;
        max_packet_life_time = none;
        max_retransmits = none;
        protocol = none;
        compress = none;
      }
      ∷ [];
  message = channel ∷ [];
}

channels_parsed : parse_data_channels one_channel "" ≡ ok channels
unfolding parse_data_channels parse_elements parse_element connect_channel sending_channel
    message_channel is_sending required optional and_then
channels_parsed = refl

parse_data_channels-IsChannels_example : IsChannels channels
parse_data_channels-IsChannels_example =
    parse_data_channels-IsChannels one_channel "" channels channels_parsed

abbrev wide : MessageChannel
wide = record { label = "b"; interval_ms = 10; size_min = 48; size_max = 100 }

abbrev tick : ℕ → Tick
tick now = record { cancelled = false; time_us = now; succeeds = true; now = now }

channel-IsFit : IsFit channel
channel-IsFit = record { low = omega arith; ordered = omega arith; high = omega arith }

wide-IsFit : IsFit wide
wide-IsFit = record { low = omega arith; ordered = omega arith; high = omega arith }

run_messaging-IsCounted_example :
    (sent : List Sent) × (run_messaging 0 1
        (channel ∷ wide ∷ [])
        (λ i. i)
        (tick 1 ∷ tick 2 ∷ tick 3 ∷ [])
      ≡ some sent)
    × IsCounted [] sent
run_messaging-IsCounted_example =
    run_messaging-IsCounted 0 1 (channel ∷ wide ∷ []) (λ i. i) (tick 1 ∷ tick 2 ∷ tick 3 ∷ [])
      (channel-IsFit, (wide-IsFit, tt)) (omega arith) (omega arith)

abbrev moment : ℕ → Moment
moment random = record {
  cancelled = false;
  cancelled_asleep = false;
  random = random;
  time_us = 5;
  ids = some none;
}

-- A player in front of a message, then a sleep.
abbrev sending : ScenarioPlayer
sending = record {
  scenario = record {
    ops = ScenarioOp.send_data_channel_message "a" 60 48 ∷ ScenarioOp.sleep 1 2 ∷ [];
    loop_index = 1;
  };
  op_index = 0;
  instance_id = 0;
  vc_id = 0;
  dc_counter = [];
  xorshift_state = 1;
}

sending-IsReady : IsReady sending
sending-IsReady = record {
  ops_are = ((omega arith, omega arith, omega arith, omega arith), (omega arith, tt));
  loops = omega arith;
  inside = omega arith;
}

run_until_disconnect-IsReady_example :
    (r : Played) × (run_until_disconnect sending (moment 3 ∷ moment 4 ∷ []) ≡ some r)
    × IsReady r.player
run_until_disconnect-IsReady_example =
    run_until_disconnect-IsReady sending (moment 3 ∷ moment 4 ∷ []) sending-IsReady

abbrev moments : ℕ → List Moment
moments zero = []
moments (suc n) = moment n ∷ moments n

-- A player of the scenario `reconnect` behind its first reconnection.
abbrev second : ScenarioPlayer
second = record {
  scenario = build_reconnect_scenario;
  op_index = 1;
  instance_id = 0;
  vc_id = 0;
  dc_counter = [];
  xorshift_state = 1;
}

run_until_disconnect-IsCycle_example :
    (r : Played) × (run_until_disconnect second (moments 10) ≡ some r) × IsCycle 9 r
run_until_disconnect-IsCycle_example =
    run_until_disconnect-IsCycle second (moments 10) (record { plays = refl; at = refl })
      (
        (refl, refl),
        (
          (refl, refl),
          (
            (refl, refl),
            (
              (refl, refl),
              (
                (refl, refl),
                ((refl, refl), ((refl, refl), ((refl, refl), ((refl, refl), ((refl, refl), tt))))),
              ),
            ),
          ),
        ),
      )
      refl

new_player-IsCycle_example :
    (r : Played) × (run_until_disconnect (new_player build_reconnect_scenario 0 1) (moment 0 ∷ [])
      ≡ some r)
    × IsCycle 0 r
new_player-IsCycle_example = new_player-IsCycle 0 1 (moment 0) refl
