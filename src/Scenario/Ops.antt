-- ===== src/Scenario/Ops.antt =====
-- `ScenarioPlayer` of zakuro/src/scenario.rs. `none` stands for a panic.
use Prim.Native.String.{String}
use zakuro_rs.Base.{
  ℕ, zero, suc, ◌+◌, ◌-◌, ◌%◌, max, Bool, not, List, [], ◌∷◌, ◌++◌, Option, none, some,
  if◌then◌else◌, ltb, leb, length, get_elem?, ◌>>=◌,
}
use zakuro_rs.Base.Map.{insert, string_eq}
use zakuro_rs.Channel.Message.{xorshift32, compute_seed, payload_size_from, build_message}
use zakuro_rs.Channel.Config.{in_range}
use zakuro_rs.Channel.Sender.{Sent, counter_of}
use zakuro_rs.Scenario.Types.{ScenarioOp, ScenarioEnd, Scenario, ScenarioPlayer}

-- What the world decides in one turn of the loop: the token at its start and in the sleep, the
-- random 64 bits, the clock, and the identifiers, of which `none` is a poisoned lock.
pub record Moment : Type 0 where
  pub cancelled : Bool
  pub cancelled_asleep : Bool
  pub random : ℕ
  pub time_us : ℕ
  pub ids : Option (Option (List ℕ))

-- What a turn does to the world: it starts a sleep of so many milliseconds, or it calls
-- `send_message`.
pub data Effect : Type 0 where
  slept : ℕ → Effect
  sent : Sent → Effect

unfoldable pub random_range : ℕ → ℕ → ℕ → Option ℕ
random_range lo hi random =
    if ltb hi lo then none else some ((lo + random % (hi - lo + 1)) % 18446744073709551616)

-- The counter of the loop `for _ in 0..9`.
abbrev pub sleeps : ℕ → List ScenarioOp
sleeps zero = []
sleeps (suc n) = ScenarioOp.sleep 1000 5000 ∷ sleeps n

unfoldable pub build_reconnect_scenario : Scenario
build_reconnect_scenario = record { ops = ScenarioOp.reconnect ∷ sleeps 9; loop_index = 0 }

unfoldable pub new_player : Scenario → ℕ → ℕ → ScenarioPlayer
new_player scenario instance_id vc_id = record {
  scenario = scenario;
  op_index = 0;
  instance_id = instance_id;
  vc_id = vc_id;
  dc_counter = [];
  xorshift_state = compute_seed instance_id vc_id;
}

unfoldable pub advance : ScenarioPlayer → ScenarioPlayer
advance p =
    let next = p.op_index + 1 in
    record p { op_index = if leb (length p.scenario.ops) next then p.scenario.loop_index else next }

unfoldable pub normalize_message_sizes : ℕ → ℕ → Option (ℕ × ℕ)
normalize_message_sizes min_size max_size =
    if not (in_range min_size)
    then none
    else if not (in_range max_size)
    then none
    else some (min_size, max max_size min_size)

unfoldable pub read_connection_id : Option (Option (List ℕ)) → List ℕ
read_connection_id none = []
read_connection_id (some none) = []
read_connection_id (some (some connection_id)) = connection_id

-- The player behind the call, and the call.
abbrev pub sent_by : ScenarioPlayer → String → List ℕ → ℕ → ScenarioPlayer × Sent
sent_by p label message state = (
  record p {
    dc_counter =
        insert label ((counter_of label p.dc_counter + 1) % 18446744073709551616) p.dc_counter;
    xorshift_state = state;
  },
  record { label = label; message = message },
)

-- A failure of the call is only logged.
unfoldable pub send_data_channel_message :
    ScenarioPlayer → Moment → String → ℕ → ℕ → Option (ScenarioPlayer × Sent)
send_data_channel_message p t label min_size max_size = do
  (lo, hi) ← normalize_message_sizes min_size max_size
  let random = xorshift32 p.xorshift_state
  payload_size ← payload_size_from lo hi random
  (message, state) ←
      build_message t.time_us (counter_of label p.dc_counter) (read_connection_id t.ids)
        payload_size random
  some (sent_by p label message state)

-- A player with what it did, and how it ended; `none` where it goes on.
pub record Played : Type 0 where
  pub player : ScenarioPlayer
  pub effects : List Effect
  pub end : Option ScenarioEnd

abbrev pub played : ScenarioPlayer → List Effect → Option ScenarioEnd → Played
played p effects end = record { player = p; effects = effects; end = end }

-- `match op`, with the `advance` behind it.
unfoldable pub play_op : ScenarioPlayer → Moment → ScenarioOp → Option Played
play_op p t (ScenarioOp.sleep min_ms max_ms) = random_range min_ms max_ms t.random >>= λ ms.
    if t.cancelled_asleep
    then some (played p (slept ms ∷ []) (some ScenarioEnd.exit))
    else some (played (advance p) (slept ms ∷ []) none)
play_op p t ScenarioOp.reconnect = some (played (advance p) [] (some ScenarioEnd.reconnect))
play_op p t ScenarioOp.disconnect = some (played (advance p) [] (some ScenarioEnd.reconnect))
play_op p t (ScenarioOp.send_data_channel_message label min_size max_size) =
    send_data_channel_message p t label min_size max_size >>= λ (p', s).
    some (played (advance p') (sent s ∷ []) none)
play_op p t ScenarioOp.exit = some (played p [] (some ScenarioEnd.exit))

-- `run_until_disconnect` over these turns of its loop.
unfoldable pub run_until_disconnect : ScenarioPlayer → List Moment → Option Played
run_until_disconnect p [] = some (played p [] none)
run_until_disconnect p (t ∷ ts) =
    if t.cancelled
    then some (played p [] (some ScenarioEnd.exit))
    else get_elem? p.scenario.ops p.op_index >>= λ op. play_op p t op >>= λ now. elim now.end [
      | some e ↦ some now
      | none ↦ run_until_disconnect now.player ts >>= λ later.
          some (played later.player (now.effects ++ later.effects) later.end)
    ]
