-- ===== src/Client/Ops.antt =====
-- `run` and `write_connection_lifecycle` of zakuro/src/virtual_client.rs. What the network, the
-- timers and the cancellation do in one turn of the loop is an `Attempt`; the events are those
-- that reach the statistics channel, in order.
use zakuro_rs.Base.{
  ℕ, ◌-◌, Bool, true, false, List, [], ◌∷◌, ◌++◌, Option, none, some, if◌then◌else◌, ltb, leb,
  add32,
}
use zakuro_rs.Lifecycle.Types.{
  LifecycleEnd, ConnectionOutcome, outcome_str, failure_reason, OutcomeSettings,
  ConnectionLifecycle,
}
use zakuro_rs.Lifecycle.Ops.{mark_disconnected, judge, is_stalled}
use zakuro_rs.Scenario.Types.{ScenarioEnd}
use zakuro_rs.Stats.Types.{StatsEvent, connected, disconnected, retrying, stopped, connection_ended}

pub record ConnectionResult : Type 0 where
  pub outcome : ConnectionOutcome
  pub stalled : Bool
  pub connect_duration : Option ℕ

-- `connected_at.duration_since(attempt_started_at).ok()`
abbrev pub duration_since_ok : Option ℕ → ℕ → Option ℕ
duration_since_ok none attempt = none
duration_since_ok (some t) attempt = if leb attempt t then some (t - attempt) else none

-- Without the row for DuckDB. `poisoned` says that the lock of the lifecycle is poisoned.
unfoldable pub write_connection_lifecycle :
    Bool → ConnectionLifecycle → OutcomeSettings → LifecycleEnd → ℕ → Option ConnectionResult
write_connection_lifecycle true l s reason now = none
write_connection_lifecycle false l s reason now =
    let snapshot = mark_disconnected l reason now in
    some (record {
      outcome = judge snapshot s;
      stalled = is_stalled snapshot;
      connect_duration = duration_since_ok snapshot.webrtc_connected_at snapshot.attempt_started_at;
    })

pub record ClientConfig : Type 0 where
  pub instance_id : ℕ
  pub vc_id : ℕ
  pub max_retry : ℕ
  -- a scenario is configured
  pub scenario : Bool
  -- `repeat_interval` is `Some` of a positive number
  pub repeats : Bool
  pub settings : OutcomeSettings

-- Which branch of the `select!` that waits for the end of a connection is taken: the
-- cancellation, the scenario player or the duration timer, or the end of `run()`.
pub data Wake : Type 0 where
  cancelled : Wake
  due : ScenarioEnd → Wake
  run_ended : Wake

pub data DisconnectReason : Type 0 where
  shutdown duration_expired scenario_disconnect scenario_exit unexpected : DisconnectReason

-- One turn of the loop, as the rest of the world decides it.
pub record Attempt : Type 0 where
  -- `build_client` succeeds
  pub built : Bool
  -- the connection was established, and `run()` ended while that was awaited
  pub established : Bool
  pub finished : Bool
  pub wake : Wake
  -- what the handlers recorded, the state of its lock, and the time of the end
  pub lifecycle : ConnectionLifecycle
  pub poisoned : Bool
  pub now : ℕ
  pub ended_at : ℕ
  -- `try_send` finds room in the channel
  pub room : Bool
  -- the token is cancelled in the wait before the next turn
  pub cancelled_wait : Bool

unfoldable pub disconnect_reason : Bool → Bool → Wake → DisconnectReason
disconnect_reason true scenario wake = unexpected
disconnect_reason false scenario cancelled = shutdown
disconnect_reason false scenario run_ended = unexpected
disconnect_reason false true (due ScenarioEnd.reconnect) = scenario_disconnect
disconnect_reason false true (due ScenarioEnd.exit) = scenario_exit
disconnect_reason false false (due e) = duration_expired

unfoldable pub ended_event : ClientConfig → Attempt → ConnectionResult → StatsEvent
ended_event c a r = connection_ended (record {
  instance_id = c.instance_id;
  vc_id = c.vc_id;
  outcome = outcome_str r.outcome;
  failure_reason = failure_reason r.outcome;
  stalled = r.stalled;
  connect_duration = r.connect_duration;
  ended_at = a.ended_at;
})

-- The closure `record_lifecycle`.
unfoldable pub record_lifecycle : ClientConfig → Attempt → LifecycleEnd → List StatsEvent
record_lifecycle c a reason =
    elim (write_connection_lifecycle a.poisoned a.lifecycle c.settings reason a.now) [
      | none ↦ []
      | some r ↦ if a.room then ended_event c a r ∷ [] else []
    ]

-- The events of one turn, and the retry count of the next turn, or `none` for a `break`.
pub record Turn : Type 0 where
  pub events : List StatsEvent
  pub next : Option ℕ

abbrev emit : List StatsEvent → Turn → Turn
emit es t = record { events = es ++ t.events; next = t.next }

abbrev break : Turn
break = record { events = []; next = none }

-- The wait before the next turn, which the cancellation may end.
abbrev wait : Bool → ℕ → Turn
wait true retry_count = break
wait false retry_count = record { events = []; next = some retry_count }

-- `retry_count += 1`, the test against `max_retry`, the event and the wait.
unfoldable pub retry : ClientConfig → Attempt → ℕ → Turn
retry c a retry_count =
    let n = add32 retry_count 1 in
    if ltb c.max_retry n
    then break
    else emit (retrying c.instance_id c.vc_id n ∷ []) (wait a.cancelled_wait n)

abbrev down : ClientConfig → StatsEvent
down c = disconnected c.instance_id c.vc_id

-- `match reason`
unfoldable pub disconnect : ClientConfig → Attempt → ℕ → DisconnectReason → Turn
unfolding retry
disconnect c a n shutdown = emit (record_lifecycle c a LifecycleEnd.shutdown) break
disconnect c a n duration_expired =
    emit (record_lifecycle c a LifecycleEnd.duration_expired ++ down c ∷ [])
      (if c.repeats then wait a.cancelled_wait 0 else break)
disconnect c a n scenario_disconnect =
    emit (record_lifecycle c a LifecycleEnd.scenario_disconnect ++ down c ∷ []) (wait false 0)
disconnect c a n scenario_exit =
    emit (record_lifecycle c a LifecycleEnd.scenario_exit ++ down c ∷ []) break
disconnect c a n unexpected =
    emit (record_lifecycle c a LifecycleEnd.unexpected ++ down c ∷ []) (retry c a n)

unfoldable pub turn : ClientConfig → ℕ → Attempt → Turn
unfolding disconnect disconnect_reason
turn c n a =
    if a.built
    then emit (if a.established then connected c.instance_id c.vc_id ∷ [] else [])
        (disconnect c a n (disconnect_reason a.finished c.scenario a.wake))
    else emit (record_lifecycle c a LifecycleEnd.build_failed) (retry c a n)

-- The events of the loop over these turns, and whether it has ended; a loop that ended sends
-- `Stopped`.
pub record Run : Type 0 where
  pub events : List StatsEvent
  pub ended : Bool

unfoldable pub run_loop : ClientConfig → ℕ → List Attempt → Run
run_loop c n [] = record { events = []; ended = false }
run_loop c n (a ∷ rest) = elim (turn c n a).next [
  | none ↦ record {
    events = (turn c n a).events ++ stopped c.instance_id c.vc_id ∷ [];
    ended = true;
  }
  | some m ↦ record {
    events = (turn c n a).events ++ (run_loop c m rest).events;
    ended = (run_loop c m rest).ended;
  }
]

-- `run`
unfoldable pub run : ClientConfig → List Attempt → Run
unfolding run_loop turn
run c attempts = run_loop c 0 attempts
