-- ===== src/Tests/Client.antt =====
-- The loop of a virtual client on concrete inputs.
use zakuro_rs.Base.{
  ◌+◌, Bool, true, false, [], ◌∷◌, some, none, ◌⊎◌, ◌≡◌, refl, arith, if◌then◌else◌,
}
use zakuro_rs.Lifecycle.Types.{outcome_grace}
use zakuro_rs.Lifecycle.Ops.{new}
use zakuro_rs.Scenario.Types.{ScenarioEnd}
use zakuro_rs.Stats.Types.{StatsSnapshot, connected}
use zakuro_rs.Stats.Ops.{apply_snapshot}
use zakuro_rs.Stats.Count.{count_if, is_end}
use zakuro_rs.Client.Ops.{ClientConfig, Wake, run_ended, due, Attempt, turn, run}
use zakuro_rs.Client.Contract.{IsTotalled, ended_event-IsTotalled}
use zakuro_rs.Lifecycle.Types.{ConnectionFailure, failure}
use zakuro_rs.Stats.Ops.{new_totals, apply_totals}
use zakuro_rs.Client.Ops.{ConnectionResult, ended_event}
use zakuro_rs.Tests.Stats.{fixed}
use zakuro_rs.Client.Retry.{is_stopped, run-gives_up, turn_resets}
use zakuro_rs.Client.Once.{taken, count_reported, run_told}
use zakuro_rs.Client.Gauge.{apply_all, after_failures, turn_unestablished, retrying_leaks}

abbrev config : ClientConfig
config = record {
  instance_id = 0;
  vc_id = 1;
  max_retry = 2;
  scenario = true;
  repeats = false;
  settings = record {
    grace = outcome_grace;
    expects_send = true;
    expects_receive = false;
    video_enabled = true;
    audio_enabled = false;
  };
}

-- The attempt is built; whether it is established, and its end.
abbrev attempt : Bool → Wake → Attempt
attempt established wake = record {
  built = true;
  established = established;
  finished = if established then false else true;
  wake = wake;
  lifecycle = new 0;
  poisoned = false;
  now = 20_000_000_000;
  ended_at = 20_000_000_000;
  room = true;
  cancelled_wait = false;
}

abbrev failing : Attempt
failing = attempt false run_ended

run-gives_up_example : (run config (failing ∷ failing ∷ failing ∷ [])).ended ≡ true
run-gives_up_example =
    run-gives_up config (failing ∷ failing ∷ failing ∷ []) (omega arith) (refl, (refl, (refl, tt)))
      (omega arith)

turn_resets_example :
    ((turn config 2 (attempt true (due ScenarioEnd.reconnect))).next ≡ none)
    ⊎ ((turn config 2 (attempt true (due ScenarioEnd.reconnect))).next ≡ some 0)
turn_resets_example = turn_resets config 2 (attempt true (due ScenarioEnd.reconnect)) refl

run_told_example :
    (count_if is_end (run config (failing ∷ failing ∷ failing ∷ [])).events
      ≡ count_reported (taken config 0 (failing ∷ failing ∷ failing ∷ [])))
    × (count_if is_stopped (run config (failing ∷ failing ∷ failing ∷ [])).events
        ≡ (if (run config (failing ∷ failing ∷ failing ∷ [])).ended then 1 else 0))
run_told_example = run_told config (failing ∷ failing ∷ failing ∷ [])

abbrev gauges : StatsSnapshot
gauges = record {
  total = 2;
  instances = 1;
  connected = 1;
  retrying = 0;
  stopped = 0;
  success = 0;
  failure = 0;
  unjudged = 0;
  stalled = 0;
}

turn_unestablished_example : (apply_all gauges (turn config 0 failing).events).connected + 1 ≡ 1
turn_unestablished_example =
    turn_unestablished config 0 failing gauges refl refl refl (omega arith) (omega arith)

retrying_leaks_example :
    (apply_snapshot
        (after_failures config 0 (failing ∷ failing ∷ []) gauges)
        (connected 0 1)).retrying
      + 1
    ≡ 2
retrying_leaks_example =
    retrying_leaks config (failing ∷ failing ∷ []) gauges
      ((refl, refl, refl), ((refl, refl, refl), tt)) (omega arith) (omega arith) (omega arith)
      (omega arith)

abbrev no_media : ConnectionResult
no_media = record {
  outcome = failure ConnectionFailure.no_media_sent;
  stalled = false;
  connect_duration = some 5;
}

ended_event-IsTotalled_example :
    IsTotalled
      (new_totals fixed)
      (apply_totals fixed (new_totals fixed) (ended_event config failing no_media))
      (failure ConnectionFailure.no_media_sent)
ended_event-IsTotalled_example =
    ended_event-IsTotalled fixed config failing no_media (new_totals fixed)
