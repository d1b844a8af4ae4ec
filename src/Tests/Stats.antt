-- ===== src/Tests/Stats.antt =====
-- The statistics and the thresholds on concrete inputs. The floats are numbers of hundredths.
use Prim.Native.String.{String}
use zakuro_rs.Base.{
  ℕ, ◌+◌, ◌-◌, ◌*◌, ◌/◌, max, false, List, [], ◌∷◌, none, some, ◌≡◌, ◌↔◌, refl, arith, ltb, leb,
}
use zakuro_rs.Base.Int.{pos, pos_part}
use zakuro_rs.Base.Sort.{sort_by}
use zakuro_rs.Stats.Float.{Float, IsFloat, IsRounding}
use zakuro_rs.Stats.Types.{OutcomeTotals, StatsEvent, connected, connection_ended}
use zakuro_rs.Stats.Ops.{
  aggregator, percentile, summary, new_totals, aggregate_event, is_counted, apply_totals,
  exclude_for_warmup,
}
use zakuro_rs.Stats.Tally.{IsTally, aggregator-IsTally}
use zakuro_rs.Stats.Percentile.{IsPercentile, summary-IsPercentile}
use zakuro_rs.Threshold.Ops.{Thresholds, evaluate}
use zakuro_rs.Threshold.Verdict.{IsMet, evaluate-IsMet_iff}

abbrev pub fixed : Float
fixed = record {
  F = ℕ;
  lt = ltb;
  total_le = leb;
  add = λ a b. a + b;
  sub = λ a b. a - b;
  mul = λ a b. a * b / 100;
  div = λ a b. a * 100 / b;
  ceil = λ a. (a + 99) / 100 * 100;
  floor = λ a. a / 100 * 100;
  round = λ a. (a + 50) / 100 * 100;
  fmax = max;
  of_nat = λ n. n * 100;
  of_int = λ z. pos_part z * 100;
  hundredths = λ n. n;
  to_usize = λ a. a / 100;
  to_i16 = λ a. pos (a / 100);
  as_secs_f64 = λ n. n / 10_000_000;
  from_secs_f64 = λ a. a * 10_000_000;
}

pub fixed-IsFloat : IsFloat fixed
fixed-IsFloat = record {
  order = record { total = λ a b h. ground arith; trans = λ a b c h k. ground arith };
  max_one = λ x. omega arith;
}

fixed-IsRounding : IsRounding fixed
fixed-IsRounding = record {
  ceil_whole = λ x. omega arith;
  one_whole = refl;
  fmax_either = λ x y. ground arith;
  above_ceil = λ x n h. ground arith;
  above_fmax = λ x y z. ground arith;
  above_one = λ n h. ground arith;
  to_usize_whole = λ x n h e. ground arith;
}

abbrev ending : String → ℕ → StatsEvent
ending outcome ended_at = connection_ended (record {
  instance_id = 0;
  vc_id = 1;
  outcome = outcome;
  failure_reason = none;
  stalled = false;
  connect_duration = some 2_000_000_000;
  ended_at = ended_at;
})

abbrev events : List StatsEvent
events = connected 0 1 ∷ ending "success" 5 ∷ ending "success" 50 ∷ ending "failure" 60 ∷ []

-- The first connection ends within the warm-up time of 10.
events_success : (aggregator fixed 1 1 0 10 events).success ≡ 1
unfolding aggregator aggregate_event is_counted apply_totals exclude_for_warmup
events_success = refl

aggregator-IsTally_example : IsTally fixed 0 10 events (aggregator fixed 1 1 0 10 events)
aggregator-IsTally_example = aggregator-IsTally fixed 1 1 0 10 events (omega arith)

abbrev times : List ℕ
times = 300 ∷ 100 ∷ 200 ∷ 400 ∷ []

times_median : percentile fixed (sort_by leb times) 50 ≡ some 200
unfolding percentile sort_by
times_median = refl

abbrev totals : OutcomeTotals ℕ
totals = record (new_totals fixed) { connect_times_ms = times }

summary-IsPercentile_example :
    IsPercentile fixed times 50 (summary fixed totals).connect_time_p50_ms
    × IsPercentile fixed times 95 (summary fixed totals).connect_time_p95_ms
    × IsPercentile fixed times 99 (summary fixed totals).connect_time_p99_ms
unfolding new_totals
summary-IsPercentile_example =
    summary-IsPercentile fixed totals fixed-IsFloat fixed-IsRounding (omega arith)

abbrev strict : Thresholds fixed
strict = record { success_rate = some 40; connect_time_p95_ms = none; stalled = some 0 }

evaluate-IsMet_iff_example :
    (evaluate fixed strict (aggregator fixed 1 1 0 10 events) ≡ [])
    ↔ IsMet fixed strict (aggregator fixed 1 1 0 10 events)
evaluate-IsMet_iff_example = evaluate-IsMet_iff fixed strict (aggregator fixed 1 1 0 10 events)
