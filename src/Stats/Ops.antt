-- ===== src/Stats/Ops.antt =====
-- `StatsSnapshot`, `OutcomeTotals` and the aggregator of zakuro-core/src/stats.rs. Log lines are
-- left out. `+= 1` on a `u32` wraps, as in the release profile.
use Prim.Native.String.{String, compare}
use text.Mathlib.Text.{◌==◌ as str_eq, is_le}
use zakuro_rs.Base.{
  ℕ, ◌-◌, min, Bool, true, ◌||◌, ◌&&◌, List, [], ◌∷◌, ◌++◌, Option, none, some, if◌then◌else◌, ltb,
  leb, ◌==◌, length, get_elem?, add32, sat_add32,
}
use zakuro_rs.Base.Sort.{sort_by}
use zakuro_rs.Stats.Float.{Float}
use zakuro_rs.Stats.Types.{
  ConnectionEnded, StatsEvent, connected, disconnected, retrying, stopped, connection_ended,
  StatsSnapshot, StatsSummary, OutcomeTotals,
}

unfoldable pub initial : ℕ → ℕ → StatsSnapshot
initial total instances = record {
  total = total;
  instances = instances;
  connected = 0;
  retrying = 0;
  stopped = 0;
  success = 0;
  failure = 0;
  unjudged = 0;
  stalled = 0;
}

-- `if x > 0 { x -= 1 }`
abbrev pub drop_one : ℕ → ℕ
drop_one n = if ltb 0 n then n - 1 else n

-- The arms of `match outcome`.
abbrev pub is_success : ConnectionEnded → Bool
is_success c = str_eq c.outcome "success"

abbrev pub is_failure : ConnectionEnded → Bool
is_failure c = str_eq c.outcome "failure"

abbrev pub bump_if : Bool → ℕ → ℕ
bump_if b n = if b then add32 n 1 else n

abbrev snapshot_outcome : StatsSnapshot → ConnectionEnded → StatsSnapshot
snapshot_outcome s c =
    if is_success c
    then record s { success = add32 s.success 1 }
    else if is_failure c
    then record s { failure = add32 s.failure 1 }
    else record s { unjudged = add32 s.unjudged 1 }

unfoldable pub apply_snapshot : StatsSnapshot → StatsEvent → StatsSnapshot
apply_snapshot s (connected i v) = record s {
  connected = add32 s.connected 1;
  retrying = drop_one s.retrying;
}
apply_snapshot s (disconnected i v) = record s { connected = drop_one s.connected }
apply_snapshot s (retrying i v n) = record s { retrying = add32 s.retrying 1 }
apply_snapshot s (stopped i v) = record s {
  stopped = add32 s.stopped 1;
  retrying = drop_one s.retrying;
}
apply_snapshot s (connection_ended c) =
    let s' = snapshot_outcome s c in record s' { stalled = bump_if c.stalled s'.stalled }

-- `find` on the pairs, then `+= 1`, or `push`.
unfoldable pub count_reason : String → List (String × ℕ) → List (String × ℕ)
count_reason r [] = (r, 1) ∷ []
count_reason r ((name, n) ∷ rs) =
    if str_eq name r then (name, add32 n 1) ∷ rs else (name, n) ∷ count_reason r rs

abbrev pub count_failure : Option String → List (String × ℕ) → List (String × ℕ)
count_failure none rs = rs
count_failure (some r) rs = count_reason r rs

-- Most connections first, then by name.
abbrev pub reason_le : String × ℕ → String × ℕ → Bool
reason_le (a, n) (b, m) = ltb m n || (n == m && is_le (compare a b))

unfoldable pub is_counted : StatsEvent → ℕ → ℕ → Bool
is_counted (connection_ended c) started_at warmup =
    if warmup == 0 then true else leb warmup (c.ended_at - started_at)
is_counted (connected i v) started_at warmup = true
is_counted (disconnected i v) started_at warmup = true
is_counted (retrying i v n) started_at warmup = true
is_counted (stopped i v) started_at warmup = true

module _ (f : Float) where
  open f use {F, lt, total_le, mul, div, ceil, fmax, of_nat, hundredths, to_usize, as_secs_f64}

  abbrev pub judged : StatsSummary F → ℕ
  judged s = add32 s.success s.failure

  unfoldable pub success_rate : StatsSummary F → Option F
  success_rate s = if judged s == 0 then none else some (div (of_nat s.success) (of_nat (judged s)))

  unfoldable pub new_totals : OutcomeTotals F
  new_totals = record {
    success = 0;
    failure = 0;
    unjudged = 0;
    stalled = 0;
    failure_reasons = [];
    connect_times_ms = [];
    warmup_excluded = 0;
  }

  unfoldable pub exclude_for_warmup : OutcomeTotals F → OutcomeTotals F
  exclude_for_warmup t = record t { warmup_excluded = sat_add32 t.warmup_excluded 1 }

  abbrev totals_outcome : OutcomeTotals F → ConnectionEnded → OutcomeTotals F
  totals_outcome t c =
      if is_success c
      then record t { success = add32 t.success 1 }
      else if is_failure c
      then record t { failure = add32 t.failure 1 }
      else record t { unjudged = add32 t.unjudged 1 }

  -- `self.connect_times_ms.push(duration.as_secs_f64() * 1000.0)`
  abbrev push_time : Option ℕ → List F → List F
  push_time none ts = ts
  push_time (some d) ts = ts ++ mul (as_secs_f64 d) (hundredths 100000) ∷ []

  abbrev totals_ended : OutcomeTotals F → ConnectionEnded → OutcomeTotals F
  totals_ended t c =
      let t' = totals_outcome t c in
      record t' {
        stalled = bump_if c.stalled t'.stalled;
        failure_reasons = count_failure c.failure_reason t'.failure_reasons;
        connect_times_ms = push_time c.connect_duration t'.connect_times_ms;
      }

  unfoldable pub apply_totals : OutcomeTotals F → StatsEvent → OutcomeTotals F
  apply_totals t (connection_ended c) = totals_ended t c
  apply_totals t (connected i v) = t
  apply_totals t (disconnected i v) = t
  apply_totals t (retrying i v n) = t
  apply_totals t (stopped i v) = t

  abbrev pub rank : F → ℕ → ℕ
  rank ratio n = to_usize (fmax (ceil (mul ratio (of_nat n))) (hundredths 100))

  unfoldable pub percentile : List F → F → Option F
  percentile [] ratio = none
  percentile (x ∷ xs) ratio =
      get_elem? (x ∷ xs) (min (rank ratio (length (x ∷ xs)) - 1) (length (x ∷ xs) - 1))

  unfoldable pub summary : OutcomeTotals F → StatsSummary F
  summary t =
      let times = sort_by total_le t.connect_times_ms in
      record {
        success = t.success;
        failure = t.failure;
        unjudged = t.unjudged;
        stalled = t.stalled;
        warmup_excluded = t.warmup_excluded;
        failure_reasons = sort_by reason_le t.failure_reasons;
        connect_time_p50_ms = percentile times (hundredths 50);
        connect_time_p95_ms = percentile times (hundredths 95);
        connect_time_p99_ms = percentile times (hundredths 99);
      }

  -- The variables of the aggregator's loop, and one turn of it.
  pub record Aggregate : Type 0 where
    pub snapshot : StatsSnapshot
    pub totals : OutcomeTotals F

  unfoldable pub aggregate_event : ℕ → ℕ → Aggregate → StatsEvent → Aggregate
  aggregate_event started_at warmup a e =
      if is_counted e started_at warmup
      then record { snapshot = apply_snapshot a.snapshot e; totals = apply_totals a.totals e }
      else record a { totals = exclude_for_warmup a.totals }

  -- The events that arrive before the channel closes or the run is cancelled, in order.
  unfoldable pub aggregate : ℕ → ℕ → Aggregate → List StatsEvent → Aggregate
  aggregate started_at warmup a [] = a
  aggregate started_at warmup a (e ∷ es) =
      aggregate started_at warmup (aggregate_event started_at warmup a e) es

  -- `aggregator`
  unfoldable pub aggregator : ℕ → ℕ → ℕ → ℕ → List StatsEvent → StatsSummary F
  unfolding aggregate summary new_totals
  aggregator total instances started_at warmup es =
      let first : Aggregate = record { snapshot = initial total instances; totals = new_totals } in
      summary (aggregate started_at warmup first es).totals
