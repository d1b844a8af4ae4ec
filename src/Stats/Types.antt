-- ===== src/Stats/Types.antt =====
-- The events, the snapshot and the totals of zakuro-core/src/stats.rs. A `Duration` and an
-- `Instant` are numbers of nanoseconds.
use Prim.Native.String.{String}
use zakuro_rs.Base.{ℕ, Bool, List, Option}

pub record ConnectionEnded : Type 0 where
  pub instance_id : ℕ
  pub vc_id : ℕ
  pub outcome : String
  pub failure_reason : Option String
  pub stalled : Bool
  pub connect_duration : Option ℕ
  pub ended_at : ℕ

pub data StatsEvent : Type 0 where
  connected : ℕ → ℕ → StatsEvent
  disconnected : ℕ → ℕ → StatsEvent
  retrying : ℕ → ℕ → ℕ → StatsEvent
  stopped : ℕ → ℕ → StatsEvent
  connection_ended : ConnectionEnded → StatsEvent

pub record StatsSnapshot : Type 0 where
  pub total : ℕ
  pub instances : ℕ
  pub connected : ℕ
  pub retrying : ℕ
  pub stopped : ℕ
  pub success : ℕ
  pub failure : ℕ
  pub unjudged : ℕ
  pub stalled : ℕ

pub record StatsSummary (F : Type 0) : Type 0 where
  pub success : ℕ
  pub failure : ℕ
  pub unjudged : ℕ
  pub stalled : ℕ
  pub warmup_excluded : ℕ
  pub failure_reasons : List (String × ℕ)
  pub connect_time_p50_ms : Option F
  pub connect_time_p95_ms : Option F
  pub connect_time_p99_ms : Option F

pub record OutcomeTotals (F : Type 0) : Type 0 where
  pub success : ℕ
  pub failure : ℕ
  pub unjudged : ℕ
  pub stalled : ℕ
  pub failure_reasons : List (String × ℕ)
  pub connect_times_ms : List F
  pub warmup_excluded : ℕ
