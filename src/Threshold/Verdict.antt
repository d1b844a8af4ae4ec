-- ===== src/Threshold/Verdict.antt =====
-- When a run passes its thresholds.
use zakuro_rs.Base.{
  ℕ, ◌≤◌, false, List, [], none, some, ◌≡◌, ◌↔◌, ◌⊎◌, ◌∙◌, arith, u32_max, length, Option-cases,
  inl, inr, ◌≢◌,
}
use zakuro_rs.Stats.Float.{Float}
use zakuro_rs.Stats.Types.{StatsEvent, StatsSummary}
use zakuro_rs.Stats.Ops.{success_rate, aggregator, is_success}
use zakuro_rs.Stats.Count.{counted_end, count_if, is_failed}
use zakuro_rs.Stats.Tally.{aggregator-IsTally}
use zakuro_rs.Threshold.Ops.{Thresholds, evaluate}

module _ (f : Float) where
  open f use {F, lt, div, of_nat}

  -- Each threshold that is given has a value to compare with, and the value meets it.
  pub record IsMet (t : Thresholds f) (s : StatsSummary F) : Type 0 where
    pub success_rate_met :
        (limit : F)
        → t.success_rate ≡ some limit
        → (rate : F) × (success_rate f s ≡ some rate) × (lt rate limit ≡ false)
    pub connect_time_met :
        (limit : F)
        → t.connect_time_p95_ms ≡ some limit
        → (p95 : F) × (s.connect_time_p95_ms ≡ some p95) × (lt limit p95 ≡ false)
    pub stalled_met : (limit : ℕ) → t.stalled ≡ some limit → s.stalled ≤ limit

  evaluate-IsMet : (t : Thresholds f) (s : StatsSummary F) → evaluate f t s ≡ [] → IsMet t s
  unfolding evaluate
  evaluate-IsMet t s h = record {
    success_rate_met = λ limit e. elim (Option-cases (success_rate f s)) [
      | inl n ↦ absurd (ground arith)
      | inr (rate, r) ↦ (rate, r, ground arith)
    ];
    connect_time_met = λ limit e. elim (Option-cases s.connect_time_p95_ms) [
      | inl n ↦ absurd (ground arith)
      | inr (p95, r) ↦ (p95, r, ground arith)
    ];
    stalled_met = λ limit e. ground arith;
  }

  evaluate_empty :
      (t : Thresholds f) (s : StatsSummary F)
      → (t.success_rate ≡ none)
        ⊎ ((limit : F) × (t.success_rate ≡ some limit)
            × ((rate : F) × (success_rate f s ≡ some rate) × (lt rate limit ≡ false)))
      → (t.connect_time_p95_ms ≡ none)
        ⊎ ((limit : F) × (t.connect_time_p95_ms ≡ some limit)
            × ((p95 : F) × (s.connect_time_p95_ms ≡ some p95) × (lt limit p95 ≡ false)))
      → (t.stalled ≡ none) ⊎ ((limit : ℕ) × (t.stalled ≡ some limit) × (s.stalled ≤ limit))
      → evaluate f t s ≡ []
  unfolding evaluate
  evaluate_empty t s a b c = ground arith

  no_rate :
      (s : StatsSummary F) (rate : F)
      → s.success ≡ 0
      → s.failure ≡ 0
      → success_rate f s ≡ some rate
      → ⊥
  unfolding success_rate
  no_rate s rate a b e = ground arith

  IsMet-evaluate : (t : Thresholds f) (s : StatsSummary F) → IsMet t s → evaluate f t s ≡ []
  IsMet-evaluate t s m =
      evaluate_empty t s
        (elim (Option-cases t.success_rate) [
          | inl n ↦ inl n
          | inr (limit, e) ↦ inr (limit, e, m.success_rate_met limit e)
        ])
        (elim (Option-cases t.connect_time_p95_ms) [
          | inl n ↦ inl n
          | inr (limit, e) ↦ inr (limit, e, m.connect_time_met limit e)
        ])
        (elim (Option-cases t.stalled) [
          | inl n ↦ inl n
          | inr (limit, e) ↦ inr (limit, e, m.stalled_met limit e)
        ])

  -- A run passes exactly when each threshold that is given has a value to compare with and the
  -- value meets it: a missing success rate or connection time is a violation.
  pub evaluate-IsMet_iff :
      (t : Thresholds f) (s : StatsSummary F) → (evaluate f t s ≡ []) ↔ IsMet t s
  evaluate-IsMet_iff t s = (evaluate-IsMet t s, IsMet-evaluate t s)

  -- A run in which no connection was judged fails a threshold on the success rate.
  evaluate_unjudged :
      (total instances started_at warmup : ℕ) (es : List StatsEvent) (t : Thresholds f) (limit : F)
      → length es ≤ u32_max
      → t.success_rate ≡ some limit
      → count_if (counted_end started_at warmup is_success) es ≡ 0
      → count_if (counted_end started_at warmup is_failed) es ≡ 0
      → evaluate f t (aggregator f total instances started_at warmup es) ≢ []
  evaluate_unjudged total instances started_at warmup es t limit h e no_success no_failure pass =
      let tally = aggregator-IsTally f total instances started_at warmup es h in
      let s = aggregator f total instances started_at warmup es in
      let m = (evaluate-IsMet t s pass).success_rate_met limit e in
      no_rate s m.0 (tally.success ∙ no_success) (tally.failure ∙ no_failure) m.1
