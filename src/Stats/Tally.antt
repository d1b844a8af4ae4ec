-- ===== src/Stats/Tally.antt =====
-- The summary of a run against its events.
use Prim.Native.String.{String}
use zakuro_rs.Base.{
  ℕ, suc, ◌+◌, ◌≤◌, ◌<◌, Bool, List, [], ◌∷◌, if◌then◌else◌, ◌≡◌, refl, arith, u32_max, length, ◌∙◌,
  Option-cases, inl, inr,
}
use zakuro_rs.Stats.Float.{Float}
use zakuro_rs.Stats.Types.{
  ConnectionEnded, StatsEvent, connected, connection_ended, StatsSummary, OutcomeTotals,
}
use zakuro_rs.Stats.Ops.{
  initial, is_success, is_counted, new_totals, exclude_for_warmup, apply_totals, summary, Aggregate,
  aggregate_event, aggregate, aggregator,
}
use zakuro_rs.Stats.Count.{
  counted_end, excluded, is_end, count_if, is_unjudged, is_failed, gives_reason, partition,
  total_of, total_of-count_reason, total_of-sort_by,
}

one_more :
    (b : Bool) (n m k : ℕ) → n ≡ (if b then 1 else 0) + m → m + suc k ≤ u32_max → n + k ≤ u32_max
one_more b n m k p q = ground arith

module _ (f : Float) (started_at warmup : ℕ) where
  open f use {F}

  -- Below the bound, each event adds one to the field exactly when it passes the test.
  abbrev Counts : (OutcomeTotals F → ℕ) → (StatsEvent → Bool) → Type 0
  Counts field hit =
      (a : Aggregate f) (e : StatsEvent)
      → field a.totals < u32_max
      → field (aggregate_event f started_at warmup a e).totals
        ≡ (if hit e then 1 else 0) + field a.totals

  aggregate-count_if :
      (field : OutcomeTotals F → ℕ) (hit : StatsEvent → Bool)
      → Counts field hit
      → (es : List StatsEvent) (a : Aggregate f) → field a.totals + length es ≤ u32_max
      → field (aggregate f started_at warmup a es).totals ≡ field a.totals + count_if hit es
  unfolding aggregate
  aggregate-count_if field hit counts [] a h = omega arith
  aggregate-count_if field hit counts (e ∷ es) a h =
      let now : field (aggregate_event f started_at warmup a e).totals
          ≡ (if hit e then 1 else 0) + field a.totals =
        counts a e (omega arith) in
      let rest =
        aggregate-count_if field hit counts es (aggregate_event f started_at warmup a e)
          (one_more (hit e) _ _ (length es) now h) in
      rest ∙ omega (arith, now)

  success-Counts : Counts (λ t. t.success) (counted_end started_at warmup is_success)
  unfolding aggregate_event apply_totals is_counted exclude_for_warmup
  success-Counts a (connection_ended c) h = ground arith
  success-Counts a e h = ground arith

  failure-Counts : Counts (λ t. t.failure) (counted_end started_at warmup is_failed)
  unfolding aggregate_event apply_totals is_counted exclude_for_warmup
  failure-Counts a (connection_ended c) h = ground arith
  failure-Counts a e h = ground arith

  unjudged-Counts : Counts (λ t. t.unjudged) (counted_end started_at warmup is_unjudged)
  unfolding aggregate_event apply_totals is_counted exclude_for_warmup
  unjudged-Counts a (connection_ended c) h = ground arith
  unjudged-Counts a e h = ground arith

  stalled-Counts : Counts (λ t. t.stalled) (counted_end started_at warmup (λ c. c.stalled))
  unfolding aggregate_event apply_totals is_counted exclude_for_warmup
  stalled-Counts a (connection_ended c) h = ground arith
  stalled-Counts a e h = ground arith

  excluded-Counts : Counts (λ t. t.warmup_excluded) (excluded started_at warmup)
  unfolding aggregate_event apply_totals is_counted exclude_for_warmup
  excluded-Counts a (connection_ended c) h = ground arith
  excluded-Counts a e h = ground arith

  reasons-Counts :
      (r : String)
      → Counts (λ t. total_of r t.failure_reasons) (counted_end started_at warmup (gives_reason r))
  unfolding aggregate_event apply_totals is_counted exclude_for_warmup
  reasons-Counts r a (connection_ended c) h = elim (Option-cases c.failure_reason) [
    | inl e ↦ ground arith
    | inr (q, e) ↦ ground (arith, total_of-count_reason r q a.totals.failure_reasons)
  ]
  reasons-Counts r a (connected i v) h = ground arith
  reasons-Counts r a e h = ground arith

  aggregate-from_zero :
      (a : Aggregate f) (es : List StatsEvent)
      → length es ≤ u32_max
      → (field : OutcomeTotals F → ℕ) (hit : StatsEvent → Bool) → Counts field hit
      → field a.totals ≡ 0
      → field (aggregate f started_at warmup a es).totals ≡ count_if hit es
  aggregate-from_zero a es h field hit c z =
      omega (arith, aggregate-count_if field hit c es a (omega arith))

-- Each number of a summary counts events of the run.
pub record IsTally (f : Float) (started_at warmup : ℕ) (es : List StatsEvent) (s : StatsSummary f.F)
    : Type 0 where
  pub success : s.success ≡ count_if (counted_end started_at warmup is_success) es
  pub failure : s.failure ≡ count_if (counted_end started_at warmup is_failed) es
  pub unjudged : s.unjudged ≡ count_if (counted_end started_at warmup is_unjudged) es
  pub stalled : s.stalled ≡ count_if (counted_end started_at warmup (λ c. c.stalled)) es
  pub warmup_excluded : s.warmup_excluded ≡ count_if (excluded started_at warmup) es
  pub all_ends : s.success + s.failure + s.unjudged + s.warmup_excluded ≡ count_if is_end es
  pub reasons :
      (r : String)
      → total_of r s.failure_reasons ≡ count_if (counted_end started_at warmup (gives_reason r)) es

-- The summary of a run of fewer than 2^32 events counts, for each outcome and each failure
-- reason, the connections that ended in the measured time with it, and those left out of it;
-- together they are all connections that ended.
pub aggregator-IsTally :
    (f : Float) (total instances started_at warmup : ℕ) (es : List StatsEvent)
    → length es ≤ u32_max
    → IsTally f started_at warmup es (aggregator f total instances started_at warmup es)
unfolding aggregator summary new_totals
aggregator-IsTally f total instances started_at warmup es h =
    let first : Aggregate f = record {
      snapshot = initial total instances;
      totals = new_totals f;
    } in
    let count_all = aggregate-from_zero f started_at warmup first es h in
    let ended = λ (p : ConnectionEnded → Bool). counted_end started_at warmup p in
    let s =
      count_all (λ t. t.success) (ended is_success) (success-Counts f started_at warmup) refl in
    let fl =
      count_all (λ t. t.failure) (ended is_failed) (failure-Counts f started_at warmup) refl in
    let u =
      count_all (λ t. t.unjudged) (ended is_unjudged) (unjudged-Counts f started_at warmup) refl in
    let w =
      count_all (λ t. t.warmup_excluded) (excluded started_at warmup)
        (excluded-Counts f started_at warmup) refl in
    record {
      success = s;
      failure = fl;
      unjudged = u;
      stalled =
          count_all (λ t. t.stalled) (ended (λ c. c.stalled)) (stalled-Counts f started_at warmup)
            refl;
      warmup_excluded = w;
      all_ends = omega (arith, s, fl, u, w, partition started_at warmup es);
      reasons = λ r.
          total_of-sort_by r _
          ∙ count_all (λ t. total_of r t.failure_reasons) (ended (gives_reason r))
              (reasons-Counts f started_at warmup r) refl;
    }
