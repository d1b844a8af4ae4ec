-- ===== src/Client/Contract.antt =====
-- What the client says of an outcome against how the statistics count it.
use zakuro_rs.Base.{ℕ, Bool, Option, ◌≡◌, refl, add32}
use zakuro_rs.Lifecycle.Types.{
  ConnectionOutcome, success, failure, unjudged, outcome_str, failure_str, failure_reason,
}
use zakuro_rs.Stats.Float.{Float}
use zakuro_rs.Stats.Types.{OutcomeTotals}
use zakuro_rs.Stats.Ops.{apply_totals, count_reason}
use zakuro_rs.Client.Ops.{ClientConfig, Attempt, ConnectionResult, ended_event}

-- The totals behind an outcome: one more in its number, and a reason exactly for a failure.
abbrev pub IsTotalled :
    {F : Type 0} → OutcomeTotals F → OutcomeTotals F → ConnectionOutcome → Type 0
IsTotalled t t' success =
    (t'.success ≡ add32 t.success 1)
    × (t'.failure ≡ t.failure)
    × (t'.unjudged ≡ t.unjudged)
    × (t'.failure_reasons ≡ t.failure_reasons)
IsTotalled t t' (failure reason) =
    (t'.success ≡ t.success)
    × (t'.failure ≡ add32 t.failure 1)
    × (t'.unjudged ≡ t.unjudged)
    × (t'.failure_reasons ≡ count_reason (failure_str reason) t.failure_reasons)
IsTotalled t t' unjudged =
    (t'.success ≡ t.success)
    × (t'.failure ≡ t.failure)
    × (t'.unjudged ≡ add32 t.unjudged 1)
    × (t'.failure_reasons ≡ t.failure_reasons)

totalled :
    (f : Float) (c : ClientConfig) (a : Attempt) (stalled : Bool) (d : Option ℕ)
    (o : ConnectionOutcome) (t : OutcomeTotals f.F)
    → let r : ConnectionResult = record { outcome = o; stalled = stalled; connect_duration = d } in
      IsTotalled t (apply_totals f t (ended_event c a r)) o
unfolding apply_totals ended_event outcome_str failure_reason
totalled f c a b d success t = (refl, refl, refl, refl)
totalled f c a b d (failure reason) t = (refl, refl, refl, refl)
totalled f c a b d unjudged t = (refl, refl, refl, refl)

-- The event that a client sends at the end of a connection is counted under its outcome: the
-- texts that the client writes are those that the statistics read, each outcome in its own number,
-- and a failure, and nothing else, under the text of its reason.
pub ended_event-IsTotalled :
    (f : Float) (c : ClientConfig) (a : Attempt) (r : ConnectionResult) (t : OutcomeTotals f.F)
    → IsTotalled t (apply_totals f t (ended_event c a r)) r.outcome
ended_event-IsTotalled f c a r t = totalled f c a r.stalled r.connect_duration r.outcome t
