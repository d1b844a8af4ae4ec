-- ===== src/Threshold/Ops.antt =====
-- `Thresholds`, `ThresholdViolation` and `evaluate`. The texts of the violations are left out.
use zakuro_rs.Base.{
  ℕ, Bool, true, ◌&&◌, List, [], ◌∷◌, ◌++◌, Option, none, some, if◌then◌else◌, ltb, is_none,
}
use zakuro_rs.Stats.Float.{Float}
use zakuro_rs.Stats.Types.{StatsSummary}
use zakuro_rs.Stats.Ops.{success_rate}

-- `Option::is_none_or`
abbrev pub is_none_or {ℓ} : {A : Type ℓ} → Option A → (A → Bool) → Bool
is_none_or none p = true
is_none_or (some a) p = p a

module _ (f : Float) where
  open f use {F, lt}

  pub record Thresholds : Type 0 where
    pub success_rate : Option F
    pub connect_time_p95_ms : Option F
    pub stalled : Option ℕ

  unfoldable pub is_empty : Thresholds → Bool
  is_empty t = is_none t.success_rate && is_none t.connect_time_p95_ms && is_none t.stalled

  pub data ThresholdViolation : Type 0 where
    success_rate_low : Option F → F → ThresholdViolation
    connect_time_p95_high : Option F → F → ThresholdViolation
    stalled_high : ℕ → ℕ → ThresholdViolation

  -- Each `if let Some(limit)` pushes at most one violation.
  abbrev check_success_rate : Option F → Option F → List ThresholdViolation
  check_success_rate none actual = []
  check_success_rate (some limit) actual =
      if is_none_or actual (λ rate. lt rate limit) then success_rate_low actual limit ∷ [] else []

  abbrev check_connect_time : Option F → Option F → List ThresholdViolation
  check_connect_time none actual = []
  check_connect_time (some limit) actual =
      if is_none_or actual (λ p95. lt limit p95)
      then connect_time_p95_high actual limit ∷ []
      else []

  abbrev check_stalled : Option ℕ → ℕ → List ThresholdViolation
  check_stalled none actual = []
  check_stalled (some limit) actual =
      if ltb limit actual then stalled_high actual limit ∷ [] else []

  unfoldable pub evaluate : Thresholds → StatsSummary F → List ThresholdViolation
  evaluate t s =
      check_success_rate t.success_rate (success_rate f s)
      ++ (check_connect_time t.connect_time_p95_ms s.connect_time_p95_ms
          ++ check_stalled t.stalled s.stalled)
