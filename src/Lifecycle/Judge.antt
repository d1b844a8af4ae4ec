-- ===== src/Lifecycle/Judge.antt =====
-- The verdict on a connection against its conditions, stated without the order of the tests.
use zakuro_rs.Base.{
  ℕ, ◌-◌, ◌≤◌, ◌<◌, true, false, Option, none, some, ◌≡◌, ◌≢◌, ◌⊎◌, ◌↔◌, arith, is_some, is_none,
  Option-cases, inl, inr, Bool-cases, ltb, ltb→lt, refl,
}
use zakuro_rs.Lifecycle.Types.{
  LifecycleEnd, ConnectionFailure, ConnectionOutcome, success, failure, unjudged, OutcomeSettings,
  ConnectionLifecycle,
}
use zakuro_rs.Lifecycle.Ops.{or_at, judge}

-- The connection was established, and there is enough to judge its media by.
pub record IsJudged (l : ConnectionLifecycle) (s : OutcomeSettings) (t : ℕ) : Type 0 where
  pub started : l.end ≢ some LifecycleEnd.build_failed
  pub connected : l.webrtc_connected_at ≡ some t
  pub has_media : (s.video_enabled ≡ true) ⊎ (s.audio_enabled ≡ true)
  pub sampled : 0 < l.samples
  pub graced : s.grace ≤ or_at l.disconnected_at t - t

abbrev AllKinds : OutcomeSettings → Option ℕ → Option ℕ → Type 0
AllKinds s v a =
    (s.video_enabled ≡ true → is_some v ≡ true) × (s.audio_enabled ≡ true → is_some a ≡ true)

-- All that was expected of an established connection was seen.
pub record IsSuccess (l : ConnectionLifecycle) (s : OutcomeSettings) (t : ℕ) : Type 0 where
  pub judged : IsJudged l s t
  pub sent : s.expects_send ≡ true → AllKinds s l.first_video_sent_at l.first_audio_sent_at
  pub reported : s.expects_send ≡ true → is_some l.first_delivery_report_at ≡ true
  pub received :
      s.expects_receive ≡ true → AllKinds s l.first_video_received_at l.first_audio_received_at
  pub expected_end : l.end ≢ some LifecycleEnd.unexpected

success-judge :
    (l : ConnectionLifecycle) (s : OutcomeSettings) (t : ℕ) → IsSuccess l s t → judge l s ≡ success
unfolding judge
success-judge l s t h = ground (arith, h.judged.started, h.expected_end)

judge-success :
    (l : ConnectionLifecycle) (s : OutcomeSettings)
    → judge l s ≡ success
    → (t : ℕ) × IsSuccess l s t
unfolding judge
judge-success l s h = elim (Option-cases l.webrtc_connected_at) [
  | inl e ↦ ground arith
  | inr (t, e) ↦ (
    t,
    record {
      judged = record {
        started = λ p. ground arith;
        connected = e;
        has_media = ground arith;
        sampled = ground arith;
        graced = ground arith;
      };
      sent = λ p. ground arith;
      reported = λ p. ground arith;
      received = λ p. ground arith;
      expected_end = λ p. ground arith;
    },
  )
]

-- A connection is judged a success exactly when it was started and established, has an enabled
-- kind of media and a sample, lasted for the grace period, has sent and received every enabled
-- kind that its role expects, got a delivery report if it sends, and did not end unexpectedly.
pub judge-success_iff :
    (l : ConnectionLifecycle) (s : OutcomeSettings)
    → (judge l s ≡ success) ↔ ((t : ℕ) × IsSuccess l s t)
judge-success_iff l s = (judge-success l s, λ h. success-judge l s h.0 h.1)

-- Some enabled kind is missing.
abbrev Misses : OutcomeSettings → Option ℕ → Option ℕ → Type 0
Misses s v a =
    ((s.video_enabled ≡ true) × (is_none v ≡ true))
    ⊎ ((s.audio_enabled ≡ true) × (is_none a ≡ true))

-- What a verdict other than success says of the connection.
abbrev pub Explains : ConnectionLifecycle → OutcomeSettings → ConnectionOutcome → Type 0
Explains l s success = Unit
Explains l s (failure ConnectionFailure.build_failed) = l.end ≡ some LifecycleEnd.build_failed
Explains l s (failure ConnectionFailure.connect_failed) =
    (l.end ≢ some LifecycleEnd.build_failed) × (l.webrtc_connected_at ≡ none)
Explains l s (failure ConnectionFailure.no_media_sent) =
    (s.expects_send ≡ true) × Misses s l.first_video_sent_at l.first_audio_sent_at
Explains l s (failure ConnectionFailure.no_delivery_report) =
    (s.expects_send ≡ true)
    × AllKinds s l.first_video_sent_at l.first_audio_sent_at
    × (l.first_delivery_report_at ≡ none)
Explains l s (failure ConnectionFailure.no_media_received) =
    (s.expects_receive ≡ true) × Misses s l.first_video_received_at l.first_audio_received_at
Explains l s (failure ConnectionFailure.unexpected_disconnect) =
    (l.end ≡ some LifecycleEnd.unexpected)
Explains l s unjudged =
    (l.webrtc_connected_at ≢ none)
    × (((s.video_enabled ≡ false) × (s.audio_enabled ≡ false))
        ⊎ ((l.samples ≡ 0)
            ⊎ ((t : ℕ) × (l.webrtc_connected_at ≡ some t)
                × (or_at l.disconnected_at t - t < s.grace))))

unjudged_reason :
    (l : ConnectionLifecycle) (s : OutcomeSettings) (t : ℕ)
    → l.webrtc_connected_at ≡ some t
    → judge l s ≡ unjudged
    → ((s.video_enabled ≡ false) × (s.audio_enabled ≡ false))
      ⊎ ((l.samples ≡ 0)
          ⊎ ((t : ℕ) × (l.webrtc_connected_at ≡ some t)
              × (or_at l.disconnected_at t - t < s.grace)))
unfolding judge
unjudged_reason l s t e h = elim (Bool-cases (ltb (or_at l.disconnected_at t - t) s.grace)) [
  | inl short ↦ inr (inr (t, e, ltb→lt _ _ short))
  | inr long ↦ ground arith
]

judge-Explains_h :
    (l : ConnectionLifecycle) (s : OutcomeSettings) (o : ConnectionOutcome)
    → judge l s ≡ o
    → Explains l s o
unfolding judge
judge-Explains_h l s success h = tt
judge-Explains_h l s (failure ConnectionFailure.build_failed) h = ground arith
judge-Explains_h l s (failure ConnectionFailure.connect_failed) h =
    (λ p. ground arith, ground arith)
judge-Explains_h l s (failure ConnectionFailure.no_media_sent) h = ground arith
judge-Explains_h l s (failure ConnectionFailure.no_delivery_report) h =
    (ground arith, (λ p. ground arith, λ p. ground arith), ground arith)
judge-Explains_h l s (failure ConnectionFailure.no_media_received) h = ground arith
judge-Explains_h l s (failure ConnectionFailure.unexpected_disconnect) h = ground arith
judge-Explains_h l s unjudged h = elim (Option-cases l.webrtc_connected_at) [
  | inl e ↦ ground arith
  | inr (t, e) ↦ (λ p. ground arith, unjudged_reason l s t e h)
]

-- A verdict names a true reason: a failed start or an unestablished connection, a missing kind of
-- media or report that the role expects, an unexpected end; and a connection is left unjudged
-- only when it was established and has no enabled media, no sample, or ended within the grace.
pub judge-Explains : (l : ConnectionLifecycle) (s : OutcomeSettings) → Explains l s (judge l s)
judge-Explains l s = judge-Explains_h l s (judge l s) refl
