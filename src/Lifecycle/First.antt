-- ===== src/Lifecycle/First.antt =====
-- The times that a lifecycle keeps: of the first observation of a kind, and of the last traffic.
use zakuro_rs.Base.{ℕ, Bool, [], ◌∷◌, Option, none, some, if◌then◌else◌, ◌≡◌, ◌∙◌, refl, arith}
use zakuro_rs.Lifecycle.Types.{ConnectionLifecycle}
use zakuro_rs.Lifecycle.Ops.{new, keep_first}
use zakuro_rs.Lifecycle.History.{
  Observation, offer, activity, History, step, run, first_at, is_offer, is_webrtc, is_ice,
  is_gathered, is_video_sent, is_audio_sent, is_video_received, is_audio_received, is_report,
  is_end, first_end, last_active,
}

-- `Option::or`
abbrev or_else {ℓ} : {A : Type ℓ} → Option A → Option A → Option A
or_else none b = b
or_else (some a) b = some a

-- A field that a step fills only when the test passes and the field is empty.
abbrev Keeps : (ConnectionLifecycle → Option ℕ) → (Observation → Bool) → Type 0
Keeps field p =
    (l : ConnectionLifecycle) (t : ℕ) (o : Observation)
    → field (step l t o) ≡ (if p o then keep_first (field l) t else field l)

run-first_at :
    (field : ConnectionLifecycle → Option ℕ) (p : Observation → Bool)
    → Keeps field p
    → (l : ConnectionLifecycle) (h : History) → field (run l h) ≡ or_else (field l) (first_at p h)
unfolding run
run-first_at field p keeps l [] = ground arith
run-first_at field p keeps l ((t, o) ∷ h) =
    ground (arith, keeps l t o, run-first_at field p keeps (step l t o) h)

offer-Keeps : Keeps (λ l. l.offer_received_at) is_offer
unfolding step
offer-Keeps l t offer = ground arith
offer-Keeps l t o = ground arith

webrtc-Keeps : Keeps (λ l. l.webrtc_connected_at) is_webrtc
unfolding step
webrtc-Keeps l t offer = ground arith
webrtc-Keeps l t o = ground arith

ice-Keeps : Keeps (λ l. l.ice_connected_at) is_ice
unfolding step
ice-Keeps l t offer = ground arith
ice-Keeps l t o = ground arith

gathered-Keeps : Keeps (λ l. l.ice_gathering_complete_at) is_gathered
unfolding step
gathered-Keeps l t offer = ground arith
gathered-Keeps l t o = ground arith

video_sent-Keeps : Keeps (λ l. l.first_video_sent_at) is_video_sent
unfolding step
video_sent-Keeps l t offer = ground arith
video_sent-Keeps l t o = ground arith

audio_sent-Keeps : Keeps (λ l. l.first_audio_sent_at) is_audio_sent
unfolding step
audio_sent-Keeps l t offer = ground arith
audio_sent-Keeps l t o = ground arith

video_received-Keeps : Keeps (λ l. l.first_video_received_at) is_video_received
unfolding step
video_received-Keeps l t offer = ground arith
video_received-Keeps l t o = ground arith

audio_received-Keeps : Keeps (λ l. l.first_audio_received_at) is_audio_received
unfolding step
audio_received-Keeps l t offer = ground arith
audio_received-Keeps l t o = ground arith

report-Keeps : Keeps (λ l. l.first_delivery_report_at) is_report
unfolding step
report-Keeps l t offer = ground arith
report-Keeps l t o = ground arith

end-Keeps : Keeps (λ l. l.disconnected_at) is_end
unfolding step
end-Keeps l t offer = ground arith
end-Keeps l t o = ground arith

end-first_end :
    (l : ConnectionLifecycle) (h : History) → (run l h).end ≡ or_else l.end (first_end h)
unfolding run step
end-first_end l [] = ground arith
end-first_end l ((t, offer) ∷ h) = ground (arith, end-first_end (step l t offer) h)
end-first_end l ((t, o) ∷ h) = ground (arith, end-first_end (step l t o) h)

or_else-none : (a : Option ℕ) → or_else a none ≡ a
or_else-none none = refl
or_else-none (some n) = refl

active-last_active :
    (l : ConnectionLifecycle) (h : History)
    → (run l h).last_media_activity_at ≡ or_else (last_active h) l.last_media_activity_at
unfolding run step
active-last_active l [] = refl
active-last_active l ((t, offer) ∷ h) = ground (arith, active-last_active (step l t offer) h)
active-last_active l ((t, activity b) ∷ h) =
    ground (arith, active-last_active (step l t (activity b)) h)
active-last_active l ((t, o) ∷ h) = ground (arith, active-last_active (step l t o) h)

-- What a lifecycle that starts at `t₀` holds after the history `h`.
pub record IsFirst (h : History) (l : ConnectionLifecycle) (t₀ : ℕ) : Type 0 where
  pub attempt : l.attempt_started_at ≡ t₀
  pub offer : l.offer_received_at ≡ first_at is_offer h
  pub webrtc : l.webrtc_connected_at ≡ first_at is_webrtc h
  pub ice : l.ice_connected_at ≡ first_at is_ice h
  pub gathered : l.ice_gathering_complete_at ≡ first_at is_gathered h
  pub video_sent : l.first_video_sent_at ≡ first_at is_video_sent h
  pub audio_sent : l.first_audio_sent_at ≡ first_at is_audio_sent h
  pub video_received : l.first_video_received_at ≡ first_at is_video_received h
  pub audio_received : l.first_audio_received_at ≡ first_at is_audio_received h
  pub report : l.first_delivery_report_at ≡ first_at is_report h
  pub end : l.disconnected_at ≡ first_at is_end h
  pub reason : l.end ≡ first_end h
  pub activity : l.last_media_activity_at ≡ last_active h

attempt-run :
    (l : ConnectionLifecycle) (h : History) → (run l h).attempt_started_at ≡ l.attempt_started_at
unfolding run step
attempt-run l [] = refl
attempt-run l ((t, offer) ∷ h) = ground (arith, attempt-run (step l t offer) h)
attempt-run l ((t, o) ∷ h) = ground (arith, attempt-run (step l t o) h)

-- After any history, in any order and with any repetitions, the time kept for the offer, WebRTC, ICE,
-- the gathering, the first media sent and received of each kind, the first delivery report and the
-- end is that of the first observation of its kind (`none` where there was none), and the time of
-- the last traffic is that of the last sample that saw some. The end reason is the first one given,
-- and the start of the attempt is unchanged.
pub run-new-IsFirst : (t₀ : ℕ) (h : History) → IsFirst h (run (new t₀) h) t₀
unfolding new
run-new-IsFirst t₀ h = record {
  attempt = attempt-run (new t₀) h;
  offer = run-first_at (λ l. l.offer_received_at) is_offer offer-Keeps (new t₀) h;
  webrtc = run-first_at (λ l. l.webrtc_connected_at) is_webrtc webrtc-Keeps (new t₀) h;
  ice = run-first_at (λ l. l.ice_connected_at) is_ice ice-Keeps (new t₀) h;
  gathered = run-first_at (λ l. l.ice_gathering_complete_at) is_gathered gathered-Keeps (new t₀) h;
  video_sent = run-first_at (λ l. l.first_video_sent_at) is_video_sent video_sent-Keeps (new t₀) h;
  audio_sent = run-first_at (λ l. l.first_audio_sent_at) is_audio_sent audio_sent-Keeps (new t₀) h;
  video_received =
      run-first_at (λ l. l.first_video_received_at) is_video_received video_received-Keeps (new t₀)
        h;
  audio_received =
      run-first_at (λ l. l.first_audio_received_at) is_audio_received audio_received-Keeps (new t₀)
        h;
  report = run-first_at (λ l. l.first_delivery_report_at) is_report report-Keeps (new t₀) h;
  end = run-first_at (λ l. l.disconnected_at) is_end end-Keeps (new t₀) h;
  reason = end-first_end (new t₀) h;
  activity = active-last_active (new t₀) h ∙ or_else-none (last_active h);
}
