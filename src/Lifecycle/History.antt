-- ===== src/Lifecycle/History.antt =====
-- Histories of a connection: what the event handler and the statistics task of
-- zakuro/src/virtual_client.rs feed into the lifecycle, in order, with the time of each call.
use zakuro_rs.Base.{ℕ, Bool, true, false, List, [], ◌∷◌, Option, none, some, if◌then◌else◌}
use zakuro_rs.Lifecycle.Types.{
  LifecycleEnd, MediaKind, video, audio, PeerConnectionState, IceConnectionState, IceGatheringState,
  SignalingState, ConnectionLifecycle,
}
use zakuro_rs.Lifecycle.Ops.{
  on_offer_received, on_peer_connection_state, is_connected, on_ice_connection_state,
  is_ice_connected, on_ice_gathering_state, is_complete, on_signaling_state, on_sample_observed,
  on_sample_activity, on_media_sent, on_media_received, on_delivery_report, mark_disconnected,
}

pub data Observation : Type 0 where
  offer : Observation
  peer : PeerConnectionState → Observation
  ice : IceConnectionState → Observation
  gathering : IceGatheringState → Observation
  signaling : SignalingState → Observation
  sample : Observation
  activity : Bool → Observation
  sent : MediaKind → Observation
  received : MediaKind → Observation
  report : Observation
  ended : LifecycleEnd → Observation

abbrev pub History : Type 0
History = List (ℕ × Observation)

unfoldable pub step : ConnectionLifecycle → ℕ → Observation → ConnectionLifecycle
unfolding on_offer_received on_peer_connection_state on_ice_connection_state on_ice_gathering_state
    on_signaling_state on_sample_observed on_sample_activity on_media_sent on_media_received
    on_delivery_report mark_disconnected
step l t offer = on_offer_received l t
step l t (peer s) = on_peer_connection_state l s t
step l t (ice s) = on_ice_connection_state l s t
step l t (gathering s) = on_ice_gathering_state l s t
step l t (signaling s) = on_signaling_state l s
step l t sample = on_sample_observed l
step l t (activity b) = on_sample_activity l t b
step l t (sent k) = on_media_sent l k t
step l t (received k) = on_media_received l k t
step l t report = on_delivery_report l t
step l t (ended e) = mark_disconnected l e t

unfoldable pub run : ConnectionLifecycle → History → ConnectionLifecycle
run l [] = l
run l ((t, o) ∷ h) = run (step l t o) h

-- The time of the first observation that passes the test.
abbrev pub first_at : (Observation → Bool) → History → Option ℕ
first_at p [] = none
first_at p ((t, o) ∷ h) = if p o then some t else first_at p h

abbrev pub is_offer : Observation → Bool
is_offer offer = true
is_offer _ = false

abbrev pub is_webrtc : Observation → Bool
is_webrtc (peer s) = is_connected s
is_webrtc _ = false

abbrev pub is_ice : Observation → Bool
is_ice (ice s) = is_ice_connected s
is_ice _ = false

abbrev pub is_gathered : Observation → Bool
is_gathered (gathering s) = is_complete s
is_gathered _ = false

abbrev pub is_video_sent : Observation → Bool
is_video_sent (sent video) = true
is_video_sent _ = false

abbrev pub is_audio_sent : Observation → Bool
is_audio_sent (sent audio) = true
is_audio_sent _ = false

abbrev pub is_video_received : Observation → Bool
is_video_received (received video) = true
is_video_received _ = false

abbrev pub is_audio_received : Observation → Bool
is_audio_received (received audio) = true
is_audio_received _ = false

abbrev pub is_report : Observation → Bool
is_report report = true
is_report _ = false

abbrev pub is_end : Observation → Bool
is_end (ended e) = true
is_end _ = false

abbrev pub is_active : Observation → Bool
is_active (activity b) = b
is_active _ = false

-- The reason that the first `ended` of a history gives.
abbrev pub first_end : History → Option LifecycleEnd
first_end [] = none
first_end ((t, ended e) ∷ h) = some e
first_end ((t, offer) ∷ h) = first_end h
first_end ((t, peer s) ∷ h) = first_end h
first_end ((t, ice s) ∷ h) = first_end h
first_end ((t, gathering s) ∷ h) = first_end h
first_end ((t, signaling s) ∷ h) = first_end h
first_end ((t, sample) ∷ h) = first_end h
first_end ((t, activity b) ∷ h) = first_end h
first_end ((t, sent k) ∷ h) = first_end h
first_end ((t, received k) ∷ h) = first_end h
first_end ((t, report) ∷ h) = first_end h

-- The time of the last sample that saw traffic.
abbrev pub last_active : History → Option ℕ
last_active [] = none
last_active ((t, o) ∷ h) = elim (last_active h) [
  | some u ↦ some u
  | none ↦ if is_active o then some t else none
]
