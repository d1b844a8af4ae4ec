-- ===== src/Lifecycle/Ops.antt =====
-- The methods of `ConnectionLifecycle`, with `judge`.
use zakuro_rs.Base.{
  ℕ, ◌-◌, max, Bool, true, false, not, ◌&&◌, ◌||◌, Option, none, some, if◌then◌else◌, ltb, leb,
  ◌==◌, is_some, is_none, sat_add32,
}
use zakuro_rs.Lifecycle.Types.{
  LifecycleEnd, ConnectionFailure, ConnectionOutcome, success, failure, unjudged, OutcomeSettings,
  stall_samples, MediaKind, video, audio, PeerConnectionState, IceConnectionState,
  IceGatheringState, SignalingState, peer_connection_state_name, ice_connection_state_name,
  ice_gathering_state_name, signaling_state_name, ConnectionLifecycle,
}

unfoldable pub new : ℕ → ConnectionLifecycle
new attempt_started_at = record {
  attempt_started_at = attempt_started_at;
  offer_received_at = none;
  webrtc_connected_at = none;
  ice_connected_at = none;
  ice_gathering_complete_at = none;
  first_video_sent_at = none;
  first_video_received_at = none;
  first_audio_sent_at = none;
  first_audio_received_at = none;
  first_delivery_report_at = none;
  samples = 0;
  last_media_activity_at = none;
  max_idle_samples = 0;
  idle_samples = 0;
  disconnected_at = none;
  end = none;
  peer_connection_state = none;
  ice_connection_state = none;
  ice_gathering_state = none;
  signaling_state = none;
}

unfoldable pub on_offer_received : ConnectionLifecycle → ℕ → ConnectionLifecycle
on_offer_received l t =
    if is_none l.offer_received_at then record l { offer_received_at = some t } else l

abbrev pub is_connected : PeerConnectionState → Bool
is_connected PeerConnectionState.connected = true
is_connected _ = false

unfoldable pub on_peer_connection_state :
    ConnectionLifecycle → PeerConnectionState → ℕ → ConnectionLifecycle
on_peer_connection_state l state t =
    let l' = record l { peer_connection_state = some (peer_connection_state_name state) } in
    if is_connected state && is_none l.webrtc_connected_at
    then record l' { webrtc_connected_at = some t }
    else l'

abbrev pub is_ice_connected : IceConnectionState → Bool
is_ice_connected IceConnectionState.connected = true
is_ice_connected IceConnectionState.completed = true
is_ice_connected _ = false

unfoldable pub on_ice_connection_state :
    ConnectionLifecycle → IceConnectionState → ℕ → ConnectionLifecycle
on_ice_connection_state l state t =
    let l' = record l { ice_connection_state = some (ice_connection_state_name state) } in
    if is_ice_connected state && is_none l.ice_connected_at
    then record l' { ice_connected_at = some t }
    else l'

abbrev pub is_complete : IceGatheringState → Bool
is_complete IceGatheringState.complete = true
is_complete _ = false

unfoldable pub on_ice_gathering_state :
    ConnectionLifecycle → IceGatheringState → ℕ → ConnectionLifecycle
on_ice_gathering_state l state t =
    let l' = record l { ice_gathering_state = some (ice_gathering_state_name state) } in
    if is_complete state && is_none l.ice_gathering_complete_at
    then record l' { ice_gathering_complete_at = some t }
    else l'

unfoldable pub on_signaling_state : ConnectionLifecycle → SignalingState → ConnectionLifecycle
on_signaling_state l state = record l { signaling_state = some (signaling_state_name state) }

unfoldable pub on_sample_observed : ConnectionLifecycle → ConnectionLifecycle
on_sample_observed l = record l { samples = sat_add32 l.samples 1 }

unfoldable pub on_sample_activity : ConnectionLifecycle → ℕ → Bool → ConnectionLifecycle
on_sample_activity l t has_activity =
    if has_activity
    then record l { idle_samples = 0; last_media_activity_at = some t }
    else record l {
      idle_samples = sat_add32 l.idle_samples 1;
      max_idle_samples = max l.max_idle_samples (sat_add32 l.idle_samples 1);
    }

unfoldable pub is_stalled : ConnectionLifecycle → Bool
is_stalled l = is_some l.last_media_activity_at && leb stall_samples l.max_idle_samples

-- The `match` on the kind picks a slot; an empty slot takes the time.
abbrev pub keep_first : Option ℕ → ℕ → Option ℕ
keep_first (some t₀) t = some t₀
keep_first none t = some t

unfoldable pub on_media_sent : ConnectionLifecycle → MediaKind → ℕ → ConnectionLifecycle
on_media_sent l video t = record l { first_video_sent_at = keep_first l.first_video_sent_at t }
on_media_sent l audio t = record l { first_audio_sent_at = keep_first l.first_audio_sent_at t }

unfoldable pub on_media_received : ConnectionLifecycle → MediaKind → ℕ → ConnectionLifecycle
on_media_received l video t = record l {
  first_video_received_at = keep_first l.first_video_received_at t;
}
on_media_received l audio t = record l {
  first_audio_received_at = keep_first l.first_audio_received_at t;
}

unfoldable pub on_delivery_report : ConnectionLifecycle → ℕ → ConnectionLifecycle
on_delivery_report l t =
    if is_none l.first_delivery_report_at then record l { first_delivery_report_at = some t } else l

abbrev set_end : ConnectionLifecycle → LifecycleEnd → ConnectionLifecycle
set_end l reason = if is_none l.end then record l { end = some reason } else l

unfoldable pub mark_disconnected : ConnectionLifecycle → LifecycleEnd → ℕ → ConnectionLifecycle
mark_disconnected l reason t =
    let l' = set_end l reason in
    if is_none l'.disconnected_at then record l' { disconnected_at = some t } else l'

unfoldable pub has_sent_every_enabled_kind : ConnectionLifecycle → OutcomeSettings → Bool
has_sent_every_enabled_kind l s =
    (not s.video_enabled || is_some l.first_video_sent_at)
    && (not s.audio_enabled || is_some l.first_audio_sent_at)

unfoldable pub has_received_every_enabled_kind : ConnectionLifecycle → OutcomeSettings → Bool
has_received_every_enabled_kind l s =
    (not s.video_enabled || is_some l.first_video_received_at)
    && (not s.audio_enabled || is_some l.first_audio_received_at)

-- `self.end == Some(LifecycleEnd::BuildFailed)`, and the same for `Unexpected`.
abbrev pub ended_build_failed : Option LifecycleEnd → Bool
ended_build_failed (some LifecycleEnd.build_failed) = true
ended_build_failed _ = false

abbrev pub ended_unexpected : Option LifecycleEnd → Bool
ended_unexpected (some LifecycleEnd.unexpected) = true
ended_unexpected _ = false

-- `disconnected_at.unwrap_or(connected_at)`
abbrev pub or_at : Option ℕ → ℕ → ℕ
or_at none t = t
or_at (some e) t = e

-- The part of `judge` behind the checks on time and samples.
abbrev judge_media : ConnectionLifecycle → OutcomeSettings → ConnectionOutcome
judge_media l s =
    if s.expects_send && not (has_sent_every_enabled_kind l s)
    then failure ConnectionFailure.no_media_sent
    else if s.expects_send && is_none l.first_delivery_report_at
    then failure ConnectionFailure.no_delivery_report
    else if s.expects_receive && not (has_received_every_enabled_kind l s)
    then failure ConnectionFailure.no_media_received
    else if ended_unexpected l.end
    then failure ConnectionFailure.unexpected_disconnect
    else success

-- `duration_since(..).unwrap_or_default()` is the subtraction that stops at 0.
abbrev judge_connected : ConnectionLifecycle → OutcomeSettings → ℕ → ConnectionOutcome
judge_connected l s connected_at =
    if not s.video_enabled && not s.audio_enabled
    then unjudged
    else if l.samples == 0
    then unjudged
    else if ltb (or_at l.disconnected_at connected_at - connected_at) s.grace
    then unjudged
    else judge_media l s

abbrev judge_from : ConnectionLifecycle → OutcomeSettings → Option ℕ → ConnectionOutcome
judge_from l s none = failure ConnectionFailure.connect_failed
judge_from l s (some connected_at) = judge_connected l s connected_at

unfoldable pub judge : ConnectionLifecycle → OutcomeSettings → ConnectionOutcome
unfolding has_sent_every_enabled_kind has_received_every_enabled_kind
judge l s =
    if ended_build_failed l.end
    then failure ConnectionFailure.build_failed
    else judge_from l s l.webrtc_connected_at
