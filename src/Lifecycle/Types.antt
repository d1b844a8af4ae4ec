-- ===== src/Lifecycle/Types.antt =====
-- The data of zakuro/src/connection_lifecycle.rs. A `SystemTime` is a number of nanoseconds since
-- some origin. The four state enumerations belong to shiguredo_webrtc: their constructors are those
-- that the exhaustive matches of the source name, and the payload of `Unknown` is never read.
use Prim.Native.String.{String}
use zakuro_rs.Base.{ℕ, Bool, Option, none, some}

pub data LifecycleEnd : Type 0 where
  build_failed shutdown duration_expired scenario_disconnect scenario_exit unexpected : LifecycleEnd

-- `LifecycleEnd::as_str`
unfoldable pub end_str : LifecycleEnd → String
end_str build_failed = "build-failed"
end_str shutdown = "shutdown"
end_str duration_expired = "duration-expired"
end_str scenario_disconnect = "scenario-disconnect"
end_str scenario_exit = "scenario-exit"
end_str unexpected = "unexpected"

pub data ConnectionFailure : Type 0 where
  build_failed connect_failed no_media_sent no_delivery_report : ConnectionFailure
  no_media_received unexpected_disconnect : ConnectionFailure

-- `ConnectionFailure::as_str`
unfoldable pub failure_str : ConnectionFailure → String
failure_str build_failed = "build-failed"
failure_str connect_failed = "connect-failed"
failure_str no_media_sent = "no-media-sent"
failure_str no_delivery_report = "no-delivery-report"
failure_str no_media_received = "no-media-received"
failure_str unexpected_disconnect = "unexpected-disconnect"

pub data ConnectionOutcome : Type 0 where
  success : ConnectionOutcome
  failure : ConnectionFailure → ConnectionOutcome
  unjudged : ConnectionOutcome

-- `ConnectionOutcome::as_str`
unfoldable pub outcome_str : ConnectionOutcome → String
outcome_str success = "success"
outcome_str (failure reason) = "failure"
outcome_str unjudged = "unjudged"

unfoldable pub failure_reason : ConnectionOutcome → Option String
unfolding failure_str
failure_reason (failure reason) = some (failure_str reason)
failure_reason success = none
failure_reason unjudged = none

-- `grace` is a `Duration` in nanoseconds.
pub record OutcomeSettings : Type 0 where
  pub grace : ℕ
  pub expects_send : Bool
  pub expects_receive : Bool
  pub video_enabled : Bool
  pub audio_enabled : Bool

abbrev pub outcome_grace : ℕ
outcome_grace = 10_000_000_000

abbrev pub stall_samples : ℕ
stall_samples = 3

pub data MediaKind : Type 0 where
  video audio : MediaKind

pub data PeerConnectionState : Type 0 where
  new connecting connected disconnected failed closed : PeerConnectionState
  unknown : ℕ → PeerConnectionState

pub data IceConnectionState : Type 0 where
  new checking connected completed failed disconnected closed max : IceConnectionState
  unknown : ℕ → IceConnectionState

pub data IceGatheringState : Type 0 where
  new gathering complete : IceGatheringState
  unknown : ℕ → IceGatheringState

pub data SignalingState : Type 0 where
  stable have_local_offer have_remote_offer have_local_pranswer : SignalingState
  have_remote_pranswer closed : SignalingState
  unknown : ℕ → SignalingState

unfoldable pub peer_connection_state_name : PeerConnectionState → String
peer_connection_state_name PeerConnectionState.new = "new"
peer_connection_state_name PeerConnectionState.connecting = "connecting"
peer_connection_state_name PeerConnectionState.connected = "connected"
peer_connection_state_name PeerConnectionState.disconnected = "disconnected"
peer_connection_state_name PeerConnectionState.failed = "failed"
peer_connection_state_name PeerConnectionState.closed = "closed"
peer_connection_state_name (PeerConnectionState.unknown n) = "unknown"

unfoldable pub ice_connection_state_name : IceConnectionState → String
ice_connection_state_name IceConnectionState.new = "new"
ice_connection_state_name IceConnectionState.checking = "checking"
ice_connection_state_name IceConnectionState.connected = "connected"
ice_connection_state_name IceConnectionState.completed = "completed"
ice_connection_state_name IceConnectionState.failed = "failed"
ice_connection_state_name IceConnectionState.disconnected = "disconnected"
ice_connection_state_name IceConnectionState.closed = "closed"
ice_connection_state_name IceConnectionState.max = "max"
ice_connection_state_name (IceConnectionState.unknown n) = "unknown"

unfoldable pub ice_gathering_state_name : IceGatheringState → String
ice_gathering_state_name IceGatheringState.new = "new"
ice_gathering_state_name IceGatheringState.gathering = "gathering"
ice_gathering_state_name IceGatheringState.complete = "complete"
ice_gathering_state_name (IceGatheringState.unknown n) = "unknown"

unfoldable pub signaling_state_name : SignalingState → String
signaling_state_name SignalingState.stable = "stable"
signaling_state_name SignalingState.have_local_offer = "have-local-offer"
signaling_state_name SignalingState.have_remote_offer = "have-remote-offer"
signaling_state_name SignalingState.have_local_pranswer = "have-local-pranswer"
signaling_state_name SignalingState.have_remote_pranswer = "have-remote-pranswer"
signaling_state_name SignalingState.closed = "closed"
signaling_state_name (SignalingState.unknown n) = "unknown"

pub record ConnectionLifecycle : Type 0 where
  pub attempt_started_at : ℕ
  pub offer_received_at : Option ℕ
  pub webrtc_connected_at : Option ℕ
  pub ice_connected_at : Option ℕ
  pub ice_gathering_complete_at : Option ℕ
  pub first_video_sent_at : Option ℕ
  pub first_video_received_at : Option ℕ
  pub first_audio_sent_at : Option ℕ
  pub first_audio_received_at : Option ℕ
  pub first_delivery_report_at : Option ℕ
  pub samples : ℕ
  pub last_media_activity_at : Option ℕ
  pub max_idle_samples : ℕ
  pub idle_samples : ℕ
  pub disconnected_at : Option ℕ
  pub end : Option LifecycleEnd
  pub peer_connection_state : Option String
  pub ice_connection_state : Option String
  pub ice_gathering_state : Option String
  pub signaling_state : Option String
