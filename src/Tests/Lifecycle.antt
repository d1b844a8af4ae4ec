-- ===== src/Tests/Lifecycle.antt =====
-- The lifecycle and the media observer on concrete inputs.
use zakuro_rs.Base.{ℕ, true, false, List, [], ◌∷◌, some, ◌≡◌, refl, arith}
use zakuro_rs.Lifecycle.Types.{
  LifecycleEnd, ConnectionFailure, success, failure, OutcomeSettings, outcome_grace, video, audio,
  PeerConnectionState, ConnectionLifecycle,
}
use zakuro_rs.Lifecycle.Ops.{
  new, judge, is_stalled, on_sample_observed, on_sample_activity, on_media_sent, on_media_received,
  on_delivery_report,
}
use zakuro_rs.Lifecycle.History.{History, run, step, offer, peer, sample, sent, report, ended}
use zakuro_rs.Lifecycle.First.{IsFirst, run-new-IsFirst}
use zakuro_rs.Lifecycle.Judge.{IsSuccess, judge-success_iff, Explains, judge-Explains}
use zakuro_rs.Lifecycle.Stall.{Samples, replay, is_stalled-replay}
use zakuro_rs.Observer.Ops.{
  StreamCounters, new_observer, Entry, outbound_rtp, inbound_rtp, remote_inbound_rtp,
  observe_sample, observe_entries, observe_entry, observe_stream, has_flowed, finish,
}
use zakuro_rs.Observer.Tables.{observe_sample_tables}
use zakuro_rs.Observer.Frozen.{observe_again, frozen-is_stalled}
use zakuro_rs.Base.Map.{lookup, string_eq}

abbrev sender : OutcomeSettings
sender = record {
  grace = outcome_grace;
  expects_send = true;
  expects_receive = false;
  video_enabled = true;
  audio_enabled = false;
}

-- A sender that is connected twice, sends video, gets a report and is stopped.
abbrev good : History
good =
    (1, offer)
    ∷ (5, peer PeerConnectionState.connected)
    ∷ (6, sample)
    ∷ (7, sent video)
    ∷ (8, report)
    ∷ (9, peer PeerConnectionState.connected)
    ∷ (20_000_000_000, ended LifecycleEnd.shutdown)
    ∷ (20_000_000_001, ended LifecycleEnd.unexpected)
    ∷ []

abbrev good_lifecycle : ConnectionLifecycle
good_lifecycle = run (new 0) good

good_webrtc : good_lifecycle.webrtc_connected_at ≡ some 5
unfolding run step new
good_webrtc = refl

run-new-IsFirst_example : IsFirst good good_lifecycle 0
run-new-IsFirst_example = run-new-IsFirst 0 good

good_judge : judge good_lifecycle sender ≡ success
unfolding run step new judge
good_judge = refl

fresh_judge : judge (new 0) sender ≡ failure ConnectionFailure.connect_failed
unfolding new judge
fresh_judge = refl

judge-success_iff_example : (t : ℕ) × IsSuccess good_lifecycle sender t
judge-success_iff_example = (judge-success_iff good_lifecycle sender).0 good_judge

judge-Explains_example : Explains (new 0) sender (judge (new 0) sender)
judge-Explains_example = judge-Explains (new 0) sender

abbrev some_samples : Samples
some_samples = (1, true) ∷ (2, false) ∷ (3, false) ∷ (4, false) ∷ (5, true) ∷ []

is_stalled-replay_example : is_stalled (replay (new 0) some_samples) ≡ true
is_stalled-replay_example = is_stalled-replay 0 some_samples

-- Media that starts late and then never stops.
abbrev late : Samples
late = (1, false) ∷ (2, false) ∷ (3, false) ∷ (4, true) ∷ (5, true) ∷ []

late_stalled : is_stalled (replay (new 0) late) ≡ true
unfolding is_stalled replay new
late_stalled = refl

abbrev at_count : ℕ → StreamCounters
at_count n = record { packets = n; bytes = n; frames = 0 }

abbrev entries : List Entry
entries =
    outbound_rtp "a" video (at_count 3)
    ∷ inbound_rtp "a" audio (at_count 4)
    ∷ remote_inbound_rtp
    ∷ []

observe_sample_tables_example :
    (lookup "a" (observe_sample new_observer (new 0) entries 7).0.outbound ≡ some (at_count 3))
    × (lookup "a" (observe_sample new_observer (new 0) entries 7).0.inbound ≡ some (at_count 4))
observe_sample_tables_example = observe_sample_tables new_observer (new 0) entries 7 "a"

frozen-is_stalled_example :
    is_stalled (observe_again (7 ∷ 8 ∷ 9 ∷ 10 ∷ []) new_observer (new 0) entries).1 ≡ true
unfolding observe_sample new observe_entries observe_entry observe_stream has_flowed lookup finish
    on_media_sent on_media_received on_sample_observed on_sample_activity on_delivery_report
frozen-is_stalled_example =
    frozen-is_stalled entries new_observer (new 0) 7 (8 ∷ 9 ∷ 10 ∷ []) refl (tt, (tt, tt)) refl
      (omega arith)
