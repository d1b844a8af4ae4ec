-- ===== src/Tests/WtH2.antt =====
-- The receive side of WebTransport over HTTP/2 on concrete inputs.
use zakuro_rs.Base.{
  ◌==◌, if◌then◌else◌, ℕ, ◌+◌, ◌-◌, ◌≤◌, true, false, List, [], ◌∷◌, some, ◌≡◌, refl, arith,
}
use zakuro_rs.Base.Map.{lookup, nat_eq}
use zakuro_rs.WtH2.Types.{Wt, PeerStream, receive_window_increment}
use zakuro_rs.WtH2.Ops.{
  Driver, consumed, mark_peer_recv_closed, mark_peer_send_closed, Input, opens, brings,
}
use zakuro_rs.WtH2.Window.{IsIncrement, receive_window_increment-IsIncrement}
use zakuro_rs.WtH2.Opens.{
  OpenRequest, Opener, opened, flow_control_error, pump_opens, count_of, pump_opens_counts,
}
use zakuro_rs.WtH2.Credit.{IsCredited, consumed_reopens, mark_peer-IsCredited}

-- A session that accepts all, and counts the streams that it allows.
abbrev accepting : Wt
accepting = record {
  Session = ℕ;
  initial_max_data = 100;
  initial_max_stream_data_bidi_remote = 50;
  initial_max_stream_data_uni = 50;
  grow_recv_window = λ s n. (s, true);
  grow_stream_recv_window = λ s id n. (s, true);
  can_recv = λ s id. true;
  stop_sending = λ s id code. (s, true);
  grow_max_streams = λ s n bidirectional. (s + n, true);
}

abbrev fresh : Driver accepting
fresh = record {
  wt = 0;
  recv_streams = [];
  peer_streams = [];
  stop_sent = [];
  session_received = 0;
  session_consumed = 0;
  session_grown = 0;
}

window_grows : receive_window_increment 100 60 60 0 ≡ some 60
unfolding receive_window_increment
window_grows = refl

receive_window_increment-IsIncrement_example :
    IsIncrement 100 60 60 0 (receive_window_increment 100 60 60 0)
receive_window_increment-IsIncrement_example =
    receive_window_increment-IsIncrement 100 60 60 0 (omega arith) (omega arith)

abbrev inputs : List (Input accepting)
inputs = opens 1 true ∷ brings 1 40 false true ∷ []

-- A driver that received 60 bytes, of which none is consumed.
abbrev full : Driver accepting
full = record fresh { session_received = 60 }

consumed_reopens_example : 50 ≤ 100 + (consumed accepting full 1 60).session_grown - 60
consumed_reopens_example =
    consumed_reopens accepting full 1 60 (λ s n. refl) (omega arith) (omega arith) (omega arith)

abbrev stream : PeerStream
stream = record { bidirectional = true; recv_closed = false; send_closed = false }

abbrev with_stream : Driver accepting
with_stream = record fresh { peer_streams = (1, stream) ∷ [] }

mark_peer-IsCredited_example :
    IsCredited accepting with_stream
      (mark_peer_send_closed accepting (mark_peer_recv_closed accepting with_stream 1) 1)
      1
      stream
    × IsCredited accepting with_stream
        (mark_peer_recv_closed accepting (mark_peer_send_closed accepting with_stream 1) 1)
        1
        stream
unfolding lookup
mark_peer-IsCredited_example = mark_peer-IsCredited accepting with_stream 1 stream refl refl

-- A session that has room for so many streams.
abbrev roomy : Opener
roomy = record {
  Session = ℕ;
  is_active = λ s. true;
  open_streams = λ s bidirectional. if s == 0 then (0, flow_control_error) else (s - 1, opened);
}

abbrev request : ℕ → OpenRequest
request caller = record { bidirectional = true; caller = caller; waits = true }

pump_opens_counts_example :
    count_of roomy 2 (pump_opens roomy false true 1 (request 1 ∷ request 2 ∷ [])).answered
      + count_of roomy 2 (pump_opens roomy false true 1 (request 1 ∷ request 2 ∷ [])).dropped
      + count_of roomy 2 (pump_opens roomy false true 1 (request 1 ∷ request 2 ∷ [])).queue
    ≡ 1
pump_opens_counts_example = pump_opens_counts roomy false true 2 1 (request 1 ∷ request 2 ∷ [])
