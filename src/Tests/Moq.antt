-- ===== src/Tests/Moq.antt =====
-- A publisher of three objects a second on concrete sessions.
use zakuro_rs.Base.{
  ℕ, ◌+◌, Bool, true, false, List, [], ◌∷◌, none, some, ◌≡◌, refl, arith, if◌then◌else◌, ◌==◌,
}
use zakuro_rs.Base.Result.{Result, ok, err, and_then}
use zakuro_rs.Moq.Types.{
  DeliveryMode, subgroup, datagram, TrackConfig, registered, local_filter_mismatch, Moqt, Written,
  done, broken, Io, Wire, single, ObjectDatagram, Step, SendError,
}
use zakuro_rs.Moq.Ops.{
  new_publisher, is_due, on_accepted, advance_next_send, object_id_delta, is_end_of_group,
}
use zakuro_rs.Moq.Send.{send_next_object, close_stream, on_stream_write_failure, reset_stream}
use zakuro_rs.Moq.Run.{
  Event, established, request_ok, timer, reset_data_stream, handle_event, on_timer, on_request_ok,
  on_established, run_events,
}
use zakuro_rs.Moq.Receive.{Reader, received, reader_after}
use zakuro_rs.Moq.Ordered.{begin, IsDelivered, run_events-IsDelivered}
use zakuro_rs.Moq.LastOfGroup.{IsLast, run_events-IsLast}
use zakuro_rs.Moq.Incoming.{
  Receiving, Received, object_accepted, new_subscription, handle_received_datagram,
}
use zakuro_rs.Moq.Incoming.Pattern.{IsRecorded, handle_received_datagram-IsRecorded}
use zakuro_rs.Moq.Pace.{advances, advances-is_due}
use zakuro_rs.Moq.Send.Safe.{Safe}
use zakuro_rs.Tests.Stats.{fixed, fixed-IsFloat}

-- Its filter keeps back the second object of each group.
abbrev lib : Moqt
lib = record {
  Session = ℕ;
  send_subgroup_header = λ s stream request header. (s, true);
  send_subgroup_object = λ s stream object_id properties.
      (s, if object_id == 1 then local_filter_mismatch else registered);
  send_object_datagram = λ s request d. (s, registered);
  send_data_stream_closed = λ s stream end. s;
  recv_data_stream_stop_sending = λ s stream code. s;
  encode_properties = λ timescale timestamp. some (timestamp ∷ []);
  can_encode_object = λ delta size properties. true;
  encode_datagram = λ d. some (1 ∷ []);
}

abbrev track : DeliveryMode → TrackConfig (fixed.F)
track mode = record { name = "a"; object_rate = 300; object_size = 2; delivery = mode }

abbrev payload : List ℕ
payload = 0 ∷ 1 ∷ 2 ∷ []

abbrev io : ℕ → ℕ → Written → Io
io now stream w = record {
  opened = some stream;
  header_written = true;
  object_written = w;
  datagram_sent = true;
  now = now;
}

abbrev tick : ℕ → ℕ → Written → Event ℕ
tick now stream w = timer now (io now stream w)

-- A write fails in the second group.
abbrev events : List (Event ℕ)
events =
    established 7
    ∷ request_ok 7 0
    ∷ tick 1 2 done
    ∷ tick 400_000_000 2 done
    ∷ tick 800_000_000 2 done
    ∷ tick 1_200_000_000 6 done
    ∷ tick 1_600_000_000 6 (broken (some 9))
    ∷ tick 2_000_000_000 6 (broken (some 9))
    ∷ tick 2_400_000_000 10 done
    ∷ reset_data_stream 10 3
    ∷ tick 2_800_000_000 14 done
    ∷ []

abbrev reader : Reader
reader = record { stream = 0; group = 0; prev = none }

abbrev outcome : DeliveryMode → Result SendError (Step (fixed.F) ℕ)
outcome mode =
    run_events fixed lib payload events (begin (new_publisher fixed (track mode) 1 0 1200) 0 0)

abbrev wire_of : Result SendError (Step (fixed.F) ℕ) → List Wire
wire_of (ok s) = s.wire
wire_of (err e) = []

abbrev places : DeliveryMode → List (ℕ × ℕ)
places mode = received reader (wire_of (outcome mode))

subgroup_places : places subgroup ≡ (0, 0) ∷ (0, 2) ∷ (1, 0) ∷ (2, 0) ∷ (3, 0) ∷ []
unfolding run_events new_publisher and_then handle_event on_timer is_due on_request_ok
    on_established on_accepted send_next_object advance_next_send received close_stream
    on_stream_write_failure reset_stream object_id_delta
subgroup_places = refl

run_events-IsDelivered_example : Safe (IsDelivered reader) (
    run_events fixed lib payload events (begin (new_publisher fixed (track subgroup) 1 0 1200) 0 0))
unfolding new_publisher
run_events-IsDelivered_example =
    run_events-IsDelivered fixed lib payload reader (track subgroup) 1 0 1200 0 0 events
      fixed-IsFloat (omega arith) (omega arith) (omega arith)

-- Three datagrams, the last with the bit, and one of the next group.
abbrev short : List (Event ℕ)
short =
    established 7
    ∷ request_ok 7 0
    ∷ tick 1 2 done
    ∷ tick 400_000_000 2 done
    ∷ tick 800_000_000 2 done
    ∷ tick 1_200_000_000 6 done
    ∷ []

abbrev datagram_at : ℕ → ℕ → ℕ → Bool → ObjectDatagram
datagram_at group object_id timestamp ends = record {
  track_alias = 1;
  group_id = group;
  object_id = object_id;
  properties_data = timestamp ∷ [];
  end_of_group = ends;
}

abbrev bytes : List ℕ
bytes = 0 ∷ 1 ∷ []

abbrev before : List Wire
before = single (datagram_at 0 0 0 false) bytes ∷ single (datagram_at 0 1 330_000 false) bytes ∷ []

abbrev after : List Wire
after = single (datagram_at 1 0 1_000_000 false) bytes ∷ []

abbrev step_of : Result SendError (Step (fixed.F) ℕ) → Step (fixed.F) ℕ → Step (fixed.F) ℕ
step_of (ok s) t = s
step_of (err e) t = t

abbrev first : Step (fixed.F) ℕ
first = begin (new_publisher fixed (track datagram) 1 0 1200) 0 0

run_events-IsLast_example :
    IsLast
      (new_publisher fixed (track datagram) 1 0 1200).objects_per_group
      (datagram_at 0 2 660_000 true)
      (received (reader_after reader before) after)
unfolding run_events new_publisher and_then handle_event on_timer is_due on_request_ok
    on_established on_accepted send_next_object advance_next_send is_end_of_group
run_events-IsLast_example =
    run_events-IsLast fixed lib payload reader (track datagram) 1 0 1200 0 0 short fixed-IsFloat
      (omega arith) (omega arith) (omega arith)
      (step_of (run_events fixed lib payload short first) first) refl before after
      (datagram_at 0 2 660_000 true) bytes refl

advances-is_due_example :
    is_due
      (advances fixed 12 9_000_000_000 (new_publisher fixed (track subgroup) 1 0 1200))
      9_000_000_000
    ≡ false
unfolding new_publisher
advances-is_due_example =
    advances-is_due fixed 10 9_000_000_000 (new_publisher fixed (track subgroup) 1 0 1200)
      (omega arith) (omega arith)

-- A relay whose datagrams have a header of two bytes.
abbrev relay : Receiving
relay = record {
  Session = ℕ;
  recv_datagram = λ s raw. (s + 1, some object_accepted);
  decode_datagram = λ raw. some (5, 2);
}

abbrev waiting : Received ℕ
waiting = record {
  session = 0;
  subscriptions = record (new_subscription "a") { track_alias = some 5 } ∷ [];
  counters = record { objects = 0; bytes = 0; mismatched_payloads = 0 };
}

-- The third byte of the payload is not that of the pattern.
handle_received_datagram-IsRecorded_example :
    (r' : Received ℕ) × (handle_received_datagram relay true (8 ∷ 9 ∷ 0 ∷ 1 ∷ 7 ∷ []) waiting
      ≡ ok r')
    × IsRecorded true 4 5 (0 ∷ 1 ∷ 7 ∷ []) 1 waiting r'
handle_received_datagram-IsRecorded_example =
    handle_received_datagram-IsRecorded relay 4 (8 ∷ 9 ∷ []) (0 ∷ 1 ∷ 7 ∷ []) (omega arith) 5 true
      waiting 1 refl refl
