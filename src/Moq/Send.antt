-- ===== src/Moq/Send.antt =====
-- The sending methods of `Publisher` of zakuro-moq/src/moq_client/session.rs.
pub mod Safe
pub mod Whole
use zakuro_rs.Base.{
  ℕ, ◌+◌, Bool, true, false, List, [], ◌∷◌, ◌++◌, Option, none, some, if◌then◌else◌, ltb, leb, ◌==◌,
  length, add32, add64,
}
use zakuro_rs.Base.Result.{Result, ok, err, and_then}
use zakuro_rs.Stats.Float.{Float}
use zakuro_rs.Moq.Types.{
  DeliveryMode, subgroup, datagram, Publisher, SubgroupHeader, ObjectDatagram, Wire, fin, reset,
  Registered, registered, local_filter_mismatch, refused, Moqt, Written, done, broken, Io, opening,
  object, closing, single, Step, SendError, panic, open_failed, header_refused, header_failed,
  encode_failed, object_refused, write_failed, too_large, datagram_failed,
}
use zakuro_rs.Moq.Ops.{
  max_consecutive_write_failures, object_id_delta, is_end_of_group, payload_slice, next_group,
  advance_next_send, loc_timestamp, loc_timescale,
}

abbrev pub eq_some : Option ℕ → ℕ → Bool
eq_some none n = false
eq_some (some a) n = a == n

module _ (f : Float) (m : Moqt) where
  open f use {F}
  open m use {
    Session, send_subgroup_header, send_subgroup_object, send_object_datagram,
    send_data_stream_closed, recv_data_stream_stop_sending, encode_properties, can_encode_object,
    encode_datagram,
  }

  -- Both fields of the stream are taken together, as in the source's `if let`.
  abbrev pub closes : Option ℕ → Option ℕ → Option ℕ
  closes (some stream) (some id) = some id
  closes _ _ = none

  abbrev pub drop_stream : Publisher F → Publisher F
  drop_stream p = record p { stream = none; stream_id = none }

  unfoldable pub close_stream : Step F Session → Step F Session
  close_stream s = elim (closes s.publisher.stream s.publisher.stream_id) [
    | none ↦ record s { publisher = drop_stream s.publisher }
    | some id ↦ record s {
      publisher = drop_stream s.publisher;
      session = send_data_stream_closed s.session id fin;
      wire = s.wire ++ closing id fin ∷ [];
    }
  ]

  unfoldable pub on_stream_write_failure :
      ℕ → Option ℕ → Step F Session → Result SendError (Step F Session)
  on_stream_write_failure id code s =
      let p = next_group (drop_stream s.publisher) in
      let failures = add32 p.consecutive_write_failures 1 in
      if leb max_consecutive_write_failures failures
      then err write_failed
      else ok (record s {
        publisher = record p { consecutive_write_failures = failures };
        session = recv_data_stream_stop_sending s.session id code;
      })

  -- The end of a group: its stream ends, and the next group begins.
  abbrev pub roll_subgroup : Step F Session → Step F Session
  roll_subgroup s =
      if leb s.publisher.objects_per_group s.publisher.object_id
      then (let closed = close_stream s in
          record closed { publisher = next_group closed.publisher })
      else s

  abbrev pub header_of : Publisher F → SubgroupHeader
  header_of p = record { track_alias = p.track_alias; group_id = p.group_id }

  abbrev pub opened_step : Step F Session → ℕ → Session → Step F Session
  opened_step s id session = record s {
    publisher = record s.publisher { stream = some id; stream_id = some id; prev_object_id = none };
    session = session;
    wire = s.wire ++ opening id (header_of s.publisher) ∷ [];
  }

  header_step : Io → Step F Session → ℕ → Session × Bool → Result SendError (Step F Session)
  header_step io s id (session, false) = err header_refused
  header_step io s id (session, true) =
      if io.header_written then ok (opened_step s id session) else err header_failed

  open_new : Io → ℕ → Step F Session → Option ℕ → Result SendError (Step F Session)
  open_new io request_id s none = err open_failed
  open_new io request_id s (some id) =
      header_step io s id (send_subgroup_header s.session id request_id (header_of s.publisher))

  -- A subgroup stream, before the first object.
  pub open_stream : Io → ℕ → Step F Session → Option ℕ → Result SendError (Step F Session)
  open_stream io request_id s (some stream) = ok s
  open_stream io request_id s none = open_new io request_id s io.opened

  abbrev pub properties_of : Publisher F → Option (List ℕ)
  properties_of p =
      encode_properties loc_timescale (loc_timestamp f p.sent_objects p.config.object_rate)

  -- An object that the filter keeps back: it takes its number and its time.
  abbrev pub skipped : ℕ → Session → Step F Session → Step F Session
  skipped now session s = record s {
    publisher =
        advance_next_send f now (record s.publisher { object_id = add64 s.publisher.object_id 1 });
    session = session;
  }

  abbrev pub counted : ℕ → Publisher F → Publisher F
  counted now p =
      advance_next_send f now
        (record p { object_id = add64 p.object_id 1; sent_objects = add64 p.sent_objects 1 })

  write_object :
      Io → ℕ → List ℕ → List ℕ → Step F Session → Written → Result SendError (Step F Session)
  write_object io id properties payload s (broken code) = on_stream_write_failure id code s
  write_object io id properties payload s done =
      let p = s.publisher in
      ok (record s {
        publisher =
            counted io.now
              (record p { consecutive_write_failures = 0; prev_object_id = some p.object_id });
        wire =
            s.wire
            ++ object id (object_id_delta p.prev_object_id p.object_id) properties payload ∷ [];
        objects_sent = add64 s.objects_sent 1;
      })

  encode_object :
      Io → ℕ → List ℕ → Step F Session → Option (List ℕ) → Result SendError (Step F Session)
  encode_object io id properties s none = err panic
  encode_object io id properties s (some payload) =
      let delta = object_id_delta s.publisher.prev_object_id s.publisher.object_id in
      if can_encode_object delta (length payload) properties
      then write_object io id properties payload s io.object_written
      else err encode_failed

  register_object :
      Io
      → List ℕ
      → ℕ
      → List ℕ
      → Step F Session
      → Session × Registered
      → Result SendError (Step F Session)
  register_object io payload id properties s (session, local_filter_mismatch) =
      ok (skipped io.now session s)
  register_object io payload id properties s (session, refused) = err object_refused
  register_object io payload id properties s (session, registered) =
      encode_object io id properties (record s { session = session })
        (payload_slice payload s.publisher.config.object_size)

  pub send_object :
      Io → List ℕ → Step F Session → Option ℕ → Option (List ℕ) → Result SendError (Step F Session)
  send_object io payload s none properties = err panic
  send_object io payload s (some id) none = err encode_failed
  send_object io payload s (some id) (some properties) =
      register_object io payload id properties s
        (send_subgroup_object s.session id s.publisher.object_id properties)

  abbrev pub roll_datagram : Step F Session → Step F Session
  roll_datagram s =
      if leb s.publisher.objects_per_group s.publisher.object_id
      then record s {
        publisher = record s.publisher { group_id = add64 s.publisher.group_id 1; object_id = 0 };
      }
      else s

  abbrev pub datagram_of : Publisher F → List ℕ → ObjectDatagram
  datagram_of p properties = record {
    track_alias = p.track_alias;
    group_id = p.group_id;
    object_id = p.object_id;
    properties_data = properties;
    end_of_group = is_end_of_group p.object_id p.objects_per_group;
  }

  register_datagram :
      Io
      → ObjectDatagram
      → List ℕ
      → Step F Session
      → Session × Registered
      → Result SendError (Step F Session)
  register_datagram io d payload s (session, local_filter_mismatch) = ok (skipped io.now session s)
  register_datagram io d payload s (session, refused) = err object_refused
  register_datagram io d payload s (session, registered) =
      if io.datagram_sent
      then ok (record s {
        publisher = counted io.now s.publisher;
        session = session;
        wire = s.wire ++ single d payload ∷ [];
        objects_sent = add64 s.objects_sent 1;
      })
      else err datagram_failed

  size_datagram :
      Io
      → ℕ
      → ObjectDatagram
      → List ℕ
      → Step F Session
      → Option (List ℕ)
      → Result SendError (Step F Session)
  size_datagram io request_id d header s none = err panic
  size_datagram io request_id d header s (some payload) =
      if ltb s.publisher.datagram_max_size (length header + length payload)
      then err too_large
      else register_datagram io d payload s (send_object_datagram s.session request_id d)

  frame_datagram :
      Io → ℕ → List ℕ → Step F Session → Option (List ℕ) → Result SendError (Step F Session)
  frame_datagram io request_id payload s none = err encode_failed
  frame_datagram io request_id payload s (some properties) =
      let d = datagram_of s.publisher properties in
      elim (encode_datagram d) [
        | none ↦ err encode_failed
        | some header ↦
            size_datagram io request_id d header s
              (payload_slice payload s.publisher.config.object_size)
      ]

  send_next_datagram : Io → List ℕ → ℕ → Step F Session → Result SendError (Step F Session)
  unfolding frame_datagram size_datagram register_datagram
  send_next_datagram io payload request_id s =
      let rolled = roll_datagram s in
      frame_datagram io request_id payload rolled (properties_of rolled.publisher)

  open_and_send : Io → List ℕ → Step F Session → Result SendError (Step F Session)
  open_and_send io payload s =
      send_object io payload s s.publisher.stream_id (properties_of s.publisher)

  send_next_subgroup : Io → List ℕ → ℕ → Step F Session → Result SendError (Step F Session)
  unfolding open_stream open_new header_step open_and_send send_object register_object encode_object
      write_object
  send_next_subgroup io payload request_id s =
      let rolled = roll_subgroup s in
      and_then (open_stream io request_id rolled rolled.publisher.stream) (open_and_send io payload)

  dispatch :
      Io → List ℕ → Step F Session → Option ℕ → DeliveryMode → Result SendError (Step F Session)
  dispatch io payload s none mode = err panic
  dispatch io payload s (some request_id) datagram = send_next_datagram io payload request_id s
  dispatch io payload s (some request_id) subgroup = send_next_subgroup io payload request_id s

  unfoldable pub send_next_object : Io → List ℕ → Step F Session → Result SendError (Step F Session)
  unfolding dispatch send_next_datagram send_next_subgroup
  send_next_object io payload s =
      dispatch io payload s s.publisher.request_id s.publisher.config.delivery

  -- The stream of the reset is this publisher's: it is given up, with the rest of its group.
  abbrev pub reset_wire : Option ℕ → ℕ → ℕ → List Wire
  reset_wire (some stream) id code = closing id (reset code) ∷ []
  reset_wire none id code = []

  unfoldable pub reset_stream : ℕ → ℕ → Step F Session → Step F Session
  reset_stream id code s =
      if eq_some s.publisher.stream_id id
      then record s {
        publisher = next_group (drop_stream s.publisher);
        session = send_data_stream_closed s.session id (reset code);
        wire = s.wire ++ reset_wire s.publisher.stream id code;
      }
      else s
