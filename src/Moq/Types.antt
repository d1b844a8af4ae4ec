-- ===== src/Moq/Types.antt =====
-- The publisher of zakuro-moq/src/moq_client/session.rs: its state, what it uses of the `Session`
-- of the MOQT library and of the connection, and what it puts on the wire. Instants and durations
-- are numbers of nanoseconds.
use Prim.Native.String.{String}
use zakuro_rs.Base.{ℕ, Bool, List, Option}

pub data DeliveryMode : Type 0 where
  subgroup datagram : DeliveryMode

pub record TrackConfig (F : Type 0) : Type 0 where
  pub name : String
  pub object_rate : F
  pub object_size : ℕ
  pub delivery : DeliveryMode

-- The stream handle stands for itself by the number of its stream.
pub record Publisher (F : Type 0) : Type 0 where
  pub config : TrackConfig F
  pub request_id : Option ℕ
  pub track_alias : ℕ
  pub accepted : Bool
  pub forward : Bool
  pub next_send : ℕ
  pub period : ℕ
  pub stream : Option ℕ
  pub stream_id : Option ℕ
  pub group_id : ℕ
  pub object_id : ℕ
  pub prev_object_id : Option ℕ
  pub objects_per_group : ℕ
  pub sent_objects : ℕ
  pub consecutive_write_failures : ℕ
  pub datagram_max_size : ℕ

-- The fields of the library's `SubgroupHeader` and `ObjectDatagram` that vary.
pub record SubgroupHeader : Type 0 where
  pub track_alias : ℕ
  pub group_id : ℕ

pub record ObjectDatagram : Type 0 where
  pub track_alias : ℕ
  pub group_id : ℕ
  pub object_id : ℕ
  pub properties_data : List ℕ
  pub end_of_group : Bool

pub data StreamEnd : Type 0 where
  fin : StreamEnd
  reset : ℕ → StreamEnd

-- What registering an object with the session answers.
pub data Registered : Type 0 where
  registered local_filter_mismatch refused : Registered

-- The MOQT library. The encoders of headers, objects, datagrams and properties are its own.
pub record Moqt : Type 1 where
  pub Session : Type 0
  pub send_subgroup_header : Session → ℕ → ℕ → SubgroupHeader → Session × Bool
  pub send_subgroup_object : Session → ℕ → ℕ → List ℕ → Session × Registered
  pub send_object_datagram : Session → ℕ → ObjectDatagram → Session × Registered
  pub send_data_stream_closed : Session → ℕ → StreamEnd → Session
  pub recv_data_stream_stop_sending : Session → ℕ → Option ℕ → Session
  -- Timescale and timestamp.
  pub encode_properties : ℕ → ℕ → Option (List ℕ)
  pub can_encode_object : ℕ → ℕ → List ℕ → Bool
  pub encode_datagram : ObjectDatagram → Option (List ℕ)

-- The result of a write to a stream: an error carries the code of a peer's STOP_SENDING, if any.
pub data Written : Type 0 where
  done : Written
  broken : Option ℕ → Written

-- What the connection and the clock answer during one call.
pub record Io : Type 0 where
  pub opened : Option ℕ
  pub header_written : Bool
  pub object_written : Written
  pub datagram_sent : Bool
  pub now : ℕ

-- What reaches the peer: the stream of a subgroup with its header, an object with its delta, the
-- properties and the payload, the end of a stream, a datagram with its payload.
pub data Wire : Type 0 where
  opening : ℕ → SubgroupHeader → Wire
  object : ℕ → ℕ → List ℕ → List ℕ → Wire
  closing : ℕ → StreamEnd → Wire
  single : ObjectDatagram → List ℕ → Wire

-- The state after a step, with what it put on the wire and the counter shared by all publishers.
pub record Step (F S : Type 0) : Type 0 where
  pub publisher : Publisher F
  pub session : S
  pub wire : List Wire
  pub objects_sent : ℕ

pub data SendError : Type 0 where
  -- an `expect` or a slice out of range
  panic : SendError
  open_failed header_refused header_failed : SendError
  encode_failed object_refused write_failed : SendError
  too_large datagram_failed : SendError
