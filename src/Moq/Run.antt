-- ===== src/Moq/Run.antt =====
-- What `run` and `drain_events` of zakuro-moq/src/moq_client/session.rs do to one publisher, event
-- by event. An error of a publisher ends the session.
use zakuro_rs.Base.{ℕ, false, not, ◌&&◌, List, [], ◌∷◌, some, if◌then◌else◌, ◌==◌, is_some}
use zakuro_rs.Base.Result.{Result, ok, and_then}
use zakuro_rs.Stats.Float.{Float}
use zakuro_rs.Moq.Types.{Publisher, Moqt, Io, Step, SendError}
use zakuro_rs.Moq.Ops.{is_due, on_accepted, on_forward_changed}
use zakuro_rs.Moq.Send.{eq_some, send_next_object, reset_stream}

-- `elsewhere` stands for all that the session and the shared counter go through between the calls
-- of this publisher.
pub data Event (S : Type 0) : Type 0 where
  established : ℕ → Event S
  request_ok : ℕ → ℕ → Event S
  request_update : ℕ → ℕ → ℕ → Event S
  reset_data_stream : ℕ → ℕ → Event S
  timer : ℕ → Io → Event S
  elsewhere : S → ℕ → Event S

module _ {F : Type 0} where
  unfoldable pub on_established : ℕ → Publisher F → Publisher F
  on_established request_id p =
      if is_some p.request_id
      then p
      else record p { request_id = some request_id; accepted = false }

  unfoldable pub on_request_ok : ℕ → ℕ → Publisher F → Publisher F
  on_request_ok request_id now p =
      if eq_some p.request_id request_id && not p.accepted then on_accepted request_id now p else p

  unfoldable pub on_request_update : ℕ → ℕ → ℕ → Publisher F → Publisher F
  on_request_update request_id paused now p =
      if eq_some p.request_id request_id then on_forward_changed (paused == 0) now p else p

module _ (f : Float) (m : Moqt) (payload : List ℕ) where
  open f use {F}
  open m use {Session}

  abbrev with_publisher : Step F Session → Publisher F → Step F Session
  with_publisher s p = record s { publisher = p }

  unfoldable pub on_timer : ℕ → Io → Step F Session → Result SendError (Step F Session)
  on_timer now io s = if is_due s.publisher now then send_next_object f m io payload s else ok s

  unfoldable pub handle_event : Event Session → Step F Session → Result SendError (Step F Session)
  handle_event (established request_id) s =
      ok (with_publisher s (on_established request_id s.publisher))
  handle_event (request_ok request_id now) s =
      ok (with_publisher s (on_request_ok request_id now s.publisher))
  handle_event (request_update request_id paused now) s =
      ok (with_publisher s (on_request_update request_id paused now s.publisher))
  handle_event (reset_data_stream id code) s = ok (reset_stream f m id code s)
  handle_event (timer now io) s = on_timer now io s
  handle_event (elsewhere session objects_sent) s =
      ok (record s { session = session; objects_sent = objects_sent })

  unfoldable pub run_events :
      List (Event Session) → Step F Session → Result SendError (Step F Session)
  run_events [] s = ok s
  run_events (e ∷ es) s = and_then (handle_event e s) (run_events es)
