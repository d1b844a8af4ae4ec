-- ===== src/Moq/Ordered.antt =====
-- The objects that a publisher of zakuro-moq/src/moq_client/session.rs gets to its peer, over all
-- the events of a session.
use zakuro_rs.Base.{
  ℕ, ◌+◌, ◌*◌, ◌%◌, ◌≤◌, ◌<◌, Bool, true, false, not, ◌&&◌, List, [], ◌∷◌, Option, some, ◌≡◌, inl,
  inr, refl, arith, ◌==◌, length, u64_max, is_some, Bool-cases,
}
use zakuro_rs.Base.Result.{Result, ok, err}
use zakuro_rs.Stats.Float.{Float, IsFloat}
use zakuro_rs.Moq.Types.{DeliveryMode, TrackConfig, Publisher, Moqt, Step, SendError}
use zakuro_rs.Moq.Ops.{new_publisher, on_accepted, on_forward_changed}
use zakuro_rs.Moq.Run.{
  Event, established, request_ok, request_update, reset_data_stream, timer, elsewhere,
  on_established, on_request_ok, on_request_update, handle_event, run_events,
}
use zakuro_rs.Moq.Send.{eq_some}
use zakuro_rs.Moq.Receive.{Reader, received, Climbs}
use zakuro_rs.Moq.Inv.{Inv}
use zakuro_rs.Moq.Send.Safe.{Safe, Safe-and_then, Good, Good-later, Good-elsewhere}
use zakuro_rs.Moq.Send.Whole.{on_timer-Safe, reset_stream-Good}

module _ (f : Float) (m : Moqt) (payload : List ℕ) (start : Reader) (size g o sent : ℕ)
    (fits : size ≤ u64_max) (some_object : 0 < size) where
  open f use {F}
  open m use {Session}

  abbrev IsGood : DeliveryMode → ℕ → Step F Session → Type 0
  IsGood mode bound s = Good f m payload start size g o sent fits some_object mode bound s

  later :
      (mode : DeliveryMode) (bound : ℕ) (s : Step F Session)
      → IsGood mode bound s
      → IsGood mode (bound + 1) s
  later = Good-later f m payload start size g o sent fits some_object

  -- The fields that the requests of the session change.
  Good-requested :
      (mode : DeliveryMode) (bound : ℕ) (s : Step F Session) (request_id : Option ℕ)
      (accepted forward : Bool) (next : ℕ)
      → IsGood mode bound s
      → (accepted ≡ true → is_some request_id ≡ true)
      → IsGood mode (bound + 1 + 1) (record s {
        publisher = record s.publisher {
          request_id = request_id;
          accepted = accepted;
          forward = forward;
          next_send = next;
        };
      })
  Good-requested mode bound s request_id accepted forward next h a = record {
    inv = record {
      per_group = h.inv.per_group;
      room = h.inv.room;
      follows = h.inv.follows;
      lone = h.inv.lone;
      in_step = h.inv.in_step;
      climbs = h.inv.climbs;
      ends = h.inv.ends;
      counts = h.inv.counts;
    };
    group = omega (arith, h.group);
    kind = h.kind;
    long = h.long;
    asked = a;
  }

  unchanged :
      (mode : DeliveryMode) (bound : ℕ) (s : Step F Session)
      → IsGood mode bound s
      → IsGood mode (bound + 1 + 1) s
  unchanged mode bound s h = later mode (bound + 1) s (later mode bound s h)

  handle_event-Safe :
      (mode : DeliveryMode) (bound : ℕ) (s : Step F Session) (e : Event Session)
      → bound + 1 < u64_max
      → IsGood mode bound s
      → Safe (IsGood mode (bound + 1 + 1)) (handle_event f m payload e s)
  unfolding handle_event on_established on_request_ok on_request_update on_accepted
      on_forward_changed
  handle_event-Safe mode bound s (established id) room h =
      elim (Bool-cases (is_some s.publisher.request_id)) [
        | inl e ↦ rw e (unchanged mode bound s h)
        | inr e ↦ rw e (
            Good-requested mode bound s (some id) false s.publisher.forward s.publisher.next_send h
              (λ k. refl))
      ]
  handle_event-Safe mode bound s (request_ok id now) room h =
      elim (Bool-cases (eq_some s.publisher.request_id id && not s.publisher.accepted)) [
        | inl e ↦
            rw e (Good-requested mode bound s (some id) true s.publisher.forward now h (λ k. refl))
        | inr e ↦ rw e (unchanged mode bound s h)
      ]
  handle_event-Safe mode bound s (request_update id paused now) room h =
      elim (Bool-cases (eq_some s.publisher.request_id id)) [
        | inl e ↦ rw e (
            Good-requested mode bound s s.publisher.request_id s.publisher.accepted (paused == 0) _
              h h.asked)
        | inr e ↦ rw e (unchanged mode bound s h)
      ]
  handle_event-Safe mode bound s (reset_data_stream id code) room h = later mode (bound + 1) _ (
      reset_stream-Good f m payload start size g o sent fits some_object mode bound id code s
        (omega arith) h)
  handle_event-Safe mode bound s (timer now io) room h =
      on_timer-Safe f m payload start size g o sent fits some_object mode bound now io s room h
  handle_event-Safe mode bound s (elsewhere session count) room h = later mode (bound + 1) _ (
      later mode bound _ (
        Good-elsewhere f m payload start size g o sent fits some_object mode bound s h session
          count))

  run_events-Safe :
      (mode : DeliveryMode) (bound : ℕ) (es : List (Event Session)) (s : Step F Session)
      → bound + 2 * length es < u64_max
      → IsGood mode bound s
      → Safe (λ (t : Step F Session). (last : ℕ) × IsGood mode last t) (run_events f m payload es s)
  unfolding run_events
  run_events-Safe mode bound [] s room h = (bound, h)
  run_events-Safe mode bound (e ∷ es) s room h =
      Safe-and_then (IsGood mode (bound + 1 + 1)) _ (handle_event f m payload e s)
        (run_events f m payload es) (handle_event-Safe mode bound s e (omega arith) h)
        (λ t k. run_events-Safe mode (bound + 1 + 1) es t (omega arith) k)

-- A session begins with nothing on the wire.
abbrev pub begin : {F S : Type 0} → Publisher F → S → ℕ → Step F S
begin p session objects_sent = record {
  publisher = p;
  session = session;
  wire = [];
  objects_sent = objects_sent;
}

-- What the peer has from a publisher that began with nothing sent.
pub record IsDelivered {F S : Type 0} (start : Reader) (s : Step F S) : Type 0 where
  pub ordered :
      Climbs s.publisher.objects_per_group 0 0
        (received start s.wire)
        s.publisher.group_id
        s.publisher.object_id
  pub counted : s.publisher.sent_objects ≡ length (received start s.wire) % 18446744073709551616

Safe-map :
    {A : Type 0} (P Q : A → Type 0) (r : Result SendError A)
    → ((a : A) → P a → Q a)
    → Safe P r
    → Safe Q r
Safe-map P Q (ok a) g h = g a h
Safe-map P Q (err e) g h = h

module _ (f : Float) (m : Moqt) (payload : List ℕ) (start : Reader) (config : TrackConfig (f.F))
    (alias now max_size : ℕ) (session : m.Session) (objects_sent : ℕ)
    (es : List (Event (m.Session))) (is_float : IsFloat f)
    (fits : (new_publisher f config alias now max_size).objects_per_group ≤ u64_max)
    (long : config.object_size ≤ length payload) (few : 2 * length es < u64_max) where
  pub some_object : 0 < (new_publisher f config alias now max_size).objects_per_group
  unfolding new_publisher
  some_object = omega (arith, is_float.max_one (f.round config.object_rate))

  abbrev pub IsReached : Step (f.F) (m.Session) → Type 0
  IsReached t =
      Inv start (new_publisher f config alias now max_size).objects_per_group 0 0 0 t.publisher
        t.wire

  begun :
      Good f m payload start
        (new_publisher f config alias now max_size).objects_per_group
        0
        0
        0
        fits
        some_object
        config.delivery
        0
        (begin (new_publisher f config alias now max_size) session objects_sent)
  unfolding new_publisher received
  begun = record {
    inv = record {
      per_group = refl;
      room = omega arith;
      follows = tt;
      lone = λ _. refl;
      in_step = tt;
      climbs = inr (refl, omega arith);
      ends = tt;
      counts = omega arith;
    };
    group = omega arith;
    kind = refl;
    long = long;
    asked = λ e. absurd (cc e);
  }

  pub run_events-IsReached : Safe IsReached (
      run_events f m payload es
        (begin (new_publisher f config alias now max_size) session objects_sent))
  run_events-IsReached =
      Safe-map _ IsReached (run_events f m payload es _) (λ t k. k.1.inv)
        (run_events-Safe f m payload start
          (new_publisher f config alias now max_size).objects_per_group 0 0 0 fits some_object
          config.delivery 0 es _ (omega (arith, few)) begun)

  -- Over any events of a session, a new publisher never panics, and where no error ends the
  -- session, the objects that the receiver's rule reads off the wire go up from the first place of
  -- the first group to before the place of the next object, none has a number that reaches the
  -- size of a group, and they are as many as were counted (modulo 2 ^ 64). The size of a group fits
  -- a `u64`, the payload holds an object, and there are fewer than 2 ^ 63 events.
  pub run_events-IsDelivered : Safe (IsDelivered start) (
      run_events f m payload es
        (begin (new_publisher f config alias now max_size) session objects_sent))
  run_events-IsDelivered =
      Safe-map IsReached (IsDelivered start) (run_events f m payload es _)
        (λ t k. record { ordered = rw (k.per_group) (k.climbs); counted = omega (arith, k.counts) })
        run_events-IsReached
