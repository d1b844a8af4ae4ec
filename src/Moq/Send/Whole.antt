-- ===== src/Moq/Send/Whole.antt =====
-- Whole calls of the sending methods of zakuro-moq/src/moq_client/session.rs, and the events of a
-- session, keep the invariant of a publisher.
use mathlib.Core.Path.{subst}
use mathlib.Core.List.{append-nil}
use zakuro_rs.Base.{
  sym, ℕ, ◌+◌, ◌≤◌, ◌<◌, true, List, ◌++◌, Option, none, some, ◌≡◌, inl, inr, refl, arith, ltb, leb,
  length, u64_max, is_some, Bool-cases, Option-cases,
}
use zakuro_rs.Base.Result.{Result, ok, err}
use zakuro_rs.Channel.Bytes.{take}
use zakuro_rs.Stats.Float.{Float}
use zakuro_rs.Moq.Types.{
  DeliveryMode, subgroup, datagram, reset, Registered, registered, local_filter_mismatch, refused,
  Moqt, Io, Step, SendError,
}
use zakuro_rs.Moq.Ops.{payload_slice, advance_next_send, is_due}
use zakuro_rs.Moq.Run.{on_timer}
use zakuro_rs.Moq.Send
use zakuro_rs.Moq.Receive.{Reader}
use zakuro_rs.Moq.Inv.{Inv, Inv-closing, Inv-next_group}
use zakuro_rs.Moq.Counts.{Inv-datagram, Inv-roll_datagram}
use zakuro_rs.Moq.Send.Safe.{
  Safe, Safe-and_then, payload_slice_lem, Good, Good-closed, Good-later, Good-skipped,
  Good-send_object, Good-open, Placed, Streaming,
}

module _ (f : Float) (m : Moqt) (payload : List ℕ) (start : Reader) (size g o sent : ℕ)
    (fits : size ≤ u64_max) (some_object : 0 < size) where
  open f use {F}
  open m use {Session}

  abbrev IsGood : DeliveryMode → ℕ → Step F Session → Type 0
  IsGood mode bound s = Good f m payload start size g o sent fits some_object mode bound s

  module _ (bound : ℕ) (room : bound + 1 < u64_max) where
    roll_subgroup-Placed :
        (s : Step F Session)
        → IsGood subgroup bound s
        → Placed f m payload start size g o sent fits some_object
            (bound + 1)
            (Send.roll_subgroup f m s)
    roll_subgroup-Placed s h =
        elim (Bool-cases (leb s.publisher.objects_per_group s.publisher.object_id)) [
          | inl e ↦ rw e (
            Good-closed f m payload start size g o sent fits some_object subgroup bound s h
                (omega arith),
            some_object,
          )
          | inr e ↦ rw e (
            Good-later f m payload start size g o sent fits some_object subgroup bound s h,
            ground (arith, h.inv.per_group),
          )
        ]

    send_next_subgroup-Safe :
        (io : Io) (request_id : ℕ) (s : Step F Session)
        → IsGood subgroup bound s
        → Safe
            (IsGood subgroup (bound + 1 + 1))
            (Send.send_next_subgroup f m io payload request_id s)
    unfolding Send.send_next_subgroup Send.open_and_send
    send_next_subgroup-Safe io request_id s h =
        Safe-and_then (Streaming f m payload start size g o sent fits some_object (bound + 1))
          (IsGood subgroup (bound + 1 + 1))
          (Send.open_stream f m io request_id (Send.roll_subgroup f m s)
            (Send.roll_subgroup f m s).publisher.stream)
          (Send.open_and_send f m io payload)
          (Good-open f m payload start size g o sent fits some_object (bound + 1) request_id io
            (Send.roll_subgroup f m s) (Send.roll_subgroup f m s).publisher.stream
            (roll_subgroup-Placed s h) refl)
          (λ t k.
            Good-send_object f m payload start size g o sent fits some_object (bound + 1) io t
              t.publisher.stream_id (Send.properties_of f m t.publisher) room k.0 refl k.1)

    roll_datagram-Placed :
        (s : Step F Session)
        → IsGood datagram bound s
        → IsGood datagram (bound + 1) (Send.roll_datagram f m s)
          × ((Send.roll_datagram f m s).publisher.object_id < size)
    roll_datagram-Placed s h =
        elim (Bool-cases (leb s.publisher.objects_per_group s.publisher.object_id)) [
          | inl e ↦ rw e (
            record {
              inv =
                  Inv-roll_datagram start size g o sent fits s.publisher s.wire h.inv h.kind
                    (omega (arith, h.group));
              group = omega (arith, h.group);
              kind = h.kind;
              long = h.long;
              asked = h.asked;
            },
            some_object,
          )
          | inr e ↦ rw e (
            Good-later f m payload start size g o sent fits some_object datagram bound s h,
            ground (arith, h.inv.per_group),
          )
        ]

  module _ (bound : ℕ) (s : Step F Session) (h : IsGood datagram bound s)
      (lt : s.publisher.object_id < size) where
    register_datagram-Safe :
        (io : Io) (properties sent_payload : List ℕ) (a : Session × Registered)
        → Safe (IsGood datagram bound) (
            Send.register_datagram f m io
              (Send.datagram_of f m s.publisher properties)
              sent_payload
              s
              a)
    unfolding Send.register_datagram advance_next_send
    register_datagram-Safe io properties pl (session, local_filter_mismatch) =
        Good-skipped f m payload start size g o sent fits some_object datagram bound s h io session
          lt
    register_datagram-Safe io properties pl (session, refused) = tt
    register_datagram-Safe io properties pl (session, registered) =
        elim (Bool-cases io.datagram_sent) [
          | inr e ↦ rw e tt
          | inl e ↦ rw e record {
            inv =
                Inv-datagram start size g o sent fits s.publisher s.wire
                  (Send.datagram_of f m s.publisher properties) pl _ h.inv lt h.kind refl refl
                  (rw (h.inv.per_group) refl);
            group = h.group;
            kind = h.kind;
            long = h.long;
            asked = h.asked;
          }
        ]

    size_datagram-Safe :
        (io : Io) (request_id : ℕ) (properties header : List ℕ)
        → Safe (IsGood datagram bound) (
            Send.size_datagram f m io request_id
              (Send.datagram_of f m s.publisher properties)
              header
              s
              (payload_slice payload s.publisher.config.object_size))
    unfolding Send.size_datagram
    size_datagram-Safe io request_id properties header =
        rw (payload_slice_lem payload s.publisher.config.object_size h.long)
          (elim (Bool-cases (
            ltb s.publisher.datagram_max_size
              (length header + length (take s.publisher.config.object_size payload)))) [
                | inl e ↦ rw e tt
                | inr e ↦ rw e (
                    register_datagram-Safe io properties
                      (take s.publisher.config.object_size payload)
                      (m.send_object_datagram s.session request_id
                        (Send.datagram_of f m s.publisher properties)))
              ])

    frame_datagram-Safe :
        (io : Io) (request_id : ℕ) (properties : Option (List ℕ))
        → Safe (IsGood datagram bound) (Send.frame_datagram f m io request_id payload s properties)
    unfolding Send.frame_datagram
    frame_datagram-Safe io request_id none = tt
    frame_datagram-Safe io request_id (some properties) =
        elim (Option-cases (m.encode_datagram (Send.datagram_of f m s.publisher properties))) [
          | inl e ↦ rw (e, Send.frame_datagram) tt
          | inr (header, e) ↦
              rw (e, Send.frame_datagram) (size_datagram-Safe io request_id properties header)
        ]

  Safe-later :
      (mode : DeliveryMode) (bound : ℕ) (r : Result SendError (Step F Session))
      → Safe (IsGood mode bound) r
      → Safe (IsGood mode (bound + 1)) r
  Safe-later mode bound (ok s) h =
      Good-later f m payload start size g o sent fits some_object mode bound s h
  Safe-later mode bound (err e) h = h

  dispatch-Safe :
      (mode : DeliveryMode) (bound : ℕ) (io : Io) (s : Step F Session) (request_id : Option ℕ)
      → bound + 1 < u64_max
      → IsGood mode bound s
      → is_some request_id ≡ true
      → Safe (IsGood mode (bound + 1 + 1)) (Send.dispatch f m io payload s request_id mode)
  unfolding Send.dispatch Send.send_next_datagram
  dispatch-Safe mode bound io s none room h e = absurd (cc e)
  dispatch-Safe subgroup bound io s (some id) room h e =
      send_next_subgroup-Safe bound room io id s h
  dispatch-Safe datagram bound io s (some id) room h e =
      let rolled = Send.roll_datagram f m s in
      let k = roll_datagram-Placed bound room s h in
      Safe-later datagram (bound + 1) _ (
        frame_datagram-Safe (bound + 1) rolled k.0 k.1 io id
          (Send.properties_of f m rolled.publisher))

  send_next_object-Safe :
      (mode : DeliveryMode) (bound : ℕ) (io : Io) (s : Step F Session)
      → bound + 1 < u64_max
      → IsGood mode bound s
      → is_some s.publisher.request_id ≡ true
      → Safe (IsGood mode (bound + 1 + 1)) (Send.send_next_object f m io payload s)
  unfolding Send.send_next_object
  send_next_object-Safe mode bound io s room h e =
      subst
        (λ (md : DeliveryMode).
          Safe (IsGood mode (bound + 1 + 1))
            (Send.dispatch f m io payload s s.publisher.request_id md))
        (sym h.kind) (dispatch-Safe mode bound io s s.publisher.request_id room h e)

  pub reset_stream-Good :
      (mode : DeliveryMode) (bound id code : ℕ) (s : Step F Session)
      → bound < u64_max
      → IsGood mode bound s
      → IsGood mode (bound + 1) (Send.reset_stream f m id code s)
  unfolding Send.reset_stream
  reset_stream-Good mode bound id code s room h =
      elim (Bool-cases (Send.eq_some s.publisher.stream_id id)) [
        | inr e ↦ rw e (Good-later f m payload start size g o sent fits some_object mode bound s h)
        | inl e ↦ rw e record {
          inv =
              Inv-next_group start size g o sent fits s.publisher _ _ (noted s.publisher.stream)
                (omega (arith, h.group));
          group = omega (arith, h.group);
          kind = h.kind;
          long = h.long;
          asked = h.asked;
        }
      ]
    where
      noted :
          (stream : Option ℕ)
          → Inv start size g o sent s.publisher (s.wire ++ Send.reset_wire f m stream id code)
      noted none = rw append-nil (h.inv)
      noted (some stream) =
          Inv-closing start size g o sent fits s.publisher s.wire id (reset code) h.inv

  pub on_timer-Safe :
      (mode : DeliveryMode) (bound now : ℕ) (io : Io) (s : Step F Session)
      → bound + 1 < u64_max
      → IsGood mode bound s
      → Safe (IsGood mode (bound + 1 + 1)) (on_timer f m payload now io s)
  unfolding on_timer is_due
  on_timer-Safe mode bound now io s room h = elim (Bool-cases (is_due s.publisher now)) [
    | inl e ↦
        rw e
          (send_next_object-Safe mode bound io s room h (h.asked (unfold is_due in ground arith)))
    | inr e ↦ rw e (
        Good-later f m payload start size g o sent fits some_object mode (bound + 1) s
          (Good-later f m payload start size g o sent fits some_object mode bound s h))
  ]
