-- ===== src/Moq/Send/Safe.antt =====
-- The sending methods of `Publisher` of zakuro-moq/src/moq_client/session.rs keep the invariant.
use zakuro_rs.Base.{
  ℕ, ◌+◌, ◌≤◌, ◌<◌, Bool, true, false, List, [], ◌∷◌, ◌++◌, Option, none, some, ◌≡◌, ◌≢◌, ◌∙◌, inl,
  inr, refl, arith, leb, length, add32, u64_max, is_some, Bool-cases, Option-cases,
}
use zakuro_rs.Base.Result.{Result, ok, err, and_then}
use zakuro_rs.Channel.Bytes.{take}
use zakuro_rs.Stats.Float.{Float}
use zakuro_rs.Moq.Types.{
  DeliveryMode, subgroup, closing, fin, Registered, registered, local_filter_mismatch, refused,
  Moqt, Written, done, broken, Io, Step, SendError, panic,
}
use zakuro_rs.Moq.Ops.{
  max_consecutive_write_failures, payload_slice, next_group, advance_next_send, object_id_delta,
}
use zakuro_rs.Moq.Send
use zakuro_rs.Moq.Receive.{Reader}
use zakuro_rs.Moq.Inv.{Inv, InStep, Inv-closing, Inv-next_group, Inv-opening}
use zakuro_rs.Moq.Counts.{Inv-skipped, Inv-object}

-- Anything but a panic.
abbrev pub NotPanic : SendError → Type 0
NotPanic panic = ⊥
NotPanic _ = Unit {0}

abbrev pub Safe : {A : Type 0} → (A → Type 0) → Result SendError A → Type 0
Safe P (ok a) = P a
Safe P (err e) = NotPanic e

pub Safe-and_then :
    {A B : Type 0} (P : A → Type 0) (Q : B → Type 0) (r : Result SendError A)
    (k : A → Result SendError B)
    → Safe P r
    → ((a : A) → P a → Safe Q (k a))
    → Safe Q (and_then r k)
unfolding and_then
Safe-and_then P Q (ok a) k h g = g a h
Safe-and_then P Q (err e) k h g = h

InStep-both :
    (r : Reader) (stream id : Option ℕ) (mode : DeliveryMode) (group : ℕ) (prev : Option ℕ) {h : ℕ}
    → stream ≡ some h
    → id ≡ none
    → InStep r stream id mode group prev
    → ⊥
InStep-both r none none mode group prev e n k = absurd (cc e)
InStep-both r (some a) (some b) mode group prev e n k = absurd (cc n)
InStep-both r none (some b) mode group prev e n k = k
InStep-both r (some a) none mode group prev e n k = k

-- The slice of a payload that is long enough.
pub payload_slice_lem :
    (payload : List ℕ) (n : ℕ)
    → n ≤ length payload
    → payload_slice payload n ≡ some (take n payload)
payload_slice_lem payload n h = ground arith

module _ (f : Float) (m : Moqt) (payload : List ℕ) (start : Reader) (size g o sent : ℕ)
    (fits : size ≤ u64_max) (some_object : 0 < size) where
  open f use {F}
  open m use {Session}

  -- The invariant, in a group up to `bound`.
  pub record Good (mode : DeliveryMode) (bound : ℕ) (s : Step F Session) : Type 0 where
    pub inv : Inv start size g o sent s.publisher s.wire
    pub group : s.publisher.group_id ≤ bound
    pub kind : s.publisher.config.delivery ≡ mode
    pub long : s.publisher.config.object_size ≤ length payload
    pub asked : s.publisher.accepted ≡ true → is_some s.publisher.request_id ≡ true

  module _ (mode : DeliveryMode) (bound : ℕ) (s : Step F Session) (h : Good mode bound s) where
    pub Good-skipped :
        (io : Io) (session : Session)
        → s.publisher.object_id < size
        → Good mode bound (Send.skipped f m io.now session s)
    unfolding advance_next_send
    Good-skipped io session lt = record {
      inv = Inv-skipped start size g o sent fits s.publisher s.wire _ h.inv lt;
      group = h.group;
      kind = h.kind;
      long = h.long;
      asked = h.asked;
    }

    Good-failure :
        (id : ℕ) (code : Option ℕ)
        → bound < u64_max
        → Safe (Good mode (bound + 1)) (Send.on_stream_write_failure f m id code s)
    unfolding Send.on_stream_write_failure
    Good-failure id code room =
        elim (Bool-cases
          (leb max_consecutive_write_failures (add32 s.publisher.consecutive_write_failures 1))) [
            | inl e ↦ rw e tt
            | inr e ↦ rw e record {
              inv =
                  Inv-next_group start size g o sent fits s.publisher s.wire _ h.inv
                    (omega (arith, h.group));
              group = omega (arith, h.group);
              kind = h.kind;
              long = h.long;
              asked = h.asked;
            }
          ]

    pub Good-closed :
        bound < u64_max
        → Good mode (bound + 1) (
            let closed = Send.close_stream f m s in
            record closed { publisher = next_group closed.publisher })
    unfolding Send.close_stream
    Good-closed room =
        elim (Option-cases (Send.closes f m s.publisher.stream s.publisher.stream_id)) [
          | inl e ↦
              rw (e, Send.close_stream)
                record {
                  inv =
                      Inv-next_group start size g o sent fits s.publisher s.wire _ h.inv
                        (omega (arith, h.group));
                  group = omega (arith, h.group);
                  kind = h.kind;
                  long = h.long;
                  asked = h.asked;
                }
          | inr (id, e) ↦
              rw (e, Send.close_stream)
                record {
                  inv =
                      Inv-next_group start size g o sent fits s.publisher
                        (s.wire ++ closing id fin ∷ []) _
                        (Inv-closing start size g o sent fits s.publisher s.wire id fin h.inv)
                        (omega (arith, h.group));
                  group = omega (arith, h.group);
                  kind = h.kind;
                  long = h.long;
                  asked = h.asked;
                }
        ]

    pub Good-later : Good mode (bound + 1) s
    Good-later = record {
      inv = h.inv;
      group = omega (arith, h.group);
      kind = h.kind;
      long = h.long;
      asked = h.asked;
    }

    module _ (room : bound < u64_max) (lt : s.publisher.object_id < size) where
      Good-write :
          (io : Io) (id : ℕ) (properties sent_payload : List ℕ) (w : Written)
          → s.publisher.stream_id ≡ some id
          → Safe (Good mode (bound + 1)) (Send.write_object f m io id properties sent_payload s w)
      unfolding Send.write_object advance_next_send
      Good-write io id properties pl (broken code) e = Good-failure id code room
      Good-write io id properties pl done e = record {
        inv =
            Inv-object start size g o sent fits s.publisher s.wire id properties pl _ 0 h.inv lt e;
        group = omega (arith, h.group);
        kind = h.kind;
        long = h.long;
        asked = h.asked;
      }

      Good-encode :
          (io : Io) (id : ℕ) (properties : List ℕ)
          → s.publisher.stream_id ≡ some id
          → Safe (Good mode (bound + 1)) (
              Send.encode_object f m io id properties s
                (payload_slice payload s.publisher.config.object_size))
      unfolding Send.encode_object
      Good-encode io id properties e =
          rw (payload_slice_lem payload s.publisher.config.object_size h.long)
            (elim (Bool-cases (
              m.can_encode_object (object_id_delta s.publisher.prev_object_id s.publisher.object_id)
                (length (take s.publisher.config.object_size payload)) properties)) [
                  | inl c ↦ rw c (
                      Good-write io id properties (take s.publisher.config.object_size payload)
                        io.object_written e)
                  | inr c ↦ rw c tt
                ])

    pub Good-elsewhere :
        (session : Session) (objects_sent : ℕ)
        → Good mode bound (record s { session = session; objects_sent = objects_sent })
    Good-elsewhere session objects_sent = record {
      inv = h.inv;
      group = h.group;
      kind = h.kind;
      long = h.long;
      asked = h.asked;
    }

    Good-opened :
        (id : ℕ) (session : Session)
        → mode ≡ subgroup
        → Good mode bound (Send.opened_step f m s id session)
    Good-opened id session e = record {
      inv =
          Inv-opening start size g o sent fits s.publisher s.wire id
            (Send.header_of f m s.publisher) h.inv (h.kind ∙ e) refl;
      group = h.group;
      kind = h.kind;
      long = h.long;
      asked = h.asked;
    }

  -- An object can be sent, on a stream of subgroups.
  abbrev pub Placed : ℕ → Step F Session → Type 0
  Placed bound s = Good subgroup bound s × (s.publisher.object_id < size)

  Good-register :
      (bound : ℕ) (io : Io) (id : ℕ) (properties : List ℕ) (s : Step F Session)
      (a : Session × Registered)
      → bound < u64_max
      → Placed bound s
      → s.publisher.stream_id ≡ some id
      → Safe (Good subgroup (bound + 1)) (Send.register_object f m io payload id properties s a)
  unfolding Send.register_object
  Good-register bound io id properties s (session, local_filter_mismatch) room h e =
      Good-later subgroup bound _ (Good-skipped subgroup bound s h.0 io session h.1)
  Good-register bound io id properties s (session, refused) room h e = tt
  Good-register bound io id properties s (session, registered) room h e =
      Good-encode subgroup bound (record s { session = session })
        (Good-elsewhere subgroup bound s h.0 session s.objects_sent) room h.1 io id properties e

  pub Good-send_object :
      (bound : ℕ) (io : Io) (s : Step F Session) (id : Option ℕ) (properties : Option (List ℕ))
      → bound < u64_max
      → Placed bound s
      → s.publisher.stream_id ≡ id
      → id ≢ none
      → Safe (Good subgroup (bound + 1)) (Send.send_object f m io payload s id properties)
  unfolding Send.send_object
  Good-send_object bound io s none properties room h e n = absurd (n refl)
  Good-send_object bound io s (some id) none room h e n = tt
  Good-send_object bound io s (some id) (some properties) room h e n =
      Good-register bound io id properties s
        (m.send_subgroup_object s.session id s.publisher.object_id properties) room h e

  -- With a stream.
  abbrev pub Streaming : ℕ → Step F Session → Type 0
  Streaming bound s = Placed bound s × (s.publisher.stream_id ≢ none)

  pub Good-open :
      (bound request_id : ℕ) (io : Io) (s : Step F Session) (stream : Option ℕ)
      → Placed bound s
      → s.publisher.stream ≡ stream
      → Safe (Streaming bound) (Send.open_stream f m io request_id s stream)
  unfolding Send.open_stream Send.open_new Send.header_step
  Good-open bound request_id io s (some id) h e = ((h.0, h.1), streaming)
    where
      streaming : s.publisher.stream_id ≢ none
      streaming n = absurd (InStep-both _ _ _ _ _ _ e n (h.0).inv.in_step)
  Good-open bound request_id io s none h e = elim (Option-cases io.opened) [
    | inl k ↦ rw k tt
    | inr (id, k) ↦
        rw k (
          after (m.send_subgroup_header s.session id request_id (Send.header_of f m s.publisher))
            id)
  ]
    where
      after :
          (a : Session × Bool) (id : ℕ) → Safe (Streaming bound) (Send.header_step f m io s id a)
      after (session, false) id = tt
      after (session, true) id = elim (Bool-cases io.header_written) [
        | inl k ↦ rw k ((Good-opened subgroup bound s h.0 id session refl, h.1), λ n. absurd (cc n))
        | inr k ↦ rw k tt
      ]
