-- ===== src/Moq/Counts.antt =====
-- The invariant of a publisher of zakuro-moq/src/moq_client/session.rs where an object takes a
-- number.
use mathlib.Core.Path.{subst}
use zakuro_rs.Base.{
  true, ℕ, ◌+◌, ◌%◌, ◌≤◌, ◌<◌, List, [], ◌∷◌, ◌++◌, Option, none, some, ◌≡◌, inl, inr, refl, arith,
  ◌==◌, length, length-append, ap, add64, u64_max, ==_iff,
}
use zakuro_rs.Moq.Types.{
  DeliveryMode, subgroup, datagram, Publisher, ObjectDatagram, Wire, object, single,
}
use zakuro_rs.Moq.Ops.{object_id_delta, is_end_of_group}
use zakuro_rs.Moq.Receive.{
  Reader, absolute, reader_after, received, reader_after-snoc, received-snoc, Climbs, Climbs-later,
  Climbs-snoc, reads, seen, EndsRight, All-snoc,
}
use zakuro_rs.Moq.Inv.{Inv, InStep, Follows}

-- A receiver gets back the number that the delta was made of.
absolute-object_id_delta :
    (prev : Option ℕ) (object_id : ℕ)
    → Follows prev object_id
    → absolute prev (object_id_delta prev object_id) ≡ object_id
unfolding object_id_delta
absolute-object_id_delta none object_id h = refl
absolute-object_id_delta (some prev) object_id h = omega arith

pub Follows-next : (prev : Option ℕ) (n : ℕ) → Follows prev n → Follows prev (n + 1)
Follows-next none n h = tt
Follows-next (some prev) n h = omega arith

InStep-reads :
    (r : Reader) (stream : Option ℕ) (id : ℕ) (mode : DeliveryMode) (group : ℕ) (prev : Option ℕ)
    → InStep r stream (some id) mode group prev
    → (mode ≡ subgroup) × (stream ≡ some id) × (r.stream ≡ id) × (r.group ≡ group) × (r.prev ≡ prev)
InStep-reads r none id mode group prev h = absurd h
InStep-reads r (some stream) id mode group prev h = (h.0, ap some h.1, h.2, h.3, h.4)

InStep-datagram :
    (r r' : Reader) (stream id : Option ℕ) (group group' : ℕ) (prev : Option ℕ)
    → InStep r stream id datagram group prev
    → InStep r' stream id datagram group' prev
InStep-datagram r r' none none group group' prev h = tt
InStep-datagram r r' (some s) (some id) group group' prev h = absurd (cc h.0)
InStep-datagram r r' none (some id) group group' prev h = h
InStep-datagram r r' (some s) none group group' prev h = h

InStep-intro :
    (r : Reader) (stream stream_id : Option ℕ) (id : ℕ) (mode : DeliveryMode) (group : ℕ)
    (prev : Option ℕ)
    → stream ≡ some id
    → stream_id ≡ some id
    → mode ≡ subgroup
    → r.stream ≡ id
    → r.group ≡ group
    → r.prev ≡ prev
    → InStep r stream stream_id mode group prev
InStep-intro r stream stream_id id mode group prev a b c d e k = rw (a, b) (c, refl, d, e, k)

-- What an object on the open stream looks like to the receiver.
object-seen :
    (r : Reader) (id group : ℕ) (prev : Option ℕ) (object_id : ℕ) (properties payload : List ℕ)
    → Follows prev object_id
    → r.stream ≡ id
    → r.group ≡ group
    → r.prev ≡ prev
    → let w = object id (object_id_delta prev object_id) properties payload in
      (seen r w ≡ (group, object_id) ∷ []) × (reads r w ≡ record r { prev = some object_id })
object-seen r id group prev object_id properties payload h d e k = (
  rw (← d, ← e, k, self, absolute-object_id_delta prev object_id h),
  rw (← d, k, self, absolute-object_id_delta prev object_id h),
)
  where
    self : (r.stream == r.stream) ≡ true
    self = (==_iff r.stream r.stream).1 refl

module _ {F : Type 0} (start : Reader) (size g o sent : ℕ) (fits : size ≤ u64_max) where
  pub Inv-skipped :
      (p : Publisher F) (ws : List Wire) (next : ℕ)
      → Inv start size g o sent p ws
      → p.object_id < size
      → Inv start size g o sent (record p { object_id = add64 p.object_id 1; next_send = next }) ws
  Inv-skipped p ws next h lt = rw plain record {
    per_group = h.per_group;
    room = omega arith;
    follows = Follows-next p.prev_object_id p.object_id h.follows;
    lone = h.lone;
    in_step = h.in_step;
    climbs =
        Climbs-later size g o (received start ws) p.group_id p.object_id p.group_id
          (p.object_id + 1) h.climbs (inr (refl, omega arith));
    ends = h.ends;
    counts = h.counts;
  }
    where
      plain : add64 p.object_id 1 ≡ p.object_id + 1
      plain = omega arith

  -- One more object was seen, at the place of the publisher.
  seen-Climbs :
      (p : Publisher F) (ws : List Wire) (w : Wire)
      → Inv start size g o sent p ws
      → p.object_id < size
      → seen (reader_after start ws) w ≡ (p.group_id, p.object_id) ∷ []
      → Climbs size g o (received start (ws ++ w ∷ [])) p.group_id (p.object_id + 1)
        × (add64 p.sent_objects 1
            ≡ (sent + length (received start (ws ++ w ∷ []))) % 18446744073709551616)
  seen-Climbs p ws w h lt e =
      rw (received-snoc start ws w, e)
        (
          Climbs-snoc size g o (received start ws) p.group_id p.object_id h.climbs lt,
          omega (
            arith,
            h.counts,
            length-append {0} (received start ws) ((p.group_id, p.object_id) ∷ []),
          ),
        )

  pub Inv-object :
      (p : Publisher F) (ws : List Wire) (id : ℕ) (properties payload : List ℕ) (next failures : ℕ)
      → Inv start size g o sent p ws
      → p.object_id < size
      → p.stream_id ≡ some id
      → Inv start size g o sent
          (record p {
            object_id = add64 p.object_id 1;
            sent_objects = add64 p.sent_objects 1;
            prev_object_id = some p.object_id;
            next_send = next;
            consecutive_write_failures = failures;
          })
          (ws ++ object id (object_id_delta p.prev_object_id p.object_id) properties payload ∷ [])
  Inv-object p ws id properties payload next failures h lt e = rw plain record {
    per_group = h.per_group;
    room = omega arith;
    follows = omega arith;
    lone = λ dg. absurd (cc (k.0, dg));
    in_step =
        rw (reader_after-snoc start ws w, looks.1)
          (InStep-intro (record (reader_after start ws) { prev = some p.object_id }) p.stream
            p.stream_id id p.config.delivery p.group_id (some p.object_id) k.1 e k.0 k.2 k.3 refl);
    climbs = more.0;
    ends = All-snoc (EndsRight size) ws w h.ends tt;
    counts = more.1;
  }
    where
      w : Wire
      w = object id (object_id_delta p.prev_object_id p.object_id) properties payload

      plain : add64 p.object_id 1 ≡ p.object_id + 1
      plain = omega arith

      k :
          (p.config.delivery ≡ subgroup)
          × (p.stream ≡ some id)
          × ((reader_after start ws).stream ≡ id)
          × ((reader_after start ws).group ≡ p.group_id)
          × ((reader_after start ws).prev ≡ p.prev_object_id)
      k =
          InStep-reads (reader_after start ws) p.stream id p.config.delivery p.group_id
            p.prev_object_id
            (subst
              (λ (sid : Option ℕ).
                InStep (reader_after start ws) p.stream sid p.config.delivery p.group_id
                  p.prev_object_id)
              e h.in_step)

      looks :
          (seen (reader_after start ws) w ≡ (p.group_id, p.object_id) ∷ [])
          × (reads (reader_after start ws) w
              ≡ record (reader_after start ws) { prev = some p.object_id })
      looks =
          object-seen (reader_after start ws) id p.group_id p.prev_object_id p.object_id properties
            payload h.follows k.2 k.3 k.4

      more :
          Climbs size g o (received start (ws ++ w ∷ [])) p.group_id (p.object_id + 1)
          × (add64 p.sent_objects 1
              ≡ (sent + length (received start (ws ++ w ∷ []))) % 18446744073709551616)
      more = seen-Climbs p ws w h lt looks.0

  pub Inv-datagram :
      (p : Publisher F) (ws : List Wire) (d : ObjectDatagram) (payload : List ℕ) (next : ℕ)
      → Inv start size g o sent p ws
      → p.object_id < size
      → p.config.delivery ≡ datagram
      → d.group_id ≡ p.group_id
      → d.object_id ≡ p.object_id
      → d.end_of_group ≡ is_end_of_group d.object_id size
      → Inv start size g o sent
          (record p {
            object_id = add64 p.object_id 1;
            sent_objects = add64 p.sent_objects 1;
            next_send = next;
          })
          (ws ++ single d payload ∷ [])
  Inv-datagram p ws d payload next h lt e dg do' bit = rw plain record {
    per_group = h.per_group;
    room = omega arith;
    follows = Follows-next p.prev_object_id p.object_id h.follows;
    lone = h.lone;
    in_step = rw (reader_after-snoc start ws (single d payload)) h.in_step;
    climbs = more.0;
    ends = All-snoc (EndsRight size) ws (single d payload) h.ends bit;
    counts = more.1;
  }
    where
      plain : add64 p.object_id 1 ≡ p.object_id + 1
      plain = omega arith

      more :
          Climbs size g o
            (received start (ws ++ single d payload ∷ []))
            p.group_id
            (p.object_id + 1)
          × (add64 p.sent_objects 1
              ≡ (sent + length (received start (ws ++ single d payload ∷ [])))
                % 18446744073709551616)
      more = seen-Climbs p ws (single d payload) h lt (rw (dg, do') refl)

  -- The roll of a publisher of datagrams.
  pub Inv-roll_datagram :
      (p : Publisher F) (ws : List Wire)
      → Inv start size g o sent p ws
      → p.config.delivery ≡ datagram
      → p.group_id < u64_max
      → Inv start size g o sent (record p { group_id = add64 p.group_id 1; object_id = 0 }) ws
  Inv-roll_datagram p ws h e lt = record {
    per_group = h.per_group;
    room = omega arith;
    follows = rw (h.lone e) tt;
    lone = h.lone;
    in_step = rw e (
        InStep-datagram (reader_after start ws) (reader_after start ws) p.stream p.stream_id
          p.group_id (add64 p.group_id 1) p.prev_object_id (rw e at h.in_step));
    climbs =
        Climbs-later size g o (received start ws) p.group_id p.object_id (add64 p.group_id 1) 0
          h.climbs (inl (omega arith));
    ends = h.ends;
    counts = h.counts;
  }
