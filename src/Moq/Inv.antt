-- ===== src/Moq/Inv.antt =====
-- The invariant of a publisher of zakuro-moq/src/moq_client/session.rs and of what it has put on
-- the wire, through each elementary change.
use zakuro_rs.Base.{
  ℕ, ◌+◌, ◌%◌, ◌≤◌, ◌<◌, List, [], ◌∷◌, ◌++◌, Option, none, some, ◌≡◌, inl, refl, arith, length,
  u64_max,
}
use mathlib.Core.List.{append-nil}
use zakuro_rs.Base.Sort.{All}
use zakuro_rs.Moq.Types.{
  DeliveryMode, subgroup, datagram, Publisher, SubgroupHeader, StreamEnd, Wire, opening, closing,
}
use zakuro_rs.Moq.Ops.{next_group}
use zakuro_rs.Moq.Receive.{
  Reader, reader_after, received, reader_after-snoc, received-snoc, Climbs, Climbs-later, EndsRight,
  All-snoc,
}

abbrev pub Follows : Option ℕ → ℕ → Type 0
Follows none object_id = Unit {0}
Follows (some prev) object_id = prev < object_id

-- The receiver reads the open stream where the publisher writes it.
abbrev pub InStep : Reader → Option ℕ → Option ℕ → DeliveryMode → ℕ → Option ℕ → Type 0
InStep r none none mode group prev = Unit {0}
InStep r (some h) (some id) mode group prev =
    (mode ≡ subgroup) × (h ≡ id) × (r.stream ≡ id) × (r.group ≡ group) × (r.prev ≡ prev)
InStep r _ _ mode group prev = ⊥

module _ {F : Type 0} where
  abbrev pub IsInStep : Reader → Publisher F → Type 0
  IsInStep r p = InStep r p.stream p.stream_id p.config.delivery p.group_id p.prev_object_id

  pub record Inv (start : Reader) (size g o sent : ℕ) (p : Publisher F) (ws : List Wire)
      : Type 0 where
    pub per_group : p.objects_per_group ≡ size
    pub room : p.object_id ≤ size
    pub follows : Follows p.prev_object_id p.object_id
    pub lone : p.config.delivery ≡ datagram → p.prev_object_id ≡ none
    pub in_step : IsInStep (reader_after start ws) p
    pub climbs : Climbs size g o (received start ws) p.group_id p.object_id
    pub ends : All (EndsRight size) ws
    pub counts : p.sent_objects ≡ (sent + length (received start ws)) % 18446744073709551616

module _ {F : Type 0} (start : Reader) (size g o sent : ℕ) (fits : size ≤ u64_max) where
  pub Inv-closing :
      (p : Publisher F) (ws : List Wire) (id : ℕ) (e : StreamEnd)
      → Inv start size g o sent p ws
      → Inv start size g o sent p (ws ++ closing id e ∷ [])
  Inv-closing p ws id e h = record {
    per_group = h.per_group;
    room = h.room;
    follows = h.follows;
    lone = h.lone;
    in_step = rw (reader_after-snoc start ws (closing id e)) (h.in_step);
    climbs = rw (received-snoc start ws (closing id e), append-nil) (h.climbs);
    ends = All-snoc (EndsRight size) ws (closing id e) h.ends tt;
    counts = rw (received-snoc start ws (closing id e), append-nil) (h.counts);
  }

  pub Inv-drop_stream :
      (p : Publisher F) (ws : List Wire)
      → Inv start size g o sent p ws
      → Inv start size g o sent (record p { stream = none; stream_id = none }) ws
  Inv-drop_stream p ws h = record {
    per_group = h.per_group;
    room = h.room;
    follows = h.follows;
    lone = h.lone;
    in_step = tt;
    climbs = h.climbs;
    ends = h.ends;
    counts = h.counts;
  }

  pub Inv-next_group :
      (p : Publisher F) (ws : List Wire) (failures : ℕ)
      → Inv start size g o sent p ws
      → p.group_id < u64_max
      → Inv start size g o sent
          (record (next_group (record p { stream = none; stream_id = none })) {
            consecutive_write_failures = failures;
          })
          ws
  Inv-next_group p ws failures h lt = record {
    per_group = h.per_group;
    room = omega arith;
    follows = tt;
    lone = λ _. refl;
    in_step = tt;
    climbs =
        Climbs-later size g o (received start ws) p.group_id p.object_id _ 0 h.climbs
          (inl (omega arith));
    ends = h.ends;
    counts = h.counts;
  }

  pub Inv-opening :
      (p : Publisher F) (ws : List Wire) (id : ℕ) (header : SubgroupHeader)
      → Inv start size g o sent p ws
      → p.config.delivery ≡ subgroup
      → header.group_id ≡ p.group_id
      → Inv start size g o sent
          (record p { stream = some id; stream_id = some id; prev_object_id = none })
          (ws ++ opening id header ∷ [])
  Inv-opening p ws id header h mode e = record {
    per_group = h.per_group;
    room = h.room;
    follows = tt;
    lone = λ _. refl;
    in_step = rw (reader_after-snoc start ws (opening id header)) (mode, refl, refl, e, refl);
    climbs = rw (received-snoc start ws (opening id header), append-nil) (h.climbs);
    ends = All-snoc (EndsRight size) ws (opening id header) h.ends tt;
    counts = rw (received-snoc start ws (opening id header), append-nil) (h.counts);
  }
