-- ===== src/Moq/LastOfGroup.antt =====
-- The bit of a datagram of zakuro-moq/src/moq_client/session.rs that ends its group.
use mathlib.Core.Path.{subst}
use mathlib.Core.List.{append_assoc}
use zakuro_rs.Moq.Inv.{Inv}
use zakuro_rs.Base.{
  ℕ, ◌+◌, ◌*◌, ◌≤◌, ◌<◌, true, List, [], ◌∷◌, ◌++◌, ◌≡◌, inl, inr, refl, arith, length, u64_max,
  false, ◌⊎◌, ◌∙◌, Bool-cases,
}
use zakuro_rs.Base.Result.{ok}
use zakuro_rs.Base.Sort.{All}
use zakuro_rs.Stats.Float.{Float, IsFloat}
use zakuro_rs.Moq.Types.{TrackConfig, Wire, single, ObjectDatagram, Moqt, Step}
use zakuro_rs.Moq.Ops.{new_publisher, is_end_of_group}
use zakuro_rs.Moq.Run.{Event, run_events}
use zakuro_rs.Moq.Receive.{Reader, reads, reader_after, received, Climbs, EndsRight}
use zakuro_rs.Moq.Ordered.{begin, run_events-IsReached}

received-append :
    (r : Reader) (xs ys : List Wire)
    → received r (xs ++ ys) ≡ received r xs ++ received (reader_after r xs) ys
unfolding received reader_after
received-append r [] ys = refl
received-append r (x ∷ xs) ys = rw (received-append (reads r x) xs ys, append_assoc)

-- The part of a climb after some of its places.
Climbs-drop :
    (size g o : ℕ) (xs ys : List (ℕ × ℕ)) (a b : ℕ)
    → Climbs size g o (xs ++ ys) a b
    → (c : ℕ) × (d : ℕ) × Climbs size c d ys a b
Climbs-drop size g o [] ys a b h = (g, o, h)
Climbs-drop size g o ((c, d) ∷ xs) ys a b h = Climbs-drop size c (d + 1) xs ys a b h.2

All-drop {ℓ} :
    {A : Type 0} (P : A → Type ℓ) (xs : List A) (y : A) (ys : List A) → All P (xs ++ y ∷ ys) → P y
All-drop P [] y ys h = h.0
All-drop P (x ∷ xs) y ys h = All-drop P xs y ys h.1

-- Places of later groups.
abbrev pub AreLater : ℕ → List (ℕ × ℕ) → Type 0
AreLater group places = All (λ (place : ℕ × ℕ). group < place.0) places

Climbs-AreLater :
    (size g c d : ℕ) (xs : List (ℕ × ℕ)) (a b : ℕ) → g < c → Climbs size c d xs a b → AreLater g xs
Climbs-AreLater size g c d [] a b lt h = tt
Climbs-AreLater size g c d ((u, v) ∷ xs) a b lt h =
    let l : g < u = ground (arith, h.0) in (l, Climbs-AreLater size g u (v + 1) xs a b l h.2)

Climbs-full : (size g : ℕ) (xs : List (ℕ × ℕ)) (a b : ℕ) → Climbs size g size xs a b → AreLater g xs
Climbs-full size g [] a b h = tt
Climbs-full size g ((u, v) ∷ xs) a b h =
    let l : g < u = ground (arith, h.0, h.1) in (l, Climbs-AreLater size g u (v + 1) xs a b l h.2)

-- The object of a datagram with the bit has the last number.
is_end_of_group_lem :
    (object_id size : ℕ)
    → object_id < size
    → size ≤ u64_max
    → is_end_of_group object_id size ≡ true
    → object_id + 1 ≡ size
unfolding is_end_of_group
is_end_of_group_lem object_id size lt fits e = ground arith

not_end_of_group_lem :
    (object_id size : ℕ)
    → object_id < size
    → size ≤ u64_max
    → is_end_of_group object_id size ≡ false
    → object_id + 1 < size
unfolding is_end_of_group
not_end_of_group_lem object_id size lt fits e = ground arith

-- What the bit of a datagram says of the places that come after it.
abbrev pub IsLast : ℕ → ObjectDatagram → List (ℕ × ℕ) → Type 0
IsLast size d places =
    ((d.end_of_group ≡ true) × AreLater d.group_id places)
    ⊎ ((d.end_of_group ≡ false) × (d.object_id + 1 < size))

module _ (f : Float) (m : Moqt) (payload : List ℕ) (start : Reader) (config : TrackConfig (f.F))
    (alias now max_size : ℕ) (session : m.Session) (objects_sent : ℕ)
    (es : List (Event (m.Session))) (is_float : IsFloat f)
    (fits : (new_publisher f config alias now max_size).objects_per_group ≤ u64_max)
    (long : config.object_size ≤ length payload) (few : 2 * length es < u64_max)
    (t : Step (f.F) (m.Session))
    (runs : run_events f m payload es
        (begin (new_publisher f config alias now max_size) session objects_sent)
      ≡ ok t)
    (before after : List Wire) (d : ObjectDatagram) (bytes : List ℕ)
    (wire : t.wire ≡ before ++ single d bytes ∷ after) where
  reached :
      Inv start
        (new_publisher f config alias now max_size).objects_per_group
        0
        0
        0
        t.publisher
        t.wire
  reached = rw runs at (
      run_events-IsReached f m payload start config alias now max_size session objects_sent es
        is_float fits long few)

  -- The datagram and what follows it, in the climb.
  from_datagram :
      (c : ℕ) × (o : ℕ) × Climbs
        (new_publisher f config alias now max_size).objects_per_group
        c
        o
        ((d.group_id, d.object_id) ∷ received (reader_after start before) after)
        t.publisher.group_id
        t.publisher.object_id
  from_datagram =
      Climbs-drop (new_publisher f config alias now max_size).objects_per_group 0 0
        (received start before) _ t.publisher.group_id t.publisher.object_id
        (rw split at (reached.climbs))
    where
      split :
          received start t.wire
          ≡ received start before
            ++ (d.group_id, d.object_id) ∷ received (reader_after start before) after
      split = rw wire (unfold received in received-append start before (single d bytes ∷ after))

  -- In any session that a new publisher goes through without an error, each datagram either has the
  -- bit END_OF_GROUP, and every object that the receiver reads after it belongs to a later group,
  -- or it does not have the bit, and its object is not the last of its group. The size of a group
  -- fits a `u64`, the payload holds an object, and there are fewer than 2 ^ 63 events.
  pub run_events-IsLast :
      IsLast
        (new_publisher f config alias now max_size).objects_per_group
        d
        (received (reader_after start before) after)
  run_events-IsLast = elim (Bool-cases (is_end_of_group d.object_id size)) [
    | inl e ↦ inl (
      bit ∙ e,
      Climbs-full size d.group_id (received (reader_after start before) after) t.publisher.group_id
          t.publisher.object_id
          (subst
            (λ (n : ℕ).
              Climbs size d.group_id n (received (reader_after start before) after)
                t.publisher.group_id t.publisher.object_id)
            (is_end_of_group_lem d.object_id size from_datagram.2.1 fits e) from_datagram.2.2),
    )
    | inr e ↦ inr (bit ∙ e, not_end_of_group_lem d.object_id size from_datagram.2.1 fits e)
  ]
    where
      size : ℕ
      size = (new_publisher f config alias now max_size).objects_per_group

      bit : d.end_of_group ≡ is_end_of_group d.object_id size
      bit = All-drop (EndsRight size) before (single d bytes) after (rw wire at (reached.ends))
