-- ===== src/WtH2/Moves.antt =====
-- How each event and command moves the counters of the session.
use zakuro_rs.Base.{
  ℕ, ◌≤◌, Bool, true, false, ◌≡◌, refl, arith, u64_max, ◌∙◌, Option-cases, inl, inr, ltb,
  if◌then◌else◌, sat_add64,
}
use zakuro_rs.Base.Map.{lookup, insert, remove, nat_eq}
use zakuro_rs.WtH2.Types.{Wt, receive_window_increment, contains}
use zakuro_rs.WtH2.Ops.{
  Driver, grow_session_recv_window, grow_stream, credit_peer_stream_if_closed,
  mark_peer_recv_closed, mark_peer_send_closed, stream_opened, stream_data, stream_reset, consumed,
  stop_read, add_received, add_consumed, count_consumed, discard, deliver, give_back, stopped,
  stream_data_stopped,
}

module _ (w : Wt) where
  -- The counters of the session are the same.
  pub record IsSame (d d' : Driver w) : Type 0 where
    pub received : d'.session_received ≡ d.session_received
    pub consumed_is : d'.session_consumed ≡ d.session_consumed
    pub grown : d'.session_grown ≡ d.session_grown

  -- No more was advertised than consumed.
  pub record IsBounded (d : Driver w) : Type 0 where
    pub advertised : d.session_grown ≤ d.session_consumed
    pub fits : d.session_consumed ≤ u64_max

  -- Nothing is received, and neither counter falls.
  pub record IsMoved (d d' : Driver w) : Type 0 where
    pub received : d'.session_received ≡ d.session_received
    pub more : d.session_grown ≤ d'.session_grown
    pub bounded : IsBounded d'

  credit-IsSame : (d : Driver w) (id : ℕ) → IsSame d (credit_peer_stream_if_closed w d id)
  unfolding credit_peer_stream_if_closed
  credit-IsSame d id = record {
    received = ground arith;
    consumed_is = ground arith;
    grown = ground arith;
  }

  recv_closed-IsSame : (d : Driver w) (id : ℕ) → IsSame d (mark_peer_recv_closed w d id)
  unfolding mark_peer_recv_closed credit_peer_stream_if_closed
  recv_closed-IsSame d id = record {
    received = ground arith;
    consumed_is = ground arith;
    grown = ground arith;
  }

  pub send_closed-IsSame : (d : Driver w) (id : ℕ) → IsSame d (mark_peer_send_closed w d id)
  unfolding mark_peer_send_closed credit_peer_stream_if_closed
  send_closed-IsSame d id = record {
    received = ground arith;
    consumed_is = ground arith;
    grown = ground arith;
  }

  pub opened-IsSame : (d : Driver w) (id : ℕ) (b : Bool) → IsSame d (stream_opened w d id b)
  unfolding stream_opened
  opened-IsSame d id b = record { received = refl; consumed_is = refl; grown = refl }

  pub reset-IsSame : (d : Driver w) (id : ℕ) → IsSame d (stream_reset w d id)
  unfolding stream_reset mark_peer_recv_closed credit_peer_stream_if_closed
  reset-IsSame d id = record {
    received = ground arith;
    consumed_is = ground arith;
    grown = ground arith;
  }

  pub grow_stream-IsSame : (d : Driver w) (id : ℕ) → IsSame d (grow_stream w d id)
  unfolding grow_stream
  grow_stream-IsSame d id = record {
    received = ground arith;
    consumed_is = ground arith;
    grown = ground arith;
  }

  grow_session-IsMoved : (d : Driver w) → IsBounded d → IsMoved d (grow_session_recv_window w d)
  unfolding grow_session_recv_window receive_window_increment
  grow_session-IsMoved d b = record {
    received = ground arith;
    more = ground (arith, b.advertised, b.fits);
    bounded = record {
      advertised = ground (arith, b.advertised, b.fits);
      fits = ground (arith, b.advertised, b.fits);
    };
  }

  pub same-IsMoved : (d d' : Driver w) → IsBounded d → IsSame d d' → IsMoved d d'
  same-IsMoved d d' b s = record {
    received = s.received;
    more = omega (arith, s.grown);
    bounded = record {
      advertised = omega (arith, s.grown, s.consumed_is, b.advertised);
      fits = omega (arith, s.consumed_is, b.fits);
    };
  }

  IsMoved-trans : (d e f : Driver w) → IsMoved d e → IsMoved e f → IsMoved d f
  IsMoved-trans d e f m n = record {
    received = n.received ∙ m.received;
    more = omega (arith, m.more, n.more);
    bounded = n.bounded;
  }

  IsMoved-then : (d e f : Driver w) → IsMoved d e → IsSame e f → IsMoved d f
  IsMoved-then d e f m s = IsMoved-trans d e f m (same-IsMoved e f m.bounded s)

  add_consumed-IsMoved : (d : Driver w) (n : ℕ) → IsBounded d → IsMoved d (add_consumed w d n)
  add_consumed-IsMoved d n b = record {
    received = refl;
    more = omega arith;
    bounded = record { advertised = omega (arith, b.advertised, b.fits); fits = omega arith };
  }

  -- Bytes that are consumed without a reader.
  returned-IsMoved :
      (d : Driver w) (n : ℕ)
      → IsBounded d
      → IsMoved d (grow_session_recv_window w (add_consumed w d n))
  returned-IsMoved d n b =
      let m = add_consumed-IsMoved d n b in
      IsMoved-trans d (add_consumed w d n) _ m (grow_session-IsMoved (add_consumed w d n) m.bounded)

  discard-IsMoved : (d : Driver w) (id n : ℕ) → IsBounded d → IsMoved d (discard w d id n)
  discard-IsMoved d id n b =
      let m = add_consumed-IsMoved d n b in
      let e : Driver w = record (add_consumed w d n) { recv_streams = remove id d.recv_streams } in
      let k : IsMoved d e = record {
        received = m.received;
        more = m.more;
        bounded = record { advertised = m.bounded.advertised; fits = m.bounded.fits };
      } in
      IsMoved-trans d e _ k (grow_session-IsMoved e k.bounded)

  if-IsMoved :
      (c : Bool) (d e f : Driver w) → IsMoved d e → IsMoved d f → IsMoved d (if c then e else f)
  if-IsMoved true d e f m n = m
  if-IsMoved false d e f m n = n

  deliver-IsMoved :
      (d : Driver w) (id n : ℕ) (reader : Bool) → IsBounded d → IsMoved d (deliver w d id n reader)
  deliver-IsMoved d id n reader b = elim (Option-cases (lookup id d.recv_streams)) [
    | inl e ↦ rw (e, deliver) (discard-IsMoved d id n b)
    | inr (state, e) ↦
        let f : Driver w = record d {
          recv_streams =
              insert id (record state { received = sat_add64 state.received n }) d.recv_streams;
        } in
        let s : IsSame d f = record { received = refl; consumed_is = refl; grown = refl } in
        let m = same-IsMoved d f b s in
        rw (e, deliver)
          (if-IsMoved reader d f _ m (IsMoved-trans d f _ m (discard-IsMoved f id n m.bounded)))
  ]

  pub consumed-IsMoved : (d : Driver w) (id n : ℕ) → IsBounded d → IsMoved d (consumed w d id n)
  unfolding consumed
  consumed-IsMoved d id n b =
      let m = add_consumed-IsMoved d n b in
      let e : Driver w = count_consumed w (add_consumed w d n) id n in
      let s : IsSame (add_consumed w d n) e = record {
        received = ground arith;
        consumed_is = ground arith;
        grown = ground arith;
      } in
      let k = IsMoved-then d (add_consumed w d n) e m s in
      let g = IsMoved-trans d e _ k (grow_session-IsMoved e k.bounded) in
      IsMoved-then d (grow_session_recv_window w e) _ g
        (grow_stream-IsSame (grow_session_recv_window w e) id)

  stopped-IsSame : (d : Driver w) (id : ℕ) (r : w.Session × Bool) → IsSame d (stopped w d id r)
  stopped-IsSame d id (wt, true) = record { received = refl; consumed_is = refl; grown = refl }
  stopped-IsSame d id (wt, false) = record { received = refl; consumed_is = refl; grown = refl }

  pub stop_read-IsMoved : (d : Driver w) (id n : ℕ) → IsBounded d → IsMoved d (stop_read w d id n)
  unfolding stop_read
  stop_read-IsMoved d id n b =
      let f : Driver w = record d { recv_streams = remove id d.recv_streams } in
      let m = same-IsMoved d f b (record { received = refl; consumed_is = refl; grown = refl }) in
      let back : Driver w = give_back w d id n in
      let k : IsMoved d back =
        if-IsMoved (ltb 0 n) d _ f (IsMoved-trans d f _ m (returned-IsMoved f n m.bounded)) m in
      let g : Driver w = stopped w back id (w.stop_sending back.wt id 0) in
      let s : IsSame back g = stopped-IsSame back id (w.stop_sending back.wt id 0) in
      IsMoved-then d g _ (IsMoved-then d back g k s) (recv_closed-IsSame g id)

  stopped_data-IsMoved :
      (d : Driver w) (id n : ℕ) (fin : Bool)
      → IsBounded d
      → IsMoved (add_received w d n) (stream_data_stopped w d id n fin)
  stopped_data-IsMoved d id n fin b =
      let d' : Driver w = add_received w d n in
      let m = returned-IsMoved d' n (record { advertised = b.advertised; fits = b.fits }) in
      if-IsMoved fin d' _ _
        (record {
          received = m.received;
          more = m.more;
          bounded = record { advertised = m.bounded.advertised; fits = m.bounded.fits };
        })
        m

  pub stream_data-IsMoved :
      (d : Driver w) (id n : ℕ) (fin reader : Bool)
      → IsBounded d
      → IsMoved (add_received w d n) (stream_data w d id n fin reader)
  unfolding stream_data
  stream_data-IsMoved d id n fin reader b =
      let d' : Driver w = add_received w d n in
      let k =
        deliver-IsMoved d' id n reader (record { advertised = b.advertised; fits = b.fits }) in
      let f : Driver w = deliver w d' id n reader in
      if-IsMoved (contains id d.stop_sent) d' _ _ (stopped_data-IsMoved d id n fin b)
        (if-IsMoved fin d' _ f (IsMoved-then d' f _ k (recv_closed-IsSame f id)) k)
