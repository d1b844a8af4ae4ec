-- ===== src/WtH2/Credit.antt =====
-- Credit that goes back to the peer: receive windows that reopen, and streams that closed.
use zakuro_rs.Base.{
  ℕ, ◌+◌, ◌-◌, ◌/◌, ◌≤◌, true, false, ◌&&◌, none, some, ◌≡◌, ◌≢◌, refl, arith, u64_max, ◌∙◌, ap,
  Bool-cases, inl, inr, List,
}
use zakuro_rs.Base.Map.{lookup, insert, nat_eq, lookup-insert, lookup-remove}
use zakuro_rs.WtH2.Types.{Wt, PeerStream, receive_window_increment}
use zakuro_rs.WtH2.Ops.{
  Driver, grow_session_recv_window, consumed, count_consumed, add_consumed, closed_stream,
  credit_peer_stream_if_closed, mark_peer_recv_closed, mark_peer_send_closed,
}
use zakuro_rs.WtH2.Moves.{grow_stream-IsSame}

module _ (w : Wt) where
  session_reopens :
      (d : Driver w)
      → ((s : w.Session) (n : ℕ) → (w.grow_recv_window s n).1 ≡ true)
      → d.session_grown ≤ d.session_consumed
      → w.initial_max_data + d.session_consumed ≤ u64_max
      → d.session_received ≤ d.session_consumed
      → (w.initial_max_data + 1) / 2
        ≤ w.initial_max_data + (grow_session_recv_window w d).session_grown - d.session_received
  unfolding grow_session_recv_window receive_window_increment
  session_reopens d accepts a b c =
      ground (arith, accepts d.wt (d.session_consumed - d.session_grown))

  -- The stream is gone, the peer may open one more of its kind, and the other streams are as before.
  pub record IsCredited (d d' : Driver w) (id : ℕ) (peer : PeerStream) : Type 0 where
    pub credit : d'.wt ≡ (w.grow_max_streams d.wt 1 peer.bidirectional).0
    pub gone : lookup id d'.peer_streams ≡ none
    pub others : (j : ℕ) → j ≢ id → lookup j d'.peer_streams ≡ lookup j d.peer_streams

-- When the application has consumed all that the session received, at least half of the session's
-- window is open again, where the library accepts the larger window. No more was advertised than
-- consumed before, and the initial window and the number of consumed bytes fit a `u64` together.
pub consumed_reopens :
    (w : Wt) (d : Driver w) (id size : ℕ)
    → ((s : w.Session) (n : ℕ) → (w.grow_recv_window s n).1 ≡ true)
    → d.session_grown ≤ d.session_consumed
    → w.initial_max_data + (d.session_consumed + size) ≤ u64_max
    → d.session_received ≤ d.session_consumed + size
    → (w.initial_max_data + 1) / 2
      ≤ w.initial_max_data + (consumed w d id size).session_grown - d.session_received
unfolding consumed
consumed_reopens w d id size accepts a b c =
    let e : Driver w = count_consumed w (add_consumed w d size) id size in
    let grown : e.session_grown ≡ d.session_grown = ground arith in
    let received : e.session_received ≡ d.session_received = ground arith in
    let now : e.session_consumed ≡ d.session_consumed + size = ground arith in
    let r =
      session_reopens w e accepts (omega (arith, grown, now)) (omega (arith, now))
        (omega (arith, received, now)) in
    omega (arith, r, received, (grow_stream-IsSame w (grow_session_recv_window w e) id).grown)

credited :
    (w : Wt) (d : Driver w) (id : ℕ) (p : PeerStream)
    → lookup id d.peer_streams ≡ some p
    → (p.recv_closed && p.send_closed) ≡ true
    → credit_peer_stream_if_closed w d id ≡ closed_stream w d id p
unfolding credit_peer_stream_if_closed
credited w d id p h c = rw (h, credit_peer_stream_if_closed) (rw c refl)

not_credited :
    (w : Wt) (d : Driver w) (id : ℕ) (p : PeerStream)
    → lookup id d.peer_streams ≡ some p
    → (p.recv_closed && p.send_closed) ≡ false
    → credit_peer_stream_if_closed w d id ≡ d
unfolding credit_peer_stream_if_closed
not_credited w d id p h c = rw (h, credit_peer_stream_if_closed) (rw c refl)

module _ (w : Wt) (d : Driver w) (id : ℕ) where
  -- The stream is still there, with the state `peer`, and all else is as before.
  record IsOpen (d' : Driver w) (peer : PeerStream) : Type 0 where
    no_credit : d'.wt ≡ d.wt
    there : lookup id d'.peer_streams ≡ some peer
    others : (j : ℕ) → j ≢ id → lookup j d'.peer_streams ≡ lookup j d.peer_streams

  abbrev changed : PeerStream → Driver w
  changed p = record d { peer_streams = insert id p d.peer_streams }

  lookup-changed : (p : PeerStream) → lookup id (changed p).peer_streams ≡ some p
  lookup-changed p = ground (arith, lookup-insert id id p d.peer_streams)

  lookup-changed_other :
      (p : PeerStream) (j : ℕ)
      → j ≢ id
      → lookup j (changed p).peer_streams ≡ lookup j d.peer_streams
  lookup-changed_other p j n = ground (arith, lookup-insert id j p d.peer_streams, n)

  settle_closed :
      (p : PeerStream)
      → (p.recv_closed && p.send_closed) ≡ true
      → IsCredited w d (credit_peer_stream_if_closed w (changed p) id) id p
  settle_closed p c =
      let m : List (ℕ × PeerStream) = insert id p d.peer_streams in
      rw (credited w (changed p) id p (lookup-changed p) c) (record {
        credit = refl;
        gone = ground (arith, lookup-remove id id m);
        others = λ j n. ground (arith, lookup-remove id j m, lookup-changed_other p j n, n);
      })

  settle-IsOpen :
      (p : PeerStream)
      → (p.recv_closed && p.send_closed) ≡ false
      → IsOpen (credit_peer_stream_if_closed w (changed p) id) p
  settle-IsOpen p c =
      rw (not_credited w (changed p) id p (lookup-changed p) c)
        (record { no_credit = refl; there = lookup-changed p; others = lookup-changed_other p })

  recv_marked :
      (p : PeerStream)
      → lookup id d.peer_streams ≡ some p
      → mark_peer_recv_closed w d id
        ≡ credit_peer_stream_if_closed w (changed (record p { recv_closed = true })) id
  unfolding mark_peer_recv_closed
  recv_marked p h = rw (h, mark_peer_recv_closed) refl

  send_marked :
      (p : PeerStream)
      → lookup id d.peer_streams ≡ some p
      → mark_peer_send_closed w d id
        ≡ credit_peer_stream_if_closed w (changed (record p { send_closed = true })) id
  unfolding mark_peer_send_closed
  send_marked p h = rw (h, mark_peer_send_closed) refl

  recv_gone : lookup id d.peer_streams ≡ none → mark_peer_recv_closed w d id ≡ d
  unfolding mark_peer_recv_closed
  recv_gone h = rw (h, mark_peer_recv_closed) refl

  send_gone : lookup id d.peer_streams ≡ none → mark_peer_send_closed w d id ≡ d
  unfolding mark_peer_send_closed
  send_gone h = rw (h, mark_peer_send_closed) refl

-- What two marks come to: the stream is credited once.
open_then :
    (w : Wt) (d e f : Driver w) (id : ℕ) (p q : PeerStream)
    → IsOpen w d id e p
    → IsCredited w e f id q
    → q.bidirectional ≡ p.bidirectional
    → IsCredited w d f id p
open_then w d e f id p q o c b = record {
  credit =
      c.credit
      ∙ ap (λ s. (w.grow_max_streams s 1 q.bidirectional).0) o.no_credit
      ∙ ap (λ k. (w.grow_max_streams d.wt 1 k).0) b;
  gone = c.gone;
  others = λ j n. c.others j n ∙ o.others j n;
}

same_kind :
    (w : Wt) (d f : Driver w) (id : ℕ) (p q : PeerStream)
    → IsCredited w d f id q
    → q.bidirectional ≡ p.bidirectional
    → IsCredited w d f id p
same_kind w d f id p q c b = record {
  credit = c.credit ∙ ap (λ k. (w.grow_max_streams d.wt 1 k).0) b;
  gone = c.gone;
  others = c.others;
}

-- The second mark, behind a first one that left the stream open.
recv_then_send :
    (w : Wt) (d : Driver w) (id : ℕ) (p : PeerStream)
    → lookup id d.peer_streams ≡ some p
    → p.send_closed ≡ false
    → IsCredited w d (mark_peer_send_closed w (mark_peer_recv_closed w d id) id) id p
recv_then_send w d id p h c =
    let q : PeerStream = record p { recv_closed = true } in
    let e : Driver w = credit_peer_stream_if_closed w (changed w d id q) id in
    let o : IsOpen w d id e q = settle-IsOpen w d id q c in
    rw (recv_marked w d id p h) (
      rw (send_marked w e id q o.there) (
        same_kind w d _ id p q
          (open_then w d e _ id q (record q { send_closed = true }) o
            (settle_closed w e id (record q { send_closed = true }) refl) refl)
          refl))

recv_only :
    (w : Wt) (d : Driver w) (id : ℕ) (p : PeerStream)
    → lookup id d.peer_streams ≡ some p
    → p.send_closed ≡ true
    → IsCredited w d (mark_peer_send_closed w (mark_peer_recv_closed w d id) id) id p
recv_only w d id p h c =
    let q : PeerStream = record p { recv_closed = true } in
    let e : Driver w = credit_peer_stream_if_closed w (changed w d id q) id in
    let k : IsCredited w d e id q = settle_closed w d id q c in
    rw (recv_marked w d id p h) (rw (send_gone w e id k.gone) (same_kind w d e id p q k refl))

send_then_recv :
    (w : Wt) (d : Driver w) (id : ℕ) (p : PeerStream)
    → lookup id d.peer_streams ≡ some p
    → p.recv_closed ≡ false
    → IsCredited w d (mark_peer_recv_closed w (mark_peer_send_closed w d id) id) id p
send_then_recv w d id p h c =
    let q : PeerStream = record p { send_closed = true } in
    let e : Driver w = credit_peer_stream_if_closed w (changed w d id q) id in
    let o : IsOpen w d id e q = settle-IsOpen w d id q (rw c refl) in
    rw (send_marked w d id p h) (
      rw (recv_marked w e id q o.there) (
        same_kind w d _ id p q
          (open_then w d e _ id q (record q { recv_closed = true }) o
            (settle_closed w e id (record q { recv_closed = true }) refl) refl)
          refl))

-- Both directions of a stream of the peer end, in either order, or only the receiving one where
-- it has no other: the peer may open exactly one more stream of the kind, and the stream is
-- forgotten, the others kept.
pub mark_peer-IsCredited :
    (w : Wt) (d : Driver w) (id : ℕ) (peer : PeerStream)
    → lookup id d.peer_streams ≡ some peer
    → peer.recv_closed ≡ false
    → IsCredited w d (mark_peer_send_closed w (mark_peer_recv_closed w d id) id) id peer
      × IsCredited w d (mark_peer_recv_closed w (mark_peer_send_closed w d id) id) id peer
mark_peer-IsCredited w d id peer h r = (
  elim (Bool-cases peer.send_closed) [
    | inl c ↦ recv_only w d id peer h c
    | inr c ↦ recv_then_send w d id peer h c
  ],
  send_then_recv w d id peer h r,
)
