-- ===== src/WtH2/Ops.antt =====
-- The receive side of `Driver` of zakuro-moq/src/moq_client/wt_h2.rs: receive windows, credit for
-- closed streams of the peer, and streams that the application gave up. The data
-- itself is left out: only its size counts.
use zakuro_rs.Base.{
  ℕ, Bool, true, false, not, ◌&&◌, List, [], ◌∷◌, none, some, if◌then◌else◌, ltb, sat_add64,
}
use zakuro_rs.Base.Map.{lookup, insert, remove, nat_eq}
use zakuro_rs.WtH2.Types.{
  Wt, RecvState, PeerStream, receive_window_increment, contains, remove_from,
}

module _ (w : Wt) where
  open w use {
    Session, initial_max_data, initial_max_stream_data_bidi_remote, initial_max_stream_data_uni,
    grow_recv_window, grow_stream_recv_window, can_recv, stop_sending, grow_max_streams,
  }

  pub record Driver : Type 0 where
    pub wt : Session
    pub recv_streams : List (ℕ × RecvState)
    pub peer_streams : List (ℕ × PeerStream)
    pub stop_sent : List ℕ
    pub session_received : ℕ
    pub session_consumed : ℕ
    pub session_grown : ℕ

  unfoldable pub grow_session_recv_window : Driver → Driver
  grow_session_recv_window d =
      elim (receive_window_increment initial_max_data d.session_received d.session_consumed
        d.session_grown) [
          | none ↦ d
          | some increment ↦
              let (wt, succeeds) = grow_recv_window d.wt increment in
              if succeeds
              then record d { wt = wt; session_grown = sat_add64 d.session_grown increment }
              else record d { wt = wt }
        ]

  -- What is left of the answer of the session to a larger window.
  abbrev pub stream_grown : Driver → ℕ → RecvState → ℕ → Session × Bool → Driver
  stream_grown d id state increment (wt, succeeds) =
      if succeeds
      then record d {
        wt = wt;
        recv_streams =
            insert id (record state { grown = sat_add64 state.grown increment }) d.recv_streams;
      }
      else record d { wt = wt }

  -- The part of `grow_stream_recv_window` behind the choice of the amount.
  abbrev pub grow_stream_by : Driver → ℕ → RecvState → ℕ → Driver
  grow_stream_by d id state increment =
      if can_recv d.wt id
      then stream_grown d id state increment (grow_stream_recv_window d.wt id increment)
      else d

  unfoldable pub grow_stream : Driver → ℕ → Driver
  grow_stream d id = elim (lookup id d.recv_streams) [
    | none ↦ d
    | some state ↦
        elim (receive_window_increment state.initial state.received state.consumed state.grown) [
          | none ↦ d
          | some increment ↦ grow_stream_by d id state increment
        ]
  ]

  -- The stream is taken out when both directions are closed, and the peer may open one more.
  abbrev pub closed_stream : Driver → ℕ → PeerStream → Driver
  closed_stream d id peer = record d {
    peer_streams = remove id d.peer_streams;
    wt = (grow_max_streams d.wt 1 peer.bidirectional).0;
  }

  unfoldable pub credit_peer_stream_if_closed : Driver → ℕ → Driver
  credit_peer_stream_if_closed d id = elim (lookup id d.peer_streams) [
    | none ↦ d
    | some peer ↦ if peer.recv_closed && peer.send_closed then closed_stream d id peer else d
  ]

  unfoldable pub mark_peer_recv_closed : Driver → ℕ → Driver
  mark_peer_recv_closed d id = elim (lookup id d.peer_streams) [
    | none ↦ d
    | some peer ↦
        credit_peer_stream_if_closed
          (record d {
            peer_streams = insert id (record peer { recv_closed = true }) d.peer_streams;
          })
          id
  ]

  unfoldable pub mark_peer_send_closed : Driver → ℕ → Driver
  mark_peer_send_closed d id = elim (lookup id d.peer_streams) [
    | none ↦ d
    | some peer ↦
        credit_peer_stream_if_closed
          (record d {
            peer_streams = insert id (record peer { send_closed = true }) d.peer_streams;
          })
          id
  ]

  -- `WtEvent::StreamOpened`
  unfoldable pub stream_opened : Driver → ℕ → Bool → Driver
  stream_opened d id bidirectional =
      let initial =
        if bidirectional
        then initial_max_stream_data_bidi_remote
        else initial_max_stream_data_uni in
      record d {
        peer_streams =
            insert id
              (record {
                bidirectional = bidirectional;
                recv_closed = false;
                send_closed = not bidirectional;
              })
              d.peer_streams;
        recv_streams =
            insert id (record { initial = initial; received = 0; consumed = 0; grown = 0 })
              d.recv_streams;
      }

  abbrev pub add_received : Driver → ℕ → Driver
  add_received d size = record d { session_received = sat_add64 d.session_received size }

  abbrev pub add_consumed : Driver → ℕ → Driver
  add_consumed d size = record d { session_consumed = sat_add64 d.session_consumed size }

  -- Data without a reader counts as consumed by the session.
  abbrev pub discard : Driver → ℕ → ℕ → Driver
  discard d id size =
      let d' = add_consumed d size in
      grow_session_recv_window (record d' { recv_streams = remove id d'.recv_streams })

  -- The stream's state behind the data, which goes to the application if it still has a `reader`.
  abbrev pub deliver : Driver → ℕ → ℕ → Bool → Driver
  deliver d id size reader = elim (lookup id d.recv_streams) [
    | none ↦ discard d id size
    | some state ↦
        let received = record state { received = sat_add64 state.received size } in
        let d' = record d { recv_streams = insert id received d.recv_streams } in
        if reader then d' else discard d' id size
  ]

  -- Data behind a `WT_STOP_SENDING` is discarded; its credit goes back to the session.
  abbrev pub stream_data_stopped : Driver → ℕ → ℕ → Bool → Driver
  stream_data_stopped d id size fin =
      let d' = grow_session_recv_window (add_consumed (add_received d size) size) in
      if fin then record d' { stop_sent = remove_from id d'.stop_sent } else d'

  abbrev pub stream_data_live : Driver → ℕ → ℕ → Bool → Bool → Driver
  stream_data_live d id size fin reader =
      let d' = deliver (add_received d size) id size reader in
      if fin then mark_peer_recv_closed d' id else d'

  -- `WtEvent::StreamData` with `size` bytes.
  unfoldable pub stream_data : Driver → ℕ → ℕ → Bool → Bool → Driver
  stream_data d id size fin reader =
      if contains id d.stop_sent
      then stream_data_stopped d id size fin
      else stream_data_live d id size fin reader

  -- `WtEvent::StreamReset`
  unfoldable pub stream_reset : Driver → ℕ → Driver
  stream_reset d id =
      mark_peer_recv_closed
        (record d {
          recv_streams = remove id d.recv_streams;
          stop_sent = remove_from id d.stop_sent;
        })
        id

  abbrev pub count_consumed : Driver → ℕ → ℕ → Driver
  count_consumed d id size = elim (lookup id d.recv_streams) [
    | none ↦ d
    | some state ↦ record d {
      recv_streams =
          insert id (record state { consumed = sat_add64 state.consumed size }) d.recv_streams;
    }
  ]

  -- `Command::Consumed`
  unfoldable pub consumed : Driver → ℕ → ℕ → Driver
  consumed d id size =
      grow_stream (grow_session_recv_window (count_consumed (add_consumed d size) id size)) id

  -- The stream without a reader; the session gets its unread bytes back.
  abbrev pub give_back : Driver → ℕ → ℕ → Driver
  give_back d id unread =
      let dropped = record d { recv_streams = remove id d.recv_streams } in
      if ltb 0 unread then grow_session_recv_window (add_consumed dropped unread) else dropped

  -- What is left of the answer of the session to `stop_sending`.
  abbrev pub stopped : Driver → ℕ → Session × Bool → Driver
  stopped d id (wt, succeeds) =
      if succeeds then record d { wt = wt; stop_sent = id ∷ d.stop_sent } else record d { wt = wt }

  -- `Command::StopRead`
  unfoldable pub stop_read : Driver → ℕ → ℕ → Driver
  stop_read d id unread =
      let returned = give_back d id unread in
      mark_peer_recv_closed (stopped returned id (stop_sending returned.wt id 0)) id

  -- The events and commands of the receive side.
  pub data Input : Type 0 where
    opens : ℕ → Bool → Input
    brings : ℕ → ℕ → Bool → Bool → Input
    resets : ℕ → Input
    takes : ℕ → ℕ → Input
    gives_up : ℕ → ℕ → Input
    ends_sending : ℕ → Input

  unfoldable pub handle : Driver → Input → Driver
  handle d (opens id bidirectional) = stream_opened d id bidirectional
  handle d (brings id size fin reader) = stream_data d id size fin reader
  handle d (resets id) = stream_reset d id
  handle d (takes id size) = consumed d id size
  handle d (gives_up id unread) = stop_read d id unread
  handle d (ends_sending id) = mark_peer_send_closed d id

  unfoldable pub drive : Driver → List Input → Driver
  drive d [] = d
  drive d (i ∷ is) = drive (handle d i) is
