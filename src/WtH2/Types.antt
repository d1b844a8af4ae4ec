-- ===== src/WtH2/Types.antt =====
-- The data of the receive side of zakuro-moq/src/moq_client/wt_h2.rs, and the amount by which a
-- receive window grows. `WtSession` belongs to a library and is a parameter.
use zakuro_rs.Base.{
  ℕ, ◌+◌, ◌-◌, ◌/◌, Bool, false, ◌||◌, List, [], ◌∷◌, Option, none, some, if◌then◌else◌, leb, ◌==◌,
  sat_add64,
}
use zakuro_rs.Base.Map.{nat_eq}

-- What the driver uses of `WtSession` and its configuration. An operation returns the session and
-- whether it succeeded.
pub record Wt : Type 1 where
  pub Session : Type 0
  pub initial_max_data : ℕ
  pub initial_max_stream_data_bidi_remote : ℕ
  pub initial_max_stream_data_uni : ℕ
  pub grow_recv_window : Session → ℕ → Session × Bool
  pub grow_stream_recv_window : Session → ℕ → ℕ → Session × Bool
  -- `stream(id).is_some_and(|stream| stream.can_recv())`
  pub can_recv : Session → ℕ → Bool
  pub stop_sending : Session → ℕ → ℕ → Session × Bool
  pub grow_max_streams : Session → ℕ → Bool → Session × Bool

pub record RecvState : Type 0 where
  pub initial : ℕ
  pub received : ℕ
  pub consumed : ℕ
  pub grown : ℕ

pub record PeerStream : Type 0 where
  pub bidirectional : Bool
  pub recv_closed : Bool
  pub send_closed : Bool

unfoldable pub receive_window_increment : ℕ → ℕ → ℕ → ℕ → Option ℕ
receive_window_increment initial received consumed grown =
    if initial == 0
    then none
    else let credit = sat_add64 initial grown - received in
      let increment = consumed - grown in
      if leb ((initial + 1) / 2) credit
      then none
      else if increment == 0
      then none
      else some increment

-- A set of stream identifiers.
abbrev pub contains : ℕ → List ℕ → Bool
contains id [] = false
contains id (i ∷ is) = i == id || contains id is

abbrev pub remove_from : ℕ → List ℕ → List ℕ
remove_from id [] = []
remove_from id (i ∷ is) = if i == id then remove_from id is else i ∷ remove_from id is
