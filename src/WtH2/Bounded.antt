-- ===== src/WtH2/Bounded.antt =====
-- What the peer may send against what the application has read.
use zakuro_rs.Base.{◌+◌, ◌≤◌, List, [], ◌∷◌}
use zakuro_rs.Base.Map.{nat_eq}
use zakuro_rs.WtH2.Types.{Wt}
use zakuro_rs.WtH2.Ops.{Driver, Input, opens, brings, resets, takes, gives_up, ends_sending, handle}
use zakuro_rs.WtH2.Moves.{IsBounded}

module _ (w : Wt) where
  -- The peer keeps to the windows: data arrives only where the advertised amount allows it.
  abbrev pub Keeps : Driver w → List (Input w) → Type 0
  Keeps d [] = Unit
  Keeps d (brings id size fin reader ∷ is) =
      (d.session_received + size ≤ w.initial_max_data + d.session_grown)
      × Keeps (handle w d (brings id size fin reader)) is
  Keeps d (opens id b ∷ is) = Keeps (handle w d (opens id b)) is
  Keeps d (resets id ∷ is) = Keeps (handle w d (resets id)) is
  Keeps d (takes id size ∷ is) = Keeps (handle w d (takes id size)) is
  Keeps d (gives_up id unread ∷ is) = Keeps (handle w d (gives_up id unread)) is
  Keeps d (ends_sending id ∷ is) = Keeps (handle w d (ends_sending id)) is

  -- What was received is within what was advertised.
  record IsWithin (d : Driver w) : Type 0 where
    bounded : IsBounded w d
    within : d.session_received ≤ w.initial_max_data + d.session_grown
