-- ===== src/WtH2/Window.antt =====
-- The amount by which a receive window grows.
use zakuro_rs.Base.{ℕ, ◌+◌, ◌-◌, ◌/◌, ◌≤◌, ◌<◌, Option, none, some, ◌≡◌, ◌⊎◌, refl, arith, u64_max}
use zakuro_rs.WtH2.Types.{receive_window_increment}

-- What an answer says of a window: where there is nothing to add, it is switched off, or at least
-- half of it is open, or all that was consumed is advertised already; else it was less than half
-- open, and the amount brings what is advertised to what was consumed, and no further.
abbrev pub IsIncrement : ℕ → ℕ → ℕ → ℕ → Option ℕ → Type 0
IsIncrement initial received consumed grown none =
    (initial ≡ 0) ⊎ (((initial + 1) / 2 ≤ initial + grown - received) ⊎ (grown ≡ consumed))
IsIncrement initial received consumed grown (some increment) =
    (0 < increment)
    × (grown + increment ≡ consumed)
    × (initial + grown - received < (initial + 1) / 2)

answer-IsIncrement :
    (initial received consumed grown : ℕ) (o : Option ℕ)
    → grown ≤ consumed
    → initial + consumed ≤ u64_max
    → receive_window_increment initial received consumed grown ≡ o
    → IsIncrement initial received consumed grown o
unfolding receive_window_increment
answer-IsIncrement i r c g none h b e = ground arith
answer-IsIncrement i r c g (some n) h b e = ground arith

-- Where no more was advertised than consumed: a window grows only when less than half of it is
-- open, and then exactly by what was consumed and is not advertised; it does not grow only when it
-- is switched off, when half of it is open, or when all that was consumed is advertised. The
-- initial window and the number of consumed bytes fit a `u64` together.
pub receive_window_increment-IsIncrement :
    (initial received consumed grown : ℕ)
    → grown ≤ consumed
    → initial + consumed ≤ u64_max
    → IsIncrement initial received consumed grown
        (receive_window_increment initial received consumed grown)
receive_window_increment-IsIncrement i r c g h b = answer-IsIncrement i r c g _ h b refl
