-- ===== src/Client/Retry.antt =====
-- The retries of a virtual client.
use zakuro_rs.Base.{
  ℕ, ◌+◌, ◌≤◌, ◌<◌, Bool, true, false, not, ◌||◌, List, [], ◌∷◌, none, some, ◌≡◌, ◌⊎◌, inl, inr,
  refl, arith, u32_max, length,
}
use zakuro_rs.Base.Sort.{All}
use zakuro_rs.Stats.Types.{StatsEvent, connected, disconnected, retrying, stopped, connection_ended}
use zakuro_rs.Client.Ops.{
  ClientConfig, Wake, cancelled, due, run_ended, Attempt, retry, turn, disconnect,
  disconnect_reason, run_loop, run,
}

abbrev is_run_ended : Wake → Bool
is_run_ended run_ended = true
is_run_ended cancelled = false
is_run_ended (due e) = false

-- The connection could not be built, or ended by itself.
abbrev pub fails : Attempt → Bool
fails a = not a.built || a.finished || is_run_ended a.wake

abbrev pub is_retrying : StatsEvent → Bool
is_retrying (retrying i v n) = true
is_retrying (connected i v) = false
is_retrying (disconnected i v) = false
is_retrying (stopped i v) = false
is_retrying (connection_ended c) = false

abbrev pub is_stopped : StatsEvent → Bool
is_stopped (stopped i v) = true
is_stopped (connected i v) = false
is_stopped (disconnected i v) = false
is_stopped (retrying i v n) = false
is_stopped (connection_ended c) = false

turn-fails :
    (c : ClientConfig) (n : ℕ) (a : Attempt)
    → c.max_retry < u32_max
    → n ≤ c.max_retry
    → fails a ≡ true
    → ((turn c n a).next ≡ none) ⊎ (((turn c n a).next ≡ some (n + 1)) × (n + 1 ≤ c.max_retry))
unfolding turn disconnect disconnect_reason retry
turn-fails c n a m h f = ground arith

-- A client whose connections keep failing gives up: after more failures than `max_retry` in a
-- row, from a retry count of `n`, the loop has ended.
run_loop_gives_up :
    (c : ClientConfig) (n : ℕ) (attempts : List Attempt)
    → c.max_retry < u32_max
    → n ≤ c.max_retry
    → All (λ a. fails a ≡ true) attempts
    → c.max_retry < n + length attempts
    → (run_loop c n attempts).ended ≡ true
unfolding run_loop
run_loop_gives_up c n [] m h a l = absurd (omega arith)
run_loop_gives_up c n (a ∷ rest) m h (f, fs) l = elim (turn-fails c n a m h f) [
  | inl e ↦ rw (e, run_loop) refl
  | inr (e, k) ↦ rw (e, run_loop) (run_loop_gives_up c (n + 1) rest m k fs (omega arith))
]

-- A client whose connections keep failing gives up: with a `max_retry` below 2^32 - 1, a list of
-- more than `max_retry` attempts that all fail to build or end by themselves ends the loop.
pub run-gives_up :
    (c : ClientConfig) (attempts : List Attempt)
    → c.max_retry < u32_max
    → All (λ a. fails a ≡ true) attempts
    → c.max_retry < length attempts
    → (run c attempts).ended ≡ true
unfolding run
run-gives_up c attempts m f l = run_loop_gives_up c 0 attempts m (omega arith) f (omega arith)

-- A connection that is built and does not end by itself is no failure: the client ends, or the
-- next turn starts with a retry count of 0 again.
pub turn_resets :
    (c : ClientConfig) (n : ℕ) (a : Attempt)
    → fails a ≡ false
    → ((turn c n a).next ≡ none) ⊎ ((turn c n a).next ≡ some 0)
unfolding turn disconnect disconnect_reason retry
turn_resets c n a f = ground arith
