-- ===== src/Client/Gauge.antt =====
-- The counts of connected and of retrying clients that the events of a client lead to.
use zakuro_rs.Base.{
  ℕ, ◌+◌, ◌≤◌, ◌<◌, true, false, List, [], ◌∷◌, ◌++◌, if◌then◌else◌, ◌≡◌, refl, arith, ◌∙◌, u32_max,
  length, ltb, add32,
}
use zakuro_rs.Base.Sort.{All}
use zakuro_rs.Lifecycle.Types.{LifecycleEnd}
use zakuro_rs.Stats.Types.{StatsEvent, StatsSnapshot, connected, disconnected}
use zakuro_rs.Stats.Ops.{apply_snapshot, drop_one}
use zakuro_rs.Client.Ops.{
  ClientConfig, Attempt, unexpected, retry, disconnect, disconnect_reason, turn, record_lifecycle,
  ended_event,
}

-- The snapshot after some events.
unfoldable pub apply_all : StatsSnapshot → List StatsEvent → StatsSnapshot
apply_all s [] = s
apply_all s (e ∷ es) = apply_all (apply_snapshot s e) es

-- The two gauges after one turn, from their values `up` and `waiting` before it.
record IsAfter (s : StatsSnapshot) (up waiting : ℕ) : Type 0 where
  pub up_is : s.connected ≡ up
  pub waiting_is : s.retrying ≡ waiting

apply_all-append :
    (s : StatsSnapshot) (xs ys : List StatsEvent)
    → apply_all s (xs ++ ys) ≡ apply_all (apply_all s xs) ys
unfolding apply_all
apply_all-append s [] ys = refl
apply_all-append s (x ∷ xs) ys = apply_all-append (apply_snapshot s x) xs ys

record_lifecycle-IsAfter :
    (c : ClientConfig) (a : Attempt) (e : LifecycleEnd) (s : StatsSnapshot)
    → IsAfter (apply_all s (record_lifecycle c a e)) s.connected s.retrying
unfolding record_lifecycle ended_event apply_all apply_snapshot
record_lifecycle-IsAfter c a e s = record { up_is = ground arith; waiting_is = ground arith }

-- What a retry adds to the clients that wait.
abbrev pub retries : ClientConfig → ℕ → ℕ
retries c n = if ltb c.max_retry (add32 n 1) then 0 else 1

retry-IsAfter :
    (c : ClientConfig) (a : Attempt) (n : ℕ) (s : StatsSnapshot)
    → s.retrying < u32_max
    → IsAfter (apply_all s (retry c a n).events) s.connected (s.retrying + retries c n)
unfolding retry apply_all apply_snapshot
retry-IsAfter c a n s h = record { up_is = ground arith; waiting_is = ground arith }

IsAfter-append :
    (s : StatsSnapshot) (xs ys : List StatsEvent) (up waiting up' waiting' : ℕ)
    → IsAfter (apply_all s xs) up waiting
    → ((t : StatsSnapshot) → IsAfter t up waiting → IsAfter (apply_all t ys) up' waiting')
    → IsAfter (apply_all s (xs ++ ys)) up' waiting'
IsAfter-append s xs ys up waiting up' waiting' h k = rw apply_all-append (k (apply_all s xs) h)

retry_from :
    (c : ClientConfig) (a : Attempt) (n up waiting : ℕ)
    → waiting < u32_max
    → (t : StatsSnapshot) → IsAfter t up waiting
    → IsAfter (apply_all t (retry c a n).events) up (waiting + retries c n)
retry_from c a n up waiting h t g =
    let r = retry-IsAfter c a n t (omega (arith, g.waiting_is)) in
    record { up_is = r.up_is ∙ g.up_is; waiting_is = omega (arith, r.waiting_is, g.waiting_is) }

down_from :
    (c : ClientConfig) (up waiting : ℕ) (t : StatsSnapshot)
    → IsAfter t up waiting
    → IsAfter (apply_all t (disconnected c.instance_id c.vc_id ∷ [])) (drop_one up) waiting
unfolding apply_all apply_snapshot
down_from c up waiting t g = record { up_is = ground arith; waiting_is = g.waiting_is }

-- An unexpected end: one client fewer is up, and one more waits if there is a retry left.
unexpected-IsAfter :
    (c : ClientConfig) (a : Attempt) (n : ℕ) (s : StatsSnapshot)
    → s.retrying < u32_max
    → IsAfter
        (apply_all s (disconnect c a n unexpected).events)
        (drop_one s.connected)
        (s.retrying + retries c n)
unfolding disconnect
unexpected-IsAfter c a n s h =
    IsAfter-append s
      (record_lifecycle c a LifecycleEnd.unexpected ++ disconnected c.instance_id c.vc_id ∷ []) _ _
      _ _ _
      (IsAfter-append s (record_lifecycle c a LifecycleEnd.unexpected) _ _ _ _ _
        (record_lifecycle-IsAfter c a LifecycleEnd.unexpected s)
        (down_from c s.connected s.retrying))
      (retry_from c a n (drop_one s.connected) s.retrying h)

turn_unestablished_events :
    (c : ClientConfig) (n : ℕ) (a : Attempt)
    → a.built ≡ true
    → a.established ≡ false
    → a.finished ≡ true
    → (turn c n a).events ≡ (disconnect c a n unexpected).events
unfolding turn disconnect_reason
turn_unestablished_events c n a b e f = ground arith

-- A connection that ended before it was established is taken off the number of connected
-- clients, although it was never added: another client that is connected is no longer counted.
pub turn_unestablished :
    (c : ClientConfig) (n : ℕ) (a : Attempt) (s : StatsSnapshot)
    → a.built ≡ true
    → a.established ≡ false
    → a.finished ≡ true
    → 0 < s.connected
    → s.retrying < u32_max
    → (apply_all s (turn c n a).events).connected + 1 ≡ s.connected
turn_unestablished c n a s b e f up w =
    rw (turn_unestablished_events c n a b e f)
      (ground (arith, (unexpected-IsAfter c a n s w).up_is))

-- The snapshot over several turns that all fail before the connection is established, with the
-- retry counts `n`, `n + 1` and so on.
pub after_failures : ClientConfig → ℕ → List Attempt → StatsSnapshot → StatsSnapshot
after_failures c n [] s = s
after_failures c n (a ∷ rest) s = after_failures c (n + 1) rest (apply_all s (turn c n a).events)

abbrev pub FailsEarly : Attempt → Type 0
FailsEarly a = (a.built ≡ true) × (a.established ≡ false) × (a.finished ≡ true)

turn_waiting :
    (c : ClientConfig) (n : ℕ) (a : Attempt) (s : StatsSnapshot)
    → a.built ≡ true
    → a.established ≡ false
    → a.finished ≡ true
    → c.max_retry < u32_max
    → n + 1 ≤ c.max_retry
    → s.retrying < u32_max
    → (apply_all s (turn c n a).events).retrying ≡ s.retrying + 1
turn_waiting c n a s b e f m k w =
    rw (turn_unestablished_events c n a b e f)
      (ground (arith, (unexpected-IsAfter c a n s w).waiting_is))

after_failures_waiting :
    (c : ClientConfig) (attempts : List Attempt) (n : ℕ) (s : StatsSnapshot)
    → All FailsEarly attempts
    → c.max_retry < u32_max
    → n + length attempts ≤ c.max_retry
    → s.retrying + length attempts ≤ u32_max
    → (after_failures c n attempts s).retrying ≡ s.retrying + length attempts
unfolding after_failures
after_failures_waiting c [] n s f m k h = omega arith
after_failures_waiting c (a ∷ rest) n s ((b, e, d), fs) m k h =
    let s' : StatsSnapshot = apply_all s (turn c n a).events in
    let one : s'.retrying ≡ s.retrying + 1 =
      turn_waiting c n a s b e d m (omega arith) (omega arith) in
    after_failures_waiting c rest (n + 1) s' fs m (omega arith) (omega (arith, one))
    ∙ omega (arith, one)

-- A client that fails several times before its connection is established, and is then connected,
-- stays in the number of waiting clients once for each failure but one, although it waits no
-- longer.
pub retrying_leaks :
    (c : ClientConfig) (attempts : List Attempt) (s : StatsSnapshot)
    → All FailsEarly attempts
    → c.max_retry < u32_max
    → length attempts ≤ c.max_retry
    → s.retrying + length attempts ≤ u32_max
    → 0 < length attempts
    → (apply_snapshot (after_failures c 0 attempts s) (connected c.instance_id c.vc_id)).retrying
        + 1
      ≡ s.retrying + length attempts
unfolding apply_snapshot
retrying_leaks c attempts s f m k h p =
    ground (arith, after_failures_waiting c attempts 0 s f m (omega arith) h)
