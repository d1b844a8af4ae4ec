-- ===== src/Scenario/Reconnect.antt =====
-- The scenario `reconnect`, which keeps a connection for nine sleeps.
use zakuro_rs.Base.{
  ℕ, zero, suc, ◌+◌, ◌*◌, ◌-◌, ◌%◌, ◌≤◌, ◌<◌, false, List, [], ◌∷◌, none, some, ◌≡◌, refl, arith,
  ap, length, get_elem?, inl, inr, ◌⊎◌,
}
use zakuro_rs.Base.Sort.{All}
use zakuro_rs.Scenario.Types.{ScenarioOp, ScenarioEnd, ScenarioPlayer}
use zakuro_rs.Scenario.Ops.{
  Moment, Effect, slept, sent, Played, played, random_range, build_reconnect_scenario, sleeps,
  new_player, advance, play_op, run_until_disconnect,
}
use zakuro_rs.Scenario.Inside.{run_on, run_end}

-- No cancellation is seen in the turn.
abbrev pub IsCalm : Moment → Type 0
IsCalm t = (t.cancelled ≡ false) × (t.cancelled_asleep ≡ false)

abbrev pub slept_ms : List Effect → ℕ
slept_ms [] = 0
slept_ms (slept ms ∷ es) = ms + slept_ms es
slept_ms (sent s ∷ es) = slept_ms es

-- A player of the scenario, at the operation `i`.
pub record IsAt (p : ScenarioPlayer) (i : ℕ) : Type 0 where
  pub plays : p.scenario ≡ build_reconnect_scenario
  pub at : p.op_index ≡ i

-- The effects of `n` sleeps of one to five seconds.
pub record IsSleeping (n : ℕ) (es : List Effect) : Type 0 where
  pub number : length es ≡ n
  pub least : n * 1000 ≤ slept_ms es
  pub most : slept_ms es ≤ n * 5000

sleep_at : (m i : ℕ) → i < m → get_elem? (sleeps m) i ≡ some (ScenarioOp.sleep 1000 5000)
sleep_at zero i h = absurd (omega arith)
sleep_at (suc m) zero h = refl
sleep_at (suc m) (suc i) h = sleep_at m i (omega arith)

-- Where the player stands when `n` sleeps are left before the next reconnection.
abbrev pub place : ℕ → ℕ
place zero = 0
place (suc n) = 9 - n

first_here :
    (p : ScenarioPlayer)
    → IsAt p 0
    → get_elem? p.scenario.ops p.op_index ≡ some ScenarioOp.reconnect
unfolding build_reconnect_scenario
first_here p h = rw (h.plays, h.at) refl

sleep_here :
    (p : ScenarioPlayer) (n : ℕ)
    → IsAt p (place (suc n))
    → n < 9
    → get_elem? p.scenario.ops p.op_index ≡ some (ScenarioOp.sleep 1000 5000)
unfolding build_reconnect_scenario
sleep_here p n h l =
    let e : 9 - n ≡ suc (8 - n) = omega arith in
    rw (h.plays, h.at, e) (sleep_at 9 (8 - n) (omega arith))

advance-IsAt :
    (p : ScenarioPlayer) (i j : ℕ)
    → IsAt p i
    → ((i + 1 < 10) × (j ≡ i + 1)) ⊎ ((i ≡ 9) × (j ≡ 0))
    → IsAt (advance p) j
unfolding advance build_reconnect_scenario
advance-IsAt p i j h k = record { plays = h.plays; at = rw (h.plays, h.at) (ground arith) }

second_or_more : (random : ℕ) → random_range 1000 5000 random ≡ some (1000 + random % 4001)
unfolding random_range
second_or_more random = ap some (omega arith)

sleep_plays :
    (p : ScenarioPlayer) (t : Moment)
    → t.cancelled_asleep ≡ false
    → play_op p t (ScenarioOp.sleep 1000 5000)
      ≡ some (played (advance p) (slept (1000 + t.random % 4001) ∷ []) none)
unfolding play_op
sleep_plays p t h = rw (second_or_more t.random, h) refl

-- The next place behind one more sleep.
next_place :
    (n : ℕ)
    → n < 9
    → ((place (suc n) + 1 < 10) × (place n ≡ place (suc n) + 1))
      ⊎ ((place (suc n) ≡ 9) × (place n ≡ 0))
next_place zero h = inr (refl, refl)
next_place (suc n) h = inl (omega arith, omega arith)

reconnect_plays :
    (p : ScenarioPlayer) (t : Moment)
    → play_op p t ScenarioOp.reconnect ≡ some (played (advance p) [] (some ScenarioEnd.reconnect))
unfolding play_op
reconnect_plays p t = refl

-- What a connection comes to: its effects are `n` sleeps, it ends with a reconnection, and the
-- player stands behind the operation `reconnect`.
pub record IsCycle (n : ℕ) (r : Played) : Type 0 where
  pub ready : IsAt r.player 1
  pub reconnects : r.end ≡ some ScenarioEnd.reconnect
  pub sleeping : IsSleeping n r.effects

cycle :
    (n : ℕ) (p : ScenarioPlayer) (ts : List Moment)
    → n ≤ 9
    → IsAt p (place n)
    → All IsCalm ts
    → length ts ≡ suc n
    → (r : Played) × (run_until_disconnect p ts ≡ some r) × IsCycle n r
cycle n p [] l h calm e = absurd (omega (arith, e))
cycle zero p (t ∷ ts) l h ((c, _), calm) e = (
  played (advance p) [] (some ScenarioEnd.reconnect),
  run_end p t ts ScenarioOp.reconnect _ ScenarioEnd.reconnect c (first_here p h)
      (reconnect_plays p t) refl,
  record {
    ready = advance-IsAt p 0 1 h (inl (omega arith, refl));
    reconnects = refl;
    sleeping = record { number = refl; least = omega arith; most = omega arith };
  },
)
cycle (suc n) p (t ∷ ts) l h ((c, d), calm) e =
    let at : IsAt (advance p) (place n) =
      advance-IsAt p (place (suc n)) (place n) h (next_place n (omega arith)) in
    let (r, k, q) = cycle n (advance p) ts (omega arith) at calm (omega (arith, e)) in
    (
      played r.player (slept (1000 + t.random % 4001) ∷ r.effects) r.end,
      run_on p t ts (ScenarioOp.sleep 1000 5000) _ r c (sleep_here p n h (omega arith))
          (sleep_plays p t d) refl k,
      record {
        ready = q.ready;
        reconnects = q.reconnects;
        sleeping = record {
          number = omega (arith, q.sleeping.number);
          least = omega (arith, q.sleeping.least);
          most = omega (arith, q.sleeping.most);
        };
      },
    )

-- From the second connection on, the scenario `reconnect` keeps a connection for nine sleeps, of
-- 9 to 45 seconds together, and then reconnects, ready to do the same again; where no cancellation
-- is seen, for the ten turns of its loop.
pub run_until_disconnect-IsCycle :
    (p : ScenarioPlayer) (ts : List Moment)
    → IsAt p 1
    → All IsCalm ts
    → length ts ≡ 10
    → (r : Played) × (run_until_disconnect p ts ≡ some r) × IsCycle 9 r
run_until_disconnect-IsCycle p ts h calm e = cycle 9 p ts (omega arith) h calm e

-- On the first connection, where no cancellation is seen, the scenario `reconnect` reconnects at
-- once, without a sleep, and the player is then where the later connections start.
pub new_player-IsCycle :
    (instance_id vc_id : ℕ) (t : Moment)
    → t.cancelled ≡ false
    → (r : Played) × (run_until_disconnect
          (new_player build_reconnect_scenario instance_id vc_id)
          (t ∷ [])
        ≡ some r)
      × IsCycle 0 r
unfolding new_player
new_player-IsCycle i v t c =
    let p = new_player build_reconnect_scenario i v in
    let h : IsAt p 0 = record { plays = refl; at = refl } in
    (
      played (advance p) [] (some ScenarioEnd.reconnect),
      run_end p t [] ScenarioOp.reconnect _ ScenarioEnd.reconnect c (first_here p h)
          (reconnect_plays p t) refl,
      record {
        ready = advance-IsAt p 0 1 h (inl (omega arith, refl));
        reconnects = refl;
        sleeping = record { number = refl; least = omega arith; most = omega arith };
      },
    )
