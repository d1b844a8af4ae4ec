-- ===== src/Lifecycle/Stall.antt =====
-- Detection of stalled media: the counters against the sequence of samples.
use zakuro_rs.Base.{
  ℕ, zero, suc, ◌+◌, ◌≤◌, min, Bool, true, false, ◌&&◌, ◌||◌, List, [], ◌∷◌, ◌≡◌, refl, arith, leb,
  u32_max, is_some,
}
use zakuro_rs.Lifecycle.Types.{ConnectionLifecycle}
use zakuro_rs.Lifecycle.Ops.{new, on_sample_activity, is_stalled}

-- The samples of a connection, oldest first, each with its time and whether it shows activity.
abbrev pub Samples : Type 0
Samples = List (ℕ × Bool)

unfoldable pub replay : ConnectionLifecycle → Samples → ConnectionLifecycle
unfolding on_sample_activity
replay l [] = l
replay l ((t, active) ∷ ss) = replay (on_sample_activity l t active) ss

abbrev any_active : Samples → Bool
any_active [] = false
any_active ((t, active) ∷ ss) = active || any_active ss

-- Three idle samples in a row, where `idle` of them have just gone by.
abbrev three_idle : ℕ → Samples → Bool
three_idle idle [] = leb 3 idle
three_idle idle ((t, true) ∷ ss) = leb 3 idle || three_idle 0 ss
three_idle idle ((t, false) ∷ ss) = leb 3 idle || three_idle (idle + 1) ss

-- The next `n` samples exist and are all idle.
abbrev pub lead_idle : ℕ → Samples → Bool
lead_idle zero ss = true
lead_idle (suc n) [] = false
lead_idle (suc n) ((t, true) ∷ ss) = false
lead_idle (suc n) ((t, false) ∷ ss) = lead_idle n ss

-- Somewhere in the sequence, three samples in a row are idle.
abbrev pub has_idle_run : Samples → Bool
has_idle_run [] = false
has_idle_run ((t, active) ∷ ss) = lead_idle 3 ((t, active) ∷ ss) || has_idle_run ss

three_idle_past : (ss : Samples) (k : ℕ) → 3 ≤ k → three_idle k ss ≡ true
three_idle_past [] k h = ground arith
three_idle_past ((t, true) ∷ ss) k h = ground arith
three_idle_past ((t, false) ∷ ss) k h = ground arith

replay_max :
    (l : ConnectionLifecycle) (ss : Samples) (idle : ℕ)
    → l.idle_samples ≡ min idle u32_max
    → l.idle_samples ≤ l.max_idle_samples
    → leb 3 (replay l ss).max_idle_samples ≡ (leb 3 l.max_idle_samples || three_idle idle ss)
unfolding replay
replay_max l [] idle h k = ground arith
replay_max l ((t, true) ∷ ss) idle h k =
    ground (arith, replay_max (on_sample_activity l t true) ss 0)
replay_max l ((t, false) ∷ ss) idle h k =
    ground (
      arith,
      replay_max (on_sample_activity l t false) ss (idle + 1),
      three_idle_past ss (idle + 1),
    )

three_idle_lem :
    (ss : Samples)
    → (three_idle 0 ss ≡ has_idle_run ss)
      × (three_idle 1 ss ≡ (lead_idle 2 ss || has_idle_run ss))
      × (three_idle 2 ss ≡ (lead_idle 1 ss || has_idle_run ss))
three_idle_lem [] = (refl, refl, refl)
three_idle_lem ((t, true) ∷ ss) = ground (arith, three_idle_lem ss)
three_idle_lem ((t, false) ∷ ss) = ground (arith, three_idle_lem ss, three_idle_past ss 3)

replay_active :
    (l : ConnectionLifecycle) (ss : Samples)
    → is_some (replay l ss).last_media_activity_at
      ≡ (is_some l.last_media_activity_at || any_active ss)
unfolding replay
replay_active l [] = ground arith
replay_active l ((t, true) ∷ ss) = ground (arith, replay_active (on_sample_activity l t true) ss)
replay_active l ((t, false) ∷ ss) = ground (arith, replay_active (on_sample_activity l t false) ss)

-- A connection is stalled exactly when some sample showed activity and some three consecutive
-- samples, before or after it, did not. Saturation of the counters does not matter.
pub is_stalled-replay :
    (t₀ : ℕ) (ss : Samples) → is_stalled (replay (new t₀) ss) ≡ (any_active ss && has_idle_run ss)
unfolding is_stalled new
is_stalled-replay t₀ ss =
    ground (arith, replay_active (new t₀) ss, replay_max (new t₀) ss 0, three_idle_lem ss)
