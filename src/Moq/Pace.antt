-- ===== src/Moq/Pace.antt =====
-- How many objects a late publisher of zakuro-moq/src/moq_client/session.rs sends at once.
use zakuro_rs.Base.{ℕ, zero, suc, ◌+◌, ◌*◌, ◌≤◌, ◌<◌, false, ◌≡◌, arith, ltb, Bool-cases, inl, inr}
use zakuro_rs.Stats.Float.{Float}
use zakuro_rs.Moq.Types.{Publisher}
use zakuro_rs.Moq.Ops.{is_due, advance_next_send, catch_up}

module _ (f : Float) where
  open f use {F}

  -- The clock stands still while `n` objects go out.
  abbrev pub advances : ℕ → ℕ → Publisher F → Publisher F
  advances zero now p = p
  advances (suc n) now p = advances n now (advance_next_send f now p)

  -- The first object that goes out brings the publisher within the catch-up of the clock.
  advance_near :
      (now : ℕ) (p : Publisher F) → now ≤ (advance_next_send f now p).next_send + catch_up f p
  unfolding advance_next_send
  advance_near now p = elim (Bool-cases (ltb (p.next_send + p.period + catch_up f p) now)) [
    | inl e ↦ rw e (omega arith)
    | inr e ↦ rw e (ground arith)
  ]

  -- From there each object takes one period.
  advance_period :
      (now i : ℕ) (p : Publisher F)
      → now + i * p.period ≤ p.next_send + catch_up f p
      → now + (i + 1) * p.period ≤ (advance_next_send f now p).next_send + catch_up f p
  unfolding advance_next_send
  advance_period now i p h = elim (Bool-cases (ltb (p.next_send + p.period + catch_up f p) now)) [
    | inl e ↦ absurd (grind arith)
    | inr e ↦ rw e (grind arith)
  ]

  advances_period :
      (n now i : ℕ) (p : Publisher F)
      → now + i * p.period ≤ p.next_send + catch_up f p
      → now + (n + i) * p.period ≤ (advances n now p).next_send + catch_up f p
  unfolding advance_next_send
  advances_period zero now i p h = grind arith
  advances_period (suc n) now i p h =
      grind (
        arith,
        advances_period n now (i + 1) (advance_next_send f now p) (advance_period now i p h),
      )

  not_due : (now : ℕ) (q : Publisher F) → now < q.next_send → is_due q now ≡ false
  unfolding is_due
  not_due now q lt = ground arith

  advances_late :
      (k now : ℕ) (p : Publisher F)
      → 0 < p.period
      → catch_up f p ≤ k * p.period
      → now < (advances (suc (suc k)) now p).next_send
  unfolding advance_next_send
  advances_late k now p pos few =
      let first = advance_near now p in
      grind (arith, advances_period (suc k) now 0 (advance_next_send f now p) (grind arith))

  -- However late a publisher is: where the catch-up is at most `k` periods, it is not due any more
  -- after `k` + 2 objects that go out at one moment.
  pub advances-is_due :
      (k now : ℕ) (p : Publisher F)
      → 0 < p.period
      → catch_up f p ≤ k * p.period
      → is_due (advances (suc (suc k)) now p) now ≡ false
  advances-is_due k now p pos few =
      not_due now (advances (suc (suc k)) now p) (advances_late k now p pos few)
