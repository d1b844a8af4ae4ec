-- ===== src/Stats/Count.antt =====
-- The totals of a run count its events.
use Prim.Native.String.{String}
use text.Mathlib.Text.{◌==◌ as str_eq}
use text.Mathlib.TextEquality.{eq_iff}
use zakuro_rs.Base.{
  ℕ, ◌+◌, ◌≤◌, ◌<◌, Bool, true, false, not, ◌&&◌, List, [], ◌∷◌, none, some, if◌then◌else◌, ◌≡◌,
  refl, arith, u32_max, length,
}
use zakuro_rs.Base.Sort.{sort_by, insert_sorted}
use zakuro_rs.Stats.Types.{
  ConnectionEnded, StatsEvent, connected, disconnected, retrying, stopped, connection_ended,
}
use zakuro_rs.Stats.Ops.{is_success, is_failure, count_reason, reason_le, is_counted}

module _ (started_at warmup : ℕ) where
  -- The event is the end of a connection inside the measured time, and passes the test.
  abbrev pub counted_end : (ConnectionEnded → Bool) → StatsEvent → Bool
  counted_end p (connection_ended c) = is_counted (connection_ended c) started_at warmup && p c
  counted_end p (connected i v) = false
  counted_end p (disconnected i v) = false
  counted_end p (retrying i v n) = false
  counted_end p (stopped i v) = false

  abbrev pub excluded : StatsEvent → Bool
  excluded e = not (is_counted e started_at warmup)

abbrev pub is_end : StatsEvent → Bool
is_end (connection_ended c) = true
is_end (connected i v) = false
is_end (disconnected i v) = false
is_end (retrying i v n) = false
is_end (stopped i v) = false

abbrev pub count_if : (StatsEvent → Bool) → List StatsEvent → ℕ
count_if p [] = 0
count_if p (e ∷ es) = (if p e then 1 else 0) + count_if p es

abbrev pub is_unjudged : ConnectionEnded → Bool
is_unjudged c = not (is_success c) && not (is_failure c)

abbrev pub is_failed : ConnectionEnded → Bool
is_failed c = not (is_success c) && is_failure c

abbrev pub gives_reason : String → ConnectionEnded → Bool
gives_reason r c = elim c.failure_reason [ none ↦ false | some q ↦ str_eq q r ]

count_if-le : (p : StatsEvent → Bool) (es : List StatsEvent) → count_if p es ≤ length es
count_if-le p [] = omega arith
count_if-le p (e ∷ es) = ground (arith, count_if-le p es)

pub partition :
    (started_at warmup : ℕ) (es : List StatsEvent)
    → count_if (counted_end started_at warmup is_success) es
        + count_if (counted_end started_at warmup is_failed) es
        + count_if (counted_end started_at warmup is_unjudged) es
        + count_if (excluded started_at warmup) es
      ≡ count_if is_end es
unfolding is_counted
partition started_at warmup [] = omega arith
partition started_at warmup (connection_ended c ∷ es) =
    ground (arith, partition started_at warmup es)
partition started_at warmup (e ∷ es) = ground (arith, partition started_at warmup es)

-- The connections counted under a reason, over all pairs of that name.
abbrev pub total_of : String → List (String × ℕ) → ℕ
total_of r [] = 0
total_of r ((name, n) ∷ rs) = (if str_eq name r then n else 0) + total_of r rs

pub total_of-count_reason :
    (r q : String) (rs : List (String × ℕ))
    → total_of r rs < u32_max
    → total_of r (count_reason q rs) ≡ (if str_eq q r then 1 else 0) + total_of r rs
unfolding count_reason
total_of-count_reason r q [] h = ground arith
total_of-count_reason r q ((name, n) ∷ rs) h =
    ground (arith, eq_iff name q, eq_iff name r, eq_iff q r, total_of-count_reason r q rs)

total_of-insert_sorted :
    (r : String) (x : String × ℕ) (rs : List (String × ℕ))
    → total_of r (insert_sorted reason_le x rs) ≡ total_of r (x ∷ rs)
unfolding insert_sorted
total_of-insert_sorted r (a, n) [] = refl
total_of-insert_sorted r (a, n) ((b, m) ∷ rs) = ground (arith, total_of-insert_sorted r (a, n) rs)

pub total_of-sort_by :
    (r : String) (rs : List (String × ℕ)) → total_of r (sort_by reason_le rs) ≡ total_of r rs
unfolding sort_by
total_of-sort_by r [] = refl
total_of-sort_by r ((a, n) ∷ rs) =
    omega (arith, total_of-insert_sorted r (a, n) (sort_by reason_le rs), total_of-sort_by r rs)
