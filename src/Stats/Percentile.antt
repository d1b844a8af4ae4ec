-- ===== src/Stats/Percentile.antt =====
-- The percentiles of the connection times.
use mathlib.Core.List.{Perm}
use mathlib.Core.Path.{subst}
use zakuro_rs.Base.{
  ℕ, zero, suc, ◌+◌, ◌-◌, ◌^◌, ◌≤◌, ◌<◌, min, Bool, true, false, ◌||◌, ◌⊎◌, inl, inr, List, [], ◌∷◌,
  ◌++◌, Option, none, some, ◌≡◌, refl, ap, sym, arith, ◌∙◌, length, get_elem?, ltb, Bool-cases,
}
use zakuro_rs.Base.Sort.{All, IsSorted, sort_by, insert_sorted, sort_by-IsSorted, sort_by-perm}
use zakuro_rs.Stats.Float.{Float, IsFloat, IsRounding}
use zakuro_rs.Stats.Ops.{rank, percentile, summary}
use zakuro_rs.Stats.Types.{OutcomeTotals}

-- A list cut at one of its elements.
record Cut {ℓ} {A : Type ℓ} (xs : List A) (i : ℕ) : Type ℓ where
  before : List A
  here : A
  after : List A
  splits : xs ≡ before ++ here ∷ after
  index : length before ≡ i
  found : get_elem? xs i ≡ some here

cut {ℓ} : {A : Type ℓ} (xs : List A) (i : ℕ) → i < length xs → Cut xs i
cut [] i h = absurd (omega arith)
cut (x ∷ xs) zero h = record {
  before = [];
  here = x;
  after = xs;
  splits = refl;
  index = refl;
  found = refl;
}
cut (x ∷ xs) (suc i) h =
    let c = cut xs i (omega arith) in
    record {
      before = x ∷ c.before;
      here = c.here;
      after = c.after;
      splits = ap (◌∷◌ x) c.splits;
      index = ap suc c.index;
      found = c.found;
    }

module _ {ℓ} {A : Type ℓ} (le : A → A → Bool) where
  length-insert_sorted : (x : A) (xs : List A) → length (insert_sorted le x xs) ≡ suc (length xs)
  unfolding insert_sorted
  length-insert_sorted x [] = refl
  length-insert_sorted x (y ∷ ys) = ground (arith, length-insert_sorted x ys)

  pub length-sort_by : (xs : List A) → length (sort_by le xs) ≡ length xs
  unfolding sort_by
  length-sort_by [] = refl
  length-sort_by (x ∷ xs) = omega (arith, length-insert_sorted x (sort_by le xs), length-sort_by xs)

  head_of_All : (x y : A) (xs ys : List A) → All (λ z. le x z ≡ true) (xs ++ y ∷ ys) → le x y ≡ true
  head_of_All x y [] ys a = a.0
  head_of_All x y (w ∷ xs) ys a = head_of_All x y xs ys a.1

  IsSorted-cut :
      (xs : List A) (y : A) (ys : List A)
      → IsSorted le (xs ++ y ∷ ys)
      → All (λ z. le z y ≡ true) xs × All (λ z. le y z ≡ true) ys
  IsSorted-cut [] y ys s = (tt, s.0)
  IsSorted-cut (x ∷ xs) y ys (a, s) =
      let (lo, hi) = IsSorted-cut xs y ys s in ((head_of_All x y xs ys a, lo), hi)

-- The value at the nearest rank of a share of the times: it is one of them; those in front of it are
-- not greater, and those behind it are not less; the place of it, counted from one, is not below the
-- share of the number of times, or the last, and each place in front is below the share.
pub record IsNearestRank (f : Float) (times : List f.F) (ratio : f.F) (x : f.F) : Type 0 where
  pub before : List f.F
  pub after : List f.F
  pub same : Perm (before ++ x ∷ after) times
  pub not_greater : All (λ y. f.total_le y x ≡ true) before
  pub not_less : All (λ y. f.total_le x y ≡ true) after
  pub enough :
      (length before + 1 ≡ length times)
      ⊎ (f.lt (f.of_nat (length before + 1)) (f.mul ratio (f.of_nat (length times))) ≡ false)
  pub least :
      (j : ℕ)
      → 0 < j
      → j ≤ length before
      → f.lt (f.of_nat j) (f.mul ratio (f.of_nat (length times))) ≡ true

-- A percentile, which only an empty list lacks.
abbrev pub IsPercentile : (f : Float) → List f.F → f.F → Option f.F → Type 0
IsPercentile f times ratio none = times ≡ []
IsPercentile f times ratio (some x) = IsNearestRank f times ratio x

-- The rank is above a number exactly where the share is, or the number is zero.
rank_above :
    (f : Float) (ratio : f.F) (len n : ℕ)
    → IsRounding f
    → n ≤ 2 ^ 53
    → ltb n (rank f ratio len) ≡ (f.lt (f.of_nat n) (f.mul ratio (f.of_nat len)) || ltb n 1)
rank_above f ratio len n r h =
    r.to_usize_whole (f.fmax (f.ceil share) one) n h (elim (r.fmax_either (f.ceil share) one) [
      | inl e ↦ rw e (r.ceil_whole share)
      | inr e ↦ rw e r.one_whole
    ])
    ∙ r.above_fmax (f.ceil share) one (f.of_nat n)
    ∙ rw (r.above_ceil share n h, r.above_one n h) refl
  where
    share : f.F
    share = f.mul ratio (f.of_nat len)

    one : f.F
    one = f.hundredths 100

rank_enough :
    (f : Float) (ratio : f.F) (len k : ℕ)
    → IsRounding f
    → len ≤ 2 ^ 53
    → k ≡ min (rank f ratio len) len
    → 0 < k
    → (k ≡ len) ⊎ (f.lt (f.of_nat k) (f.mul ratio (f.of_nat len)) ≡ false)
rank_enough f ratio len k r small e p =
    let above = rank_above f ratio len k r (omega (arith, e, small)) in
    elim (Bool-cases (ltb k (rank f ratio len))) [
      | inl l ↦ inl (ground arith)
      | inr l ↦ inr (ground (arith, above))
    ]

rank_least :
    (f : Float) (ratio : f.F) (len k j : ℕ)
    → IsRounding f
    → len ≤ 2 ^ 53
    → k ≡ min (rank f ratio len) len
    → 0 < j
    → j < k
    → f.lt (f.of_nat j) (f.mul ratio (f.of_nat len)) ≡ true
rank_least f ratio len k j r small e p l =
    let above = rank_above f ratio len j r (omega (arith, e, small)) in ground (arith, above)

percentile_nonempty :
    (f : Float) (ratio : f.F) (xs : List f.F)
    → 0 < length xs
    → percentile f xs ratio ≡ get_elem? xs (min (rank f ratio (length xs) - 1) (length xs - 1))
unfolding percentile
percentile_nonempty f ratio [] h = absurd (omega arith)
percentile_nonempty f ratio (x ∷ xs) h = refl

percentile-IsNearestRank :
    (f : Float) (times : List f.F) (ratio : f.F)
    → IsFloat f
    → IsRounding f
    → length times ≤ 2 ^ 53
    → 0 < length times
    → (x : f.F) × (percentile f (sort_by f.total_le times) ratio ≡ some x)
      × IsNearestRank f times ratio x
percentile-IsNearestRank f times ratio ok round small h =
    let sorted : List f.F = sort_by f.total_le times in
    let same_length : length sorted ≡ length times = length-sort_by f.total_le times in
    let r : ℕ = rank f ratio (length times) in
    let c = cut sorted (min (r - 1) (length times - 1)) (omega (arith, same_length)) in
    let order : IsSorted f.total_le (c.before ++ c.here ∷ c.after) =
      rw c.splits at (sort_by-IsSorted f.total_le ok.order times) in
    let sides = IsSorted-cut f.total_le c.before c.here c.after order in
    let place : length c.before + 1 ≡ min r (length times) =
      omega (arith, c.index, ok.max_one (f.ceil (f.mul ratio (f.of_nat (length times)))), h) in
    (
      c.here,
      percentile_nonempty f ratio sorted (omega (arith, same_length))
          ∙ ap (λ n. get_elem? sorted (min (rank f ratio n - 1) (n - 1))) same_length
          ∙ c.found,
      record {
        before = c.before;
        after = c.after;
        same = rw c.splits at (sort_by-perm f.total_le times);
        not_greater = sides.0;
        not_less = sides.1;
        enough =
            rank_enough f ratio (length times) (length c.before + 1) round small place
              (omega arith);
        least = λ j p l.
            rank_least f ratio (length times) (length c.before + 1) j round small place p
              (omega (arith, l));
      },
    )

percentile-IsPercentile :
    (f : Float) (times : List f.F) (ratio : f.F)
    → IsFloat f
    → IsRounding f
    → length times ≤ 2 ^ 53
    → IsPercentile f times ratio (percentile f (sort_by f.total_le times) ratio)
unfolding percentile sort_by
percentile-IsPercentile f [] ratio ok round small = refl
percentile-IsPercentile f (t ∷ ts) ratio ok round small =
    let (x, e, at_rank) = percentile-IsNearestRank f (t ∷ ts) ratio ok round small (omega arith) in
    subst (IsPercentile f (t ∷ ts) ratio) (sym e) at_rank

-- The median and the 95th and 99th percentile of a summary are missing exactly where no connection
-- time was taken; otherwise each is the time that stands at the nearest rank of its share. The
-- times are at most 2^53.
pub summary-IsPercentile :
    (f : Float) (t : OutcomeTotals f.F)
    → IsFloat f
    → IsRounding f
    → length t.connect_times_ms ≤ 2 ^ 53
    → IsPercentile f t.connect_times_ms (f.hundredths 50) (summary f t).connect_time_p50_ms
      × IsPercentile f t.connect_times_ms (f.hundredths 95) (summary f t).connect_time_p95_ms
      × IsPercentile f t.connect_times_ms (f.hundredths 99) (summary f t).connect_time_p99_ms
unfolding summary
summary-IsPercentile f t ok round small = (
  percentile-IsPercentile f t.connect_times_ms (f.hundredths 50) ok round small,
  percentile-IsPercentile f t.connect_times_ms (f.hundredths 95) ok round small,
  percentile-IsPercentile f t.connect_times_ms (f.hundredths 99) ok round small,
)
