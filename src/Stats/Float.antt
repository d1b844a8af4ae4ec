-- ===== src/Stats/Float.antt =====
-- The operations of `f64` that the program uses. Floats belong to the language: the model takes
-- them as a parameter.
use zakuro_rs.Base.{ℕ, Bool, ◌||◌, ◌^◌, ◌≤◌, ◌≡◌, ◌⊎◌, ltb}
use zakuro_rs.Base.Int.{ℤ}
use zakuro_rs.Base.Sort.{IsTotal}

pub record Float : Type 1 where
  pub F : Type 0
  -- `<`
  pub lt : F → F → Bool
  -- `total_cmp(a, b)` is not `Greater`
  pub total_le : F → F → Bool
  pub add : F → F → F
  pub sub : F → F → F
  pub mul : F → F → F
  pub div : F → F → F
  pub ceil : F → F
  pub floor : F → F
  pub round : F → F
  pub fmax : F → F → F
  -- `as f64`, `f64::from`
  pub of_nat : ℕ → F
  pub of_int : ℤ → F
  -- the literal for a number of hundredths
  pub hundredths : ℕ → F
  -- `as usize` and `as u64`, which saturate
  pub to_usize : F → ℕ
  -- `as i16`, which saturates
  pub to_i16 : F → ℤ
  -- `Duration::as_secs_f64` of a number of nanoseconds
  pub as_secs_f64 : ℕ → F
  -- `Duration::from_secs_f64`, in nanoseconds
  pub from_secs_f64 : F → ℕ

-- What the standard library documents of them: `total_cmp` is a total order, and `f64::max` with
-- 1.0 is at least 1, also for a NaN.
pub record IsFloat (f : Float) : Type 0 where
  pub order : IsTotal (f.total_le)
  pub max_one : (x : f.F) → 1 ≤ f.to_usize (f.fmax x (f.hundredths 100))

-- What the standard library documents of the operations that round, on the whole numbers that an
-- f64 holds exactly: `ceil` gives the smallest whole number that is not below, `max` one of the two
-- numbers, and not a NaN where there is a number, and `as usize` keeps a whole number.
pub record IsRounding (f : Float) : Type 0 where
  pub ceil_whole : (x : f.F) → f.ceil (f.ceil x) ≡ f.ceil x
  pub one_whole : f.ceil (f.hundredths 100) ≡ f.hundredths 100
  pub fmax_either : (x y : f.F) → (f.fmax x y ≡ x) ⊎ (f.fmax x y ≡ y)
  pub above_ceil :
      (x : f.F) (n : ℕ) → n ≤ 2 ^ 53 → f.lt (f.of_nat n) (f.ceil x) ≡ f.lt (f.of_nat n) x
  pub above_fmax : (x y z : f.F) → f.lt z (f.fmax x y) ≡ (f.lt z x || f.lt z y)
  pub above_one : (n : ℕ) → n ≤ 2 ^ 53 → f.lt (f.of_nat n) (f.hundredths 100) ≡ ltb n 1
  pub to_usize_whole :
      (x : f.F) (n : ℕ) → n ≤ 2 ^ 53 → f.ceil x ≡ x → ltb n (f.to_usize x) ≡ f.lt (f.of_nat n) x
