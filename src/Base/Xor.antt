-- ===== src/Base/Xor.antt =====
-- Exclusive or on the native numbers, one binary digit at a time.
use Prim.Native.Nat.{
  ℕ, zero, suc, ◌+◌, ◌*◌, ◌/◌, ◌%◌, ◌^◌, ◌≤◌, ◌<◌, bit_xor, digits, differ, bit_xor-bitwise,
}
use mathlib.Core.Path.{◌≡◌, refl}
use native.Mathlib.Omega.{arith}
use native.Mathlib.Nat.{pow-suc}

abbrev go : ℕ → ℕ → ℕ → ℕ
go n a b = digits (λ d. d) differ n a b

go_zero : (n b : ℕ) → go n 0 b ≡ b
go_zero zero b = refl
go_zero (suc n) b = refl

-- Any fuel of at least the first number gives the same.
same_go : (n m a b : ℕ) → a ≤ n → a ≤ m → go n a b ≡ go m a b
same_go n m zero b h k = omega (arith, go_zero n b, go_zero m b)
same_go (suc n) (suc m) (suc a) b h k =
    omega (arith, same_go n m (suc a / 2) (b / 2) (omega arith) (omega arith))
same_go zero m (suc a) b h k = absurd (omega arith)
same_go (suc n) zero (suc a) b h k = absurd (omega arith)

differ_small :
    (x y : ℕ) → x < 2 → y < 2 → (differ x y < 2) × (differ 0 y ≡ y) × (differ x y ≡ 0 → x ≡ y)
differ_small zero y h g = (g, refl, λ e. omega (arith, e))
differ_small (suc zero) zero h g = (omega arith, refl, λ e. e)
differ_small (suc zero) (suc zero) h g = (omega arith, refl, λ e. refl)
differ_small (suc zero) (suc (suc y)) h g = absurd (omega arith)
differ_small (suc (suc x)) y h g = absurd (omega arith)

pub bit_xor_digit : (a b : ℕ) → bit_xor a b ≡ bit_xor (a / 2) (b / 2) * 2 + differ (a % 2) (b % 2)
bit_xor_digit zero b = omega (
  arith,
  bit_xor-bitwise 0 b,
  bit_xor-bitwise 0 (b / 2),
  (differ_small 0 (b % 2) (omega arith) (omega arith)).1,
)
bit_xor_digit (suc a) b = omega (
  arith,
  bit_xor-bitwise (suc a) b,
  bit_xor-bitwise (suc a / 2) (b / 2),
  same_go a (suc a / 2) (suc a / 2) (b / 2) (omega arith) (omega arith),
)

pub bit_xor_lt : (k a b : ℕ) → a < 2 ^ k → b < 2 ^ k → bit_xor a b < 2 ^ k
bit_xor_lt zero zero zero h g = omega arith
bit_xor_lt zero zero (suc b) h g = absurd (omega arith)
bit_xor_lt zero (suc a) b h g = absurd (omega arith)
bit_xor_lt (suc k) a b h g =
    let p = pow-suc 2 k in
    let half = bit_xor_lt k (a / 2) (b / 2) (omega (arith, p)) (omega (arith, p)) in
    let low = differ_small (a % 2) (b % 2) (omega arith) (omega arith) in
    omega (arith, bit_xor_digit a b, p, half, low.0)

-- Only equal numbers cancel.
pub bit_xor_eq : (k a b : ℕ) → a < 2 ^ k → b < 2 ^ k → bit_xor a b ≡ 0 → a ≡ b
bit_xor_eq zero a b h g e = omega arith
bit_xor_eq (suc k) a b h g e =
    let p = pow-suc 2 k in
    let d = bit_xor_digit a b in
    let half =
      bit_xor_eq k (a / 2) (b / 2) (omega (arith, p)) (omega (arith, p)) (omega (arith, d)) in
    let low = differ_small (a % 2) (b % 2) (omega arith) (omega arith) in
    omega (arith, half, low.2 (omega (arith, d)))
